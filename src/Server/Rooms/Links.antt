-- ===== src/Server/Rooms/Links.antt =====
-- The statements of `set_partner_link` of server/src/rooms.rs, seen through the partner links.
use little_love.Prelude.{
  ℕ, ◌≡◌, ◌≢◌, inl, inr, refl, true, false, ◌&&◌, ◌||◌, Option, none, some, List, [], ◌∷◌, map,
  arith, ◌==◌, nat_Eq, any, find, Bool-cases, if◌then◌else◌,
}
use little_love.Server.Db.{Db, Account, Result-cases, ok}
use little_love.Server.Accounts.{by_id}
use little_love.Server.Rooms.Queries.{partner_account_id_for}
use little_love.Server.Rooms.Pairing.{
  PairResult, paired, scan_rows, locked_rows, has_no_partner, has_partner, update_partner,
  link_both, link_checked, set_partner_link,
}

-- The row of an account as pairing sees it: no row, unpaired, or a partner.
abbrev pub link : ℕ → List Account → Option (Option ℕ)
link id accounts = elim (find (by_id id) accounts) [
  | none ↦ none
  | some a ↦ some a.partner_account_id
]

abbrev pub partner_in : Option (Option ℕ) → Option ℕ
partner_in none = none
partner_in (some p) = p

-- No two rows have the same id (the primary key).
abbrev pub DistinctIds : List Account → Type 0
DistinctIds [] = Unit {0}
DistinctIds (a ∷ rows) = (any (by_id a.id) rows ≡ false) × DistinctIds rows

-- Partners point at each other, and nobody at themselves.
pub record IsMonogamous (db : Db) : Type 0 where
  pub distinct : DistinctIds db.accounts
  pub reciprocal :
      (a b : ℕ)
      → partner_account_id_for a db ≡ some b
      → (partner_account_id_for b db ≡ some a) × (a ≢ b)

pub partner_account_id_for-link :
    (id : ℕ) (db : Db) → partner_account_id_for id db ≡ partner_in (link id db.accounts)
unfolding partner_account_id_for
partner_account_id_for-link id db = ground arith

-- Under the primary key the loop over the locked rows finds what a lookup by id finds.
scan_absent :
    (id a b : ℕ) (found : Option (Option ℕ)) (rows : List Account)
    → any (by_id id) rows ≡ false
    → scan_rows id found (locked_rows a b rows) ≡ found
unfolding scan_rows
scan_absent id a b found [] h = refl
scan_absent id a b found (row ∷ rows) h = ground (arith, scan_absent id a b found rows)

scan-eq-link :
    (id a b : ℕ) (found : Option (Option ℕ)) (rows : List Account)
    → DistinctIds rows
    → (id == a || id == b) ≡ true
    → scan_rows id found (locked_rows a b rows)
      ≡ (elim (link id rows) [ none ↦ found | some p ↦ some p ])
unfolding scan_rows
scan-eq-link id a b found [] d h = refl
scan-eq-link id a b found (row ∷ rows) d h = ground (
  arith,
  scan-eq-link id a b found rows d.1 h,
  scan_absent id a b (some row.partner_account_id) rows,
)

abbrev pub relink : ℕ → Option (Option ℕ) → Option (Option ℕ)
relink p none = none
relink p (some none) = some (some p)
relink p (some (some q)) = some (some q)

abbrev pub set_partner : ℕ → ℕ → List Account → List Account
set_partner id p = map (λ row.
    if row.id == id && has_no_partner row then record row { partner_account_id = some p } else row)

pub link-set_partner :
    (id p j : ℕ) (rows : List Account)
    → link j (set_partner id p rows) ≡ (if id == j then relink p (link j rows) else link j rows)
link-set_partner id p j [] = ground arith
link-set_partner id p j (row ∷ rows) = ground (arith, link-set_partner id p j rows)

-- No row has the id and no partner: the update finds nothing to change.
link_not_free :
    (id p : ℕ) (rows : List Account)
    → any (λ row. row.id == id && has_no_partner row) rows ≡ false
    → relink p (link id rows) ≡ link id rows
link_not_free id p [] h = refl
link_not_free id p (row ∷ rows) h = ground (arith, link_not_free id p rows)

pub link_free :
    (id : ℕ) (rows : List Account)
    → link id rows ≡ some none
    → any (λ row. row.id == id && has_no_partner row) rows ≡ true
link_free id [] h = cc
link_free id (row ∷ rows) h = ground (arith, link_free id rows)

pub link_exists :
    (id : ℕ) (p : Option ℕ) (rows : List Account)
    → link id rows ≡ some p
    → any (by_id id) rows ≡ true
link_exists id p [] h = cc
link_exists id p (row ∷ rows) h = ground (arith, link_exists id p rows)

-- Under the primary key, a row with the id and no partner is the row of the account.
pub free_link :
    (id : ℕ) (rows : List Account)
    → DistinctIds rows
    → any (λ row. row.id == id && has_no_partner row) rows ≡ true
    → link id rows ≡ some none
free_link id [] d h = absurd (cc)
free_link id (row ∷ rows) d h = ground (arith, free_link id rows d.1, link_exists id none rows)

-- Whoever is somebody's partner has a row that says so.
pub has_partner-link :
    (p : ℕ) (rows : List Account)
    → DistinctIds rows
    → any (has_partner p) rows ≡ true
    → (a : ℕ) × (link a rows ≡ some (some p))
has_partner-link p [] d h = absurd (cc)
has_partner-link p (row ∷ rows) d h = elim (Bool-cases (has_partner p row)) [
  | inl here ↦ (row.id, ground arith)
  | inr there ↦
      let (a, e) = has_partner-link p rows d.1 (ground arith) in
      (a, ground (arith, link_exists a (some p) rows e))
]

pub update_partner-link :
    (id p j : ℕ) (rows after : List Account)
    → update_partner id p rows ≡ ok after
    → link j after ≡ (if id == j then relink p (link j rows) else link j rows)
unfolding update_partner
update_partner-link id p j rows after e =
    ground (arith, link-set_partner id p j rows, link_not_free id p rows)

pub any-set_partner :
    (i id p : ℕ) (rows : List Account) → any (by_id i) (set_partner id p rows) ≡ any (by_id i) rows
any-set_partner i id p [] = refl
any-set_partner i id p (row ∷ rows) = ground (arith, any-set_partner i id p rows)

pub set_partner-DistinctIds :
    (id p : ℕ) (rows : List Account) → DistinctIds rows → DistinctIds (set_partner id p rows)
set_partner-DistinctIds id p [] d = tt
set_partner-DistinctIds id p (row ∷ rows) d =
    ground (arith, set_partner-DistinctIds id p rows d.1, any-set_partner row.id id p rows)

pub update_partner-DistinctIds :
    (id p : ℕ) (rows after : List Account)
    → DistinctIds rows
    → update_partner id p rows ≡ ok after
    → DistinctIds after
unfolding update_partner
update_partner-DistinctIds id p rows after d e = ground (arith, set_partner-DistinctIds id p rows d)

-- The links after both updates.
abbrev pub linked : ℕ → ℕ → ℕ → List Account → Option (Option ℕ)
linked a b j rows =
    let first = if a == j then relink b (link j rows) else link j rows in
    if b == j then relink a first else first

pub link_both-eq-paired :
    (a b : ℕ) (db : Db)
    → (link_both a b db).0 ≡ paired
    → (first both : List Account) × (update_partner a b db.accounts ≡ ok first)
      × (update_partner b a first ≡ ok both)
      × ((link_both a b db).1 ≡ record db { accounts = both })
link_both-eq-paired a b db e = elim (Result-cases (update_partner a b db.accounts)) [
  | inr (c, e₁) ↦ absurd (cc (e, e₁))
  | inl (first, e₁) ↦ elim (Result-cases (update_partner b a first)) [
    | inr (c, e₂) ↦ absurd (cc (e, e₁, e₂))
    | inl (both, e₂) ↦ (first, both, e₁, e₂, cc (e₁, e₂))
  ]
]

pub link_both_error :
    (a b : ℕ) (db : Db) → (link_both a b db).0 ≢ paired → (link_both a b db).1 ≡ db
link_both_error a b db e = elim (Result-cases (update_partner a b db.accounts)) [
  | inr (c, e₁) ↦ cc e₁
  | inl (first, e₁) ↦ elim (Result-cases (update_partner b a first)) [
    | inr (c, e₂) ↦ cc (e₁, e₂)
    | inl (both, e₂) ↦ absurd (e (cc (e₁, e₂)))
  ]
]

pub link_both-links :
    (a b j : ℕ) (db : Db)
    → (link_both a b db).0 ≡ paired
    → link j (link_both a b db).1.accounts ≡ linked a b j db.accounts
link_both-links a b j db e =
    let (first, both, e₁, e₂, e₃) = link_both-eq-paired a b db e in
    rw e₃ (
      ground (
        arith,
        update_partner-link a b j db.accounts first e₁,
        update_partner-link b a j first both e₂,
      ))

pub link_both-DistinctIds :
    (a b : ℕ) (db : Db)
    → (link_both a b db).0 ≡ paired
    → DistinctIds db.accounts
    → DistinctIds (link_both a b db).1.accounts
link_both-DistinctIds a b db e d =
    let (first, both, e₁, e₂, e₃) = link_both-eq-paired a b db e in
    rw e₃ (
      update_partner-DistinctIds b a first both
        (update_partner-DistinctIds a b db.accounts first d e₁) e₂)

-- What `set_partner_link` does, by the two rows.
abbrev pub checked : ℕ → ℕ → Db → PairResult × Db
checked a b db = link_checked a b (link a db.accounts) (link b db.accounts) db

pub set_partner_link-eq-checked :
    (a b : ℕ) (db : Db) → DistinctIds db.accounts → set_partner_link a b db ≡ checked a b db
unfolding set_partner_link
set_partner_link-eq-checked a b db d =
    ground (arith, scan-eq-link a a b none db.accounts d, scan-eq-link b a b none db.accounts d)
