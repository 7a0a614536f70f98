-- ===== src/Server/Couples/Accounts.antt =====
-- Couples and the statements on accounts: sign-up, last-seen and pairing.
use little_love.Prelude.{
  ℕ, suc, ◌≡◌, inl, inr, refl, sym, ap, ◌∙◌, ◌≤◌, String, Bool, false, none, some, List, [], ◌∷◌,
  ◌++◌, map, arith, ◌==◌, nat_Eq, any, any-append, Bool-cases, if◌then◌else◌,
}
use little_love.Server.Db.{Db, Account}
use little_love.Server.Accounts.{by_id, by_username, insert_account, touch_last_seen}
use little_love.Server.Rooms.Links.{
  link, DistinctIds, IsMonogamous, partner_account_id_for-link, checked, link_both-links,
  link_both_error, link_both-eq-paired, set_partner_link-eq-checked,
}
use little_love.Server.Rooms.Pairing.{link_both, set_partner_link}
use little_love.Server.Rooms.Monogamy.{paired-or-not, set_partner_link-IsMonogamous}
use little_love.Server.Couples.{Linked, KeepsCouples}
use little_love.Server.Couples.Tables.{Shared-links}

-- Changes of accounts that keep the link of every row.
module _ (f : Account → Account) (same_id : (a : Account) → (f a).id ≡ a.id)
    (same_link : (a : Account) → (f a).partner_account_id ≡ a.partner_account_id) where
  pub link-map : (id : ℕ) (rows : List Account) → link id (map f rows) ≡ link id rows
  link-map id [] = refl
  link-map id (a ∷ rows) = ground (arith, same_id a, same_link a, link-map id rows)

  any_id-map :
      (p : ℕ → Bool) (rows : List Account) → any (λ a. p a.id) (map f rows) ≡ any (λ a. p a.id) rows
  any_id-map p [] = refl
  any_id-map p (a ∷ rows) = rw (same_id a, any_id-map p rows)

  DistinctIds-map : (rows : List Account) → DistinctIds rows → DistinctIds (map f rows)
  DistinctIds-map [] d = tt
  DistinctIds-map (a ∷ rows) d =
      (rw (same_id a, any_id-map (λ i. i == a.id) rows) d.0, DistinctIds-map rows d.1)

  Linked-map : (next : ℕ) (rows : List Account) → Linked rows next → Linked (map f rows) next
  Linked-map next rows l = record {
    distinct = DistinctIds-map rows l.distinct;
    fresh = λ id h. link-map id rows ∙ l.fresh id h;
    reciprocal = λ a b h. rw link-map (l.reciprocal a b (sym (link-map a rows) ∙ h));
  }

abbrev pub seen_at : ℕ → ℕ → Account → Account
seen_at id now a = if a.id == id then record a { last_seen_at = some now } else a

pub touch_last_seen-KeepsCouples :
    (id now : ℕ) (db : Db) → KeepsCouples db → KeepsCouples (touch_last_seen id now db)
unfolding touch_last_seen
touch_last_seen-KeepsCouples id now db (l, s) =
    let same_id : (a : Account) → (seen_at id now a).id ≡ a.id = λ a. ground arith in
    let same_link : (a : Account) → (seen_at id now a).partner_account_id ≡ a.partner_account_id =
      λ a. ground arith in
    (
      Linked-map (seen_at id now) same_id same_link db.next_account_id db.accounts l,
      Shared-links (map (seen_at id now) db.accounts)
          (λ a b h. link-map (seen_at id now) same_id same_link a db.accounts ∙ h) s,
    )

-- A new row at the end, with an id that no row has.
link-append :
    (id : ℕ) (new : Account) (rows : List Account)
    → link id (rows ++ new ∷ []) ≡ (elim (link id rows) [
      | none ↦ if new.id == id then some new.partner_account_id else none
      | some p ↦ some p
    ])
link-append id new [] = ground arith
link-append id new (a ∷ rows) = ground (arith, link-append id new rows)

DistinctIds-append :
    (new : Account) (rows : List Account)
    → any (by_id new.id) rows ≡ false
    → DistinctIds rows
    → DistinctIds (rows ++ new ∷ [])
DistinctIds-append new [] e d = (refl, tt)
DistinctIds-append new (a ∷ rows) e d = (
  ground (arith, any-append (by_id a.id) rows (new ∷ []), d.0),
  DistinctIds-append new rows (ground arith) d.1,
)

absent_id : (id : ℕ) (rows : List Account) → link id rows ≡ none → any (by_id id) rows ≡ false
absent_id id [] e = refl
absent_id id (a ∷ rows) e = ground (arith, absent_id id rows)

module _ (new : Account) (unpaired : new.partner_account_id ≡ none) where
  Linked-append :
      (rows : List Account) → Linked rows new.id → Linked (rows ++ new ∷ []) (suc new.id)
  Linked-append rows l = record {
    distinct =
        DistinctIds-append new rows (absent_id new.id rows (l.fresh new.id (omega arith)))
          l.distinct;
    fresh = λ id h. ground (arith, link-append id new rows, l.fresh id);
    reciprocal = λ a b h.
        ground (arith, link-append a new rows, link-append b new rows, unpaired, l.reciprocal a b);
  }

  pub link-append-stays :
      (rows : List Account) (a b : ℕ)
      → link a rows ≡ some (some b)
      → link a (rows ++ new ∷ []) ≡ some (some b)
  link-append-stays rows a b h = ground (arith, link-append a new rows)

-- An id of the sequence may go unused.
Linked-skip : (rows : List Account) (next : ℕ) → Linked rows next → Linked rows (suc next)
Linked-skip rows next l = record {
  distinct = l.distinct;
  fresh = λ id h. l.fresh id (omega (arith, h));
  reciprocal = l.reciprocal;
}

pub insert_account-KeepsCouples :
    (username : String) (ed x : List ℕ) (now : ℕ) (db : Db)
    → KeepsCouples db
    → KeepsCouples (insert_account username ed x now db).1
unfolding insert_account
insert_account-KeepsCouples username ed x now db (l, s) =
    elim (Bool-cases (any (by_username username) db.accounts)) [
      | inl e ↦ rw e (Linked-skip db.accounts db.next_account_id l, s)
      | inr e ↦ rw e (
          let new : Account = record {
            id = db.next_account_id;
            username = username;
            ed25519_pub = ed;
            x25519_pub = x;
            created_at = now;
            partner_account_id = none;
            last_seen_at = none;
          } in
          (
            Linked-append new refl db.accounts l,
            Shared-links (db.accounts ++ new ∷ []) (link-append-stays new refl db.accounts) s,
          ))
    ]

-- The two ways to say that partners point at each other.
pub Linked-IsMonogamous : (db : Db) → Linked db.accounts db.next_account_id → IsMonogamous db
Linked-IsMonogamous db l = record {
  distinct = l.distinct;
  reciprocal = λ a b h.
      ground (
        arith,
        partner_account_id_for-link a db,
        partner_account_id_for-link b db,
        l.reciprocal a b,
      );
}

-- Pairing writes no other table.
abbrev with_accounts : Db → List Account → Db
with_accounts db accounts = record db { accounts = accounts }

link_both-accounts :
    (a b : ℕ) (db : Db) → (link_both a b db).1 ≡ with_accounts db (link_both a b db).1.accounts
link_both-accounts a b db = elim (paired-or-not (link_both a b db).0) [
  | inl e ↦
      let (first, both, e₁, e₂, e₃) = link_both-eq-paired a b db e in
      e₃ ∙ ap (with_accounts db) (sym (ap (λ d. d.accounts) e₃))
  | inr e ↦ rw (link_both_error a b db e) refl
]

checked-accounts :
    (a b : ℕ) (db : Db) → (checked a b db).1 ≡ with_accounts db (checked a b db).1.accounts
checked-accounts a b db = ground (arith, link_both-accounts a b db)

-- A row stays, and a partner too.
abbrev pub Grown : List Account → List Account → Type 0
Grown before after =
    (j : ℕ)
    → (link j before ≡ none → link j after ≡ none)
      × ((p : ℕ) → link j before ≡ some (some p) → link j after ≡ some (some p))

pub link_both-Grown : (a b : ℕ) (db : Db) → Grown db.accounts (link_both a b db).1.accounts
link_both-Grown a b db j = elim (paired-or-not (link_both a b db).0) [
  | inl e ↦ ground (arith, link_both-links a b j db e)
  | inr e ↦ rw (link_both_error a b db e) ((λ h. h), λ p h. h)
]

checked-Grown : (a b : ℕ) (db : Db) → Grown db.accounts (checked a b db).1.accounts
checked-Grown a b db j = ground (arith, link_both-Grown a b db j)

IsMonogamous-Linked :
    (db : Db) (next : ℕ)
    → IsMonogamous db
    → ((id : ℕ) → next ≤ id → link id db.accounts ≡ none)
    → Linked db.accounts next
IsMonogamous-Linked db next m fresh = record {
  distinct = m.distinct;
  fresh = fresh;
  reciprocal = λ a b h.
      ground (
        arith,
        partner_account_id_for-link a db,
        partner_account_id_for-link b db,
        m.reciprocal a b,
      );
}

same_KeepsCouples :
    (before after : Db) (accounts : List Account)
    → after ≡ with_accounts before accounts
    → IsMonogamous after
    → Grown before.accounts accounts
    → KeepsCouples before
    → KeepsCouples after
same_KeepsCouples before after accounts e m grown (l, s) = rw e (
  IsMonogamous-Linked (with_accounts before accounts) before.next_account_id (rw (← e) m)
      (λ id h. (grown id).0 (l.fresh id h)),
  Shared-links accounts (λ a b. (grown a).1 b) s,
)

pub set_partner_link-KeepsCouples :
    (a b : ℕ) (db : Db) → KeepsCouples db → KeepsCouples (set_partner_link a b db).1
set_partner_link-KeepsCouples a b db (l, s) =
    let m = set_partner_link-IsMonogamous a b db (Linked-IsMonogamous db l) in
    let same = set_partner_link-eq-checked a b db l.distinct in
    same_KeepsCouples db (set_partner_link a b db).1 (checked a b db).1.accounts
      (ap (λ r. r.1) same ∙ checked-accounts a b db) m (checked-Grown a b db) (l, s)

pub set_partner_link-accounts :
    (a b : ℕ) (db : Db)
    → KeepsCouples db
    → (set_partner_link a b db).1 ≡ record db { accounts = (set_partner_link a b db).1.accounts }
set_partner_link-accounts a b db (l, s) =
    rw (set_partner_link-eq-checked a b db l.distinct) (checked-accounts a b db)
