-- ===== src/Server/Rooms/Monogamy.antt =====
-- `set_partner_link` of server/src/rooms.rs as a whole: when it pairs and what it leaves behind.
use little_love.Prelude.{
  ℕ, ◌≡◌, ◌≢◌, ◌↔◌, ◌⊎◌, inl, inr, refl, sym, true, false, none, some, List, arith, ◌==◌, nat_Eq,
  any, Bool-cases, if◌then◌else◌,
}
use little_love.Server.Db.{Db, Account, ok}
use little_love.Server.Accounts.{by_id}
use little_love.Server.Rooms.Queries.{partner_account_id_for}
use little_love.Server.Rooms.Pairing.{
  PairResult, paired, pair_error, has_partner, update_partner, link_both, set_partner_link,
}
use little_love.Server.Rooms.Links.{
  link, partner_in, set_partner, link-set_partner, any-set_partner, set_partner-DistinctIds,
  free_link, DistinctIds, IsMonogamous, partner_account_id_for-link, link_exists, link_free,
  has_partner-link, link_both_error, link_both-links, link_both-DistinctIds, checked,
  set_partner_link-eq-checked,
}

update_partner_succeeds :
    (id p : ℕ) (rows : List Account)
    → link id rows ≡ some none
    → id ≢ p
    → any (has_partner p) rows ≡ false
    → any (by_id p) rows ≡ true
    → update_partner id p rows ≡ ok (set_partner id p rows)
unfolding update_partner
update_partner_succeeds id p rows e ne free exists = ground (arith, link_free id rows e)

-- The check constraint refuses an account as its own partner.
link_both_self : (a : ℕ) (db : Db) → link a db.accounts ≡ some none → (link_both a a db).0 ≢ paired
unfolding update_partner
link_both_self a db e = ground (arith, link_free a db.accounts e)

-- An account that has a partner is not changed by an update.
update_partner_taken :
    (id p q : ℕ) (rows : List Account)
    → DistinctIds rows
    → link id rows ≡ some (some q)
    → update_partner id p rows ≡ ok rows
unfolding update_partner
update_partner_taken id p q rows d e = ground (arith, free_link id rows d)

-- A pair that may be linked: two unpaired accounts, or two that are linked already.
abbrev pub MayPair : ℕ → ℕ → Db → Type 0
MayPair a b db =
    ((a ≢ b) × (link a db.accounts ≡ some none) × (link b db.accounts ≡ some none))
    ⊎ ((link a db.accounts ≡ some (some b)) × (link b db.accounts ≡ some (some a)))

module _ {db : Db} (m : IsMonogamous db) where
  reciprocal_links :
      (a b : ℕ)
      → link a db.accounts ≡ some (some b)
      → (partner_in (link b db.accounts) ≡ some a) × (a ≢ b)
  reciprocal_links a b e = ground (
    arith,
    e,
    partner_account_id_for-link a db,
    partner_account_id_for-link b db,
    m.reciprocal a b,
  )

  -- An unpaired account is nobody's partner.
  free_has_no_suitor :
      (b : ℕ) → link b db.accounts ≡ some none → any (has_partner b) db.accounts ≡ false
  free_has_no_suitor b e = elim (Bool-cases (any (has_partner b) db.accounts)) [
    | inr h ↦ h
    | inl h ↦
        let (a, ea) = has_partner-link b db.accounts m.distinct h in
        ground (arith, reciprocal_links a b ea, e)
  ]

  -- Nor is it after another account has been linked to it.
  no_suitor_after :
      (a b : ℕ)
      → a ≢ b
      → link a db.accounts ≡ some none
      → any (has_partner a) (set_partner a b db.accounts) ≡ false
  no_suitor_after a b ne e = elim (Bool-cases (any (has_partner a) (set_partner a b db.accounts))) [
    | inr h ↦ h
    | inl h ↦
        let distinct = set_partner-DistinctIds a b db.accounts m.distinct in
        let (x, ex) = has_partner-link a (set_partner a b db.accounts) distinct h in
        ground (arith, ex, link-set_partner a b x db.accounts, reciprocal_links x a)
  ]

  link_both_succeeds :
      (a b : ℕ)
      → a ≢ b
      → link a db.accounts ≡ some none
      → link b db.accounts ≡ some none
      → (link_both a b db).0 ≡ paired
  link_both_succeeds a b ne ea eb =
      let first =
        update_partner_succeeds a b db.accounts ea ne (free_has_no_suitor b eb)
          (link_exists b none db.accounts eb) in
      let free : link b (set_partner a b db.accounts) ≡ some none =
        ground (arith, link-set_partner a b b db.accounts) in
      let second =
        update_partner_succeeds b a (set_partner a b db.accounts) free (λ e. ne (sym e))
          (no_suitor_after a b ne ea) (rw any-set_partner (link_exists a none db.accounts ea)) in
      cc (first, second)

  checked_succeeds : (a b : ℕ) → MayPair a b db → (checked a b db).0 ≡ paired
  checked_succeeds a b (inl (ne, ea, eb)) = ground (arith, link_both_succeeds a b ne ea eb)
  checked_succeeds a b (inr (ea, eb)) = ground (
    arith,
    update_partner_taken a b b db.accounts m.distinct ea,
    update_partner_taken b a a db.accounts m.distinct eb,
  )

  checked-MayPair : (a b : ℕ) → (checked a b db).0 ≡ paired → MayPair a b db
  checked-MayPair a b e = ground (arith, link_both_self a db)

  checked_links :
      (a b j : ℕ)
      → (checked a b db).0 ≡ paired
      → partner_account_id_for j (checked a b db).1
        ≡ (if a == j then some b else if b == j then some a else partner_account_id_for j db)
  checked_links a b j e = ground (
    arith,
    checked-MayPair a b e,
    link_both-links a b j db,
    partner_account_id_for-link j db,
    partner_account_id_for-link j (checked a b db).1,
  )

  checked_error : (a b : ℕ) → (checked a b db).0 ≢ paired → (checked a b db).1 ≡ db
  checked_error a b e = ground (arith, link_both_error a b db)

pub paired-or-not : (r : PairResult) → (r ≡ paired) ⊎ (r ≢ paired)
paired-or-not paired = inl refl
paired-or-not (pair_error e) = inr (λ h. cc)

module _ {db : Db} (m : IsMonogamous db) (a b : ℕ) (e : (checked a b db).0 ≡ paired) where
  checked-DistinctIds : DistinctIds (checked a b db).1.accounts
  checked-DistinctIds = ground (arith, link_both-DistinctIds a b db, m.distinct)

  checked_reciprocal :
      (i k : ℕ)
      → partner_account_id_for i (checked a b db).1 ≡ some k
      → (partner_account_id_for k (checked a b db).1 ≡ some i) × (i ≢ k)
  checked_reciprocal i k h = ground (
    arith,
    checked-MayPair m a b e,
    checked_links m a b i e,
    checked_links m a b k e,
    partner_account_id_for-link a db,
    partner_account_id_for-link b db,
    m.reciprocal i k,
    m.reciprocal a b,
  )

checked-IsMonogamous : (a b : ℕ) (db : Db) → IsMonogamous db → IsMonogamous (checked a b db).1
checked-IsMonogamous a b db m = elim (paired-or-not (checked a b db).0) [
  | inl e ↦ record {
    distinct = checked-DistinctIds m a b e;
    reciprocal = checked_reciprocal m a b e;
  }
  | inr e ↦ rw (checked_error m a b e) m
]

-- `set_partner_link` succeeds exactly on a pair of two distinct, existing, unpaired accounts or on a
-- pair that is linked already.
pub set_partner_link_iff :
    (a b : ℕ) (db : Db) → IsMonogamous db → ((set_partner_link a b db).0 ≡ paired) ↔ MayPair a b db
set_partner_link_iff a b db m =
    rw (set_partner_link-eq-checked a b db m.distinct)
      (checked-MayPair m a b, checked_succeeds m a b)

-- After a success the two accounts are each other's partner and every other account keeps its
-- partner; on any error no table changes.
pub set_partner_link_effect :
    (a b : ℕ) (db : Db)
    → IsMonogamous db
    → ((set_partner_link a b db).0 ≡ paired
        → (j : ℕ)
        → partner_account_id_for j (set_partner_link a b db).1
          ≡ (if a == j then some b else if b == j then some a else partner_account_id_for j db))
      × ((set_partner_link a b db).0 ≢ paired → (set_partner_link a b db).1 ≡ db)
set_partner_link_effect a b db m =
    rw (set_partner_link-eq-checked a b db m.distinct)
      ((λ e j. checked_links m a b j e), checked_error m a b)

-- Whichever pair of accounts it is called on, and whether it succeeds or not, `set_partner_link`
-- leaves partners pointing at each other, nobody pointing at themselves, and ids distinct.
pub set_partner_link-IsMonogamous :
    (a b : ℕ) (db : Db) → IsMonogamous db → IsMonogamous (set_partner_link a b db).1
set_partner_link-IsMonogamous a b db m =
    rw (set_partner_link-eq-checked a b db m.distinct) (checked-IsMonogamous a b db m)
