-- ===== src/Server/Rooms/Pairing.antt =====
-- `monogamy_check` and `set_partner_link` of server/src/rooms.rs.
use little_love.Prelude.{
  ℕ, Bool, true, false, ◌&&◌, ◌||◌, Option, none, some, List, [], ◌∷◌, map, ◌==◌, nat_Eq, string_Eq,
  any, retain, if◌then◌else◌,
}
use little_love.Server.Db.{
  Db, DbError, Account, Result, ok, err, unique_violation, foreign_key_violation, check_violation,
}
use little_love.Server.Accounts.{by_id}
use little_love.Server.Rooms.Queries.{partner_account_id_for}

pub data MonogamyError : Type 0 where
  wrong_partner : MonogamyError

pub data PairError : Type 0 where
  db_error : DbError → PairError
  monogamy : MonogamyError → PairError

pub data PairResult : Type 0 where
  paired : PairResult
  pair_error : PairError → PairResult

-- Both unpaired, or already each other's partner.
abbrev pub may_pair : ℕ → ℕ → Option ℕ → Option ℕ → Bool
may_pair a b none none = true
may_pair a b none (some q) = false
may_pair a b (some p) none = false
may_pair a b (some p) (some q) = p == b && q == a

-- A subquery with no row is NULL.
unfoldable pub monogamy_check : ℕ → ℕ → Db → Bool
unfolding partner_account_id_for
monogamy_check me peer db =
    may_pair me peer (partner_account_id_for me db) (partner_account_id_for peer db)

-- The loop over the locked rows: the last row with the id sets it.
unfoldable pub scan_rows : ℕ → Option (Option ℕ) → List Account → Option (Option ℕ)
scan_rows id found [] = found
scan_rows id found (row ∷ rows) =
    scan_rows id (if row.id == id then some row.partner_account_id else found) rows

-- SELECT … WHERE id IN ($1, $2)
abbrev pub locked_rows : ℕ → ℕ → List Account → List Account
locked_rows a b = retain (λ row. row.id == a || row.id == b)

abbrev pub has_no_partner : Account → Bool
has_no_partner a = elim a.partner_account_id [ none ↦ true | some p ↦ false ]

abbrev pub has_partner : ℕ → Account → Bool
has_partner p a = elim a.partner_account_id [ none ↦ false | some q ↦ q == p ]

-- UPDATE accounts SET partner_account_id = $2 WHERE id = $1 AND partner_account_id IS NULL, with
-- accounts_partner_not_self, accounts_partner_unique and the foreign key, for the row that changes.
unfoldable pub update_partner : ℕ → ℕ → List Account → Result (List Account)
update_partner id p accounts =
    if any (λ row. row.id == id && has_no_partner row) accounts
    then (if id == p
        then err check_violation
        else if any (has_partner p) accounts
        then err unique_violation
        else if any (by_id p) accounts
        then ok (
            map
              (λ row.
                if row.id == id && has_no_partner row
                then record row { partner_account_id = some p }
                else row)
              accounts)
        else err foreign_key_violation)
    else ok accounts

-- The two updates and the commit.
abbrev pub link_both : ℕ → ℕ → Db → PairResult × Db
link_both a b db = elim (update_partner a b db.accounts) [
  | err e ↦ (pair_error (db_error e), db)
  | ok first ↦ elim (update_partner b a first) [
    | err e ↦ (pair_error (db_error e), db)
    | ok both ↦ (paired, record db { accounts = both })
  ]
]

-- The check between the read and the writes.
abbrev pub link_checked : ℕ → ℕ → Option (Option ℕ) → Option (Option ℕ) → Db → PairResult × Db
link_checked a b (some mine) (some theirs) db =
    if may_pair a b mine theirs then link_both a b db else (pair_error (monogamy wrong_partner), db)
link_checked a b none theirs db = (pair_error (monogamy wrong_partner), db)
link_checked a b (some mine) none db = (pair_error (monogamy wrong_partner), db)

unfoldable pub set_partner_link : ℕ → ℕ → Db → PairResult × Db
unfolding scan_rows update_partner
set_partner_link a b db =
    let rows = locked_rows a b db.accounts in
    link_checked a b (scan_rows a none rows) (scan_rows b none rows) db
