-- ===== src/Server/Accounts.antt =====
-- server/src/accounts.rs: the statements on `accounts`, and the validation of REST requests.
use little_love.Prelude.{
  ℕ, suc, String, Bool, ◌&&◌, ◌||◌, Option, none, some, List, [], ◌∷◌, ◌++◌, map, leb, ◌==◌, nat_Eq,
  string_Eq, any, all, find, length, if◌then◌else◌,
}
use little_love.Server.Db.{Db, Account, Result, ok, err, unique_violation}

pub record AccountRecord : Type 0 where
  pub id : ℕ
  pub username : String
  pub ed25519_pub : List ℕ
  pub x25519_pub : List ℕ
  pub partner_account_id : Option ℕ

-- A byte of a username: `[a-z0-9_]`.
abbrev pub username_byte : ℕ → Bool
username_byte b = leb b'a' b && leb b b'z' || (leb b'0' b && leb b b'9') || b == b'_'

-- Over the text's bytes.
unfoldable pub username_ok : List ℕ → Bool
username_ok u = leb 3 (length u) && leb (length u) 20 && all username_byte u

abbrev pub by_username : String → Account → Bool
by_username username a = a.username == username

abbrev pub by_id : ℕ → Account → Bool
by_id id a = a.id == id

-- INSERT INTO accounts … RETURNING created_at. A username that is taken is a unique violation; the sequence
-- has given out an id by then.
unfoldable pub insert_account : String → List ℕ → List ℕ → ℕ → Db → Result ℕ × Db
insert_account username ed x now db =
    let id = db.next_account_id in
    if any (by_username username) db.accounts
    then (err unique_violation, record db { next_account_id = suc id })
    else (
      ok now,
      record db {
        accounts =
            db.accounts
            ++ record {
              id = id;
              username = username;
              ed25519_pub = ed;
              x25519_pub = x;
              created_at = now;
              partner_account_id = none;
              last_seen_at = none;
            }
              ∷ [];
        next_account_id = suc id;
      },
    )

unfoldable pub lookup_ed25519_pub : String → Db → Option (List ℕ)
lookup_ed25519_pub username db = elim (find (by_username username) db.accounts) [
  | none ↦ none
  | some a ↦ some a.ed25519_pub
]

abbrev pub full_account_record : Account → AccountRecord
full_account_record a = record {
  id = a.id;
  username = a.username;
  ed25519_pub = a.ed25519_pub;
  x25519_pub = a.x25519_pub;
  partner_account_id = a.partner_account_id;
}

abbrev pub account_record : Option Account → Option AccountRecord
account_record none = none
account_record (some a) = some (full_account_record a)

unfoldable pub lookup_full_account : String → Db → Option AccountRecord
lookup_full_account username db = account_record (find (by_username username) db.accounts)

unfoldable pub lookup_full_account_by_id : ℕ → Db → Option AccountRecord
lookup_full_account_by_id id db = account_record (find (by_id id) db.accounts)

-- UPDATE accounts SET last_seen_at = now() WHERE id = $1.
unfoldable pub touch_last_seen : ℕ → ℕ → Db → Db
touch_last_seen id now db = record db {
  accounts = map (λ a. if a.id == id then record a { last_seen_at = some now } else a) db.accounts;
}

unfoldable pub last_seen_for : ℕ → Db → Option ℕ
last_seen_for id db = elim (find (by_id id) db.accounts) [ none ↦ none | some a ↦ a.last_seen_at ]
