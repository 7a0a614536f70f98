-- ===== src/Server/Store.antt =====
-- server/src/store.rs: the messages, one row for each recipient. `text_lt` is the order in which the
-- database compares texts (its collation), which the watermarks on message ids go by.
pub mod Landing
pub mod Marks
pub mod Replay
use little_love.Prelude.{
  ℕ, suc, String, Bool, true, false, not, ◌&&◌, Option, none, some, List, [], ◌∷◌, ◌++◌, map, ltb,
  ◌==◌, nat_Eq, string_Eq, any, find, retain, length, if◌then◌else◌,
}
use little_love.Server.Db.{Db, StoredMessage, Result, ok, err, foreign_key_violation}
use little_love.Server.Accounts.{by_id}
use little_love.Server.Sql.{order_by}

pub record MessageRow : Type 0 where
  pub id : String
  pub room_id : String
  pub from_account_id : ℕ
  pub recipient_account_id : ℕ
  pub body : String
  pub ts : ℕ
  pub read : Bool

abbrev pub is_read : StoredMessage → Bool
is_read m = elim m.read_at [ none ↦ false | some t ↦ true ]

abbrev pub same_row : String → ℕ → StoredMessage → Bool
same_row id recipient m = m.id == id && m.recipient_account_id == recipient

-- INSERT INTO messages … ON CONFLICT (id, recipient_account_id) DO NOTHING, with its foreign keys.
unfoldable pub insert : MessageRow → Db → Result Db
insert row db =
    if any (same_row row.id row.recipient_account_id) db.messages
    then ok db
    else if any (λ r. r.id == row.room_id) db.rooms
        && any (by_id row.from_account_id) db.accounts
        && any (by_id row.recipient_account_id) db.accounts
    then ok (record db {
      messages =
          db.messages
          ++ record {
            id = row.id;
            room_id = row.room_id;
            from_account_id = row.from_account_id;
            recipient_account_id = row.recipient_account_id;
            body = row.body;
            ts = row.ts;
            read_at = none;
          }
            ∷ [];
    })
    else err foreign_key_violation

unfoldable pub insert_rows : List MessageRow → Db → Result Db
unfolding insert
insert_rows [] db = ok db
insert_rows (row ∷ rows) db = elim (insert row db) [ err e ↦ err e | ok db' ↦ insert_rows rows db' ]

-- The transaction over all recipients: every row lands, or none does.
unfoldable pub insert_many : List MessageRow → Db → Result (Unit {0}) × Db
unfolding insert_rows
insert_many rows db = elim (insert_rows rows db) [ err e ↦ (err e, db) | ok db' ↦ (ok tt, db') ]

-- Some other recipient has read the message.
abbrev pub read_by_other : List StoredMessage → StoredMessage → Bool
read_by_other messages m =
    any (λ r. r.id == m.id && not (r.recipient_account_id == m.recipient_account_id) && is_read r)
      messages

abbrev pub row_of : List StoredMessage → StoredMessage → MessageRow
row_of messages m = record {
  id = m.id;
  room_id = m.room_id;
  from_account_id = m.from_account_id;
  recipient_account_id = m.recipient_account_id;
  body = m.body;
  ts = m.ts;
  read = read_by_other messages m;
}

-- Unread mail for `reader` from somebody else.
abbrev pub is_unread_for : ℕ → StoredMessage → Bool
is_unread_for reader m =
    m.recipient_account_id == reader && not (m.from_account_id == reader) && not (is_read m)

unfoldable pub unread_count : ℕ → Db → ℕ
unread_count account_id db = length (retain (is_unread_for account_id) db.messages)

-- MAX over the timestamps; NULL over no row.
unfoldable pub newest : List StoredMessage → Option ℕ
newest [] = none
newest (m ∷ ms) = elim (newest ms) [
  | none ↦ some m.ts
  | some t ↦ some (if ltb t m.ts then m.ts else t)
]

abbrev pub read_incoming : String → ℕ → StoredMessage → Bool
read_incoming room_id reader m =
    m.room_id == room_id
    && m.recipient_account_id == reader
    && not (m.from_account_id == reader)
    && is_read m

unfoldable pub newest_read_incoming_ts : String → ℕ → Db → Option ℕ
unfolding newest
newest_read_incoming_ts room_id reader db =
    newest (retain (read_incoming room_id reader) db.messages)

module _ (text_lt : String → String → Bool) where
  -- The WHERE clause of the replay; with no watermark it has no condition on the id.
  abbrev pub after_watermark : Option String → String → Bool
  after_watermark none id = true
  after_watermark (some since) id = text_lt since id

  abbrev pub replayed : String → ℕ → Option String → StoredMessage → Bool
  replayed room_id recipient since m =
      m.room_id == room_id && m.recipient_account_id == recipient && after_watermark since m.id

  unfoldable pub messages_for_recipient : String → ℕ → Option String → Db → List MessageRow
  unfolding order_by
  messages_for_recipient room_id recipient since db =
      map (row_of db.messages) (
        order_by (λ m n. text_lt m.id n.id) (retain (replayed room_id recipient since) db.messages))

  -- The WHERE clause of the update: `id <= $3` is that the watermark is not below the id.
  abbrev pub flips : String → ℕ → String → StoredMessage → Bool
  flips room_id reader up_to m =
      m.room_id == room_id && is_unread_for reader m && not (text_lt up_to m.id)

  unfoldable pub mark_read : String → ℕ → String → ℕ → Db → List (String × ℕ) × Db
  mark_read room_id reader up_to now db = (
    map (λ m. (m.id, m.from_account_id)) (retain (flips room_id reader up_to) db.messages),
    record db {
      messages =
          map (λ m. if flips room_id reader up_to m then record m { read_at = some now } else m)
            db.messages;
    },
  )

  abbrev pub sent_and_read : String → ℕ → StoredMessage → Bool
  sent_and_read room_id sender m =
      m.room_id == room_id
      && m.from_account_id == sender
      && not (m.recipient_account_id == sender)
      && is_read m

  unfoldable pub read_sent_message_ids : String → ℕ → Db → List String
  unfolding order_by
  read_sent_message_ids room_id sender db =
      map (λ m. m.id)
        (order_by (λ m n. text_lt m.id n.id) (retain (sent_and_read room_id sender) db.messages))
