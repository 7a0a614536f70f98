-- ===== src/Server/Store/Marks.antt =====
-- What `mark_read` and `unread_count` of server/src/store.rs do to each other.
use little_love.Prelude.{
  ℕ, suc, ◌+◌, ◌≡◌, refl, ap, Bool, String, some, List, [], ◌∷◌, map, length, retain, arith, nat_Eq,
  string_Eq, if◌then◌else◌,
}
use little_love.Server.Db.{Db, StoredMessage}
use little_love.Server.Store.{is_unread_for, unread_count, flips, mark_read}

length-map : {A B : Type 0} (f : A → B) (xs : List A) → length (map f xs) ≡ length xs
length-map f [] = refl
length-map f (x ∷ xs) = ap suc (length-map f xs)

module _ (text_lt : String → String → Bool) (room_id : String) (reader : ℕ) (up_to : String) where
  marked : ℕ → StoredMessage → StoredMessage
  marked now m = if flips text_lt room_id reader up_to m then record m { read_at = some now } else m

  nothing_left :
      (now : ℕ) (rows : List StoredMessage)
      → retain (flips text_lt room_id reader up_to) (map (marked now) rows) ≡ []
  unfolding marked
  nothing_left now [] = refl
  nothing_left now (m ∷ rows) = ground (arith, nothing_left now rows)

  unchanged :
      (now later : ℕ) (rows : List StoredMessage)
      → map (marked later) (map (marked now) rows) ≡ map (marked now) rows
  unfolding marked
  unchanged now later [] = refl
  unchanged now later (m ∷ rows) = ground (arith, unchanged now later rows)

  counted :
      (now : ℕ) (rows : List StoredMessage)
      → length (retain (is_unread_for reader) (map (marked now) rows))
          + length (retain (flips text_lt room_id reader up_to) rows)
        ≡ length (retain (is_unread_for reader) rows)
  unfolding marked
  counted now [] = omega arith
  counted now (m ∷ rows) = ground (arith, counted now rows)

-- A second `mark_read` with the same watermark, at any later time, flips no message and changes no
-- table, so read times are never overwritten.
pub mark_read_again :
    (text_lt : String → String → Bool) (room_id : String) (reader : ℕ) (up_to : String)
    (now later : ℕ) (db : Db)
    → mark_read text_lt room_id reader up_to later (mark_read text_lt room_id reader up_to now db).1
      ≡ ([], (mark_read text_lt room_id reader up_to now db).1)
unfolding mark_read marked
mark_read_again text_lt room_id reader up_to now later db = ground (
  arith,
  nothing_left text_lt room_id reader up_to now db.messages,
  unchanged text_lt room_id reader up_to now later db.messages,
)

-- `mark_read` lowers the reader's unread count by exactly the number of messages that it reports.
pub unread_count-mark_read :
    (text_lt : String → String → Bool) (room_id : String) (reader : ℕ) (up_to : String) (now : ℕ)
    (db : Db)
    → unread_count reader (mark_read text_lt room_id reader up_to now db).1
        + length (mark_read text_lt room_id reader up_to now db).0
      ≡ unread_count reader db
unfolding mark_read unread_count marked
unread_count-mark_read text_lt room_id reader up_to now db = ground (
  arith,
  counted text_lt room_id reader up_to now db.messages,
  length-map {B = String × ℕ} (λ m. (m.id, m.from_account_id))
      (retain (flips text_lt room_id reader up_to) db.messages),
)
