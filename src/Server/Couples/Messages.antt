-- ===== src/Server/Couples/Messages.antt =====
-- Couples and the rows of server/src/store.rs, and the statements that leave couples alone.
use little_love.Prelude.{
  ◌≡◌, subst, inl, inr, List, [], ◌∷◌, nat_Eq, string_Eq, any, arith, Bool-cases,
}
use little_love.Server.Db.{Db, ok, Result-cases}
use little_love.Server.Store.{MessageRow, same_row, insert, insert_rows, insert_many, mark_read}
use little_love.Server.Ledgers.{
  insert_attachment, upsert_profile, upsert_token, delete_token, delete_token_value,
}
use little_love.Server.Keeping.{Quiet, Mail}
use little_love.Server.Couples.{KeepsCouples}
use little_love.Server.Couples.Accounts.{touch_last_seen-KeepsCouples}
use little_love.Server.Couples.Leaving.{rename_room-KeepsCouples, leave_room-KeepsCouples}

insert-KeepsCouples :
    (row : MessageRow) (db after : Db)
    → insert row db ≡ ok after
    → KeepsCouples db
    → KeepsCouples after
unfolding insert
insert-KeepsCouples row db after e k =
    elim (Bool-cases (any (same_row row.id row.recipient_account_id) db.messages)) [
      | inl f ↦ let same : db ≡ after = ground (arith, e, f) in subst KeepsCouples same k
      | inr f ↦
          let same : record db { messages = after.messages } ≡ after = ground (arith, e, f) in
          subst KeepsCouples same k
    ]

insert_rows-KeepsCouples :
    (rows : List MessageRow) (db after : Db)
    → insert_rows rows db ≡ ok after
    → KeepsCouples db
    → KeepsCouples after
unfolding insert_rows
insert_rows-KeepsCouples [] db after e k = let same : db ≡ after = cc e in subst KeepsCouples same k
insert_rows-KeepsCouples (row ∷ rows) db after e k = elim (Result-cases (insert row db)) [
  | inr (x, f) ↦ absurd (cc (e, f))
  | inl (next, f) ↦
      insert_rows-KeepsCouples rows next after (cc (e, f)) (insert-KeepsCouples row db next f k)
]

insert_many-KeepsCouples :
    (rows : List MessageRow) (db : Db) → KeepsCouples db → KeepsCouples (insert_many rows db).1
unfolding insert_many
insert_many-KeepsCouples rows db k = elim (Result-cases (insert_rows rows db)) [
  | inr (x, f) ↦ rw (f, insert_many) k
  | inl (after, f) ↦ rw (f, insert_many) (insert_rows-KeepsCouples rows db after f k)
]

pub couples_Mail : Mail KeepsCouples
couples_Mail = record { sends = insert_many-KeepsCouples }

-- These statements write no table that `KeepsCouples` reads, or only the names and seats it allows.
pub couples_Quiet : Quiet KeepsCouples
unfolding mark_read insert_attachment upsert_profile upsert_token delete_token delete_token_value
couples_Quiet = record {
  touches = touch_last_seen-KeepsCouples;
  marks = λ lt room_id reader up_to now db k. k;
  attaches = λ blob_key room_id uploader size db k. ground (arith, k);
  profiles = λ id envelope avatar now db k. ground (arith, k);
  tokens = λ id device token environment kind db k. ground (arith, k);
  devices = λ id device db k. ground (arith, k);
  values = λ id token db k. ground (arith, k);
  renames = rename_room-KeepsCouples;
  leaves = leave_room-KeepsCouples;
}
