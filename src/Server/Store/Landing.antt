-- ===== src/Server/Store/Landing.antt =====
-- What the transaction of `insert_many` in server/src/store.rs leaves in the table.
use little_love.Prelude.{
  ◌==◌, nat_Eq, string_Eq, ◌≡◌, ◌⊎◌, subst, refl, inl, inr, Bool, true, none, List, [], ◌∷◌, ◌++◌,
  any, any-append, nat_Eq, string_Eq, All, Bool-cases, arith, eq_iff,
}
use little_love.Server.Db.{Db, Room, Account, StoredMessage, ok, Result-cases}
use little_love.Server.Accounts.{by_id}
use little_love.Server.Store.{MessageRow, same_row, insert, insert_rows, insert_many}

-- The stored form of a row.
abbrev pub landed : MessageRow → StoredMessage
landed row = record {
  id = row.id;
  room_id = row.room_id;
  from_account_id = row.from_account_id;
  recipient_account_id = row.recipient_account_id;
  body = row.body;
  ts = row.ts;
  read_at = none;
}

-- Whether the table has a row of this id for this recipient.
abbrev pub arrived : Db → MessageRow → Bool
arrived db row = any (same_row row.id row.recipient_account_id) db.messages

-- A row that is accepted was there, or it comes last.
pub insert_cases :
    (row : MessageRow) (db after : Db)
    → insert row db ≡ ok after
    → ((arrived db row ≡ true) × (db ≡ after))
      ⊎ (record db { messages = db.messages ++ landed row ∷ [] } ≡ after)
unfolding insert
insert_cases row db after e = elim (Bool-cases (arrived db row)) [
  | inl f ↦ inl (f, ground (arith, e, f))
  | inr f ↦ inr (ground (arith, e, f))
]

abbrev Grows : Db → Db → Type 0
Grows before after = (r : MessageRow) → arrived before r ≡ true → arrived after r ≡ true

insert-arrived :
    (row : MessageRow) (db after : Db)
    → insert row db ≡ ok after
    → (arrived after row ≡ true) × Grows db after
insert-arrived row db after e = elim (insert_cases row db after e) [
  | inl (f, same) ↦ subst (λ d. (arrived d row ≡ true) × Grows db d) same (f, λ r h. h)
  | inr same ↦
      subst (λ d. (arrived d row ≡ true) × Grows db d) same
        (
          ground (
            arith,
            any-append (same_row row.id row.recipient_account_id) db.messages (landed row ∷ []),
            eq_iff row.id row.id,
          ),
          λ r h. rw (any-append, h) refl,
        )
]

insert_rows-arrived :
    (rows : List MessageRow) (db after : Db)
    → insert_rows rows db ≡ ok after
    → All (λ r. arrived after r ≡ true) rows × Grows db after
unfolding insert_rows
insert_rows-arrived [] db after e =
    let same : db ≡ after = ground (arith, e) in (tt, subst (Grows db) same (λ r h. h))
insert_rows-arrived (row ∷ rows) db after e = elim (Result-cases (insert row db)) [
  | inl (db', f) ↦
      let one = insert-arrived row db db' f in
      let rest = insert_rows-arrived rows db' after (ground (arith, e, f)) in
      ((rest.1 row one.0, rest.0), λ r h. rest.1 r (one.1 r h))
  | inr (x, f) ↦ ground (arith, e, f)
]

-- After a success each row of the transaction is in the table.
pub insert_many-arrived :
    (rows : List MessageRow) (db : Db)
    → ((insert_many rows db).1 ≡ db)
      ⊎ ((insert_many rows db ≡ (ok tt, (insert_many rows db).1))
          × All (λ r. arrived (insert_many rows db).1 r ≡ true) rows)
unfolding insert_many
insert_many-arrived rows db = elim (Result-cases (insert_rows rows db)) [
  | inl (a, e) ↦ inr (rw (e, insert_many) (refl, (insert_rows-arrived rows db a e).0))
  | inr (x, e) ↦ inl (rw (e, insert_many) refl)
]

-- The foreign keys of a row are there.
abbrev pub IsKnown : List Room → List Account → MessageRow → Type 0
IsKnown rooms accounts row =
    (any (λ r. r.id == row.room_id) rooms ≡ true)
    × (any (by_id row.from_account_id) accounts ≡ true)
    × (any (by_id row.recipient_account_id) accounts ≡ true)

insert_accepted :
    (row : MessageRow) (db : Db)
    → IsKnown db.rooms db.accounts row
    → (after : Db) × (insert row db ≡ ok after)
      × (after.rooms ≡ db.rooms)
      × (after.accounts ≡ db.accounts)
unfolding insert
insert_accepted row db (room, from, to) = elim (Bool-cases (arrived db row)) [
  | inl e ↦ (db, rw e refl, refl, refl)
  | inr e ↦ (
    record db { messages = db.messages ++ landed row ∷ [] },
    rw (e, room, from, to, insert) refl,
    refl,
    refl,
  )
]

insert_rows_accepted :
    (rows : List MessageRow) (db : Db)
    → All (IsKnown db.rooms db.accounts) rows
    → (after : Db) × (insert_rows rows db ≡ ok after)
unfolding insert_rows
insert_rows_accepted [] db h = (db, refl)
insert_rows_accepted (row ∷ rows) db h =
    let (next, e, rooms, accounts) = insert_accepted row db h.0 in
    let (after, f) = insert_rows_accepted rows next (rw (rooms, accounts) h.1) in
    (after, rw (e, insert_rows) f)

-- A transaction whose foreign keys are there succeeds, and each of its rows is in the table.
pub insert_many_accepted :
    (rows : List MessageRow) (db : Db)
    → All (IsKnown db.rooms db.accounts) rows
    → let after = (insert_many rows db).1 in
      (insert_many rows db ≡ (ok tt, after)) × All (λ r. arrived after r ≡ true) rows
unfolding insert_many
insert_many_accepted rows db h =
    let (after, e) = insert_rows_accepted rows db h in
    rw (e, insert_many) (refl, (insert_rows-arrived rows db after e).0)
