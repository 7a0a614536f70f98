-- ===== src/Server/Rooms/Mutations.antt =====
-- Creating, renaming and leaving a room: the transactions of server/src/rooms.rs.
use Prim.Native.String.{count}
use little_love.Prelude.{
  ℕ, String, Bool, true, false, not, ◌&&◌, Option, none, some, List, [], ◌∷◌, ◌++◌, map, leb, ◌==◌,
  nat_Eq, string_Eq, any, retain, length, if◌then◌else◌,
}
use little_love.Server.Db.{
  Db, DbError, AccountProfile, Attachment, Result, ok, err, unique_violation, foreign_key_violation,
  check_violation,
}
use little_love.Server.Accounts.{by_id}
use little_love.Server.Rooms.Queries.{is_member, in_room}

pub data CreateResult : Type 0 where
  created : CreateResult
  create_error : DbError → CreateResult

abbrev pub max_room_name_chars : ℕ
max_room_name_chars = 64

-- rooms_name_length CHECK (char_length(name) <= 64)
abbrev pub name_fits : String → Bool
name_fits name = leb (count name) 64

-- INSERT INTO room_members … ON CONFLICT DO NOTHING, with its two foreign keys.
unfoldable pub insert_member : String → ℕ → ℕ → Db → Result Db
unfolding is_member
insert_member room_id account_id now db =
    if is_member room_id account_id db
    then ok db
    else if any (λ r. r.id == room_id) db.rooms && any (by_id account_id) db.accounts
    then ok (record db {
      room_members =
          db.room_members
          ++ record { room_id = room_id; account_id = account_id; joined_at = now } ∷ [];
    })
    else err foreign_key_violation

-- `std::iter::once(host).chain(partner)`
abbrev pub seats : ℕ → Option ℕ → List ℕ
seats host none = host ∷ []
seats host (some p) = host ∷ p ∷ []

unfoldable pub insert_members : String → List ℕ → ℕ → Db → Result Db
unfolding insert_member
insert_members room_id [] now db = ok db
insert_members room_id (a ∷ rest) now db = elim (insert_member room_id a now db) [
  | err e ↦ err e
  | ok db' ↦ insert_members room_id rest now db'
]

unfoldable pub insert_room : String → String → ℕ → Db → Result Db
insert_room room_id name now db =
    if not (name_fits name)
    then err check_violation
    else if any (λ r. r.id == room_id) db.rooms
    then err unique_violation
    else ok (record db {
      rooms = db.rooms ++ record { id = room_id; created_at = now; name = name } ∷ [];
    })

-- The transaction; `room_id` is the ULID drawn before it.
unfoldable pub create_room_with_members :
    String → ℕ → Option ℕ → String → ℕ → Db → CreateResult × Db
unfolding insert_room insert_members
create_room_with_members room_id host partner name now db = elim (insert_room room_id name now db) [
  | err e ↦ (create_error e, db)
  | ok db₁ ↦ elim (insert_members room_id (seats host partner) now db₁) [
    | err e ↦ (create_error e, db)
    | ok db₂ ↦ (created, db₂)
  ]
]

unfoldable pub rename_room : String → String → Db → Result Db
rename_room room_id name db =
    if any (λ r. r.id == room_id) db.rooms && not (name_fits name)
    then err check_violation
    else ok (record db {
      rooms = map (λ r. if r.id == room_id then record r { name = name } else r) db.rooms;
    })

abbrev pub in_some_room : String → Option String → Bool
in_some_room room_id none = false
in_some_room room_id (some r) = r == room_id

-- ON DELETE SET NULL of account_profiles.avatar_key, for the blobs that go.
abbrev pub drop_avatar : List Attachment → AccountProfile → AccountProfile
drop_avatar gone p = elim p.avatar_key [
  | none ↦ p
  | some k ↦ if any (λ a. a.blob_key == k) gone then record p { avatar_key = none } else p
]

-- DELETE FROM rooms WHERE id = $1. Members, invites and attachments go with the room;
-- messages.room_id (migration 0005) has no ON DELETE, so a room with messages is not deleted.
unfoldable pub delete_room : String → Db → Result Db
delete_room room_id db =
    if any (λ r. r.id == room_id) db.rooms && any (λ m. m.room_id == room_id) db.messages
    then err foreign_key_violation
    else ok (record db {
      rooms = retain (λ r. not (r.id == room_id)) db.rooms;
      room_members = retain (λ m. not (in_room room_id m)) db.room_members;
      invites = retain (λ i. not (in_some_room room_id i.room_id)) db.invites;
      attachments = retain (λ a. not (a.room_id == room_id)) db.attachments;
      account_profiles =
          map (drop_avatar (retain (λ a. a.room_id == room_id) db.attachments)) db.account_profiles;
    })

-- DELETE FROM room_members WHERE room_id = $1 AND account_id = $2
unfoldable pub delete_member : String → ℕ → Db → Db
delete_member room_id account_id db = record db {
  room_members =
      retain (λ m. not (m.room_id == room_id && m.account_id == account_id)) db.room_members;
}

pub record LeaveOutcome : Type 0 where
  pub room_deleted : Bool

unfoldable pub leave_room : String → ℕ → Db → Result LeaveOutcome × Db
unfolding delete_room delete_member
leave_room room_id account_id db =
    let left = delete_member room_id account_id db in
    let remaining = length (retain (in_room room_id) left.room_members) in
    if remaining == 0
    then elim (delete_room room_id left) [
      | err e ↦ (err e, db)
      | ok gone ↦ (ok (record { room_deleted = true }), gone)
    ]
    else (ok (record { room_deleted = false }), left)
