-- ===== src/Server/Keeping/Tables.antt =====
-- Which tables a statement leaves alone: the invites, and the messages with the partner links.
use little_love.Prelude.{
  ℕ, ◌≡◌, ◌⊎◌, refl, ◌∙◌, inl, inr, String, not, Option, List, [], ◌∷◌, ◌==◌, nat_Eq, string_Eq,
  retain, length, arith, Bool-cases,
}
use little_love.Server.Db.{Db, Invite, StoredMessage, ok, Result-cases}
use little_love.Server.Rooms.Queries.{is_member, in_room}
use little_love.Server.Rooms.Pairing.{set_partner_link, update_partner, scan_rows}
use little_love.Server.Rooms.Mutations.{
  insert_member, insert_members, insert_room, seats, create_room_with_members, rename_room,
  leave_room, delete_room, delete_member, in_some_room,
}
use little_love.Server.Ledgers.{insert_attachment, upsert_profile, upsert_token}
use little_love.Server.Store.{MessageRow, insert, insert_rows, insert_many}

-- The tables `invites` and `messages`.
abbrev pub mail_and_invites : Db → List Invite × List StoredMessage
mail_and_invites db = (db.invites, db.messages)

pub set_partner_link-leaves :
    (a b : ℕ) (db : Db) → mail_and_invites (set_partner_link a b db).1 ≡ mail_and_invites db
unfolding set_partner_link update_partner scan_rows
set_partner_link-leaves a b db = ground arith

pub insert_member-leaves :
    (r : String) (a now : ℕ) (db after : Db)
    → insert_member r a now db ≡ ok after
    → (mail_and_invites after ≡ mail_and_invites db) × (after.accounts ≡ db.accounts)
unfolding insert_member
insert_member-leaves r a now db after e = elim (Bool-cases (is_member r a db)) [
  | inl m ↦ ground (arith, m)
  | inr m ↦ ground (arith, m)
]

insert_members-leaves :
    (r : String) (ids : List ℕ) (now : ℕ) (db after : Db)
    → insert_members r ids now db ≡ ok after
    → (mail_and_invites after ≡ mail_and_invites db) × (after.accounts ≡ db.accounts)
unfolding insert_members
insert_members-leaves r [] now db after e = (cc e, cc e)
insert_members-leaves r (a ∷ ids) now db after e = elim (Result-cases (insert_member r a now db)) [
  | inr (x, f) ↦ absurd (cc (e, f))
  | inl (next, f) ↦
      let first = insert_member-leaves r a now db next f in
      let rest = insert_members-leaves r ids now next after (cc (e, f)) in
      (rest.0 ∙ first.0, rest.1 ∙ first.1)
]

insert_room-leaves :
    (r name : String) (now : ℕ) (db after : Db)
    → insert_room r name now db ≡ ok after
    → (mail_and_invites after ≡ mail_and_invites db) × (after.accounts ≡ db.accounts)
unfolding insert_room
insert_room-leaves r name now db after e = ground arith

pub create_room_with_members-leaves :
    (r : String) (host : ℕ) (partner : Option ℕ) (name : String) (now : ℕ) (db : Db)
    → let after = (create_room_with_members r host partner name now db).1 in
      (mail_and_invites after ≡ mail_and_invites db) × (after.accounts ≡ db.accounts)
unfolding create_room_with_members
create_room_with_members-leaves r host partner name now db =
    elim (Result-cases (insert_room r name now db)) [
      | inr (x, f) ↦ rw (f, create_room_with_members) (refl, refl)
      | inl (first, f) ↦ elim (Result-cases (insert_members r (seats host partner) now first)) [
        | inr (x, g) ↦ rw (f, create_room_with_members, g) (refl, refl)
        | inl (second, g) ↦
            let room = insert_room-leaves r name now db first f in
            let rest = insert_members-leaves r (seats host partner) now first second g in
            rw (f, create_room_with_members, g) (rest.0 ∙ room.0, rest.1 ∙ room.1)
      ]
    ]

pub rename_room-leaves :
    (r name : String) (db after : Db)
    → rename_room r name db ≡ ok after
    → (mail_and_invites after ≡ mail_and_invites db) × (after.accounts ≡ db.accounts)
unfolding rename_room
rename_room-leaves r name db after e = ground arith

-- Invites may go with their room.
pub leave_room-leaves :
    (r : String) (a : ℕ) (db : Db)
    → let after = (leave_room r a db).1 in
      ((after.invites ≡ db.invites)
        ⊎ (after.invites ≡ retain (λ i. not (in_some_room r i.room_id)) db.invites))
      × (after.messages ≡ db.messages)
      × (after.accounts ≡ db.accounts)
unfolding leave_room delete_member delete_room
leave_room-leaves r a db =
    elim (Bool-cases (length (retain (in_room r) (delete_member r a db).room_members) == 0)) [
      | inr e ↦ (inl (ground (arith, e)), ground (arith, e), ground (arith, e))
      | inl e ↦ elim (Result-cases (delete_room r (delete_member r a db))) [
        | inr (x, f) ↦ (inl (ground (arith, e, f)), ground (arith, e, f), ground (arith, e, f))
        | inl (gone, f) ↦ (inr (ground (arith, e, f)), ground (arith, e, f), ground (arith, e, f))
      ]
    ]

pub insert-leaves :
    (row : MessageRow) (db after : Db)
    → insert row db ≡ ok after
    → (after.invites ≡ db.invites) × (after.accounts ≡ db.accounts)
unfolding insert
insert-leaves row db after e = ground arith

insert_rows-leaves :
    (rows : List MessageRow) (db after : Db)
    → insert_rows rows db ≡ ok after
    → (after.invites ≡ db.invites) × (after.accounts ≡ db.accounts)
unfolding insert_rows
insert_rows-leaves [] db after e = (cc e, cc e)
insert_rows-leaves (row ∷ rows) db after e = elim (Result-cases (insert row db)) [
  | inr (x, f) ↦ absurd (cc (e, f))
  | inl (next, f) ↦
      let first = insert-leaves row db next f in
      let rest = insert_rows-leaves rows next after (cc (e, f)) in
      (rest.0 ∙ first.0, rest.1 ∙ first.1)
]

pub insert_many-leaves :
    (rows : List MessageRow) (db : Db)
    → let after = (insert_many rows db).1 in
      (after.invites ≡ db.invites) × (after.accounts ≡ db.accounts)
unfolding insert_many
insert_many-leaves rows db = elim (Result-cases (insert_rows rows db)) [
  | inr (x, f) ↦ rw (f, insert_many) (refl, refl)
  | inl (after, f) ↦ rw (f, insert_many) (insert_rows-leaves rows db after f)
]

pub insert_attachment-leaves :
    (blob_key r : String) (uploader size : ℕ) (db : Db)
    → let after = (insert_attachment blob_key r uploader size db).1 in
      (after.messages ≡ db.messages) × (after.accounts ≡ db.accounts)
unfolding insert_attachment
insert_attachment-leaves blob_key r uploader size db = ground arith

pub upsert_profile-leaves :
    (id : ℕ) (envelope : List ℕ) (avatar : Option String) (now : ℕ) (db : Db)
    → let after = (upsert_profile id envelope avatar now db).1 in
      (after.messages ≡ db.messages) × (after.accounts ≡ db.accounts)
unfolding upsert_profile
upsert_profile-leaves id envelope avatar now db = ground arith

pub upsert_token-leaves :
    (id : ℕ) (device token environment kind : String) (db : Db)
    → let after = (upsert_token id device token environment kind db).1 in
      (after.messages ≡ db.messages) × (after.accounts ≡ db.accounts)
unfolding upsert_token
upsert_token-leaves id device token environment kind db = ground arith
