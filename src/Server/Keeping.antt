-- ===== src/Server/Keeping.antt =====
-- A property of the tables that the statements keep is kept by the handlers of server/src/ws.rs that
-- call them. `Quiet` lists the statements that neither pair accounts, nor seat anybody, nor send mail.
pub mod Tables
pub mod Signalling
pub mod Reading
pub mod Contents
pub mod Sending
pub mod Pairing
pub mod Events
use little_love.Prelude.{ℕ, ◌≡◌, String, Bool, Option, List}
use little_love.Server.Db.{Db, ok}
use little_love.Server.Accounts.{touch_last_seen, insert_account}
use little_love.Server.Invites.{create_invite_record, mark_consumed}
use little_love.Server.Store.{MessageRow, mark_read, insert_many}
use little_love.Server.Ledgers.{
  insert_attachment, upsert_profile, upsert_token, delete_token, delete_token_value,
}
use little_love.Server.Rooms.Pairing.{set_partner_link}
use little_love.Server.Rooms.Mutations.{
  create_room_with_members, insert_member, rename_room, leave_room,
}

pub record Quiet (P : Db → Type 0) : Type 0 where
  pub touches : (id now : ℕ) (db : Db) → P db → P (touch_last_seen id now db)
  pub marks :
      (lt : String → String → Bool) (room_id : String) (reader : ℕ) (up_to : String) (now : ℕ)
      (db : Db)
      → P db
      → P (mark_read lt room_id reader up_to now db).1
  pub attaches :
      (blob_key room_id : String) (uploader size : ℕ) (db : Db)
      → P db
      → P (insert_attachment blob_key room_id uploader size db).1
  pub profiles :
      (id : ℕ) (envelope : List ℕ) (avatar : Option String) (now : ℕ) (db : Db)
      → P db
      → P (upsert_profile id envelope avatar now db).1
  pub tokens :
      (id : ℕ) (device token environment kind : String) (db : Db)
      → P db
      → P (upsert_token id device token environment kind db).1
  pub devices : (id : ℕ) (device : String) (db : Db) → P db → P (delete_token id device db)
  pub values : (id : ℕ) (token : String) (db : Db) → P db → P (delete_token_value id token db)
  pub renames :
      (room_id name : String) (db after : Db)
      → rename_room room_id name db ≡ ok after
      → P db
      → P after
  pub leaves : (room_id : String) (id : ℕ) (db : Db) → P db → P (leave_room room_id id db).1

-- The statements of pairing and of sign-up.
pub record Pairs (P : Db → Type 0) : Type 0 where
  pub invites :
      (inviter : ℕ) (hash : List ℕ) (expires : ℕ) (room : Option String) (db : Db)
      → P db
      → P (create_invite_record inviter hash expires room db).1
  pub consumes : (hash : List ℕ) (now : ℕ) (db : Db) → P db → P (mark_consumed hash now db)
  pub links : (a b : ℕ) (db : Db) → P db → P (set_partner_link a b db).1
  pub creates :
      (room_id : String) (host : ℕ) (partner : Option ℕ) (name : String) (now : ℕ) (db : Db)
      → P db
      → P (create_room_with_members room_id host partner name now db).1
  pub seats :
      (room_id : String) (id now : ℕ) (db after : Db)
      → insert_member room_id id now db ≡ ok after
      → P db
      → P after
  pub signs_up :
      (username : String) (ed x : List ℕ) (now : ℕ) (db : Db)
      → P db
      → P (insert_account username ed x now db).1

-- The rows of a message.
pub record Mail (P : Db → Type 0) : Type 0 where
  pub sends : (rows : List MessageRow) (db : Db) → P db → P (insert_many rows db).1
