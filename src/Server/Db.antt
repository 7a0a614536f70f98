-- ===== src/Server/Db.antt =====
-- The database behind server/src: one record for each table that server/migrations leaves, with the
-- columns that the statements read or write. Times are milliseconds. A row is dropped, changed or
-- added by list operations; each statement's constraints are checked where the statement is modelled.
use little_love.Prelude.{ℕ, String, Option, List, [], ◌≡◌, refl, ◌⊎◌, inl, inr}

-- SQLSTATE classes that the handlers tell apart, and everything else (`io`).
pub data DbError : Type 0 where
  io unique_violation foreign_key_violation check_violation : DbError

pub data Result {ℓ} (A : Type ℓ) : Type ℓ where
  ok : A → Result A
  err : DbError → Result A

pub record Account : Type 0 where
  pub id : ℕ
  pub username : String
  pub ed25519_pub : List ℕ
  pub x25519_pub : List ℕ
  pub created_at : ℕ
  pub partner_account_id : Option ℕ
  pub last_seen_at : Option ℕ

pub record Invite : Type 0 where
  pub token_hash : List ℕ
  pub inviter_id : ℕ
  pub expires_at : ℕ
  pub consumed_at : Option ℕ
  pub room_id : Option String

pub record Room : Type 0 where
  pub id : String
  pub created_at : ℕ
  pub name : String

pub record RoomMember : Type 0 where
  pub room_id : String
  pub account_id : ℕ
  pub joined_at : ℕ

pub record StoredMessage : Type 0 where
  pub id : String
  pub room_id : String
  pub from_account_id : ℕ
  pub recipient_account_id : ℕ
  pub body : String
  pub ts : ℕ
  pub read_at : Option ℕ

pub record Attachment : Type 0 where
  pub blob_key : String
  pub room_id : String
  pub uploader_account_id : ℕ
  pub byte_size : ℕ

pub record AccountProfile : Type 0 where
  pub account_id : ℕ
  pub envelope : List ℕ
  pub avatar_key : Option String
  pub updated_at : ℕ

pub record DevicePushToken : Type 0 where
  pub account_id : ℕ
  pub device_id : String
  pub apns_token : String
  pub environment : String
  pub kind : String

pub record Db : Type 0 where
  pub accounts : List Account
  pub invites : List Invite
  pub rooms : List Room
  pub room_members : List RoomMember
  pub messages : List StoredMessage
  pub attachments : List Attachment
  pub account_profiles : List AccountProfile
  pub device_push_tokens : List DevicePushToken
  -- the value that the sequence behind accounts.id gives next
  pub next_account_id : ℕ

abbrev pub empty : Db
empty = record {
  accounts = [];
  invites = [];
  rooms = [];
  room_members = [];
  messages = [];
  attachments = [];
  account_profiles = [];
  device_push_tokens = [];
  next_account_id = 1;
}

pub Result-cases {ℓ} :
    {A : Type ℓ} (r : Result A) → ((a : A) × (r ≡ ok a)) ⊎ ((e : DbError) × (r ≡ err e))
Result-cases (ok a) = inl (a, refl)
Result-cases (err e) = inr (e, refl)
