-- ===== src/Server/Wire.antt =====
-- server/src/wire.rs: the frames of a session after its handshake, with the source's variants and
-- fields. An invite code is its characters, a UUID and a ULID are their texts, a `DateTime` is
-- milliseconds, and a byte size is signed.
use little_love.Prelude.{ℕ, String, Bool, Option, List}

-- `i64`: `negsuc n` is -(n + 1).
pub data ℤ : Type 0 where
  pos : ℕ → ℤ
  negsuc : ℕ → ℤ

-- The ICE servers of a grant: what the provider returned, or the empty list.
pub data IceServers : Type 0 where
  no_servers : IceServers
  servers : String → IceServers

pub record Member : Type 0 where
  pub account_id : ℕ
  pub username : String
  pub ed25519_pub : String
  pub x25519_pub : String

pub record RoomDetail : Type 0 where
  pub room_id : String
  pub name : String
  pub members : List Member
  pub created_at : ℕ

pub record PendingInvite : Type 0 where
  pub code : List ℕ
  pub qr_png_base64 : String
  pub expires_at : ℕ

-- error_codes, and the three codes that ws.rs writes out.
pub data ErrorCode : Type 0 where
  already_paired invite_not_found invite_expired invite_consumed invalid_signature : ErrorCode
  unknown_room bad_code fan_out_mismatch monogamy_violation body_too_large : ErrorCode
  blob_too_large unknown_blob r2_unavailable rate_limited : ErrorCode
  internal bad_name : ErrorCode

pub data RoomClientFrame : Type 0 where
  create_invite : RoomClientFrame
  -- code, signature_over_token
  consume_invite : List ℕ → String → RoomClientFrame
  -- room_id, since_message_id
  subscribe : String → Option String → RoomClientFrame
  -- room_id, bodies by recipient key, client_msg_id
  send : String → List (String × String) → String → RoomClientFrame
  -- request_id, room_id, byte_size
  request_upload : String → String → ℤ → RoomClientFrame
  request_download : String → RoomClientFrame
  -- name, invite_human_partner
  create_room : Option String → Bool → RoomClientFrame
  rename_room : String → String → RoomClientFrame
  leave_room : String → RoomClientFrame
  -- room_id, up_to_message_id
  mark_read : String → String → RoomClientFrame
  -- device_id, apns_token, environment, token_kind
  register_push : String → String → String → String → RoomClientFrame
  unregister_push : String → RoomClientFrame
  typing : String → Bool → RoomClientFrame
  call_turn_request : String → RoomClientFrame
  -- room_id, call_id, offer, video
  call_invite : String → String → String → Bool → RoomClientFrame
  -- room_id, call_id, answer
  call_answer : String → String → String → RoomClientFrame
  -- room_id, call_id, candidate
  call_ice : String → String → String → RoomClientFrame
  -- room_id, call_id, reason
  call_hangup : String → String → String → RoomClientFrame
  -- envelope, avatar_key
  publish_profile : String → Option String → RoomClientFrame

pub record Message : Type 0 where
  pub id : String
  pub room_id : String
  pub from : String
  pub ts : ℕ
  pub body : String
  pub replayed : Bool
  pub read : Bool
  pub client_msg_id : Option String

pub data RoomServerFrame : Type 0 where
  rooms : List RoomDetail → RoomServerFrame
  -- code, qr_png_base64, expires_at
  invite_created : List ℕ → String → ℕ → RoomServerFrame
  -- room_id, name, members
  invite_consumed : String → String → List Member → RoomServerFrame
  -- room_id, name, members, pending_invite
  room_created : String → String → List Member → Option PendingInvite → RoomServerFrame
  room_renamed : String → String → RoomServerFrame
  -- room_id, username
  member_left : String → String → RoomServerFrame
  message : Message → RoomServerFrame
  -- room_id, message_ids, reader
  read : String → List String → String → RoomServerFrame
  read_marker : String → ℕ → RoomServerFrame
  -- room_id, from, typing
  typing : String → String → Bool → RoomServerFrame
  -- user, online, last_seen
  presence : String → Bool → Option ℕ → RoomServerFrame
  -- user, envelope, avatar_key
  profile : String → String → Option String → RoomServerFrame
  -- request_id, blob_key, url, expires_at
  upload_granted : String → String → String → ℕ → RoomServerFrame
  -- blob_key, url, expires_at
  download_granted : String → String → ℕ → RoomServerFrame
  call_turn_grant : String → IceServers → RoomServerFrame
  -- room_id, call_id, from, offer, video
  call_invite : String → String → String → String → Bool → RoomServerFrame
  call_answer : String → String → String → RoomServerFrame
  call_ice : String → String → String → RoomServerFrame
  call_hangup : String → String → String → RoomServerFrame
  -- code, message
  error : ErrorCode → String → RoomServerFrame
