-- ===== src/Server/Rest.antt =====
-- The REST handlers: `create_account` and `get_account_by_username` of server/src/accounts.rs and
-- `preview_invite` of server/src/invites.rs.
use little_love.Prelude.{
  ℕ, String, not, Option, none, some, List, map, length, ◌==◌, nat_Eq, find, if◌then◌else◌,
}
use little_love.Crypto.Wordlist.{codes}
use little_love.Crypto.Invite
use little_love.Crypto.Invite.{decode_code}
use little_love.Server.Db.{Db, Account, Result, ok, err, unique_violation}
use little_love.Server.Accounts.{username_ok, by_username, insert_account}
use little_love.Server.Invites.{
  InviteState, pending, expired, consumed, InviteRow, state, lookup_invite, room_for_invite,
}
use little_love.Server.Wire
use little_love.Server.Rooms.Queries.{RoomDetail, room_detail, into_wire}
use little_love.Server.World.{Env, Act, ◌>>=◌, match_some, pure, gets, query, execute}
use little_love.Server.Ws.Guards.{found}

pub data StatusCode : Type 0 where
  created success bad_request not_found conflict gone internal_server_error : StatusCode

-- A body, or the error's text.
pub data Response (A : Type 0) : Type 0 where
  json : StatusCode → A → Response A
  text : StatusCode → String → Response A

pub record CreateAccountRequest : Type 0 where
  pub username : String
  pub ed25519_pub : String
  pub x25519_pub : String

pub record AccountSummary : Type 0 where
  pub username : String
  pub created_at : ℕ

pub record AccountFull : Type 0 where
  pub username : String
  pub ed25519_pub : String
  pub x25519_pub : String
  pub created_at : ℕ

-- Base64 of 32 bytes.
unfoldable pub decode_pubkey : Env → String → Option (List ℕ)
decode_pubkey env s = elim (env.b64_decode s) [
  | none ↦ none
  | some bytes ↦ if length bytes == 32 then some bytes else none
]

-- The answer of the INSERT.
abbrev pub account_response : String → Result ℕ → Response AccountSummary
account_response username (ok created_at) =
    json created (record { username = username; created_at = created_at })
account_response username (err unique_violation) = text conflict "username taken"
account_response username (err e) = text internal_server_error "db error"

unfoldable pub create_account : Env → CreateAccountRequest → Act (Response AccountSummary)
unfolding match_some ◌>>=◌ pure gets execute username_ok insert_account decode_pubkey
create_account env req = do
  store ← gets (λ w. w.store)
  if not store
      then pure (text internal_server_error "store unavailable")
      else if not (username_ok (codes req.username))
      then pure (text bad_request "invalid username")
      else match_some (decode_pubkey env req.ed25519_pub)
          (pure (text bad_request "invalid ed25519_pub"))
          (λ ed.
            match_some (decode_pubkey env req.x25519_pub)
              (pure (text bad_request "invalid x25519_pub"))
              (λ x. do
                now ← gets (λ w. w.now)
                row ← execute (insert_account req.username ed x now)
                pure (account_response req.username row)))

unfoldable pub find_by_username : String → Db → Option Account
find_by_username username db = find (by_username username) db.accounts

abbrev pub lookup_response : Env → Result (Option Account) → Response AccountFull
lookup_response env (ok (some a)) = json success (record {
  username = a.username;
  ed25519_pub = env.b64_encode a.ed25519_pub;
  x25519_pub = env.b64_encode a.x25519_pub;
  created_at = a.created_at;
})
lookup_response env (ok none) = text not_found "no such account"
lookup_response env (err e) = text internal_server_error "db error"

unfoldable pub get_account_by_username : Env → String → Act (Response AccountFull)
unfolding match_some ◌>>=◌ pure gets query find_by_username
get_account_by_username env username = do
  store ← gets (λ w. w.store)
  if not store
      then pure (text internal_server_error "store unavailable")
      else do row ← query (find_by_username username); pure (lookup_response env row)

pub record InvitePreviewResponse : Type 0 where
  pub room_id : String
  pub name : String
  pub members : List Wire.Member
  pub expires_at : ℕ

abbrev pub preview_of : Env → InviteRow → Option RoomDetail → Response InvitePreviewResponse
preview_of env invite none = text not_found "room gone"
preview_of env invite (some d) = json success (record {
  room_id = d.room_id;
  name = d.name;
  members = map (into_wire env.b64_encode) d.members;
  expires_at = invite.expires_at;
})

-- The room of a pending invite.
unfoldable pub preview_room : Env → InviteRow → List ℕ → Act (Response InvitePreviewResponse)
unfolding match_some ◌>>=◌ pure query room_for_invite room_detail into_wire
preview_room env invite token_hash = do
  room ← query (room_for_invite token_hash)
  elim room [
    | err e ↦ pure (text internal_server_error "db error")
    | ok none ↦ pure (text not_found "invite not bound to a room")
    | ok (some room_id) ↦ do
      detail ← query (room_detail room_id)
      pure (preview_of env invite (found detail))
  ]

unfoldable pub preview_state :
    Env → InviteRow → List ℕ → InviteState → Act (Response InvitePreviewResponse)
unfolding pure preview_room
preview_state env invite token_hash expired = pure (text gone "expired")
preview_state env invite token_hash consumed = pure (text gone "consumed")
preview_state env invite token_hash pending = preview_room env invite token_hash

unfoldable pub preview_row :
    Env → List ℕ → Result (Option InviteRow) → ℕ → Act (Response InvitePreviewResponse)
unfolding pure state preview_state
preview_row env token_hash (err e) now = pure (text internal_server_error "db error")
preview_row env token_hash (ok none) now = pure (text not_found "no such code")
preview_row env token_hash (ok (some invite)) now =
    preview_state env invite token_hash (state invite now)

unfoldable pub preview_token : Env → Invite.Result (List ℕ) → Act (Response InvitePreviewResponse)
unfolding match_some ◌>>=◌ pure gets query lookup_invite preview_row
preview_token env (Invite.err e) = pure (text not_found "no such code")
preview_token env (Invite.ok canonical) = do
  row ← query (lookup_invite (env.sha256 canonical))
  now ← gets (λ w. w.now)
  preview_row env (env.sha256 canonical) row now

unfoldable pub preview_invite : Env → List ℕ → Act (Response InvitePreviewResponse)
unfolding match_some ◌>>=◌ pure gets decode_code preview_token
preview_invite env code = do
  store ← gets (λ w. w.store)
  if not store
      then pure (text internal_server_error "store unavailable")
      else preview_token env (decode_code env.unicode code)
