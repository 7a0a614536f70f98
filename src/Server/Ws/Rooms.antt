-- ===== src/Server/Ws/Rooms.antt =====
-- server/src/ws.rs: `handle_create_room`, `handle_rename_room` and `handle_leave_room`.
use Prim.Native.String.{count}
use little_love.Prelude.{
  ℕ, String, Bool, false, Option, none, some, List, [], map, leb, if◌then◌else◌,
}
use little_love.Server.Db.{Result}
use little_love.Server.Accounts.{AccountRecord}
use little_love.Server.Invites.{create_invite_record, default_expiry}
use little_love.Server.Wire.{PendingInvite, room_created, room_renamed, member_left, bad_name}
use little_love.Server.Rooms.Queries.{members_for_room, partner_account_id_for, into_wire}
use little_love.Server.Rooms.Mutations.{
  create_room_with_members, rename_room, leave_room, max_room_name_chars,
}
use little_love.Server.World.{
  Env, Act, ◌>>=◌, ◌>>◌, pure, gets, query, returning, execute, commit, deliver_to, draw_ulid,
  draw_invite, for_each,
}
use little_love.Server.Ws.Guards.{
  need_store, need_member_or_false, or_internal, result_or, check, deliver_to_others,
}
use little_love.Server.Ws.Pairing.{qr_or_empty, or_not_created, need_detail}

abbrev pub name_allowed : String → Bool
name_allowed name = leb (count name) max_room_name_chars

-- `name.unwrap_or_default()`
abbrev pub requested_name : Option String → String
requested_name none = ""
requested_name (some name) = name

-- The partner, if the frame asks for the human partner.
unfoldable pub auto_partner : AccountRecord → Bool → ℕ → Act (Option ℕ)
unfolding ◌>>=◌ pure query partner_account_id_for or_internal
auto_partner me invite_partner tx =
    if invite_partner
    then (do answer ← query (partner_account_id_for me.id); or_internal tx answer)
    else pure none

abbrev pub wants_invite : Bool → Option ℕ → Bool
wants_invite invite_partner none = invite_partner
wants_invite invite_partner (some p) = false

-- The pending invite, once its row is stored.
unfoldable pub stored_invite : Env → List ℕ → ℕ → ℕ → Result (Unit {0}) → Act (Option PendingInvite)
unfolding ◌>>=◌ pure or_internal
stored_invite env code expires_at tx stored = do
  or_internal tx stored
  pure
      (some (record { code = code; qr_png_base64 = qr_or_empty env code; expires_at = expires_at }))

-- The invite of a room that waits for its second member.
unfoldable pub room_invite : Env → AccountRecord → String → Bool → ℕ → Act (Option PendingInvite)
unfolding ◌>>=◌ pure gets execute draw_invite create_invite_record default_expiry stored_invite
room_invite env me room_id wanted tx =
    if wanted
    then (do
      invite ← draw_invite env
      let (canonical, code, hash) = invite
      now ← gets (λ w. w.now)
      stored ← execute (create_invite_record me.id hash (default_expiry now) (some room_id))
      stored_invite env code (default_expiry now) tx stored)
    else pure none

-- The new room, to every session of its members.
unfoldable pub announce_room : Env → String → ℕ → Option PendingInvite → Act (Unit {0})
unfolding ◌>>=◌ for_each deliver_to into_wire need_detail
announce_room env room_id tx pending = do
  detail ← need_detail room_id tx
  let members = map (into_wire env.b64_encode) detail.members
  for_each detail.members
      (λ m. deliver_to m.username (room_created detail.room_id detail.name members pending))

unfoldable pub handle_create_room : Env → AccountRecord → Option String → Bool → ℕ → Act (Unit {0})
unfolding ◌>>=◌ gets returning draw_ulid create_room_with_members need_store check auto_partner
    or_not_created room_invite announce_room
handle_create_room env me requested invite_partner tx = do
  need_store tx
  let name = requested_name requested
  check (name_allowed name) tx bad_name "name too long"
  partner ← auto_partner me invite_partner tx
  ulid ← draw_ulid env
  now ← gets (λ w. w.now)
  answer ← returning (create_room_with_members ulid me.id partner name now)
  room_id ← or_not_created answer ulid tx
  pending ← room_invite env me room_id (wants_invite invite_partner partner) tx
  announce_room env room_id tx pending

unfoldable pub handle_rename_room : AccountRecord → String → String → ℕ → Act (Unit {0})
unfolding ◌>>=◌ query commit for_each deliver_to rename_room members_for_room need_store
    need_member_or_false or_internal check
handle_rename_room me room_id name tx = do
  need_store tx
  need_member_or_false me room_id tx
  check (name_allowed name) tx bad_name "name too long"
  renamed ← commit (rename_room room_id name)
  or_internal tx renamed
  members ← query (members_for_room room_id)
  for_each (result_or [] members) (λ m. deliver_to m.username (room_renamed room_id name))

unfoldable pub handle_leave_room : AccountRecord → String → ℕ → Act (Unit {0})
unfolding ◌>>=◌ query execute for_each leave_room members_for_room need_store need_member_or_false
    or_internal deliver_to_others
handle_leave_room me room_id tx = do
  need_store tx
  need_member_or_false me room_id tx
  before ← query (members_for_room room_id)
  left ← execute (leave_room room_id me.id)
  or_internal tx left
  for_each (result_or [] before) (deliver_to_others me (member_left room_id me.username))
