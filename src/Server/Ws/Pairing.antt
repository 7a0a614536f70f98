-- ===== src/Server/Ws/Pairing.antt =====
-- server/src/ws.rs: `handle_create_invite` and `handle_consume_invite`.
use little_love.Prelude.{
  ℕ, String, Bool, true, false, not, Option, none, some, List, map, ◌==◌, nat_Eq,
}
use little_love.Crypto.Invite
use little_love.Crypto.Invite.{decode_code}
use little_love.Crypto.Sig.{Verdict, verified, rejected, verify_invite_consume_signature}
use little_love.Server.Db.{Result, ok, err, unique_violation}
use little_love.Server.Accounts.{AccountRecord, lookup_full_account_by_id}
use little_love.Server.Invites.{
  InviteState, pending, expired, consumed, InviteRow, state, create_invite_record, lookup_invite,
  room_for_invite, mark_consumed, default_expiry,
}
use little_love.Server.Wire.{
  invite_created, room_created, already_paired, bad_code, invite_not_found, invite_expired,
  invalid_signature, monogamy_violation, internal,
}
use little_love.Server.Wire
use little_love.Server.Rooms.Queries.{RoomDetail, partner_account_id_for, room_detail, into_wire}
use little_love.Server.Rooms.Pairing.{
  db_error, monogamy, PairResult, paired, pair_error, set_partner_link,
}
use little_love.Server.Rooms.Mutations.{
  CreateResult, created, create_error, create_room_with_members, insert_member,
}
use little_love.Server.World.{
  Env, Act, ◌>>=◌, ◌>>◌, match_some, pure, gets, query, returning, execute, update, commit,
  send_frame, fail, draw_ulid, draw_invite, for_each,
}
use little_love.Server.Ws.Guards.{need_store, or_internal, found, check, deliver_to_others}

-- `qr_png_base64(…)`, or the empty text.
abbrev pub qr_or_empty : Env → List ℕ → String
qr_or_empty env code = elim (env.qr_png_base64 code) [ none ↦ "" | some s ↦ s ]

unfoldable pub handle_create_invite : Env → AccountRecord → ℕ → Act (Unit {0})
unfolding match_some ◌>>=◌ gets query execute partner_account_id_for create_invite_record
    default_expiry send_frame draw_invite need_store or_internal check
handle_create_invite env me tx = do
  need_store tx
  answer ← query (partner_account_id_for me.id)
  partner ← or_internal tx answer
  check (elim partner [ none ↦ true | some p ↦ false ]) tx already_paired ""
  invite ← draw_invite env
  let (canonical, code, hash) = invite
  now ← gets (λ w. w.now)
  let expires_at = default_expiry now
  stored ← execute (create_invite_record me.id hash expires_at none)
  or_internal tx stored
  send_frame tx (invite_created code (qr_or_empty env code) expires_at)

unfoldable pub decoded : Invite.Result (List ℕ) → ℕ → Act (List ℕ)
unfolding pure fail
decoded (Invite.ok token) tx = pure token
decoded (Invite.err e) tx = fail tx bad_code ""

-- `lookup_invite`, `lookup_full_account_by_id`: no row is an unknown invite.
unfoldable pub or_not_found : {A : Type 0} → Option A → ℕ → Act A
unfolding pure fail
or_not_found (some a) tx = pure a
or_not_found none tx = fail tx invite_not_found ""

unfoldable pub need_pending : InviteState → ℕ → Act (Unit {0})
unfolding pure fail
need_pending pending tx = pure tt
need_pending expired tx = fail tx invite_expired ""
need_pending consumed tx = fail tx Wire.ErrorCode.invite_consumed ""

unfoldable pub or_bad_signature : Option (List ℕ) → ℕ → Act (List ℕ)
unfolding pure fail
or_bad_signature (some bytes) tx = pure bytes
or_bad_signature none tx = fail tx invalid_signature ""

abbrev pub is_verified : Verdict → Bool
is_verified verified = true
is_verified (rejected e) = false

-- What `set_partner_link` answers: the monogamy errors, and the race that the unique index caught.
unfoldable pub need_paired : Result PairResult → ℕ → Act (Unit {0})
unfolding pure fail
need_paired (ok paired) tx = pure tt
need_paired (ok (pair_error (monogamy e))) tx =
    fail tx monogamy_violation "you already have a partner"
need_paired (ok (pair_error (db_error unique_violation))) tx =
    fail tx monogamy_violation "you already have a partner"
need_paired (ok (pair_error (db_error e))) tx = fail tx internal ""
need_paired (err e) tx = fail tx internal ""

unfoldable pub or_not_created : Result CreateResult → String → ℕ → Act String
unfolding pure fail
or_not_created (ok created) room_id tx = pure room_id
or_not_created (ok (create_error e)) room_id tx = fail tx internal ""
or_not_created (err e) room_id tx = fail tx internal ""

-- The room of the invite, or a new one with the inviter in it.
unfoldable pub resolve_room : Env → Option String → ℕ → ℕ → Act String
unfolding match_some ◌>>=◌ pure gets returning create_room_with_members draw_ulid or_not_created
resolve_room env (some room_id) inviter tx = pure room_id
resolve_room env none inviter tx = do
  room_id ← draw_ulid env
  now ← gets (λ w. w.now)
  answer ← returning (create_room_with_members room_id inviter none "" now)
  or_not_created answer room_id tx

-- `match room_detail(…)`: anything but a row is an internal error.
unfoldable pub need_detail : String → ℕ → Act RoomDetail
unfolding match_some ◌>>=◌ pure query fail room_detail
need_detail room_id tx = do
  answer ← query (room_detail room_id)
  match_some (found answer) (fail tx internal "") (λ d. pure d)

-- The invite of a code: decoded, looked up by its hash, pending.
unfoldable pub pending_invite : Env → List ℕ → ℕ → Act (InviteRow × List ℕ × List ℕ)
unfolding match_some ◌>>=◌ pure gets query lookup_invite decode_code state decoded or_internal
    or_not_found need_pending
pending_invite env code tx = do
  canonical ← decoded (decode_code env.unicode code) tx
  let token_hash = env.sha256 canonical
  answer ← query (lookup_invite token_hash)
  row ← or_internal tx answer
  invite ← or_not_found row tx
  now ← gets (λ w. w.now)
  need_pending (state invite now) tx
  pure (invite, canonical, token_hash)

-- The consumer signs the token, and the inviter is somebody else.
unfoldable pub consumable :
    Env → AccountRecord → InviteRow → List ℕ → String → ℕ → Act AccountRecord
unfolding match_some ◌>>=◌ pure query lookup_full_account_by_id verify_invite_consume_signature
    or_bad_signature check or_not_found
consumable env me invite canonical signature tx = do
  sig_bytes ← or_bad_signature (env.b64_decode signature) tx
  check
      (is_verified (verify_invite_consume_signature env.ed25519 me.ed25519_pub canonical sig_bytes))
      tx invalid_signature ""
  answer ← query (lookup_full_account_by_id invite.inviter_id)
  inviter ← or_not_found (found answer) tx
  check (not (inviter.id == me.id)) tx already_paired "self-invite"
  pure inviter

-- The seat is taken or not; the invite is consumed, and both sides hear of the room.
unfoldable pub welcome :
    Env → AccountRecord → List ℕ → String → ℕ → ℕ → Result (Unit {0}) → Act (Unit {0})
unfolding ◌>>=◌ update send_frame for_each mark_consumed or_internal need_detail deliver_to_others
welcome env me token_hash room_id now tx joined = do
  or_internal tx joined
  update (mark_consumed token_hash now)
  detail ← need_detail room_id tx
  let members = map (into_wire env.b64_encode) detail.members
  send_frame tx (Wire.RoomServerFrame.invite_consumed detail.room_id detail.name members)
  for_each detail.members
      (deliver_to_others me (room_created detail.room_id detail.name members none))

-- What happens once the two are partners.
unfoldable pub join_room : Env → AccountRecord → ℕ → List ℕ → ℕ → Act (Unit {0})
unfolding ◌>>=◌ gets query commit room_for_invite insert_member or_internal resolve_room welcome
join_room env me inviter token_hash tx = do
  answer ← query (room_for_invite token_hash)
  room ← or_internal tx answer
  room_id ← resolve_room env room inviter tx
  now ← gets (λ w. w.now)
  joined ← commit (insert_member room_id me.id now)
  welcome env me token_hash room_id now tx joined

unfoldable pub handle_consume_invite : Env → AccountRecord → List ℕ → String → ℕ → Act (Unit {0})
unfolding match_some ◌>>=◌ returning set_partner_link need_store pending_invite consumable
    need_paired join_room
handle_consume_invite env me code signature tx = do
  need_store tx
  found_invite ← pending_invite env code tx
  let (invite, canonical, token_hash) = found_invite
  inviter ← consumable env me invite canonical signature tx
  answer ← returning (set_partner_link me.id inviter.id)
  need_paired answer tx
  join_room env me inviter.id token_hash tx
