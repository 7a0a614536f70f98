-- ===== src/Server/Keeping/Signalling.antt =====
-- The handlers of server/src/ws.rs for presence and calls.
use little_love.Prelude.{ℕ, Bool, String, Option, none, some, nat_Eq, string_Eq, arith}
use little_love.Server.Accounts.{AccountRecord, touch_last_seen}
use little_love.Server.Calls.{Pending}
use little_love.Server.Ledgers.{delete_token_value}
use little_love.Server.Wire.{RoomServerFrame}
use little_love.Server.World.{
  Env, PushMessage, SendOutcome, delivered, drop_token, transient, update,
}
use little_love.Server.World.Triples.{Keeps, keeps_rules, Keeps-update, Keeps-pure}
use little_love.Server.Ws.Guards.Keeping.{guard_rules}
use little_love.Server.Ws.Presence.{
  handle_typing, partner_last_seen, replay_profile, announce_presence_on_connect,
  announce_presence_on_disconnect,
}
use little_love.Server.Ws.Calls.{
  mint, is_paired, handle_call_turn_request, check_room, forward_call_to_partner, hold_call,
  drop_call, send_push, on_outcome, push_to, notify_call, handle_call_invite, drop_held,
  handle_call_hangup, take_pending, deliver_pending_calls,
}
use little_love.Server.Db.{Db}
use little_love.Server.Keeping.{Quiet}

module _ {P : Db → Type 0} (q : Quiet P) where
  touch-Keeps : (id now : ℕ) → Keeps P (update (touch_last_seen id now))
  touch-Keeps id now = Keeps-update (touch_last_seen id now) (q.touches id now)

  pub handle_typing-Keeps :
      (me : AccountRecord) (room_id : String) (on : Bool) → Keeps P (handle_typing me room_id on)
  unfolding handle_typing
  handle_typing-Keeps me room_id on = search guard_rules depth 20

  partner_last_seen-Keeps :
      (me : AccountRecord) (online : Bool) → Keeps P (partner_last_seen me online)
  unfolding partner_last_seen
  partner_last_seen-Keeps me online = search guard_rules depth 20

  replay_profile-Keeps :
      (env : Env) (me : AccountRecord) (partner : String) (tx : ℕ)
      → Keeps P (replay_profile env me partner tx)
  unfolding replay_profile
  replay_profile-Keeps env me partner tx = search guard_rules depth 20

  pub announce_presence_on_connect-Keeps :
      (env : Env) (me : AccountRecord) (tx : ℕ) → Keeps P (announce_presence_on_connect env me tx)
  unfolding announce_presence_on_connect
  announce_presence_on_connect-Keeps env me tx =
      search (guard_rules, touch-Keeps, partner_last_seen-Keeps, replay_profile-Keeps) depth 20

  pub announce_presence_on_disconnect-Keeps :
      (me : AccountRecord) → Keeps P (announce_presence_on_disconnect me)
  unfolding announce_presence_on_disconnect
  announce_presence_on_disconnect-Keeps me = search (guard_rules, touch-Keeps) depth 20

  mint-Keeps : (env : Env) → Keeps P (mint env)
  unfolding mint
  mint-Keeps env = record { at = λ w p. ground (arith, p) }

  is_paired-Keeps : (me : AccountRecord) → Keeps P (is_paired me)
  unfolding is_paired
  is_paired-Keeps me = search guard_rules depth 20

  pub handle_call_turn_request-Keeps :
      (env : Env) (me : AccountRecord) (call_id : String) (tx : ℕ)
      → Keeps P (handle_call_turn_request env me call_id tx)
  unfolding handle_call_turn_request
  handle_call_turn_request-Keeps env me call_id tx =
      search (guard_rules, mint-Keeps, is_paired-Keeps) depth 20

  check_room-Keeps : (me : AccountRecord) (o : Option String) → Keeps P (check_room me o)
  unfolding check_room
  check_room-Keeps me none = Keeps-pure tt
  check_room-Keeps me (some r) = search guard_rules depth 20

  pub forward_call_to_partner-Keeps :
      (me : AccountRecord) (frame : RoomServerFrame) → Keeps P (forward_call_to_partner me frame)
  unfolding forward_call_to_partner
  forward_call_to_partner-Keeps me frame = search (guard_rules, check_room-Keeps) depth 20

  hold_call-Keeps : (partner : ℕ) (p : Pending) → Keeps P (hold_call partner p)
  unfolding hold_call
  hold_call-Keeps partner p = record { at = λ w k. k }

  drop_call-Keeps : (partner : ℕ) (call_id : String) → Keeps P (drop_call partner call_id)
  unfolding drop_call
  drop_call-Keeps partner call_id = record { at = λ w k. k }

  send_push-Keeps : (env : Env) (msg : PushMessage) → Keeps P (send_push env msg)
  unfolding send_push
  send_push-Keeps env msg = record { at = λ w k. k }

  delete_token_value-Keeps :
      (account_id : ℕ) (token : String) → Keeps P (update (delete_token_value account_id token))
  delete_token_value-Keeps account_id token =
      Keeps-update (delete_token_value account_id token) (q.values account_id token)

  on_outcome-Keeps :
      (account_id : ℕ) (token : String) (o : SendOutcome) → Keeps P (on_outcome account_id token o)
  unfolding on_outcome
  on_outcome-Keeps account_id token delivered = Keeps-pure tt
  on_outcome-Keeps account_id token transient = Keeps-pure tt
  on_outcome-Keeps account_id token drop_token = search (keeps_rules, delete_token_value-Keeps)

  pub push_to-Keeps :
      (env : Env) (account_id : ℕ) (msg : PushMessage) → Keeps P (push_to env account_id msg)
  unfolding push_to
  push_to-Keeps env account_id msg = search (keeps_rules, send_push-Keeps, on_outcome-Keeps)

  notify_call-Keeps :
      (env : Env) (callee : ℕ) (room_id call_id : String) (video : Bool)
      → Keeps P (notify_call env callee room_id call_id video)
  unfolding notify_call
  notify_call-Keeps env callee room_id call_id video = search (guard_rules, push_to-Keeps) depth 20

  pub handle_call_invite-Keeps :
      (env : Env) (me : AccountRecord) (room_id call_id offer : String) (video : Bool)
      → Keeps P (handle_call_invite env me room_id call_id offer video)
  unfolding handle_call_invite
  handle_call_invite-Keeps env me room_id call_id offer video =
      search (guard_rules, check_room-Keeps, hold_call-Keeps, notify_call-Keeps) depth 20

  drop_held-Keeps : (me : AccountRecord) (call_id : String) → Keeps P (drop_held me call_id)
  unfolding drop_held
  drop_held-Keeps me call_id = search (guard_rules, drop_call-Keeps) depth 20

  pub handle_call_hangup-Keeps :
      (me : AccountRecord) (room_id call_id reason : String)
      → Keeps P (handle_call_hangup me room_id call_id reason)
  unfolding handle_call_hangup
  handle_call_hangup-Keeps me room_id call_id reason =
      search (guard_rules, drop_held-Keeps, forward_call_to_partner-Keeps) depth 20

  take_pending-Keeps : (account_id : ℕ) → Keeps P (take_pending account_id)
  unfolding take_pending
  take_pending-Keeps account_id = record { at = λ w k. k }

  pub deliver_pending_calls-Keeps :
      (me : AccountRecord) (tx : ℕ) → Keeps P (deliver_pending_calls me tx)
  unfolding deliver_pending_calls
  deliver_pending_calls-Keeps me tx = search (guard_rules, take_pending-Keeps) depth 20
