-- ===== src/Server/Ws/Calls.antt =====
-- server/src/ws.rs: call signalling, and the pushes that ring.
pub mod Holding
pub mod Delivery
use little_love.Prelude.{
  ℕ, suc, ◌+◌, String, Bool, true, false, Option, none, some, List, [], ◌∷◌, ◌++◌, length,
  if◌then◌else◌,
}
use little_love.Server.Accounts.{AccountRecord}
use little_love.Server.Wire
use little_love.Server.Wire.{RoomServerFrame, IceServers, no_servers}
use little_love.Server.Calls.{Pending, pending_ttl, expire_due, insert, remove, take_for}
use little_love.Server.Ledgers.{voip_tokens_for, delete_token_value}
use little_love.Server.Rooms.Queries.{is_member, partner_account_id_for, partner_username_for}
use little_love.Server.World.{
  Env, Act, ◌>>=◌, ◌>>◌, match_some, pure, stop, gets, query, update, send_frame, deliver_to,
  for_each, PushMessage, SendOutcome, delivered, drop_token, transient, voip,
}
use little_love.Server.Ws.Guards.{need_store_quietly, or_stop, some_or_stop, result_or, found}

-- The grant of the TURN provider, or the empty list.
unfoldable pub mint : Env → Act IceServers
mint env w = elim w.turn [
  | false ↦ (some no_servers, w)
  | true ↦ (
    some (elim (env.ice_servers w.turn_requests) [ none ↦ no_servers | some v ↦ v ]),
    record w { turn_requests = suc w.turn_requests },
  )
]

-- `matches!(partner_account_id_for(…), Ok(Some(_)))`, and false without a store.
unfoldable pub is_paired : AccountRecord → Act Bool
unfolding match_some ◌>>=◌ pure gets query partner_account_id_for
is_paired me = do
  store ← gets (λ w. w.store)
  if store
      then (do
        answer ← query (partner_account_id_for me.id)
        pure (elim (found answer) [ none ↦ false | some p ↦ true ]))
      else pure false

unfoldable pub handle_call_turn_request : Env → AccountRecord → String → ℕ → Act (Unit {0})
unfolding match_some ◌>>=◌ pure send_frame mint is_paired
handle_call_turn_request env me call_id tx = do
  paired ← is_paired me
  ice_servers ← if paired then mint env else pure no_servers
  send_frame tx (Wire.RoomServerFrame.call_turn_grant call_id ice_servers)

-- The room that a call frame names.
unfoldable pub frame_room_id : RoomServerFrame → Option String
frame_room_id (Wire.RoomServerFrame.call_invite room_id call_id from offer video) = some room_id
frame_room_id (Wire.RoomServerFrame.call_answer room_id call_id answer) = some room_id
frame_room_id (Wire.RoomServerFrame.call_ice room_id call_id candidate) = some room_id
frame_room_id (Wire.RoomServerFrame.call_hangup room_id call_id reason) = some room_id
frame_room_id other = none

-- The sender must belong to the room that the frame names.
unfoldable pub check_room : AccountRecord → Option String → Act (Unit {0})
unfolding match_some ◌>>=◌ pure stop query is_member or_stop
check_room me none = pure tt
check_room me (some room_id) = do
  answer ← query (is_member room_id me.id)
  if result_or false answer then pure tt else stop

unfoldable pub forward_call_to_partner : AccountRecord → RoomServerFrame → Act (Unit {0})
unfolding match_some ◌>>=◌ query partner_username_for deliver_to need_store_quietly some_or_stop
    check_room frame_room_id
forward_call_to_partner me frame = do
  need_store_quietly
  check_room me (frame_room_id frame)
  answer ← query (partner_username_for me.id)
  partner ← some_or_stop (found answer)
  deliver_to partner frame

unfoldable pub hold_call : ℕ → Pending → Act (Unit {0})
unfolding expire_due insert
hold_call partner p w =
    (some tt, record w { pending_calls = insert (expire_due w.pending_calls w.now) partner p })

unfoldable pub drop_call : ℕ → String → Act (Unit {0})
unfolding remove
drop_call partner call_id w =
    (some tt, record w { pending_calls = remove w.pending_calls partner call_id })

unfoldable pub send_push : Env → PushMessage → Act SendOutcome
send_push env msg w =
    (some (env.push_outcome (length w.pushes) msg), record w { pushes = w.pushes ++ msg ∷ [] })

-- A token that APNs reports dead is deleted.
unfoldable pub on_outcome : ℕ → String → SendOutcome → Act (Unit {0})
unfolding ◌>>=◌ pure update delete_token_value
on_outcome account_id token delivered = pure tt
on_outcome account_id token transient = pure tt
on_outcome account_id token drop_token = do update (delete_token_value account_id token); pure tt

unfoldable pub push_to : Env → ℕ → PushMessage → Act (Unit {0})
unfolding ◌>>=◌ send_push on_outcome
push_to env account_id msg = do outcome ← send_push env msg; on_outcome account_id msg.token outcome

unfoldable pub notify_call : Env → ℕ → String → String → Bool → Act (Unit {0})
unfolding match_some ◌>>=◌ query or_stop for_each voip_tokens_for push_to
notify_call env callee room_id call_id video = do
  answer ← query (voip_tokens_for callee)
  tokens ← or_stop answer
  for_each tokens (λ t. push_to env callee (record {
    token = t.apns_token;
    environment = t.environment;
    room_id = room_id;
    badge = 0;
    push_type = voip;
    call_id = some call_id;
    video = video;
  }))

unfoldable pub handle_call_invite :
    Env → AccountRecord → String → String → String → Bool → Act (Unit {0})
unfolding match_some ◌>>=◌ pure gets query partner_account_id_for partner_username_for deliver_to
    need_store_quietly some_or_stop check_room hold_call notify_call
handle_call_invite env me room_id call_id offer video = do
  need_store_quietly
  check_room me (some room_id)
  partner_answer ← query (partner_account_id_for me.id)
  partner ← some_or_stop (found partner_answer)
  name_answer ← query (partner_username_for me.id)
  partner_username ← some_or_stop (found name_answer)
  now ← gets (λ w. w.now)
  hold_call partner (record {
    call_id = call_id;
    room_id = room_id;
    from = me.username;
    offer = offer;
    video = video;
    expires_at = now + pending_ttl;
  })
  deliver_to partner_username
      (Wire.RoomServerFrame.call_invite room_id call_id me.username offer video)
  push ← gets (λ w. w.push)
  if push then notify_call env partner room_id call_id video else pure tt

-- The hangup drops the invite that is held for the partner.
unfoldable pub drop_held : AccountRecord → String → Act (Unit {0})
unfolding match_some ◌>>=◌ pure query partner_account_id_for drop_call
drop_held me call_id = do
  answer ← query (partner_account_id_for me.id)
  match_some (found answer) (pure tt) (λ partner. drop_call partner call_id)

unfoldable pub handle_call_hangup : AccountRecord → String → String → String → Act (Unit {0})
unfolding match_some ◌>>=◌ need_store_quietly drop_held forward_call_to_partner
handle_call_hangup me room_id call_id reason = do
  need_store_quietly
  drop_held me call_id
  forward_call_to_partner me (Wire.RoomServerFrame.call_hangup room_id call_id reason)

unfoldable pub take_pending : ℕ → Act (List Pending)
unfolding take_for
take_pending account_id w =
    let (held, left) = take_for w.pending_calls account_id w.now in
    (some held, record w { pending_calls = left })

unfoldable pub deliver_pending_calls : AccountRecord → ℕ → Act (Unit {0})
unfolding match_some ◌>>=◌ for_each send_frame take_pending
deliver_pending_calls me tx = do
  held ← take_pending me.id
  for_each held (λ p.
      send_frame tx (Wire.RoomServerFrame.call_invite p.room_id p.call_id p.from p.offer p.video))
