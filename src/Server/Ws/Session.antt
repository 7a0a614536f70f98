-- ===== src/Server/Ws/Session.antt =====
-- server/src/ws.rs: `handle_socket` after the handshake, as what happens on the connect, on each frame
-- and on the disconnect; and the server's events.
use little_love.Prelude.{ℕ, String, Bool, true, false, some, [], ◌==◌, nat_Eq, map, if◌then◌else◌}
use little_love.Server.Accounts.{AccountRecord}
use little_love.Server.Wire
use little_love.Server.Wire.{RoomClientFrame, RoomServerFrame, ErrorCode, rate_limited, rooms}
use little_love.Server.Routing.{register, unregister}
use little_love.Server.RateLimit.{WindowRateLimiter, allow, upload_rl, typing_rl, turn_rl}
use little_love.Server.Rooms.Queries.{list_rooms_for_account, detail_into_wire}
use little_love.Server.World.{World, Env, Act, ◌>>=◌, pure, gets, query, send_frame, send_error}
use little_love.Server.Ws.Guards.{result_or}
use little_love.Server.Ws.Presence.{
  handle_typing, announce_presence_on_connect, announce_presence_on_disconnect,
}
use little_love.Server.Ws.Calls.{
  handle_call_turn_request, handle_call_invite, handle_call_hangup, forward_call_to_partner,
  deliver_pending_calls,
}
use little_love.Server.Ws.Pairing.{handle_create_invite, handle_consume_invite}
use little_love.Server.Ws.Reading.{handle_subscribe, handle_mark_read}
use little_love.Server.Ws.Sending.{handle_send}
use little_love.Server.Ws.Profiles.{handle_publish_profile, register_push, unregister_push}
use little_love.Server.Ws.Uploads.{handle_request_upload, handle_request_download}
use little_love.Server.Ws.Rooms.{handle_create_room, handle_rename_room, handle_leave_room}

-- The limiters of one connection.
pub record Limiters : Type 0 where
  pub upload : WindowRateLimiter
  pub typing : WindowRateLimiter
  pub turn : WindowRateLimiter
  pub call : WindowRateLimiter

abbrev pub fresh : Limiters
fresh = record { upload = upload_rl; typing = typing_rl; turn = turn_rl; call = turn_rl }

-- The limiters after a frame that arrives at `now`, and whether they let it pass.
unfoldable pub admit : RoomClientFrame → ℕ → Limiters → Bool × Limiters
unfolding allow
admit (Wire.RoomClientFrame.typing room_id on) now l =
    let (allowed, typing) = allow l.typing now in (allowed, record l { typing = typing })
admit (Wire.RoomClientFrame.request_upload request_id room_id byte_size) now l =
    let (allowed, upload) = allow l.upload now in (allowed, record l { upload = upload })
admit (Wire.RoomClientFrame.call_turn_request call_id) now l =
    let (allowed, turn) = allow l.turn now in (allowed, record l { turn = turn })
admit (Wire.RoomClientFrame.call_invite room_id call_id offer video) now l =
    let (allowed, call) = allow l.call now in (allowed, record l { call = call })
admit frame now l = (true, l)

-- A frame over its limit: typing is dropped, the others get an error.
unfoldable pub refuse : RoomClientFrame → ℕ → Act (Unit {0})
unfolding pure send_error
refuse (Wire.RoomClientFrame.typing room_id on) tx = pure tt
refuse frame tx = send_error tx rate_limited ""

unfoldable pub dispatch : Env → AccountRecord → ℕ → RoomClientFrame → Act (Unit {0})
unfolding handle_typing handle_call_turn_request handle_call_invite handle_call_hangup
    forward_call_to_partner handle_create_invite handle_consume_invite handle_subscribe
    handle_mark_read handle_send handle_publish_profile register_push unregister_push
    handle_request_upload handle_request_download handle_create_room handle_rename_room
    handle_leave_room
dispatch env me tx Wire.RoomClientFrame.create_invite = handle_create_invite env me tx
dispatch env me tx (Wire.RoomClientFrame.consume_invite code signature) =
    handle_consume_invite env me code signature tx
dispatch env me tx (Wire.RoomClientFrame.subscribe room_id since) =
    handle_subscribe env me room_id since tx
dispatch env me tx (Wire.RoomClientFrame.send room_id bodies client_msg_id) =
    handle_send env me room_id bodies client_msg_id tx
dispatch env me tx (Wire.RoomClientFrame.create_room name invite_human_partner) =
    handle_create_room env me name invite_human_partner tx
dispatch env me tx (Wire.RoomClientFrame.rename_room room_id name) =
    handle_rename_room me room_id name tx
dispatch env me tx (Wire.RoomClientFrame.leave_room room_id) = handle_leave_room me room_id tx
dispatch env me tx (Wire.RoomClientFrame.mark_read room_id up_to) =
    handle_mark_read env me room_id up_to tx
dispatch env me tx (Wire.RoomClientFrame.typing room_id on) = handle_typing me room_id on
dispatch env me tx (Wire.RoomClientFrame.publish_profile envelope avatar_key) =
    handle_publish_profile env me envelope avatar_key tx
dispatch env me tx (Wire.RoomClientFrame.request_upload request_id room_id byte_size) =
    handle_request_upload env me request_id room_id byte_size tx
dispatch env me tx (Wire.RoomClientFrame.request_download blob_key) =
    handle_request_download env me blob_key tx
dispatch env me tx
      (Wire.RoomClientFrame.register_push device_id apns_token environment token_kind) =
    register_push me device_id apns_token environment token_kind
dispatch env me tx (Wire.RoomClientFrame.unregister_push device_id) = unregister_push me device_id
dispatch env me tx (Wire.RoomClientFrame.call_turn_request call_id) =
    handle_call_turn_request env me call_id tx
dispatch env me tx (Wire.RoomClientFrame.call_invite room_id call_id offer video) =
    handle_call_invite env me room_id call_id offer video
dispatch env me tx (Wire.RoomClientFrame.call_answer room_id call_id answer) =
    forward_call_to_partner me (Wire.RoomServerFrame.call_answer room_id call_id answer)
dispatch env me tx (Wire.RoomClientFrame.call_ice room_id call_id candidate) =
    forward_call_to_partner me (Wire.RoomServerFrame.call_ice room_id call_id candidate)
dispatch env me tx (Wire.RoomClientFrame.call_hangup room_id call_id reason) =
    handle_call_hangup me room_id call_id reason

-- One inbound frame of a session, with the session's limiters.
unfoldable pub on_frame :
    Env → AccountRecord → ℕ → RoomClientFrame → Limiters → World → Limiters × World
unfolding admit refuse dispatch
on_frame env me tx frame l w =
    let (allowed, l') = admit frame w.now l in
    (l', if allowed then (dispatch env me tx frame w).1 else (refuse frame tx w).1)

-- The first frame of a session: its rooms; a failed query shows none.
unfoldable pub send_rooms : Env → AccountRecord → ℕ → Act (Unit {0})
unfolding ◌>>=◌ gets query send_frame list_rooms_for_account detail_into_wire
send_rooms env me tx = do
  store ← gets (λ w. w.store)
  if store
      then (do
        answer ← query (list_rooms_for_account me.id)
        send_frame tx (rooms (map (detail_into_wire env.b64_encode) (result_or [] answer))))
      else send_frame tx (rooms [])

unfoldable pub open_session : String → ℕ → Act (Unit {0})
unfolding register
open_session username tx w = (
  some tt,
  record w {
    routing = register w.routing username tx;
    open_rx = λ c. if c == tx then true else w.open_rx c;
  },
)

-- The steps of `handle_socket` between the handshake and the loop. An early return of one of them
-- ends that one only.
unfoldable pub on_connect : Env → AccountRecord → ℕ → World → World
unfolding open_session send_rooms announce_presence_on_connect deliver_pending_calls
on_connect env me tx w =
    let opened = (open_session me.username tx w).1 in
    let listed = (send_rooms env me tx opened).1 in
    let announced = (announce_presence_on_connect env me tx listed).1 in
    (deliver_pending_calls me tx announced).1

-- The steps after the loop; the receiver goes last.
unfoldable pub on_disconnect : AccountRecord → ℕ → World → World
unfolding unregister announce_presence_on_disconnect
on_disconnect me tx w =
    let gone = record w { routing = unregister w.routing me.username tx } in
    let announced = (announce_presence_on_disconnect me gone).1 in
    record announced { open_rx = λ c. if c == tx then false else announced.open_rx c }
