-- ===== src/Server/Ws/Calls/Delivery.antt =====
-- A call invite of server/src/ws.rs reaches a callee who connects in time.
use little_love.Prelude.{
  Has, Has-append_left, Has-append_right, ℕ, ◌+◌, ◌<◌, ◌≡◌, refl, inl, inr, String, Bool, true,
  some, List, [], ◌∷◌, All, if◌then◌else◌, subst,
}
use little_love.Server.Accounts.{AccountRecord}
use little_love.Server.Calls.{Pending, expire_due, take_for}
use little_love.Server.Calls.Refinement.{Op, held}
use little_love.Server.Calls.Waiting.{Leaves, after, after-Has, insert-Has, take_for-Has}
use little_love.Server.Wire
use little_love.Server.Wire.{RoomServerFrame}
use little_love.Server.Rooms.Queries.{is_member, partner_account_id_for, partner_username_for}
use little_love.Server.World.{World, Env, ◌>>=◌, pure, send_frame, for_each}
use little_love.Server.Ws.Calls.{handle_call_invite, take_pending, deliver_pending_calls}
use little_love.Server.Ws.Calls.Holding.{ringing, invite_frame, handle_call_invite-calls}

send_frame-Has :
    (tx : ℕ) (frame : RoomServerFrame) (w : World)
    → w.open_rx tx ≡ true
    → Has (tx, frame) (send_frame tx frame w).1.queued
unfolding send_frame
send_frame-Has tx frame w e =
    rw e (Has-append_right (tx, frame) w.queued ((tx, frame) ∷ []) (inl refl))

-- What is queued stays queued while the held calls are sent.
sending-stays :
    (tx : ℕ) (x : ℕ × RoomServerFrame) (ps : List Pending) (w : World)
    → Has x w.queued
    → Has x (for_each ps (λ p. send_frame tx (invite_frame p)) w).1.queued
unfolding for_each ◌>>=◌ pure send_frame
sending-stays tx x [] w h = h
sending-stays tx x (p ∷ ps) w h =
    sending-stays tx x ps (send_frame tx (invite_frame p) w).1
      (Has-append_left x w.queued (if w.open_rx tx then (tx, invite_frame p) ∷ [] else []) h)

sending-Has :
    (tx : ℕ) (p : Pending) (ps : List Pending) (w : World)
    → w.open_rx tx ≡ true
    → Has p ps
    → Has (tx, invite_frame p) (for_each ps (λ p. send_frame tx (invite_frame p)) w).1.queued
unfolding for_each ◌>>=◌ pure send_frame
sending-Has tx p [] w e h = elim h [ ]
sending-Has tx p (q ∷ ps) w e h = elim h [
  | inl here ↦
      sending-stays tx (tx, invite_frame p) ps (send_frame tx (invite_frame q) w).1
        (subst (λ r. Has (tx, invite_frame r) (send_frame tx (invite_frame q) w).1.queued) here
          (send_frame-Has tx (invite_frame q) w e))
  | inr later ↦ sending-Has tx p ps (send_frame tx (invite_frame q) w).1 e later
]

-- A member of a room rings the partner, and no database call fails. Whatever the registry then serves
-- that does not end the call, the callee who connects with a live session before 45 seconds have passed
-- is sent the invite.
pub call_invite_arrives :
    (env : Env) (me callee : AccountRecord) (room_id call_id offer name : String) (video : Bool)
    (w later : World) (ops : List Op) (tx : ℕ)
    → w.faults ≡ []
    → w.store ≡ true
    → is_member room_id me.id w.db ≡ true
    → partner_account_id_for me.id w.db ≡ some callee.id
    → partner_username_for me.id w.db ≡ some name
    → All (Leaves callee.id (ringing me room_id call_id offer video w.now)) ops
    → later.pending_calls
      ≡ after (handle_call_invite env me room_id call_id offer video w).1.pending_calls ops
    → later.now < w.now + 45000
    → later.open_rx tx ≡ true
    → Has
        (tx, Wire.RoomServerFrame.call_invite room_id call_id me.username offer video)
        (deliver_pending_calls callee tx later).1.queued
unfolding deliver_pending_calls take_pending ◌>>=◌
call_invite_arrives env me callee room_id call_id offer name video w later ops tx hf hs hm hp hn
      leaves same early live =
    let p = ringing me room_id call_id offer video w.now in
    let calls =
      handle_call_invite-calls env me room_id call_id offer video w callee.id name hf hs hm hp hn in
    let start = insert-Has (expire_due w.pending_calls w.now) callee.id p in
    let rings : Has p
        (held (handle_call_invite env me room_id call_id offer video w).1.pending_calls callee.id) =
      rw calls start in
    let waits : Has p (held later.pending_calls callee.id) =
      rw same (after-Has _ callee.id p ops leaves rings) in
    let taken = take_for-Has later.pending_calls callee.id later.now p early waits in
    sending-Has tx p (take_for later.pending_calls callee.id later.now).0
      (record later { pending_calls = (take_for later.pending_calls callee.id later.now).1 }) live
      taken
