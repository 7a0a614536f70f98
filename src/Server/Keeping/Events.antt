-- ===== src/Server/Keeping/Events.antt =====
-- The events of the server.
use little_love.Prelude.{
  ℕ, Bool, String, Option, none, some, List, [], ◌∷◌, nat_Eq, find, Bool-cases, inl, inr,
}
use little_love.Server.Db.{Db}
use little_love.Server.Accounts.{AccountRecord}
use little_love.Server.Wire
use little_love.Server.Wire.{RoomClientFrame}
use little_love.Server.World.{World, Env, Act, Task, send_error}
use little_love.Server.World.Triples.{Ends, Keeps-pure, Keeps-send_frame}
use little_love.Server.Routing.{unregister}
use little_love.Server.Ws.Presence.{announce_presence_on_connect, announce_presence_on_disconnect}
use little_love.Server.Ws.Calls.{deliver_pending_calls}
use little_love.Server.Ws.Sending.{notify_recipient}
use little_love.Server.Ws.Guards.Keeping.{guard_rules}
use little_love.Server.Ws.Handshake.{IdentifyPayload, handshake}
use little_love.Server.Ws.Session.{
  Limiters, dispatch, refuse, on_frame, send_rooms, open_session, on_connect, on_disconnect, admit,
}
use little_love.Server.Rest.{CreateAccountRequest, create_account}
use little_love.Server.System.{
  System, Session, Event, sign_up, connect, receive, disconnect, run_task, pass_time, inject, step,
  run, run_first, admit_session, receive_on, disconnect_on, on_channel,
}
use little_love.Server.World.Triples.{Keeps}
use little_love.Server.Ws.Sending.{Bodies, handle_send}
use little_love.Server.Ws.Rooms.{handle_create_room}
use little_love.Server.Ws.Pairing.{handle_create_invite, handle_consume_invite}
use little_love.Server.Keeping.{Quiet}
use little_love.Server.Keeping.Signalling.{
  handle_typing-Keeps, announce_presence_on_connect-Keeps, announce_presence_on_disconnect-Keeps,
  handle_call_turn_request-Keeps, forward_call_to_partner-Keeps, handle_call_invite-Keeps,
  handle_call_hangup-Keeps, deliver_pending_calls-Keeps,
}
use little_love.Server.Keeping.Reading.{
  handle_subscribe-Keeps, handle_mark_read-Keeps, notify_recipient-Keeps,
}
use little_love.Server.Keeping.Contents.{
  handle_request_upload-Keeps, handle_request_download-Keeps, handle_publish_profile-Keeps,
  register_push-Keeps, unregister_push-Keeps, handle_rename_room-Keeps, handle_leave_room-Keeps,
}

-- The handlers whose statements may ask more of the tables than `P`.
pub record Handlers (P : Db → Type 0) : Type 0 where
  pub sign_up : (env : Env) (req : CreateAccountRequest) → Keeps P (create_account env req)
  pub create_invite :
      (env : Env) (me : AccountRecord) (tx : ℕ) → Keeps P (handle_create_invite env me tx)
  pub consume_invite :
      (env : Env) (me : AccountRecord) (code : List ℕ) (signature : String) (tx : ℕ)
      → Keeps P (handle_consume_invite env me code signature tx)
  pub create_room :
      (env : Env) (me : AccountRecord) (requested : Option String) (wanted : Bool) (tx : ℕ)
      → Keeps P (handle_create_room env me requested wanted tx)
  pub send :
      (env : Env) (me : AccountRecord) (room_id : String) (bodies : Bodies) (c : String) (tx : ℕ)
      → Keeps P (handle_send env me room_id bodies c tx)

-- One action keeps both of two properties that it keeps.
Ends-both :
    {A : Type 0} (P Q : Db → Type 0) (r : Option A) (db : Db)
    → Ends (λ _. P) P r db
    → Ends (λ _. Q) Q r db
    → Ends (λ _ db. P db × Q db) (λ db. P db × Q db) r db
Ends-both P Q none db p q = (p, q)
Ends-both P Q (some a) db p q = (p, q)

pub Keeps-both :
    {A : Type 0} (P Q : Db → Type 0) (m : Act A)
    → Keeps P m
    → Keeps Q m
    → Keeps (λ db. P db × Q db) m
Keeps-both P Q m kp kq = record {
  at = λ w h. Ends-both P Q (m w).0 (m w).1.db (kp.at w h.0) (kq.at w h.1);
}

pub Quiet-both : {P Q : Db → Type 0} → Quiet P → Quiet Q → Quiet (λ db. P db × Q db)
Quiet-both p q = record {
  touches = λ id now db h. (p.touches id now db h.0, q.touches id now db h.1);
  marks = λ lt r reader up_to now db h.
      (p.marks lt r reader up_to now db h.0, q.marks lt r reader up_to now db h.1);
  attaches = λ key r uploader size db h.
      (p.attaches key r uploader size db h.0, q.attaches key r uploader size db h.1);
  profiles = λ id envelope avatar now db h.
      (p.profiles id envelope avatar now db h.0, q.profiles id envelope avatar now db h.1);
  tokens = λ id device token environment kind db h. (
    p.tokens id device token environment kind db h.0,
    q.tokens id device token environment kind db h.1,
  );
  devices = λ id device db h. (p.devices id device db h.0, q.devices id device db h.1);
  values = λ id token db h. (p.values id token db h.0, q.values id token db h.1);
  renames =
      λ r name db after e h. (p.renames r name db after e h.0, q.renames r name db after e h.1);
  leaves = λ r id db h. (p.leaves r id db h.0, q.leaves r id db h.1);
}

module _ {P : Db → Type 0} (q : Quiet P) (h : Handlers P) where
  dispatch-Keeps :
      (env : Env) (me : AccountRecord) (tx : ℕ) (frame : RoomClientFrame)
      → Keeps P (dispatch env me tx frame)
  unfolding dispatch
  dispatch-Keeps env me tx Wire.RoomClientFrame.create_invite = h.create_invite env me tx
  dispatch-Keeps env me tx (Wire.RoomClientFrame.consume_invite code signature) =
      h.consume_invite env me code signature tx
  dispatch-Keeps env me tx (Wire.RoomClientFrame.subscribe r since) =
      handle_subscribe-Keeps q env me r since tx
  dispatch-Keeps env me tx (Wire.RoomClientFrame.send r bodies c) = h.send env me r bodies c tx
  dispatch-Keeps env me tx (Wire.RoomClientFrame.create_room name p) =
      h.create_room env me name p tx
  dispatch-Keeps env me tx (Wire.RoomClientFrame.rename_room r name) =
      handle_rename_room-Keeps q me r name tx
  dispatch-Keeps env me tx (Wire.RoomClientFrame.leave_room r) = handle_leave_room-Keeps q me r tx
  dispatch-Keeps env me tx (Wire.RoomClientFrame.mark_read r up_to) =
      handle_mark_read-Keeps q env me r up_to tx
  dispatch-Keeps env me tx (Wire.RoomClientFrame.typing r on) = handle_typing-Keeps q me r on
  dispatch-Keeps env me tx (Wire.RoomClientFrame.publish_profile e a) =
      handle_publish_profile-Keeps q env me e a tx
  dispatch-Keeps env me tx (Wire.RoomClientFrame.request_upload request r n) =
      handle_request_upload-Keeps q env me request r n tx
  dispatch-Keeps env me tx (Wire.RoomClientFrame.request_download k) =
      handle_request_download-Keeps q env me k tx
  dispatch-Keeps env me tx (Wire.RoomClientFrame.register_push d t e k) =
      register_push-Keeps q me d t e k
  dispatch-Keeps env me tx (Wire.RoomClientFrame.unregister_push d) = unregister_push-Keeps q me d
  dispatch-Keeps env me tx (Wire.RoomClientFrame.call_turn_request c) =
      handle_call_turn_request-Keeps q env me c tx
  dispatch-Keeps env me tx (Wire.RoomClientFrame.call_invite r c o v) =
      handle_call_invite-Keeps q env me r c o v
  dispatch-Keeps env me tx (Wire.RoomClientFrame.call_answer r c a) =
      forward_call_to_partner-Keeps q me (Wire.RoomServerFrame.call_answer r c a)
  dispatch-Keeps env me tx (Wire.RoomClientFrame.call_ice r c a) =
      forward_call_to_partner-Keeps q me (Wire.RoomServerFrame.call_ice r c a)
  dispatch-Keeps env me tx (Wire.RoomClientFrame.call_hangup r c a) =
      handle_call_hangup-Keeps q me r c a

  -- The tables after an action, however it ends.
  ended : {A : Type 0} (r : Option A) (db : Db) → Ends (λ _. P) P r db → P db
  ended none db h = h
  ended (some a) db h = h

  after-Keeps : {A : Type 0} (m : Act A) (w : World) → Keeps P m → P w.db → P (m w).1.db
  after-Keeps m w s k = ended (m w).0 (m w).1.db (s.at w k)

  refuse-Keeps : (frame : RoomClientFrame) (tx : ℕ) → Keeps P (refuse frame tx)
  unfolding refuse send_error
  refuse-Keeps (Wire.RoomClientFrame.typing r on) tx = Keeps-pure tt
  refuse-Keeps frame tx = Keeps-send_frame tx _

  on_frame-Keeps :
      (env : Env) (me : AccountRecord) (tx : ℕ) (frame : RoomClientFrame) (l : Limiters) (w : World)
      → P w.db
      → P (on_frame env me tx frame l w).1.db
  unfolding on_frame
  on_frame-Keeps env me tx frame l w k = elim (Bool-cases (admit frame w.now l).0) [
    | inl e ↦ rw e (after-Keeps (dispatch env me tx frame) w (dispatch-Keeps env me tx frame) k)
    | inr e ↦ rw e (after-Keeps (refuse frame tx) w (refuse-Keeps frame tx) k)
  ]

  send_rooms-Keeps : (env : Env) (me : AccountRecord) (tx : ℕ) → Keeps P (send_rooms env me tx)
  unfolding send_rooms
  send_rooms-Keeps env me tx = search guard_rules depth 20

  open_session-Keeps : (username : String) (tx : ℕ) → Keeps P (open_session username tx)
  unfolding open_session
  open_session-Keeps username tx = record { at = λ w k. k }

  on_connect-Keeps :
      (env : Env) (me : AccountRecord) (tx : ℕ) (w : World) → P w.db → P (on_connect env me tx w).db
  unfolding on_connect
  on_connect-Keeps env me tx w k =
      let opened = (open_session me.username tx w).1 in
      let listed = (send_rooms env me tx opened).1 in
      let announced = (announce_presence_on_connect env me tx listed).1 in
      after-Keeps (deliver_pending_calls me tx) announced (deliver_pending_calls-Keeps q me tx) (
        after-Keeps (announce_presence_on_connect env me tx) listed
          (announce_presence_on_connect-Keeps q env me tx)
          (after-Keeps (send_rooms env me tx) opened (send_rooms-Keeps env me tx)
            (after-Keeps (open_session me.username tx) w (open_session-Keeps me.username tx) k)))

  on_disconnect-Keeps :
      (me : AccountRecord) (tx : ℕ) (w : World) → P w.db → P (on_disconnect me tx w).db
  unfolding on_disconnect
  on_disconnect-Keeps me tx w k =
      after-Keeps (announce_presence_on_disconnect me)
        (record w { routing = unregister w.routing me.username tx })
        (announce_presence_on_disconnect-Keeps q me) k

  handshake-Keeps :
      (env : Env) (nonce : List ℕ) (first : Option IdentifyPayload)
      → Keeps P (handshake env nonce first)
  unfolding handshake
  handshake-Keeps env nonce first = search guard_rules depth 20

  -- Each event keeps the property.
  pub step-Keeps : (env : Env) (e : Event) (s : System) → P s.world.db → P (step env e s).world.db
  unfolding step admit_session receive_on disconnect_on run_first
  step-Keeps env (sign_up req) s k =
      after-Keeps (create_account env req) s.world (h.sign_up env req) k
  step-Keeps env (connect tx nonce first) s k =
      admitted (handshake env nonce first s.world).0 (handshake env nonce first s.world).1
        (after-Keeps (handshake env nonce first) s.world (handshake-Keeps env nonce first) k)
    where
      admitted :
          (answer : Option AccountRecord) (w : World)
          → P w.db
          → P (admit_session env tx answer w s.sessions).world.db
      admitted none w h = h
      admitted (some me) w h = on_connect-Keeps env me tx w h
  step-Keeps env (receive tx frame) s k = received (find (on_channel tx) s.sessions)
    where
      received : (o : Option Session) → P (receive_on env tx frame o s).world.db
      received none = k
      received (some session) = on_frame-Keeps env session.me tx frame session.limiters s.world k
  step-Keeps env (disconnect tx) s k = left (find (on_channel tx) s.sessions)
    where
      left : (o : Option Session) → P (disconnect_on tx o s).world.db
      left none = k
      left (some session) = on_disconnect-Keeps session.me tx s.world k
  step-Keeps env run_task s k = ran s.world.tasks
    where
      ran : (tasks : List Task) → P (run_first env tasks s.world).db
      ran [] = k
      ran (t ∷ tasks) =
          after-Keeps (notify_recipient env t.recipient_account_id t.room_id)
            (record s.world { tasks = tasks })
            (notify_recipient-Keeps q env t.recipient_account_id t.room_id) k
  step-Keeps env (pass_time ms) s k = k
  step-Keeps env (inject faults) s k = k

  pub run-Keeps :
      (env : Env) (events : List Event) (s : System) → P s.world.db → P (run env events s).world.db
  unfolding run
  run-Keeps env [] s k = k
  run-Keeps env (e ∷ events) s k = run-Keeps env events (step env e s) (step-Keeps env e s k)
