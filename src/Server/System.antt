-- ===== src/Server/System.antt =====
-- The server as its events: server/src/ws.rs's sessions, the REST handlers that change the database,
-- the tasks that handlers spawn, and the clock. A handler is one step; its database calls may fail.
use little_love.Prelude.{
  ℕ, ◌+◌, Bool, not, Option, none, some, List, [], ◌∷◌, ◌==◌, nat_Eq, find, retain,
}
use little_love.Server.Db.{Db}
use little_love.Server.Db
use little_love.Server.Accounts.{AccountRecord}
use little_love.Server.Wire.{RoomClientFrame}
use little_love.Server.World.{World, Env, Task}
use little_love.Server.Rest.{CreateAccountRequest, create_account}
use little_love.Server.Ws.Handshake.{IdentifyPayload, handshake}
use little_love.Server.Ws.Sending.{notify_recipient}
use little_love.Server.Ws.Session.{Limiters, fresh, on_frame, on_connect, on_disconnect}

-- A task of `handle_socket` past its handshake.
pub record Session : Type 0 where
  pub tx : ℕ
  pub me : AccountRecord
  pub limiters : Limiters

pub record System : Type 0 where
  pub world : World
  pub sessions : List Session

pub data Event : Type 0 where
  sign_up : CreateAccountRequest → Event
  -- channel, nonce, first message
  connect : ℕ → List ℕ → Option IdentifyPayload → Event
  -- channel, frame
  receive : ℕ → RoomClientFrame → Event
  disconnect : ℕ → Event
  run_task : Event
  pass_time : ℕ → Event
  -- which of the next database calls fail
  inject : List Bool → Event

abbrev pub on_channel : ℕ → Session → Bool
on_channel tx s = s.tx == tx

abbrev pub other_sessions : ℕ → List Session → List Session
other_sessions tx = retain (λ s. not (on_channel tx s))

-- The handshake's answer; a refused one leaves no session.
unfoldable pub admit_session : Env → ℕ → Option AccountRecord → World → List Session → System
unfolding on_connect
admit_session env tx none w sessions = record { world = w; sessions = sessions }
admit_session env tx (some me) w sessions = record {
  world = on_connect env me tx w;
  sessions = record { tx = tx; me = me; limiters = fresh } ∷ other_sessions tx sessions;
}

unfoldable pub receive_on : Env → ℕ → RoomClientFrame → Option Session → System → System
unfolding on_frame
receive_on env tx frame none s = s
receive_on env tx frame (some session) s =
    let (limiters, w) = on_frame env session.me tx frame session.limiters s.world in
    record {
      world = w;
      sessions = record session { limiters = limiters } ∷ other_sessions tx s.sessions;
    }

unfoldable pub disconnect_on : ℕ → Option Session → System → System
unfolding on_disconnect
disconnect_on tx none s = s
disconnect_on tx (some session) s = record {
  world = on_disconnect session.me tx s.world;
  sessions = other_sessions tx s.sessions;
}

unfoldable pub run_first : Env → List Task → World → World
unfolding notify_recipient
run_first env [] w = w
run_first env (t ∷ tasks) w =
    (notify_recipient env t.recipient_account_id t.room_id (record w { tasks = tasks })).1

unfoldable pub step : Env → Event → System → System
unfolding create_account handshake admit_session receive_on disconnect_on run_first
step env (sign_up req) s = record s { world = (create_account env req s.world).1 }
step env (connect tx nonce first) s =
    let (answer, w) = handshake env nonce first s.world in admit_session env tx answer w s.sessions
step env (receive tx frame) s = receive_on env tx frame (find (on_channel tx) s.sessions) s
step env (disconnect tx) s = disconnect_on tx (find (on_channel tx) s.sessions) s
step env run_task s = record s { world = run_first env s.world.tasks s.world }
step env (pass_time ms) s = record s { world = record s.world { now = s.world.now + ms } }
step env (inject faults) s = record s { world = record s.world { faults = faults } }

-- The states that the server reaches.
unfoldable pub run : Env → List Event → System → System
unfolding step
run env [] s = s
run env (e ∷ events) s = run env events (step env e s)

-- The server that starts on an empty database, after some events.
abbrev pub reached : Env → List Event → World → Db
reached env events w =
    (run env events (record { world = record w { db = Db.empty }; sessions = [] })).world.db
