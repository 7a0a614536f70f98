-- ===== src/Server/Keeping/Sending.antt =====
-- `handle_send` of server/src/ws.rs.
use little_love.Prelude.{ℕ, String, List, nat_Eq, string_Eq}
use little_love.Server.Db.{Db}
use little_love.Server.Accounts.{AccountRecord}
use little_love.Server.Store.{MessageRow, insert_many}
use little_love.Server.Rooms.Queries.{Member}
use little_love.Server.World.{Env, execute}
use little_love.Server.World.Triples.{Keeps-execute}
use little_love.Server.Ws.Guards.Keeping.{guard_rules}
use little_love.Server.Ws.Sending.{Bodies, spawn_notify, deliver_body, echo_self, handle_send}
use little_love.Server.Db.{Db}
use little_love.Server.World.Triples.{Keeps}
use little_love.Server.Keeping.{Mail}

module _ {P : Db → Type 0} where
  spawn_notify-Keeps :
      (env : Env) (me : AccountRecord) (room_id : String) (recipient : ℕ)
      → Keeps P (spawn_notify env me room_id recipient)
  unfolding spawn_notify
  spawn_notify-Keeps env me room_id recipient = record { at = λ w k. k }

  pub deliver_body-Keeps :
      (env : Env) (me : AccountRecord) (room_id id : String) (ts : ℕ) (bodies : Bodies) (m : Member)
      → Keeps P (deliver_body env me room_id id ts bodies m)
  unfolding deliver_body
  deliver_body-Keeps env me room_id id ts bodies m =
      search (guard_rules, spawn_notify-Keeps) depth 20

  pub echo_self-Keeps :
      (env : Env) (me : AccountRecord) (room_id id : String) (ts : ℕ) (bodies : Bodies) (c : String)
      → Keeps P (echo_self env me room_id id ts bodies c)
  unfolding echo_self
  echo_self-Keeps env me room_id id ts bodies c = search guard_rules depth 20

module _ {P : Db → Type 0} (mail : Mail P) where
  insert_many-Keeps : (rows : List MessageRow) → Keeps P (execute (insert_many rows))
  insert_many-Keeps rows = Keeps-execute (insert_many rows) (mail.sends rows)

  pub handle_send-Keeps :
      (env : Env) (me : AccountRecord) (room_id : String) (bodies : Bodies) (c : String) (tx : ℕ)
      → Keeps P (handle_send env me room_id bodies c tx)
  unfolding handle_send
  handle_send-Keeps env me room_id bodies c tx =
      search (guard_rules, insert_many-Keeps, deliver_body-Keeps, echo_self-Keeps) depth 24
