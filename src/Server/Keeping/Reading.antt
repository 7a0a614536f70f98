-- ===== src/Server/Keeping/Reading.antt =====
-- The handlers of server/src/ws.rs that read messages, and the task that announces them.
use little_love.Prelude.{ℕ, Bool, String, Option, List, nat_Eq, string_Eq}
use little_love.Server.Db.{Db}
use little_love.Server.Accounts.{AccountRecord}
use little_love.Server.Store.{MessageRow, mark_read}
use little_love.Server.World.{Env, returning}
use little_love.Server.World.Triples.{Keeps-returning}
use little_love.Server.Ws.Guards.Keeping.{guard_rules}
use little_love.Server.Ws.Reading.{
  replay_row, read_backfill, handle_subscribe, relay_read, handle_mark_read,
}
use little_love.Server.Ws.Sending.{notify_recipient}
use little_love.Server.Db.{Db}
use little_love.Server.World.Triples.{Keeps}
use little_love.Server.Keeping.{Quiet}
use little_love.Server.Keeping.Signalling.{push_to-Keeps}

module _ {P : Db → Type 0} (q : Quiet P) where
  replay_row-Keeps : (tx : ℕ) (row : MessageRow) → Keeps P (replay_row tx row)
  unfolding replay_row
  replay_row-Keeps tx row = search guard_rules depth 20

  read_backfill-Keeps :
      (me : AccountRecord) (room_id : String) (ids : List String) (tx : ℕ)
      → Keeps P (read_backfill me room_id ids tx)
  unfolding read_backfill
  read_backfill-Keeps me room_id ids tx = search guard_rules depth 20

  pub handle_subscribe-Keeps :
      (env : Env) (me : AccountRecord) (room_id : String) (since : Option String) (tx : ℕ)
      → Keeps P (handle_subscribe env me room_id since tx)
  unfolding handle_subscribe
  handle_subscribe-Keeps env me room_id since tx =
      search (guard_rules, replay_row-Keeps, read_backfill-Keeps) depth 20

  relay_read-Keeps :
      (me : AccountRecord) (room_id : String) (g : ℕ × List String)
      → Keeps P (relay_read me room_id g)
  unfolding relay_read
  relay_read-Keeps me room_id (sender, ids) = search guard_rules depth 20

  mark_read-Keeps :
      (lt : String → String → Bool) (room_id : String) (reader : ℕ) (up_to : String) (now : ℕ)
      → Keeps P (returning (mark_read lt room_id reader up_to now))
  mark_read-Keeps lt room_id reader up_to now =
      Keeps-returning (mark_read lt room_id reader up_to now) (q.marks lt room_id reader up_to now)

  pub handle_mark_read-Keeps :
      (env : Env) (me : AccountRecord) (room_id up_to : String) (tx : ℕ)
      → Keeps P (handle_mark_read env me room_id up_to tx)
  unfolding handle_mark_read
  handle_mark_read-Keeps env me room_id up_to tx =
      search (guard_rules, mark_read-Keeps, relay_read-Keeps) depth 20

  pub notify_recipient-Keeps :
      (env : Env) (recipient : ℕ) (room_id : String)
      → Keeps P (notify_recipient env recipient room_id)
  unfolding notify_recipient
  notify_recipient-Keeps env recipient room_id = search (guard_rules, push_to-Keeps q) depth 20
