-- ===== src/Server/Ws/Guards/Keeping.antt =====
-- The checks of the handlers write no table.
use little_love.Prelude.{ℕ, String, Bool, Option, none, some}
use little_love.Server.Db.{Db, Result, ok, err}
use little_love.Server.Accounts.{AccountRecord}
use little_love.Server.Wire.{ErrorCode, RoomServerFrame}
use little_love.Server.Rooms.Queries.{Member}
use little_love.Server.World.{Env, draw_ulid, draw_invite}
use little_love.Server.World.Triples.{
  Triple, Keeps, keeps_rules, Keeps-pure, Keeps-stop, Keeps-fail, Triple-if,
}
use little_love.Server.Ws.Guards.{
  need_store, need_store_quietly, or_internal, or_stop, some_or_stop, check, need_member,
  need_member_or_false, deliver_to_others,
}

module _ {P : Db → Type 0} where
  pub Keeps-need_store : (tx : ℕ) → Keeps P (need_store tx)
  unfolding need_store
  Keeps-need_store tx = search keeps_rules

  pub Keeps-need_store_quietly : Keeps P need_store_quietly
  unfolding need_store_quietly
  Keeps-need_store_quietly = search keeps_rules

  pub Keeps-check :
      (b : Bool) (tx : ℕ) (code : ErrorCode) (text : String) → Keeps P (check b tx code text)
  unfolding check
  Keeps-check b tx code text = search keeps_rules

  pub Keeps-or_internal : {A : Type 0} (tx : ℕ) (r : Result A) → Keeps P (or_internal tx r)
  unfolding or_internal
  Keeps-or_internal tx (ok a) = Keeps-pure a
  Keeps-or_internal tx (err e) = search keeps_rules

  pub Keeps-or_stop : {A : Type 0} (r : Result A) → Keeps P (or_stop r)
  unfolding or_stop
  Keeps-or_stop (ok a) = Keeps-pure a
  Keeps-or_stop (err e) = Keeps-stop

  pub Keeps-some_or_stop : {A : Type 0} (o : Option A) → Keeps P (some_or_stop o)
  unfolding some_or_stop
  Keeps-some_or_stop (some a) = Keeps-pure a
  Keeps-some_or_stop none = Keeps-stop

  pub Keeps-need_member :
      (me : AccountRecord) (room_id : String) (tx : ℕ) → Keeps P (need_member me room_id tx)
  unfolding need_member
  Keeps-need_member me room_id tx = search (keeps_rules, Keeps-or_internal, Keeps-check)

  pub Keeps-need_member_or_false :
      (me : AccountRecord) (room_id : String) (tx : ℕ)
      → Keeps P (need_member_or_false me room_id tx)
  unfolding need_member_or_false
  Keeps-need_member_or_false me room_id tx = search (keeps_rules, Keeps-check)

  pub Keeps-deliver_to_others :
      (me : AccountRecord) (frame : RoomServerFrame) (m : Member)
      → Keeps P (deliver_to_others me frame m)
  unfolding deliver_to_others
  Keeps-deliver_to_others me frame m = search keeps_rules

  pub Keeps-draw_ulid : (env : Env) → Keeps P (draw_ulid env)
  unfolding draw_ulid
  Keeps-draw_ulid env = record { at = λ w p. p }

  pub Keeps-draw_invite : (env : Env) → Keeps P (draw_invite env)
  unfolding draw_invite
  Keeps-draw_invite env = record { at = λ w p. p }

pub ruleset guard_rules = (
  keeps_rules, Keeps-need_store, Keeps-need_store_quietly, Keeps-check, Keeps-or_internal,
  Keeps-or_stop, Keeps-some_or_stop, Keeps-need_member, Keeps-need_member_or_false,
  Keeps-deliver_to_others, Keeps-draw_ulid, Keeps-draw_invite,
)
