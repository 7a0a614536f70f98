-- ===== src/Server/Ws/Guards.antt =====
-- The checks that open the handlers of server/src/ws.rs, each with its error frame and its return.
pub mod Keeping
pub mod Steps
pub mod Runs
use little_love.Prelude.{
  ℕ, String, Bool, true, false, not, Option, none, some, ◌==◌, nat_Eq, if◌then◌else◌,
}
use little_love.Server.Db.{Db, Result, ok, err}
use little_love.Server.Accounts.{AccountRecord}
use little_love.Server.Wire.{ErrorCode, internal, unknown_room, RoomServerFrame}
use little_love.Server.Rooms.Queries.{Member, is_member}
use little_love.Server.World.{
  World, Act, ◌>>=◌, ◌>>◌, pure, stop, gets, query, fail, for_each, deliver_to,
}

-- `state.store.as_ref()` with the error of the handlers that answer.
unfoldable pub need_store : ℕ → Act (Unit {0})
unfolding pure ◌>>=◌ gets fail
need_store tx = do
  store ← gets (λ w. w.store)
  if store then pure tt else fail tx internal "store unavailable"

-- The same for the handlers that return in silence.
unfoldable pub need_store_quietly : Act (Unit {0})
unfolding pure ◌>>=◌ gets stop
need_store_quietly = do store ← gets (λ w. w.store); if store then pure tt else stop

-- `Err(e)`: the internal error.
unfoldable pub or_internal : {A : Type 0} → ℕ → Result A → Act A
unfolding pure fail
or_internal tx (ok a) = pure a
or_internal tx (err e) = fail tx internal ""

unfoldable pub or_stop : {A : Type 0} → Result A → Act A
unfolding pure stop
or_stop (ok a) = pure a
or_stop (err e) = stop

unfoldable pub some_or_stop : {A : Type 0} → Option A → Act A
unfolding pure stop
some_or_stop (some a) = pure a
some_or_stop none = stop

-- `unwrap_or`
abbrev pub result_or : {A : Type 0} → A → Result A → A
result_or default (ok a) = a
result_or default (err e) = default

-- `Ok(Some(_))` against everything else.
abbrev pub found : {A : Type 0} → Result (Option A) → Option A
found (ok a) = a
found (err e) = none

unfoldable pub check : Bool → ℕ → ErrorCode → String → Act (Unit {0})
unfolding pure fail
check b tx code text = if b then pure tt else fail tx code text

-- `match is_member(…)`: not a member is an unknown room.
unfoldable pub need_member : AccountRecord → String → ℕ → Act (Unit {0})
unfolding ◌>>=◌ query is_member or_internal check
need_member me room_id tx = do
  answer ← query (is_member room_id me.id)
  member ← or_internal tx answer
  check member tx unknown_room ""

-- `is_member(…).unwrap_or(false)`
unfoldable pub need_member_or_false : AccountRecord → String → ℕ → Act (Unit {0})
unfolding ◌>>=◌ query is_member check
need_member_or_false me room_id tx = do
  answer ← query (is_member room_id me.id)
  check (result_or false answer) tx unknown_room ""

-- The fan-out to every member but the sender.
unfoldable pub deliver_to_others : AccountRecord → RoomServerFrame → Member → Act (Unit {0})
unfolding pure deliver_to
deliver_to_others me frame m =
    if m.account_id == me.id then pure tt else deliver_to m.username frame
