-- ===== src/Server/Ws/Sending.antt =====
-- server/src/ws.rs: `handle_send`, and the task that it spawns for each recipient. `bodies` is the
-- frame's map as the list of its entries, whose keys are distinct.
pub mod Accepted
pub mod Effect
pub mod Storing
pub mod Stores
use Prim.Native.String.{len}
use little_love.Prelude.{
  ℕ, String, Bool, false, not, ◌&&◌, Option, none, some, List, [], ◌∷◌, ◌++◌, map, leb, length, all,
  any, retain, ◌==◌, nat_Eq, string_Eq, if◌then◌else◌,
}
use little_love.Server.Accounts.{AccountRecord}
use little_love.Server.Wire.{RoomServerFrame, message, body_too_large, fan_out_mismatch}
use little_love.Server.Store.{MessageRow, insert_many, unread_count}
use little_love.Server.Ledgers.{tokens_for_account}
use little_love.Server.Rooms.Queries.{Member, members_for_room}
use little_love.Server.World.{
  Env, Act, ◌>>=◌, ◌>>◌, match_some, pure, gets, query, execute, deliver_to, draw_ulid, for_each,
  alert,
}
use little_love.Server.Ws.Guards.{need_store, need_member, or_internal, or_stop, result_or, check}
use little_love.Server.Ws.Calls.{push_to}

abbrev pub max_send_recipients : ℕ
max_send_recipients = 16

abbrev pub max_body_bytes : ℕ
max_body_bytes = 98304

abbrev pub Bodies : Type 0
Bodies = List (String × String)

-- `bodies.get(key)`
unfoldable pub body_for : String → Bodies → Option String
body_for key [] = none
body_for key ((k, body) ∷ bodies) = if k == key then some body else body_for key bodies

abbrev pub contains : String → List String → Bool
contains key = any (λ k. k == key)

-- Two hash sets, as lists of their elements, are equal.
abbrev pub same_keys : List String → List String → Bool
same_keys required provided =
    all (λ k. contains k provided) required && all (λ k. contains k required) provided

abbrev pub other_members : AccountRecord → List Member → List Member
other_members me = retain (λ m. not (m.account_id == me.id))

-- `required`: the keys of the others, and one's own if there is a copy to oneself.
abbrev pub required_keys : String → List String → List String → List String
required_keys self_key expected provided =
    if contains self_key provided then self_key ∷ expected else expected

module _ (env : Env) (me : AccountRecord) (room_id : String) where
  -- What one message's rows and frames share.
  abbrev pub row_for : String → ℕ → ℕ → String → MessageRow
  row_for id ts recipient body = record {
    id = id;
    room_id = room_id;
    from_account_id = me.id;
    recipient_account_id = recipient;
    body = body;
    ts = ts;
    read = false;
  }

  abbrev pub frame_for : String → ℕ → String → Option String → RoomServerFrame
  frame_for id ts body client_msg_id = message (record {
    id = id;
    room_id = room_id;
    from = me.username;
    ts = ts;
    body = body;
    replayed = false;
    read = false;
    client_msg_id = client_msg_id;
  })

  -- The rows of the others, in the members' order.
  unfoldable pub rows_for : String → ℕ → Bodies → List Member → List MessageRow
  unfolding body_for
  rows_for id ts bodies [] = []
  rows_for id ts bodies (m ∷ members) =
      let rest = rows_for id ts bodies members in
      if m.account_id == me.id then rest else elim (body_for (env.b64_encode m.x25519_pub) bodies) [
        | none ↦ rest
        | some body ↦ row_for id ts m.account_id body ∷ rest
      ]

  -- The copy to oneself.
  unfoldable pub self_rows : String → ℕ → Bodies → List MessageRow
  unfolding body_for
  self_rows id ts bodies = elim (body_for (env.b64_encode me.x25519_pub) bodies) [
    | none ↦ []
    | some body ↦ row_for id ts me.id body ∷ []
  ]

  unfoldable pub spawn_notify : ℕ → Act (Unit {0})
  spawn_notify recipient w = (
    some tt,
    record w {
      tasks =
          if w.push && w.store
          then w.tasks ++ record { recipient_account_id = recipient; room_id = room_id } ∷ []
          else w.tasks;
    },
  )

  -- The live frame for one member, and the push.
  unfoldable pub deliver_body : String → ℕ → Bodies → Member → Act (Unit {0})
  unfolding match_some ◌>>=◌ pure deliver_to body_for spawn_notify
  deliver_body id ts bodies m =
      if m.account_id == me.id
      then pure tt
      else match_some (body_for (env.b64_encode m.x25519_pub) bodies) (pure tt)
          (λ body. do deliver_to m.username (frame_for id ts body none); spawn_notify m.account_id)

  -- The echo to one's own sessions.
  unfoldable pub echo_self : String → ℕ → Bodies → String → Act (Unit {0})
  unfolding match_some pure deliver_to body_for
  echo_self id ts bodies client_msg_id =
      match_some (body_for (env.b64_encode me.x25519_pub) bodies) (pure tt)
        (λ body. deliver_to me.username (frame_for id ts body (some client_msg_id)))

-- The bodies go to exactly the other members, and maybe to oneself.
abbrev pub fan_out_matches : Env → AccountRecord → List Member → Bodies → Bool
fan_out_matches env me members bodies =
    let provided = map (λ b. b.0) bodies in
    same_keys
      (required_keys (env.b64_encode me.x25519_pub)
        (map (λ m. env.b64_encode m.x25519_pub) (other_members me members)) provided)
      provided

unfoldable pub handle_send : Env → AccountRecord → String → Bodies → String → ℕ → Act (Unit {0})
unfolding match_some ◌>>=◌ gets query execute for_each draw_ulid members_for_room insert_many
    need_store need_member or_internal check rows_for self_rows deliver_body echo_self
handle_send env me room_id bodies client_msg_id tx = do
  need_store tx
  check (leb (length bodies) max_send_recipients) tx body_too_large "too many recipients"
  check (all (λ b. leb (len b.1) max_body_bytes) bodies) tx body_too_large "ciphertext too large"
  need_member me room_id tx
  answer ← query (members_for_room room_id)
  members ← or_internal tx answer
  check (fan_out_matches env me members bodies) tx fan_out_mismatch ""
  id ← draw_ulid env
  ts ← gets (λ w. w.now)
  stored ← execute (
      insert_many
        (rows_for env me room_id id ts bodies members ++ self_rows env me room_id id ts bodies))
  or_internal tx stored
  for_each members (deliver_body env me room_id id ts bodies)
  echo_self env me room_id id ts bodies client_msg_id

-- The task: one push for each device, with the unread count as the badge.
unfoldable pub notify_recipient : Env → ℕ → String → Act (Unit {0})
unfolding match_some ◌>>=◌ query for_each tokens_for_account unread_count or_stop push_to
notify_recipient env recipient room_id = do
  answer ← query (tokens_for_account recipient)
  tokens ← or_stop answer
  count ← query (unread_count recipient)
  for_each tokens (λ t. push_to env recipient (record {
    token = t.apns_token;
    environment = t.environment;
    room_id = room_id;
    badge = result_or 0 count;
    push_type = alert;
    call_id = none;
    video = false;
  }))
