-- ===== src/Server/Ws/Sending/Accepted.antt =====
-- A frame that `handle_send` of server/src/ws.rs has no reason to refuse is stored.
use little_love.Prelude.{
  ℕ, ◌≡◌, ◌≤◌, ◌∙◌, refl, ap, Bool, true, String, Option, none, some, List, [], ◌∷◌, leb, length,
  all, All, arith, if◌then◌else◌,
}
use Prim.Native.String.{len}
use little_love.Server.Db.{Db, Result, ok}
use little_love.Server.Accounts.{AccountRecord}
use little_love.Server.Store.{insert_many}
use little_love.Server.Rooms.Queries.{is_member, members_for_room}
use little_love.Server.Wire.{ErrorCode, internal, unknown_room, body_too_large, fan_out_mismatch}
use little_love.Server.World.{
  World, Env, Act, ◌>>=◌, ◌>>◌, pure, gets, query, execute, call_db, draw_ulid, fail, for_each,
}
use little_love.Server.World.Triples.{Ends}
use little_love.Server.Ws.Guards.{need_store, need_member, or_internal, check}
use little_love.Server.Ws.Guards.Runs.{Runs, bind-Runs, query-Runs}
use little_love.Server.Ws.Sending.{
  Bodies, fan_out_matches, handle_send, max_send_recipients, max_body_bytes, deliver_body,
  echo_self,
}
use little_love.Server.Ws.Sending.Storing.{all_rows, tell-Keeps}

check-Runs :
    (b : Bool) (tx : ℕ) (code : ErrorCode) (text : String) (w : World)
    → b ≡ true
    → Runs (check b tx code text) w tt w
unfolding check pure
check-Runs b tx code text w e = rw e refl

need_store-Runs : (tx : ℕ) (w : World) → w.store ≡ true → Runs (need_store tx) w tt w
unfolding need_store gets pure
need_store-Runs tx w e =
    bind-Runs (gets (λ w. w.store))
      (λ store. if store then pure tt else fail tx internal "store unavailable") w w w.store refl
    ∙ rw e refl

need_member-Runs :
    (me : AccountRecord) (room_id : String) (tx : ℕ) (w : World)
    → w.faults ≡ []
    → is_member room_id me.id w.db ≡ true
    → Runs (need_member me room_id tx) w tt w
unfolding need_member or_internal pure
need_member-Runs me room_id tx w nf e =
    bind-Runs (query (is_member room_id me.id)) _ w w (ok (is_member room_id me.id w.db))
      (query-Runs (is_member room_id me.id) w nf)
    ∙ bind-Runs (or_internal tx (ok (is_member room_id me.id w.db)))
        (λ member. check member tx unknown_room "") w w (is_member room_id me.id w.db) refl
    ∙ check-Runs (is_member room_id me.id w.db) tx unknown_room "" w e

all_small :
    (bodies : Bodies)
    → All (λ b. len b.1 ≤ 98304) bodies
    → all (λ b. leb (len b.1) max_body_bytes) bodies ≡ true
all_small [] h = refl
all_small (b ∷ bodies) h = ground (arith, h.0, all_small bodies h.1)

execute-Runs :
    {A : Type 0} (f : Db → Result A × Db) (w : World)
    → w.faults ≡ []
    → Runs (execute f) w (f w.db).0 (record w { db = (f w.db).1 })
unfolding execute call_db
execute-Runs f w nf = called w.faults nf
  where
    called :
        (faults : List Bool)
        → faults ≡ []
        → call_db faults f w ≡ (some (f w.db).0, record w { db = (f w.db).1 })
    called [] e = refl
    called (b ∷ later) e = absurd (cc e)

-- When no database call fails, a member's frame with at most 16 bodies of at most 98304 bytes each, for
-- exactly the other members and maybe oneself, is not dropped: the rows of a new message go to the store,
-- with the next id and the time of the server.
pub handle_send_runs :
    (env : Env) (me : AccountRecord) (room_id : String) (bodies : Bodies) (c : String) (tx : ℕ)
    (w : World)
    → w.faults ≡ []
    → w.store ≡ true
    → length bodies ≤ 16
    → All (λ b. len b.1 ≤ 98304) bodies
    → is_member room_id me.id w.db ≡ true
    → fan_out_matches env me (members_for_room room_id w.db) bodies ≡ true
    → (handle_send env me room_id bodies c tx w).1.db
      ≡ (insert_many
          (all_rows env me room_id (env.ulid w.ulids) w.now bodies (members_for_room room_id w.db))
          w.db).1
unfolding handle_send or_internal draw_ulid gets ◌>>=◌ pure
handle_send_runs env me room_id bodies c tx w hf hs hl hb hm hx =
    let listed = members_for_room room_id in
    let members = listed w.db in
    let rows = all_rows env me room_id (env.ulid w.ulids) w.now bodies members in
    let few = leb (length bodies) max_send_recipients in
    let small = all (λ b. leb (len b.1) max_body_bytes) bodies in
    let drawn : World = (draw_ulid env w).1 in
    let stored = (insert_many rows w.db).0 in
    let v : World = record drawn { db = (insert_many rows w.db).1 } in
    let tell : String → ℕ → Result (Unit {0}) → Act (Unit {0}) = λ id ts stored. (do
      or_internal tx stored
      for_each members (deliver_body env me room_id id ts bodies)
      echo_self env me room_id id ts bodies c) in
    let save : String → ℕ → Act (Unit {0}) = λ id ts. (do
      answer ← execute (insert_many (all_rows env me room_id id ts bodies members))
      tell id ts answer) in
    let time : String → Act (Unit {0}) = λ id. (do ts ← gets (λ w. w.now); save id ts) in
    let begin : Act (Unit {0}) = (do id ← draw_ulid env; time id) in
    let matches = check (fan_out_matches env me members bodies) tx fan_out_mismatch "" in
    let ran : handle_send env me room_id bodies c tx w ≡ tell (env.ulid w.ulids) w.now stored v =
      bind-Runs (need_store tx) _ w w tt (need_store-Runs tx w hs)
      ∙ bind-Runs (check few tx body_too_large "too many recipients") _ w w tt
          (check-Runs few tx _ _ w (ground (arith, hl)))
      ∙ bind-Runs (check small tx body_too_large "ciphertext too large") _ w w tt
          (check-Runs small tx _ _ w (all_small bodies hb))
      ∙ bind-Runs (need_member me room_id tx) _ w w tt (need_member-Runs me room_id tx w hf hm)
      ∙ bind-Runs (query listed) _ w w (ok members) (query-Runs listed w hf)
      ∙ bind-Runs matches (λ _. begin) w w tt
          (check-Runs (fan_out_matches env me members bodies) tx _ _ w hx)
      ∙ bind-Runs (execute (insert_many rows)) (tell (env.ulid w.ulids) w.now) drawn v stored
          (execute-Runs (insert_many rows) drawn hf) in
    let Same : Db → Type 0 = λ db. db ≡ v.db in
    ap (λ r. r.1.db) ran
    ∙ settled Same _ _ (
        (tell-Keeps {P = Same} {W = Same} (λ db e. e) env me room_id (env.ulid w.ulids) w.now bodies
            c tx members stored).at
          v refl)
  where
    settled : (W : Db → Type 0) (r : Option (Unit {0})) (db : Db) → Ends (λ _. W) W r db → W db
    settled W none db h = h
    settled W (some a) db h = h
