-- ===== src/Server/Ws/Sending/Storing.antt =====
-- `handle_send` of server/src/ws.rs from what holds before it to what its rows leave behind.
use little_love.Prelude.{
  ◌≢◌, [], ◌∷◌, ◌==◌, All, All-append, subst, inl, inr, Bool-cases, Option-cases, ℕ, ◌≡◌, Bool,
  true, String, List, ◌++◌, nat_Eq, string_Eq, length, all, leb, arith,
}
use Prim.Native.String.{len}
use little_love.Server.Db.{Db, Result}
use little_love.Server.Accounts.{AccountRecord}
use little_love.Server.Store.{MessageRow, insert_many}
use little_love.Server.Rooms.Queries.{Member, is_member, members_for_room}
use little_love.Server.World.{Env, ◌>>◌, gets, query, execute, draw_ulid, for_each}
use little_love.Server.World.Triples.{Triple, Keeps, Triple-bind, Triple-gets, Triple-query}
use little_love.Server.Wire.{body_too_large, fan_out_mismatch}
use little_love.Server.Ws.Guards.{need_store, need_member, or_internal, check}
use little_love.Server.Ws.Guards.Keeping.{guard_rules}
use little_love.Server.Ws.Guards.Steps.{
  Known, or_internal-Step, check-Step, need_store-Step, need_member-Step, draw_ulid-Step,
}
use little_love.Server.Ws.Sending.{
  Bodies, body_for, row_for, rows_for, self_rows, deliver_body, echo_self, handle_send,
  fan_out_matches, max_send_recipients, max_body_bytes,
}
use little_love.Server.Keeping.Sending.{deliver_body-Keeps, echo_self-Keeps}

-- What the checks have found out when the rows are written.
pub record Cleared (P : Db → Type 0) (env : Env) (me : AccountRecord) (room_id : String)
    (bodies : Bodies) (members : List Member) (db : Db) : Type 0 where
  pub holds : P db
  pub here : is_member room_id me.id db ≡ true
  pub listed : members ≡ members_for_room room_id db
  pub matched : fan_out_matches env me members bodies ≡ true

abbrev pub all_rows :
    Env → AccountRecord → String → String → ℕ → Bodies → List Member → List MessageRow
all_rows env me room_id id ts bodies members =
    rows_for env me room_id id ts bodies members ++ self_rows env me room_id id ts bodies

-- What holds of each row that one may be sent holds of all that are written.
module _ (P : MessageRow → Type 0) (env : Env) (me : AccountRecord) (room_id id : String) (ts : ℕ)
    (bodies : Bodies) where
  pub rows_for-All :
      (members : List Member)
      → All
          (λ m.
            m.account_id ≢ me.id
            → (body : String) → P (row_for env me room_id id ts m.account_id body))
          members
      → All P (rows_for env me room_id id ts bodies members)
  unfolding rows_for
  rows_for-All [] h = tt
  rows_for-All (m ∷ members) h =
      let rest = rows_for env me room_id id ts bodies members in
      let rows = rows_for env me room_id id ts bodies (m ∷ members) in
      let kept = rows_for-All members h.1 in
      elim (Bool-cases (m.account_id == me.id)) [
        | inl e ↦ let same : rest ≡ rows = ground (arith, e) in subst (All P) same kept
        | inr e ↦ elim (Option-cases (body_for (env.b64_encode m.x25519_pub) bodies)) [
          | inl f ↦ let same : rest ≡ rows = ground (arith, e, f) in subst (All P) same kept
          | inr (body, f) ↦
              let same : row_for env me room_id id ts m.account_id body ∷ rest ≡ rows =
                ground (arith, e, f) in
              subst (All P) same (h.0 (λ g. ground (arith, e, g)) body, kept)
        ]
      ]

  pub self_rows-All :
      ((body : String) → P (row_for env me room_id id ts me.id body))
      → All P (self_rows env me room_id id ts bodies)
  unfolding self_rows
  self_rows-All h = elim (Option-cases (body_for (env.b64_encode me.x25519_pub) bodies)) [
    | inl f ↦ rw (f, self_rows) tt
    | inr (body, f) ↦ rw (f, self_rows) (h body, tt)
  ]

  pub all_rows-All :
      (members : List Member)
      → All
          (λ m.
            m.account_id ≢ me.id
            → (body : String) → P (row_for env me room_id id ts m.account_id body))
          members
      → ((body : String) → P (row_for env me room_id id ts me.id body))
      → All P (all_rows env me room_id id ts bodies members)
  all_rows-All members h own =
      All-append P (rows_for env me room_id id ts bodies members)
        (self_rows env me room_id id ts bodies) (rows_for-All members h) (self_rows-All own)

module _ {P W : Db → Type 0} (keep : (db : Db) → P db → W db) where
  size-Step :
      (b : Bool) (tx : ℕ) (text : String) → Triple P (check b tx body_too_large text) (λ _. P) W
  size-Step b tx text = check-Step b tx body_too_large text keep (λ db e p. p)

  pub tell-Keeps :
      (env : Env) (me : AccountRecord) (room_id id : String) (ts : ℕ) (bodies : Bodies) (c : String)
      (tx : ℕ) (members : List Member) (stored : Result (Unit {0}))
      → Keeps W (do
        or_internal tx stored
        for_each members (deliver_body env me room_id id ts bodies)
        echo_self env me room_id id ts bodies c)
  tell-Keeps env me room_id id ts bodies c tx members stored =
      search (guard_rules, deliver_body-Keeps, echo_self-Keeps) depth 24

  -- An early return leaves what holds before; else the rows of the cleared frame are written.
  pub handle_send-Triple :
      (env : Env) (me : AccountRecord) (room_id : String) (bodies : Bodies) (c : String) (tx : ℕ)
      → ((id : String) (ts : ℕ) (members : List Member)
          → Triple
              (Cleared P env me room_id bodies members)
              (execute (insert_many (all_rows env me room_id id ts bodies members)))
              (λ _. W)
              W)
      → Triple P (handle_send env me room_id bodies c tx) (λ _. W) W
  unfolding handle_send
  handle_send-Triple env me room_id bodies c tx store =
      let listed = members_for_room room_id in
      let few = leb (length bodies) max_send_recipients in
      let small = all (λ b. leb (len b.1) max_body_bytes) bodies in
      let Here : Db → Type 0 = λ db. P db × (is_member room_id me.id db ≡ true) in
      Triple-bind (need_store tx) _ (need_store-Step tx keep) (λ _.
        Triple-bind (check few tx body_too_large "too many recipients") _
          (size-Step few tx "too many recipients")
          (λ _.
            Triple-bind (check small tx body_too_large "ciphertext too large") _
              (size-Step small tx "ciphertext too large")
              (λ _.
                Triple-bind (need_member me room_id tx) _ (need_member-Step me room_id tx keep)
                  (λ _. Triple-bind (query listed) _ (Triple-query listed) (λ answer.
                    Triple-bind {Q = Known Here listed} (or_internal tx answer) _
                      (or_internal-Step tx answer (λ db p. keep db p.0.0)
                        (λ a e db p. (p.0, ground (arith, e, p.1))))
                      (λ members.
                        Triple-bind
                          (check (fan_out_matches env me members bodies) tx fan_out_mismatch "") _
                          (check-Step {Q = Cleared P env me room_id bodies members}
                            (fan_out_matches env me members bodies) tx fan_out_mismatch ""
                            (λ db p. keep db p.0.0)
                            (λ db e p. record {
                              holds = p.0.0;
                              here = p.0.1;
                              listed = p.1;
                              matched = e;
                            }))
                          (λ _. Triple-bind (draw_ulid env) _ (draw_ulid-Step env) (λ id.
                            Triple-bind (gets (λ w. w.now)) _ (Triple-gets (λ w. w.now)) (λ ts.
                              Triple-bind (execute _) _ (store id ts members) (λ stored.
                                tell-Keeps env me room_id id ts bodies c tx members stored))))))))))
