-- ===== src/Server/Ws/Sending/Effect.antt =====
-- What `handle_send` of server/src/ws.rs stores.
use little_love.Prelude.{
  All-Has, all-elim, map-elim, retain-elim, All-optional, map-append, ℕ, ◌≡◌, ◌⊎◌, refl, subst, inl,
  inr, true, false, String, Option, none, some, List, [], ◌∷◌, ◌++◌, ◌==◌, nat_Eq, string_Eq, map,
  not, All, All-weaken, Bool-cases, if◌then◌else◌, arith,
}
use little_love.Server.Db.{Db, ok}
use little_love.Server.Accounts.{AccountRecord}
use little_love.Server.Store.{MessageRow, insert_many}
use little_love.Server.Store.Landing.{arrived}
use little_love.Server.Rooms.Queries.{Member, is_member, members_for_room}
use little_love.Server.World.{World, Env}
use little_love.Server.Ws.Sending.{
  Bodies, body_for, contains, rows_for, self_rows, other_members, required_keys, fan_out_matches,
  row_for,
}
use little_love.Server.Ws.Sending.Storing.{all_rows, all_rows-All}

abbrev pub keys : Bodies → List String
keys bodies = map (λ b. b.0) bodies

abbrev Holds : String → Bodies → Type 0
Holds key bodies = (body : String) × (body_for key bodies ≡ some body)

-- A key of the frame has a body, another has none.
body_for-cases :
    (key : String) (bodies : Bodies)
    → ((contains key (keys bodies) ≡ true) × Holds key bodies)
      ⊎ ((contains key (keys bodies) ≡ false) × (body_for key bodies ≡ none))
unfolding body_for
body_for-cases key [] = inr (refl, refl)
body_for-cases key (b ∷ bodies) = elim (Bool-cases (b.0 == key)) [
  | inl e ↦ inl (ground (arith, e), (b.1, rw (e, body_for) refl))
  | inr e ↦ rw (e, body_for) (body_for-cases key bodies)
]

-- Rows of one message from `me`.
abbrev pub IsOf : AccountRecord → String → String → ℕ → MessageRow → Type 0
IsOf me room_id id ts row =
    (row.id ≡ id) × (row.room_id ≡ room_id) × (row.from_account_id ≡ me.id) × (row.ts ≡ ts)

-- Whom a row goes to, and what it says.
abbrev pub letter : MessageRow → ℕ × Option String
letter row = (row.recipient_account_id, some row.body)

module _ (env : Env) (me : AccountRecord) (room_id : String) (bodies : Bodies) where
  abbrev pub key_of : Member → String
  key_of m = env.b64_encode m.x25519_pub

  abbrev pub own_key : String
  own_key = env.b64_encode me.x25519_pub

  -- Each other member with the body under the member's key, and oneself if there is a copy.
  abbrev pub letters : List Member → List (ℕ × Option String)
  letters members =
      map (λ m. (m.account_id, body_for (key_of m) bodies)) (other_members me members)
      ++ (if contains own_key (keys bodies) then (me.id, body_for own_key bodies) ∷ [] else [])

  abbrev Expects : Member → Type 0
  Expects m = m.account_id == me.id ≡ false → Holds (key_of m) bodies

  abbrev sent_to : List Member → List (ℕ × Option String)
  sent_to members = map (λ m. (m.account_id, body_for (key_of m) bodies)) (other_members me members)

  rows_for-letter :
      (id : String) (ts : ℕ) (members : List Member)
      → All Expects members
      → map letter (rows_for env me room_id id ts bodies members) ≡ sent_to members
  unfolding rows_for
  rows_for-letter id ts [] h = refl
  rows_for-letter id ts (m ∷ members) h =
      let rest = rows_for env me room_id id ts bodies members in
      let rows = rows_for env me room_id id ts bodies (m ∷ members) in
      let step = rows_for-letter id ts members h.1 in
      elim (Bool-cases (m.account_id == me.id)) [
        | inl e ↦
            let same : rest ≡ rows = ground (arith, e) in
            subst (λ r. map letter r ≡ sent_to (m ∷ members)) same (rw e step)
        | inr e ↦
            let (body, f) = h.0 e in
            let same : row_for env me room_id id ts m.account_id body ∷ rest ≡ rows =
              ground (arith, e, f) in
            subst (λ r. map letter r ≡ sent_to (m ∷ members)) same (rw (e, f, step) refl)
      ]

  Holds-body : (key : String) → contains key (keys bodies) ≡ true → Holds key bodies
  Holds-body key here = elim (body_for-cases key bodies) [
    | inl found ↦ found.1
    | inr lost ↦ ground (arith, here, lost.0)
  ]

  -- A frame that passes the check has a body for each other member.
  matched :
      (members : List Member) → fan_out_matches env me members bodies ≡ true → All Expects members
  matched members e =
      let expected = map key_of (other_members me members) in
      let required = required_keys own_key expected (keys bodies) in
      let there = all-elim (λ k. contains k (keys bodies)) required (ground (arith, e)) in
      let theirs : All (λ k. contains k (keys bodies) ≡ true) expected =
        All-optional (λ k. contains k (keys bodies) ≡ true) (contains own_key (keys bodies)) own_key
          expected there in
      All-weaken
        (λ m. not (m.account_id == me.id) ≡ true → contains (key_of m) (keys bodies) ≡ true) Expects
        members (λ m h f. Holds-body (key_of m) (h (ground (arith, f))))
        (retain-elim (λ m. contains (key_of m) (keys bodies) ≡ true) _ members
          (map-elim (λ k. contains k (keys bodies) ≡ true) key_of (other_members me members)
            theirs))

  self_rows-letter :
      (id : String) (ts : ℕ)
      → map letter (self_rows env me room_id id ts bodies)
        ≡ (if contains own_key (keys bodies) then (me.id, body_for own_key bodies) ∷ [] else [])
  unfolding self_rows
  self_rows-letter id ts = elim (body_for-cases own_key bodies) [
    | inl (e, (body, f)) ↦ rw (e, f, self_rows) refl
    | inr (e, f) ↦ rw (e, f, self_rows) refl
  ]

  all_rows-IsOf :
      (id : String) (ts : ℕ) (members : List Member)
      → All (IsOf me room_id id ts) (all_rows env me room_id id ts bodies members)
  all_rows-IsOf id ts members =
      all_rows-All (IsOf me room_id id ts) env me room_id id ts bodies members
        (All-Has _ members (λ m h ne body. (refl, refl, refl, refl)))
        (λ body. (refl, refl, refl, refl))

  all_rows-letter :
      (id : String) (ts : ℕ) (members : List Member)
      → All Expects members
      → map letter (all_rows env me room_id id ts bodies members) ≡ letters members
  all_rows-letter id ts members h =
      rw (map-append, rows_for-letter id ts members h, self_rows-letter id ts) refl

  -- A message was stored in one transaction: its rows, all of one id and time and from `me`, go to
  -- exactly those that the frame had to address.
  pub record Stored (before after : Db) : Type 0 where
    pub id : String
    pub ts : ℕ
    pub rows : List MessageRow
    pub here : is_member room_id me.id before ≡ true
    pub same : All (IsOf me room_id id ts) rows
    pub addressed : map letter rows ≡ letters (members_for_room room_id before)
    pub stored : All (λ r. arrived after r ≡ true) rows
    pub written : insert_many rows before ≡ (ok tt, after)

  -- A transaction that succeeded, after the checks.
  pub all_rows-Stored :
      (id : String) (ts : ℕ) (before after : Db)
      → let members = members_for_room room_id before in
        is_member room_id me.id before ≡ true
        → fan_out_matches env me members bodies ≡ true
        → All (λ r. arrived after r ≡ true) (all_rows env me room_id id ts bodies members)
        → insert_many (all_rows env me room_id id ts bodies members) before ≡ (ok tt, after)
        → Stored before after
  all_rows-Stored id ts before after here fits stored written =
      let members = members_for_room room_id before in
      record {
        id = id;
        ts = ts;
        rows = all_rows env me room_id id ts bodies members;
        here = here;
        same = all_rows-IsOf id ts members;
        addressed = all_rows-letter id ts members (matched members fits);
        stored = stored;
        written = written;
      }
