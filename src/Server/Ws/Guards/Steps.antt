-- ===== src/Server/Ws/Guards/Steps.antt =====
-- The checks of the handlers hand on what they have found out: rules from a stronger assertion.
use little_love.Prelude.{ℕ, ◌≡◌, ◌∙◌, sym, refl, Bool, true, false, String, arith}
use little_love.Server.Db.{Db, Result, ok, err}
use little_love.Server.Accounts.{AccountRecord}
use little_love.Server.Wire.{ErrorCode, internal, unknown_room}
use little_love.Server.Rooms.Queries.{is_member}
use little_love.Server.World.{Env, ◌>>=◌, gets, query, draw_ulid}
use little_love.Server.World.Triples.{
  Triple, Triple-pure, Triple-bind, Triple-query, Triple-gets, Triple-fail, Triple-if,
}
use little_love.Server.Ws.Guards.{need_store, or_internal, check, need_member}

-- The answer of a query, once it is known not to be a failure.
abbrev pub Known : {A : Type 0} → (Db → Type 0) → (Db → A) → A → Db → Type 0
Known P f a db = P db × (a ≡ f db)

module _ {E : Db → Type 0} where
  -- `or_internal` hands on what is known of the answer.
  pub or_internal-Step :
      {A : Type 0} {P : Db → Type 0} {Q : A → Db → Type 0} (tx : ℕ) (r : Result A)
      → ((db : Db) → P db → E db)
      → ((a : A) → r ≡ ok a → (db : Db) → P db → Q a db)
      → Triple P (or_internal tx r) Q E
  unfolding or_internal
  or_internal-Step tx (ok a) keep h = Triple-pure a (h a refl)
  or_internal-Step tx (err e) keep h = Triple-fail tx internal "" keep

  pub query-Step :
      {A : Type 0} {P : Db → Type 0} (f : Db → A) (tx : ℕ)
      → ((db : Db) → P db → E db)
      → Triple P (query f >>= or_internal tx) (Known P f) E
  query-Step f tx keep =
      Triple-bind (query f) (or_internal tx) (Triple-query f) (λ r.
        or_internal-Step tx r (λ db p. keep db p.0) (λ a e db p. (p.0, ground (arith, e, p.1))))

  -- After a check its test holds.
  pub check-Step :
      {P Q : Db → Type 0} (b : Bool) (tx : ℕ) (c : ErrorCode) (t : String)
      → ((db : Db) → P db → E db)
      → ((db : Db) → b ≡ true → P db → Q db)
      → Triple P (check b tx c t) (λ _. Q) E
  unfolding check
  check-Step true tx c t k h = Triple-pure tt (λ db. h db refl)
  check-Step false tx c t k h = Triple-fail tx c t k

  pub need_store-Step :
      {P : Db → Type 0} (tx : ℕ) → ((db : Db) → P db → E db) → Triple P (need_store tx) (λ _. P) E
  unfolding need_store
  need_store-Step tx keep =
      Triple-bind (gets (λ w. w.store)) _ (Triple-gets (λ w. w.store))
        (λ store. Triple-if store _ _ (Triple-pure tt (λ db p. p)) (Triple-fail tx internal _ keep))

  pub need_member-Step :
      {P : Db → Type 0} (me : AccountRecord) (room_id : String) (tx : ℕ)
      → ((db : Db) → P db → E db)
      → Triple P (need_member me room_id tx) (λ _ db. P db × (is_member room_id me.id db ≡ true)) E
  unfolding need_member
  need_member-Step {P = P} me room_id tx keep =
      let test = is_member room_id me.id in
      Triple-bind (query test) _ (Triple-query test) (λ answer.
        Triple-bind {Q = Known P test} (or_internal tx answer) _
          (or_internal-Step tx answer (λ db p. keep db p.0)
            (λ a e db p. (p.0, ground (arith, e, p.1))))
          (λ member.
            check-Step member tx unknown_room "" (λ db p. keep db p.0)
              (λ db e p. (p.0, sym p.1 ∙ e))))

  pub draw_ulid-Step : {P : Db → Type 0} (env : Env) → Triple P (draw_ulid env) (λ _. P) E
  unfolding draw_ulid
  draw_ulid-Step env = record { at = λ w p. p }
