-- ===== src/Server/World/Triples.antt =====
-- What a handler's action does to the database: from `P`, the result and the tables satisfy `Q`, and
-- after an early return the tables satisfy `E`.
use little_love.Prelude.{
  ◌≡◌, ◌⊎◌, inl, inr, refl, Bool, true, false, String, Option, none, some, List, [], ◌∷◌, ℕ,
  if◌then◌else◌,
}
use little_love.Server.Db.{Db, Result, ok, err, io}
use little_love.Server.Wire.{RoomServerFrame, ErrorCode, error}
use little_love.Server.World.{
  World, Act, ◌>>=◌, continue, match_some, pure, stop, gets, call_db, execute, query, returning,
  update, commit, committed, send_frame, send_error, deliver_to, fail, for_each,
}

abbrev pub Ends : {A : Type 0} → (A → Db → Type 0) → (Db → Type 0) → Option A → Db → Type 0
Ends Q E none db = E db
Ends Q E (some a) db = Q a db

pub record Triple {A : Type 0} (P : Db → Type 0) (m : Act A) (Q : A → Db → Type 0) (E : Db → Type 0)
    : Type 0 where
  pub at : (w : World) → P w.db → Ends Q E (m w).0 (m w).1.db

abbrev pub Keeps : {A : Type 0} → (Db → Type 0) → Act A → Type 0
Keeps P m = Triple P m (λ _. P) P

module _ {A : Type 0} {P : Db → Type 0} {E : Db → Type 0} where
  pub Triple-pure :
      {Q : A → Db → Type 0} (a : A) → ((db : Db) → P db → Q a db) → Triple P (pure a) Q E
  unfolding pure
  Triple-pure a h = record { at = λ w p. h w.db p }

  pub Triple-stop : {Q : A → Db → Type 0} → ((db : Db) → P db → E db) → Triple P (stop {A = A}) Q E
  unfolding stop
  Triple-stop h = record { at = λ w p. h w.db p }

  pub Triple-gets : (f : World → A) → Triple P (gets f) (λ _. P) E
  unfolding gets
  Triple-gets f = record { at = λ w p. p }

  Ends-silent :
      {before after : Db} (r : Option A)
      → after ≡ before
      → ((db : Db) → P db → E db)
      → P before
      → Ends (λ _. P) E r after
  Ends-silent none e h p = h _ (rw e p)
  Ends-silent (some a) e h p = rw e p

  -- An action that writes no table.
  pub Triple-silent :
      (m : Act A)
      → ((w : World) → (m w).1.db ≡ w.db)
      → ((db : Db) → P db → E db)
      → Triple P m (λ _. P) E
  Triple-silent m same h = record { at = λ w p. Ends-silent (m w).0 (same w) h p }

  -- A transaction: what it answers and leaves behind, and a failure of the database.
  pub Triple-execute :
      {Q : Result A → Db → Type 0} (f : Db → Result A × Db)
      → ((db : Db) → P db → Q (f db).0 (f db).1)
      → ((db : Db) → P db → Q (err io) db)
      → Triple P (execute f) Q E
  unfolding execute call_db
  Triple-execute {Q = Q} f h failed = record { at = λ w p. called w.faults w p }
    where
      called :
          (faults : List Bool) (w : World)
          → P w.db
          → Ends Q E (call_db faults f w).0 (call_db faults f w).1.db
      called [] w p = h w.db p
      called (true ∷ later) w p = failed w.db p
      called (false ∷ later) w p = h w.db p

  pub Triple-query :
      (f : Db → A) → Triple P (query f) (λ r db. P db × ((r ≡ ok (f db)) ⊎ (r ≡ err io))) E
  unfolding query
  Triple-query f = record {
    at =
        (Triple-execute (λ db. (ok (f db), db)) (λ db p. (p, inl refl)) (λ db p. (p, inr refl))).at;
  }

module _ {A B : Type 0} {R : B → Db → Type 0} {E : Db → Type 0} where
  continued :
      {Q : A → Db → Type 0} (r : Option A) (f : A → Act B) (w : World)
      → Ends Q E r w.db
      → ((a : A) → Triple (Q a) (f a) R E)
      → Ends R E (continue r f w).0 (continue r f w).1.db
  continued none f w p h = p
  continued (some a) f w p h = (h a).at w p

  pub Triple-bind :
      {P : Db → Type 0} {Q : A → Db → Type 0} (m : Act A) (f : A → Act B)
      → Triple P m Q E
      → ((a : A) → Triple (Q a) (f a) R E)
      → Triple P (m >>= f) R E
  unfolding ◌>>=◌
  Triple-bind m f t h = record { at = λ w p. continued (m w).0 f (m w).1 (t.at w p) h }

  pub Triple-match_some :
      {P : Db → Type 0} (o : Option A) (m : Act B) (f : A → Act B)
      → Triple P m R E
      → ((a : A) → Triple P (f a) R E)
      → Triple P (match_some o m f) R E
  unfolding match_some
  Triple-match_some none m f tm tf = tm
  Triple-match_some (some a) m f tm tf = tf a

stronger :
    {A : Type 0} (E : Db → Type 0) {S Q : A → Db → Type 0} (r : Option A) (db : Db)
    → ((a : A) (db : Db) → S a db → Q a db)
    → Ends S E r db
    → Ends Q E r db
stronger E none db h e = e
stronger E (some a) db h e = h a db e

module _ {A : Type 0} {P : Db → Type 0} {Q : A → Db → Type 0} {E : Db → Type 0} where
  pub Triple-if :
      (b : Bool) (m n : Act A) → Triple P m Q E → Triple P n Q E → Triple P (if b then m else n) Q E
  Triple-if true m n tm tn = tm
  Triple-if false m n tm tn = tn

  -- From more, to less.
  pub Triple-weaken :
      {O : Db → Type 0} {S : A → Db → Type 0} (m : Act A)
      → ((db : Db) → P db → O db)
      → ((a : A) (db : Db) → S a db → Q a db)
      → Triple O m S E
      → Triple P m Q E
  Triple-weaken m pre post t = record {
    at = λ w p. stronger E (m w).0 (m w).1.db post (t.at w (pre w.db p));
  }

pub Triple-fail :
    {A : Type 0} {P : Db → Type 0} {Q : A → Db → Type 0} {E : Db → Type 0} (tx : ℕ)
    (code : ErrorCode) (text : String)
    → ((db : Db) → P db → E db)
    → Triple P (fail tx code text) Q E
unfolding fail send_error send_frame stop ◌>>=◌
Triple-fail tx code text h = record { at = λ w p. h w.db p }

pub Triple-returning :
    {A : Type 0} {P : Db → Type 0} {Q : Result A → Db → Type 0} {E : Db → Type 0} (f : Db → A × Db)
    → ((db : Db) → P db → Q (ok (f db).0) (f db).1)
    → ((db : Db) → P db → Q (err io) db)
    → Triple P (returning f) Q E
unfolding returning
Triple-returning f h failed = record {
  at = (Triple-execute (λ db. (ok (f db).0, (f db).1)) h failed).at;
}

-- A transaction that may give up, from a stronger assertion.
pub Triple-commit :
    {P K : Db → Type 0} (f : Db → Result Db)
    → ((db : Db) → P db → K db)
    → ((db after : Db) → f db ≡ ok after → P db → K after)
    → Triple P (commit f) (λ _. K) K
unfolding commit
Triple-commit {P = P} {K = K} f weak h = record {
  at =
      (Triple-execute {E = K} {Q = λ _. K} (λ db. committed (f db) db)
        (λ db p. kept (f db) db refl p) weak).at;
}
  where
    kept : (r : Result Db) (db : Db) → f db ≡ r → P db → K (committed r db).1
    kept (ok after) db e p = h db after e p
    kept (err c) db e p = weak db p

-- Actions that keep `P`, whether they go on or return.
module _ {P : Db → Type 0} where
  pub Keeps-send_frame : (tx : ℕ) (frame : RoomServerFrame) → Keeps P (send_frame tx frame)
  unfolding send_frame
  Keeps-send_frame tx frame = record { at = λ w p. p }

  pub Keeps-deliver_to :
      (username : String) (frame : RoomServerFrame) → Keeps P (deliver_to username frame)
  unfolding deliver_to
  Keeps-deliver_to username frame = record { at = λ w p. p }

  pub Keeps-update : (f : Db → Db) → ((db : Db) → P db → P (f db)) → Keeps P (update f)
  unfolding update
  Keeps-update f h = record { at = (Triple-execute {E = P} (λ db. (ok tt, f db)) h (λ db p. p)).at }

  pub Keeps-commit :
      (f : Db → Result Db)
      → ((db after : Db) → f db ≡ ok after → P db → P after)
      → Keeps P (commit f)
  unfolding commit
  Keeps-commit f h = record {
    at =
        (Triple-execute {E = P} (λ db. committed (f db) db) (λ db p. kept (f db) db refl p)
          (λ db p. p)).at;
  }
    where
      kept : (r : Result Db) (db : Db) → f db ≡ r → P db → P (committed r db).1
      kept (ok after) db e p = h db after e p
      kept (err e) db e' p = p

  pub Keeps-for_each :
      {A : Type 0} (xs : List A) (f : A → Act (Unit {0}))
      → ((a : A) → Keeps P (f a))
      → Keeps P (for_each xs f)
  unfolding for_each
  Keeps-for_each [] f h = Triple-pure tt (λ db p. p)
  Keeps-for_each (a ∷ rest) f h =
      Triple-bind (f a) (λ _. for_each rest f) (h a) (λ _. Keeps-for_each rest f h)

module _ {A : Type 0} {P : Db → Type 0} where
  pub Keeps-pure : (a : A) → Keeps P (pure a)
  Keeps-pure a = Triple-pure a (λ db p. p)

  pub Keeps-stop : Keeps P (stop {A = A})
  Keeps-stop = Triple-stop (λ db p. p)

  pub Keeps-gets : (f : World → A) → Keeps P (gets f)
  Keeps-gets = Triple-gets

  pub Keeps-query : (f : Db → A) → Keeps P (query f)
  Keeps-query f = Triple-weaken (query f) (λ db p. p) (λ r db s. s.0) (Triple-query f)

  pub Keeps-execute :
      (f : Db → Result A × Db) → ((db : Db) → P db → P (f db).1) → Keeps P (execute f)
  Keeps-execute f h = Triple-execute f h (λ db p. p)

  pub Keeps-returning : (f : Db → A × Db) → ((db : Db) → P db → P (f db).1) → Keeps P (returning f)
  unfolding returning
  Keeps-returning f h = record {
    at = (Triple-execute {E = P} (λ db. (ok (f db).0, (f db).1)) h (λ db p. p)).at;
  }

  pub Keeps-fail : (tx : ℕ) (code : ErrorCode) (text : String) → Keeps P (fail {A = A} tx code text)
  unfolding fail send_error
  Keeps-fail tx code text =
      Triple-bind (send_error tx code text) (λ _. stop) (Keeps-send_frame tx (error code text))
        (λ _. Keeps-stop)

module _ {A B : Type 0} {P : Db → Type 0} where
  pub Keeps-bind :
      (m : Act A) (f : A → Act B) → Keeps P m → ((a : A) → Keeps P (f a)) → Keeps P (m >>= f)
  Keeps-bind m f t h = Triple-bind m f t h

  pub Keeps-match_some :
      (o : Option A) (m : Act B) (f : A → Act B)
      → Keeps P m
      → ((a : A) → Keeps P (f a))
      → Keeps P (match_some o m f)
  Keeps-match_some = Triple-match_some

pub Keeps-if :
    {A : Type 0} {P : Db → Type 0} (b : Bool) (m n : Act A)
    → Keeps P m
    → Keeps P n
    → Keeps P (if b then m else n)
Keeps-if = Triple-if

pub ruleset keeps_rules = (
  Keeps-pure, Keeps-stop, Keeps-gets, Keeps-query, Keeps-send_frame, Keeps-deliver_to, Keeps-fail,
  Keeps-for_each, Keeps-bind, Keeps-match_some, Keeps-if,
)
