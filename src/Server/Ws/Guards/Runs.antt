-- ===== src/Server/Ws/Guards/Runs.antt =====
-- Handlers' actions that go on, step by step, when no database call fails.
use little_love.Prelude.{◌≡◌, ◌∙◌, refl, Bool, true, Option, some, List, [], ◌∷◌, if◌then◌else◌}
use little_love.Server.Db.{Db, ok}
use little_love.Server.World.{World, Act, ◌>>=◌, pure, stop, gets, query, execute, call_db}
use little_love.Server.Ws.Guards.{need_store_quietly, some_or_stop}

-- An action that goes on from `w` with `a` in `v`.
abbrev pub Runs : {A : Type 0} → Act A → World → A → World → Type 0
Runs m w a v = m w ≡ (some a, v)

pub bind-Runs :
    {A B : Type 0} (m : Act A) (f : A → Act B) (w v : World) (a : A)
    → Runs m w a v
    → (m >>= f) w ≡ f a v
unfolding ◌>>=◌
bind-Runs m f w v a e = rw e refl

pub query-Runs :
    {A : Type 0} (f : Db → A) (w : World) → w.faults ≡ [] → Runs (query f) w (ok (f w.db)) w
unfolding query execute call_db
query-Runs f w nf = answered w.faults nf
  where
    answered :
        (faults : List Bool)
        → faults ≡ []
        → call_db faults (λ db. (ok (f db), db)) w ≡ (some (ok (f w.db)), w)
    answered [] e = refl
    answered (b ∷ later) e = absurd (cc e)

pub some_or_stop-Runs :
    {A : Type 0} (o : Option A) (a : A) (w : World) → o ≡ some a → Runs (some_or_stop o) w a w
unfolding some_or_stop pure
some_or_stop-Runs o a w e = rw e refl

pub need_store-Runs : (w : World) → w.store ≡ true → Runs need_store_quietly w tt w
unfolding need_store_quietly gets pure
need_store-Runs w e =
    bind-Runs (gets (λ w. w.store)) (λ store. if store then pure tt else stop) w w w.store refl
    ∙ rw e refl
