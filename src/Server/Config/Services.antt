-- ===== src/Server/Config/Services.antt =====
-- Which services server/src/main.rs runs, by the environment.
use little_love.Prelude.{
  ◌≡◌, refl, String, Bool, true, ◌&&◌, Option, none, some, List, [], ◌∷◌, string_Eq, all,
}
use little_love.Server.World.{World}
use little_love.Server.Config.{and_then, get, sentry_from_env, is_some}

-- A variable that is set, and not to the empty text.
abbrev pub is_set : (String → Option String) → String → Bool
is_set vars k = is_some (get vars k)

abbrev pub are_set : (String → Option String) → List String → Bool
are_set vars = all (is_set vars)

is_some-and_then :
    {A B : Type 0} (o : Option A) (f : A → Option B) (b : Bool)
    → ((a : A) → is_some (f a) ≡ b)
    → is_some (and_then o f) ≡ (is_some o && b)
is_some-and_then none f b h = refl
is_some-and_then (some a) f b h = h a

sentry_from_env-is_some :
    (vars : String → Option String)
    → is_some (sentry_from_env vars) ≡ are_set vars ("SENTRY_DSN" ∷ [])
unfolding sentry_from_env
sentry_from_env-is_some vars = is_some-and_then (get vars "SENTRY_DSN") _ true (λ a. refl)
