-- ===== src/Server/RateLimit.antt =====
-- The sliding-window limiter of server/src/ws.rs, one for each connection and kind of frame.
-- Instants and windows are milliseconds; `duration_since` of a later instant is zero, as `-` is.
pub mod Window
use little_love.Prelude.{
  ℕ, ◌-◌, Bool, true, false, List, [], ◌∷◌, ◌++◌, ltb, leb, length, if◌then◌else◌,
}

pub record WindowRateLimiter : Type 0 where
  pub hits : List ℕ
  pub window : ℕ
  pub max : ℕ

abbrev pub new : ℕ → ℕ → WindowRateLimiter
new window max = record { hits = []; window = window; max = max }

-- The `while let`: pop from the front what has left the window.
unfoldable pub drop_stale : ℕ → ℕ → List ℕ → List ℕ
drop_stale window now [] = []
drop_stale window now (front ∷ hits) =
    if ltb window (now - front) then drop_stale window now hits else front ∷ hits

-- Record an attempt, or refuse it without recording it.
unfoldable pub allow : WindowRateLimiter → ℕ → Bool × WindowRateLimiter
allow rl now =
    let hits = drop_stale rl.window now rl.hits in
    if leb rl.max (length hits)
    then (false, record rl { hits = hits })
    else (true, record rl { hits = hits ++ now ∷ [] })

abbrev pub upload_rl : WindowRateLimiter
upload_rl = new 60000 60

abbrev pub typing_rl : WindowRateLimiter
typing_rl = new 10000 40

abbrev pub turn_rl : WindowRateLimiter
turn_rl = new 60000 10
