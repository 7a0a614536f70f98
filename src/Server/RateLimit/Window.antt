-- ===== src/Server/RateLimit/Window.antt =====
-- What the limiter promises: it is the limiter that remembers every accepted attempt, and no window
-- of its length, wherever it starts, holds more accepted attempts than the limit.
use little_love.Prelude.{
  ℕ, ◌+◌, ◌≤◌, ◌<◌, ◌≡◌, refl, ap₂, ◌∙◌, Bool, ◌&&◌, List, [], ◌∷◌, ◌++◌, arith, ltb, leb, length,
  retain, retain-append, if◌then◌else◌, All, All-append, ltb→lt, sym, Bool-cases, inl, inr,
}
use mathlib.Core.List.{append-nil, append_assoc}
use little_love.Server.RateLimit.{WindowRateLimiter, new, drop_stale, allow}

-- The decisions on a sequence of attempts.
pub decisions : WindowRateLimiter → List ℕ → List Bool
decisions rl [] = []
decisions rl (now ∷ later) = let (ok, rl') = allow rl now in ok ∷ decisions rl' later

-- Attempts among `times` that lie in the window that ends at `now`.
abbrev pub recent : ℕ → ℕ → List ℕ → ℕ
recent window now times = length (retain (λ t. leb now (t + window)) times)

-- The specification: accept if fewer than `max` accepted attempts lie in the window that ends now.
pub spec_decisions : ℕ → ℕ → List ℕ → List ℕ → List Bool
spec_decisions window max accepted [] = []
spec_decisions window max accepted (now ∷ later) =
    let ok = ltb (recent window now accepted) max in
    ok ∷ spec_decisions window max (if ok then accepted ++ now ∷ [] else accepted) later

-- Times that do not fall.
abbrev pub Ascending : ℕ → List ℕ → Type 0
Ascending t [] = Unit {0}
Ascending t (u ∷ us) = (t ≤ u) × Ascending u us

-- On a rising queue the loop drops exactly the stale hits.
all_fresh :
    (window now t : ℕ) (hits : List ℕ)
    → Ascending t hits
    → now ≤ t + window
    → retain (λ u. leb now (u + window)) hits ≡ hits
all_fresh window now t [] h f = refl
all_fresh window now t (u ∷ hits) h f = ground (arith, all_fresh window now u hits h.1)

drop_stale-eq-retain :
    (window now t : ℕ) (hits : List ℕ)
    → Ascending t hits
    → drop_stale window now hits ≡ retain (λ u. leb now (u + window)) hits
unfolding drop_stale
drop_stale-eq-retain window now t [] h = refl
drop_stale-eq-retain window now t (u ∷ hits) h =
    ground (arith, drop_stale-eq-retain window now u hits h.1, all_fresh window now u hits h.1)

Ascending-mono : (s t : ℕ) (us : List ℕ) → s ≤ t → Ascending t us → Ascending s us
Ascending-mono s t [] h a = tt
Ascending-mono s t (u ∷ us) h a = (omega arith, a.1)

retain-Ascending : (p : ℕ → Bool) (t : ℕ) (us : List ℕ) → Ascending t us → Ascending t (retain p us)
retain-Ascending p t [] a = tt
retain-Ascending p t (u ∷ us) a =
    ground (arith, retain-Ascending p u us a.1, Ascending-mono t u (retain p us))

append-Ascending :
    (t now : ℕ) (us : List ℕ)
    → Ascending t us
    → All (λ u. u ≤ now) us
    → t ≤ now
    → Ascending t (us ++ now ∷ [])
append-Ascending t now [] a b h = (h, tt)
append-Ascending t now (u ∷ us) a b h = (a.0, append-Ascending u now us a.1 b.1 b.0)

retain_later :
    (window last now : ℕ) (us : List ℕ)
    → last ≤ now
    → retain (λ u. leb now (u + window)) (retain (λ u. leb last (u + window)) us)
      ≡ retain (λ u. leb now (u + window)) us
retain_later window last now [] h = refl
retain_later window last now (u ∷ us) h = ground (arith, retain_later window last now us h)

All-le_mono : (s t : ℕ) (us : List ℕ) → s ≤ t → All (λ u. u ≤ s) us → All (λ u. u ≤ t) us
All-le_mono s t [] h a = tt
All-le_mono s t (u ∷ us) h a = (omega arith, All-le_mono s t us h a.1)

-- The queue is the part of the accepted attempts that was fresh at the last call.
record Tracks (rl : WindowRateLimiter) (accepted : List ℕ) (last : ℕ) : Type 0 where
  queue : rl.hits ≡ retain (λ u. leb last (u + rl.window)) accepted
  ascending : Ascending 0 accepted
  past : All (λ u. u ≤ last) accepted

module _ {rl : WindowRateLimiter} {accepted : List ℕ} {last : ℕ} (now : ℕ) (h : last ≤ now) where
  fresh_hits :
      Tracks rl accepted last
      → drop_stale rl.window now rl.hits ≡ retain (λ u. leb now (u + rl.window)) accepted
  fresh_hits t =
      rw
        (
          t.queue,
          drop_stale-eq-retain rl.window now 0 (retain (λ u. leb last (u + rl.window)) accepted)
              (retain-Ascending (λ u. leb last (u + rl.window)) 0 accepted t.ascending),
        )
        (retain_later rl.window last now accepted h)

  allow-eq-ltb :
      Tracks rl accepted last → (allow rl now).0 ≡ ltb (recent rl.window now accepted) rl.max
  unfolding allow
  allow-eq-ltb t = rw (fresh_hits t) (ground arith)

  refused-Tracks :
      Tracks rl accepted last
      → Tracks (record rl { hits = drop_stale rl.window now rl.hits }) accepted now
  refused-Tracks t = record {
    queue = fresh_hits t;
    ascending = t.ascending;
    past = All-le_mono last now accepted h t.past;
  }

  accepted-Tracks :
      Tracks rl accepted last
      → Tracks
          (record rl { hits = drop_stale rl.window now rl.hits ++ now ∷ [] })
          (accepted ++ now ∷ [])
          now
  accepted-Tracks t = record {
    queue =
        ground
          (arith, fresh_hits t, retain-append (λ u. leb now (u + rl.window)) accepted (now ∷ []));
    ascending =
        append-Ascending 0 now accepted t.ascending (All-le_mono last now accepted h t.past)
          (omega arith);
    past =
        All-append (λ u. u ≤ now) accepted (now ∷ []) (All-le_mono last now accepted h t.past)
          (omega arith, tt);
  }

  allow-Tracks :
      Tracks rl accepted last
      → Tracks (allow rl now).1 (if (allow rl now).0 then accepted ++ now ∷ [] else accepted) now
  unfolding allow
  allow-Tracks t = elim (Bool-cases (leb rl.max (length (drop_stale rl.window now rl.hits)))) [
    | inl full ↦ rw full (refused-Tracks t)
    | inr room ↦ rw room (accepted-Tracks t)
  ]

allow-window :
    (rl : WindowRateLimiter) (now : ℕ)
    → ((allow rl now).1.window ≡ rl.window) × ((allow rl now).1.max ≡ rl.max)
unfolding allow
allow-window rl now = ground arith

decisions-Tracks :
    (rl : WindowRateLimiter) (accepted times : List ℕ) (last : ℕ)
    → Tracks rl accepted last
    → Ascending last times
    → decisions rl times ≡ spec_decisions rl.window rl.max accepted times
unfolding decisions spec_decisions
decisions-Tracks rl accepted [] last t a = refl
decisions-Tracks rl accepted (now ∷ later) last t a =
    let e = allow-eq-ltb now a.0 t in
    let ih = decisions-Tracks (allow rl now).1 _ later now (allow-Tracks now a.0 t) a.1 in
    ap₂ ◌∷◌ e (rw ((allow-window rl now).0, (allow-window rl now).1, e) at ih)

-- At instants that do not fall, a fresh limiter accepts an attempt exactly when fewer than `max`
-- of the attempts accepted so far lie in the window that ends at the attempt.
pub decisions-eq-spec :
    (window max : ℕ) (times : List ℕ)
    → Ascending 0 times
    → decisions (new window max) times ≡ spec_decisions window max [] times
decisions-eq-spec window max times a =
    decisions-Tracks (new window max) [] times 0
      (record { queue = refl; ascending = tt; past = tt }) a

-- The attempts that a limiter accepts, oldest first.
pub accepted_times : WindowRateLimiter → List ℕ → List ℕ
accepted_times rl [] = []
accepted_times rl (now ∷ later) =
    let (ok, rl') = allow rl now in
    let rest = accepted_times rl' later in if ok then now ∷ rest else rest

-- How many of `times` lie in the window of this length that begins at `start`.
abbrev pub in_window : ℕ → ℕ → List ℕ → ℕ
in_window start window times = length (retain (λ t. leb start t && leb t (start + window)) times)

in_window-le-recent :
    (start window now : ℕ) (times : List ℕ)
    → now ≤ start + window
    → in_window start window times ≤ recent window now times
in_window-le-recent start window now [] h = omega arith
in_window-le-recent start window now (t ∷ times) h =
    ground (arith, in_window-le-recent start window now times h)

in_window-append :
    (start window now : ℕ) (times : List ℕ)
    → in_window start window (times ++ now ∷ [])
      ≡ in_window start window times + (if leb start now && leb now (start + window) then 1 else 0)
in_window-append start window now [] = ground arith
in_window-append start window now (t ∷ times) =
    ground (arith, in_window-append start window now times)

-- One more accepted attempt keeps every window within the limit.
in_window-accept :
    (start window max now : ℕ) (times : List ℕ)
    → recent window now times < max
    → in_window start window times ≤ max
    → in_window start window (times ++ now ∷ []) ≤ max
in_window-accept start window max now times r h =
    ground
      (arith, in_window-append start window now times, in_window-le-recent start window now times)

window_bound_from :
    (start : ℕ) (rl : WindowRateLimiter) (accepted times : List ℕ) (last : ℕ)
    → Tracks rl accepted last
    → Ascending last times
    → in_window start rl.window accepted ≤ rl.max
    → in_window start rl.window (accepted ++ accepted_times rl times) ≤ rl.max
unfolding accepted_times
window_bound_from start rl accepted [] last t a h = rw append-nil h
window_bound_from start rl accepted (now ∷ later) last t a h = elim (Bool-cases (allow rl now).0) [
  | inl ok ↦ ground (
    arith,
    ok,
    allow-window rl now,
    append_assoc accepted (now ∷ []) (accepted_times (allow rl now).1 later),
    window_bound_from start (allow rl now).1 (accepted ++ now ∷ []) later now
        (rw ok at (allow-Tracks now a.0 t)) a.1
        (rw ((allow-window rl now).0, (allow-window rl now).1)
          (in_window-accept start rl.window rl.max now accepted
            (ltb→lt _ _ (sym (allow-eq-ltb now a.0 t) ∙ ok)) h)),
  )
  | inr full ↦ ground (
    arith,
    full,
    allow-window rl now,
    window_bound_from start (allow rl now).1 accepted later now
        (rw full at (allow-Tracks now a.0 t)) a.1
        (rw ((allow-window rl now).0, (allow-window rl now).1) h),
  )
]

-- Whatever the attempts, at instants that do not fall, a window of the limiter's length holds at most
-- `max` accepted attempts, wherever it begins.
pub window_bound :
    (start window max : ℕ) (times : List ℕ)
    → Ascending 0 times
    → in_window start window (accepted_times (new window max) times) ≤ max
window_bound start window max times a =
    window_bound_from start (new window max) [] times 0
      (record { queue = refl; ascending = tt; past = tt }) a (omega arith)
