-- ===== src/Server/Calls/Sweep.antt =====
-- The sweep of server/src/calls.rs, `expire_due`, against the registry without it.
use little_love.Prelude.{
  Bool, ℕ, ◌≤◌, ◌≡◌, refl, ap₂, not, List, [], ◌∷◌, arith, ◌==◌, string_Eq, retain, retain-append,
  All,
}
use little_love.Server.Calls.{Pending, PendingCalls, still_valid, expire_due}
use little_love.Server.Calls.Refinement.{
  held, Op, inserts, takes, removes, expires, step, run, held-insert, held-take_for, held-remove,
  held-expire_due, take_for-eq-retain,
}

retain_later :
    (early now : ℕ) (ps : List Pending)
    → early ≤ now
    → retain (still_valid now) (retain (still_valid early) ps) ≡ retain (still_valid now) ps
retain_later early now [] h = refl
retain_later early now (p ∷ ps) h = ground (arith, retain_later early now ps h)

-- Nothing is handed out before `early`.
abbrev pub NotBefore : ℕ → Op → Type 0
NotBefore early (inserts callee p) = Unit {0}
NotBefore early (takes callee now) = early ≤ now
NotBefore early (removes callee call_id) = Unit {0}
NotBefore early (expires now) = Unit {0}

-- Each callee has the same invites that are still valid at `early`.
abbrev Agree : ℕ → PendingCalls → PendingCalls → Type 0
Agree early swept calls =
    (j : ℕ) → retain (still_valid early) (held swept j) ≡ retain (still_valid early) (held calls j)

retain-commutes :
    (p q : Pending → Bool) (ps : List Pending) → retain p (retain q ps) ≡ retain q (retain p ps)
retain-commutes p q [] = refl
retain-commutes p q (x ∷ ps) = ground (arith, retain-commutes p q ps)

step-Agree :
    (early : ℕ) (swept calls : PendingCalls) (op : Op)
    → Agree early swept calls
    → Agree early (step swept op).1 (step calls op).1
unfolding step
step-Agree early swept calls (inserts callee p) a j = ground (
  arith,
  a j,
  held-insert swept callee j p,
  held-insert calls callee j p,
  retain-append (still_valid early) (held swept j) (p ∷ []),
  retain-append (still_valid early) (held calls j) (p ∷ []),
)
step-Agree early swept calls (takes callee now) a j =
    ground (arith, a j, held-take_for swept callee now j, held-take_for calls callee now j)
step-Agree early swept calls (removes callee call_id) a j =
    let stays : Pending → Bool = λ p. not (p.call_id == call_id) in
    ground (
      arith,
      a j,
      held-remove swept callee j call_id,
      held-remove calls callee j call_id,
      retain-commutes (still_valid early) stays (held swept j),
      retain-commutes (still_valid early) stays (held calls j),
    )
step-Agree early swept calls (expires now) a j = ground (
  arith,
  a j,
  held-expire_due swept now j,
  held-expire_due calls now j,
  retain-commutes (still_valid early) (still_valid now) (held swept j),
  retain-commutes (still_valid early) (still_valid now) (held calls j),
)

step-Agree_output :
    (early : ℕ) (swept calls : PendingCalls) (op : Op)
    → Agree early swept calls
    → NotBefore early op
    → (step swept op).0 ≡ (step calls op).0
unfolding step
step-Agree_output early swept calls (takes callee now) a h = ground (
  arith,
  a callee,
  take_for-eq-retain swept callee now,
  take_for-eq-retain calls callee now,
  retain_later early now (held swept callee) h,
  retain_later early now (held calls callee) h,
)
step-Agree_output early swept calls _ a h = refl

Agree-run :
    (early : ℕ) (swept calls : PendingCalls) (ops : List Op)
    → Agree early swept calls
    → All (NotBefore early) ops
    → run swept ops ≡ run calls ops
unfolding run
Agree-run early swept calls [] a h = refl
Agree-run early swept calls (op ∷ ops) a h =
    ap₂ ◌∷◌ (step-Agree_output early swept calls op a h.0) (
      Agree-run early (step swept op).1 (step calls op).1 ops (step-Agree early swept calls op a)
        h.1)

-- A sweep is not seen by anybody: whatever the registry serves afterwards, if invites are handed out at
-- the time of the sweep or later, each call hands out the same with the sweep as without it.
pub run-expire_due :
    (calls : PendingCalls) (early : ℕ) (ops : List Op)
    → All (NotBefore early) ops
    → run (expire_due calls early) ops ≡ run calls ops
run-expire_due calls early ops h =
    Agree-run early (expire_due calls early) calls ops
      (λ j. ground (
        arith,
        held-expire_due calls early j,
        retain_later early early (held calls j) (omega arith),
      ))
      h
