-- ===== src/Server/Calls/Refinement.antt =====
-- `PendingCalls` against a log of addressed invites: what each method does to one callee's invites,
-- and that no client can tell the map from the log.
use little_love.Prelude.{
  ℕ, String, ◌≡◌, refl, ap₂, not, ◌&&◌, List, [], ◌∷◌, ◌++◌, arith, nat_eq_iff, nat_eq, ◌==◌,
  string_Eq, retain, if◌then◌else◌, map,
}
use little_love.Server.HashMap.{or_default}
use little_love.Server.Calls.{
  Pending, PendingCalls, still_valid, insert, take_for, remove, expire_due,
}

-- The invites held for a callee, oldest first.
abbrev pub held : PendingCalls → ℕ → List Pending
held calls callee = or_default (calls callee)

pub data Op : Type 0 where
  inserts : ℕ → Pending → Op
  takes : ℕ → ℕ → Op
  removes : ℕ → String → Op
  expires : ℕ → Op

-- One call of a method: the invites that it hands out, and the map after it.
unfoldable pub step : PendingCalls → Op → List Pending × PendingCalls
step calls (inserts callee p) = ([], insert calls callee p)
step calls (takes callee now) = take_for calls callee now
step calls (removes callee call_id) = ([], remove calls callee call_id)
step calls (expires now) = ([], expire_due calls now)

unfoldable pub run : PendingCalls → List Op → List (List Pending)
run calls [] = []
run calls (op ∷ ops) = let (out, next) = step calls op in out ∷ run next ops

-- The specification: a chronological log of invites and the callees they are addressed to.
abbrev pub Log : Type 0
Log = List (ℕ × Pending)

abbrev pub addressed : Log → ℕ → List Pending
addressed log callee = map (λ e. e.1) (retain (λ e. nat_eq e.0 callee) log)

pub spec_step : Log → Op → List Pending × Log
spec_step log (inserts callee p) = ([], log ++ (callee, p) ∷ [])
spec_step log (takes callee now) =
    (retain (still_valid now) (addressed log callee), retain (λ e. not (nat_eq e.0 callee)) log)
spec_step log (removes callee call_id) =
    ([], retain (λ e. not (nat_eq e.0 callee && (e.1.call_id == call_id))) log)
spec_step log (expires now) = ([], retain (λ e. still_valid now e.1) log)

pub spec_run : Log → List Op → List (List Pending)
spec_run log [] = []
spec_run log (op ∷ ops) = let (out, next) = spec_step log op in out ∷ spec_run next ops

pub held-insert :
    (calls : PendingCalls) (callee j : ℕ) (p : Pending)
    → held (insert calls callee p) j
      ≡ (if nat_eq callee j then held calls j ++ p ∷ [] else held calls j)
unfolding insert
held-insert calls callee j p = ground arith

pub held-take_for :
    (calls : PendingCalls) (callee now j : ℕ)
    → held (take_for calls callee now).1 j ≡ (if nat_eq callee j then [] else held calls j)
unfolding take_for
held-take_for calls callee now j = ground arith

pub take_for-eq-retain :
    (calls : PendingCalls) (callee now : ℕ)
    → (take_for calls callee now).0 ≡ retain (still_valid now) (held calls callee)
unfolding take_for
take_for-eq-retain calls callee now = ground arith

pub held-remove :
    (calls : PendingCalls) (callee j : ℕ) (call_id : String)
    → held (remove calls callee call_id) j ≡ (
        if nat_eq callee j
        then retain (λ p. not (p.call_id == call_id)) (held calls j)
        else held calls j)
unfolding remove
held-remove calls callee j call_id = ground (arith, nat_eq_iff callee j)

pub held-expire_due :
    (calls : PendingCalls) (now j : ℕ)
    → held (expire_due calls now) j ≡ retain (still_valid now) (held calls j)
unfolding expire_due
held-expire_due calls now j = ground arith

addressed-append :
    (log : Log) (callee j : ℕ) (p : Pending)
    → addressed (log ++ (callee, p) ∷ []) j
      ≡ (if nat_eq callee j then addressed log j ++ p ∷ [] else addressed log j)
addressed-append [] callee j p = ground arith
addressed-append (e ∷ log) callee j p = ground (arith, addressed-append log callee j p)

addressed-take :
    (log : Log) (callee j : ℕ)
    → addressed (retain (λ e. not (nat_eq e.0 callee)) log) j
      ≡ (if nat_eq callee j then [] else addressed log j)
addressed-take [] callee j = ground arith
addressed-take (e ∷ log) callee j = ground (arith, addressed-take log callee j)

addressed-remove :
    (log : Log) (callee j : ℕ) (call_id : String)
    → addressed (retain (λ e. not (nat_eq e.0 callee && (e.1.call_id == call_id))) log) j ≡ (
        if nat_eq callee j
        then retain (λ p. not (p.call_id == call_id)) (addressed log j)
        else addressed log j)
addressed-remove [] callee j call_id = ground arith
addressed-remove (e ∷ log) callee j call_id = ground (arith, addressed-remove log callee j call_id)

addressed-expire :
    (log : Log) (now j : ℕ)
    → addressed (retain (λ e. still_valid now e.1) log) j
      ≡ retain (still_valid now) (addressed log j)
addressed-expire [] now j = refl
addressed-expire (e ∷ log) now j = ground (arith, addressed-expire log now j)

-- Each callee's invites are those addressed to it in the log.
abbrev pub Refines : PendingCalls → Log → Type 0
Refines calls log = (j : ℕ) → held calls j ≡ addressed log j

step-Refines :
    (calls : PendingCalls) (log : Log) (op : Op)
    → Refines calls log
    → Refines (step calls op).1 (spec_step log op).1
unfolding step spec_step
step-Refines calls log (inserts callee p) r j =
    ground (arith, r j, held-insert calls callee j p, addressed-append log callee j p)
step-Refines calls log (takes callee now) r j =
    ground (arith, r j, held-take_for calls callee now j, addressed-take log callee j)
step-Refines calls log (removes callee call_id) r j =
    ground (arith, r j, held-remove calls callee j call_id, addressed-remove log callee j call_id)
step-Refines calls log (expires now) r j =
    ground (arith, r j, held-expire_due calls now j, addressed-expire log now j)

step_output :
    (calls : PendingCalls) (log : Log) (op : Op)
    → Refines calls log
    → (step calls op).0 ≡ (spec_step log op).0
unfolding step spec_step
step_output calls log (inserts callee p) r = refl
step_output calls log (takes callee now) r =
    ground (arith, r callee, take_for-eq-retain calls callee now)
step_output calls log _ r = refl

-- Whatever sequence of calls the registry serves, each one hands out exactly the invites that the
-- log would, in the same order, if the map holds what the log says at the start.
pub run-eq-spec_run :
    (calls : PendingCalls) (log : Log) (ops : List Op)
    → Refines calls log
    → run calls ops ≡ spec_run log ops
unfolding run spec_run
run-eq-spec_run calls log [] r = refl
run-eq-spec_run calls log (op ∷ ops) r =
    ap₂ ◌∷◌ (step_output calls log op r)
      (run-eq-spec_run (step calls op).1 (spec_step log op).1 ops (step-Refines calls log op r))
