-- ===== src/Server/Calls.antt =====
-- server/src/calls.rs: the call invites that are held for callees who are not connected yet.
-- Instants are milliseconds; the mutex makes each method one step.
pub mod Refinement
pub mod Sweep
pub mod Waiting
use little_love.Prelude.{
  ℕ, String, Bool, not, Option, none, some, List, [], ◌∷◌, ◌++◌, ltb, ◌==◌, nat_Eq, string_Eq,
  retain, is_empty, if◌then◌else◌,
}
use little_love.Server.HashMap
use little_love.Server.HashMap.{HashMap, or_default}

abbrev pub pending_ttl : ℕ
pending_ttl = 45000

pub record Pending : Type 0 where
  pub call_id : String
  pub room_id : String
  pub from : String
  pub offer : String
  pub video : Bool
  pub expires_at : ℕ

abbrev pub PendingCalls : Type 0
PendingCalls = HashMap ℕ (List Pending)

abbrev pub new : PendingCalls
new = HashMap.empty

-- `p.expires_at > now`
abbrev pub still_valid : ℕ → Pending → Bool
still_valid now p = ltb now p.expires_at

unfoldable pub insert : PendingCalls → ℕ → Pending → PendingCalls
insert calls callee p = HashMap.insert calls callee (or_default (calls callee) ++ p ∷ [])

unfoldable pub take_for : PendingCalls → ℕ → ℕ → List Pending × PendingCalls
take_for calls callee now = elim (calls callee) [
  | some v ↦ (retain (still_valid now) v, HashMap.remove calls callee)
  | none ↦ ([], calls)
]

-- An entry whose last invite went is removed.
abbrev pub keep_nonempty : List Pending → Option (List Pending)
keep_nonempty v = if is_empty v then none else some v

unfoldable pub remove : PendingCalls → ℕ → String → PendingCalls
remove calls callee call_id = elim (calls callee) [
  | some v ↦
      let left = retain (λ p. not (p.call_id == call_id)) v in
      if is_empty left then HashMap.remove calls callee else HashMap.insert calls callee left
  | none ↦ calls
]

unfoldable pub expire_due : PendingCalls → ℕ → PendingCalls
expire_due calls now = HashMap.retain_mut (λ v. keep_nonempty (retain (still_valid now) v)) calls
