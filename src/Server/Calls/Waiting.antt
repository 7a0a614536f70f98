-- ===== src/Server/Calls/Waiting.antt =====
-- A call invite that waits in the registry of server/src/calls.rs.
use little_love.Prelude.{
  Has, Has-append_left, Has-append_right, Has-retain, ℕ, ◌<◌, ◌≡◌, ◌≢◌, ◌⊎◌, refl, inl, inr, true,
  false, not, List, [], ◌∷◌, arith, nat_eq, eq_iff, ◌==◌, string_Eq, All, Bool-cases,
}
use little_love.Server.Calls.{Pending, PendingCalls, still_valid, insert, take_for}
use little_love.Server.Calls.Refinement.{
  held, Op, inserts, takes, removes, expires, step, held-insert, held-take_for, held-remove,
  held-expire_due, take_for-eq-retain,
}

-- A call of the registry that does not end the wait: nothing is handed out to the callee, this call is
-- not hung up, and no sweep comes at or after its time.
abbrev pub Leaves : ℕ → Pending → Op → Type 0
Leaves callee p (inserts other q) = Unit {0}
Leaves callee p (takes other now) = other ≢ callee
Leaves callee p (removes other call_id) = (other ≢ callee) ⊎ (call_id ≢ p.call_id)
Leaves callee p (expires now) = now < p.expires_at

-- The registry after some calls.
abbrev pub after : PendingCalls → List Op → PendingCalls
after calls [] = calls
after calls (op ∷ ops) = after (step calls op).1 ops

step-Has :
    (calls : PendingCalls) (callee : ℕ) (p : Pending) (op : Op)
    → Leaves callee p op
    → Has p (held calls callee)
    → Has p (held (step calls op).1 callee)
unfolding step
step-Has calls callee p (inserts other q) l h =
    rw held-insert (elim (Bool-cases (nat_eq other callee)) [
      | inl e ↦ rw e (Has-append_left p (held calls callee) (q ∷ []) h)
      | inr e ↦ rw e h
    ])
step-Has calls callee p (takes other now) l h =
    let apart : nat_eq other callee ≡ false = ground (arith, l) in rw (held-take_for, apart) h
step-Has calls callee p (removes other call_id) l h = elim (Bool-cases (nat_eq other callee)) [
  | inr e ↦ rw (held-remove, e) h
  | inl e ↦
      let kept : not (p.call_id == call_id) ≡ true =
        ground (arith, e, l, eq_iff p.call_id call_id) in
      rw (held-remove, e)
        (Has-retain p (λ q. not (q.call_id == call_id)) (held calls callee) kept h)
]
step-Has calls callee p (expires now) l h =
    rw held-expire_due (Has-retain p (still_valid now) (held calls callee) (ground (arith, l)) h)

pub after-Has :
    (calls : PendingCalls) (callee : ℕ) (p : Pending) (ops : List Op)
    → All (Leaves callee p) ops
    → Has p (held calls callee)
    → Has p (held (after calls ops) callee)
after-Has calls callee p [] l h = h
after-Has calls callee p (op ∷ ops) l h =
    after-Has (step calls op).1 callee p ops l.1 (step-Has calls callee p op l.0 h)

pub insert-Has :
    (calls : PendingCalls) (callee : ℕ) (p : Pending) → Has p (held (insert calls callee p) callee)
insert-Has calls callee p =
    let same : nat_eq callee callee ≡ true = ground arith in
    rw (held-insert, same) (Has-append_right p (held calls callee) (p ∷ []) (inl refl))

pub take_for-Has :
    (calls : PendingCalls) (callee now : ℕ) (p : Pending)
    → now < p.expires_at
    → Has p (held calls callee)
    → Has p (take_for calls callee now).0
take_for-Has calls callee now p h has =
    rw take_for-eq-retain
      (Has-retain p (still_valid now) (held calls callee) (ground (arith, h)) has)
