-- ===== src/Approval/Locks.antt =====
-- The lock of the app (crates/ladon-app/src/approval.rs): what it withdraws, what opens it again, and
-- that the epoch of an earlier lock is worthless.
use ladon.Prelude.{
  ℕ, ◌+◌, ◌≡◌, ◌≤◌, ◌<◌, Bool, true, false, none, List, [], ◌∷◌, if◌then◌else◌, Bool-cases, inl,
  inr, arith, nat_eq, pair_eq, refl, subst, ◌⊎◌, keep_if, leb,
}
use ladon.Prelude.Result.{ok, err, invalid_request, busy}
use ladon.Prelude.Time.{u64_max}
use ladon.Prelude.Map.{Distinct}
use ladon.Grants.{GrantDeadline, is_unattended, retain_unattended}
use ladon.Grants
use ladon.Grants.History
use ladon.Grants.History.{step-IsValid}
use ladon.Grants.View.{holds, revocations_lem}
use ladon.Approval.State.{
  locking, locked, ApprovalState, ApprovalDecision, is_app_active, prune_client_labels,
  cancel_pending, decide_if,
}
use ladon.Approval.Control.{
  begin_app_lock_with_policy, finish_app_lock, unlock_app, reset_after_vault_lock,
}
use ladon.Approval.View.{IsValid, holds-purge_expired}
use ladon.Approval.Operations.{Operation, begins_lock, finishes_lock, unlocks, resets, step, run}
use ladon.Approval.Kept.{is_lock}
use ladon.Approval.Invariant.{IsSound, step-IsSound, run-IsSound, same_lock}

withdrawn :
    (s : ApprovalState) (c x : ℕ)
    → Distinct s.grants.deadlines
    → (holds (Grants.active (retain_unattended s.grants)).0 c x
        ≡ keep_if is_unattended (holds s.grants c x))
      × (holds (Grants.revoke_all s.grants) c x ≡ none)
unfolding Grants.active retain_unattended History.step
withdrawn s c x v =
    let (all_gone, _, _, _, _, unattended) = revocations_lem s.grants c x c x v in
    let w = step-IsValid s.grants History.retains_unattended v in
    (rw (holds-purge_expired (retain_unattended s.grants) c x w) unattended, all_gone)

-- A lock can begin exactly while the app is active and an epoch is left. It takes the next epoch, cancels
-- the pending request, and withdraws every grant, except that the automatic lock keeps the unattended
-- ones; otherwise nothing changes.
pub begin_app_lock_lem :
    (s : ApprovalState) (preserve : Bool) (c x : ℕ)
    → IsValid s
    → let (t, result) = begin_app_lock_with_policy preserve s in
      ((is_app_active s ≡ false) × (t ≡ s) × (result ≡ err busy))
      ⊎ ((is_app_active s ≡ true)
          × (u64_max ≤ s.lock_epoch)
          × (t ≡ s)
          × (result ≡ err invalid_request))
      ⊎ ((is_app_active s ≡ true)
          × (result ≡ ok (s.lock_epoch + 1))
          × (t.app_access ≡ locking (s.lock_epoch + 1))
          × (t.lock_epoch ≡ s.lock_epoch + 1)
          × (t.pending ≡ decide_if (λ p. true) ApprovalDecision.cancel s.pending)
          × (holds t.grants c x
              ≡ (if preserve then keep_if is_unattended (holds s.grants c x) else none)))
unfolding begin_app_lock_with_policy cancel_pending prune_client_labels
begin_app_lock_lem s true c x v = elim (Bool-cases (is_app_active s)) [
  | inr inactive ↦ inl (ground arith)
  | inl ready ↦ elim (Bool-cases (leb (s.lock_epoch + 1) u64_max)) [
    | inr last ↦ inr (inl (ground arith))
    | inl room ↦ inr (inr (ground (arith, withdrawn s c x v.0)))
  ]
]
begin_app_lock_lem s false c x v = elim (Bool-cases (is_app_active s)) [
  | inr inactive ↦ inl (ground arith)
  | inl ready ↦ elim (Bool-cases (leb (s.lock_epoch + 1) u64_max)) [
    | inr last ↦ inr (inl (ground arith))
    | inl room ↦ inr (inr (ground (arith, withdrawn s c x v.0)))
  ]
]

lock_step_epoch :
    (s : ApprovalState) (o : Operation) → is_lock o ≡ true → s.lock_epoch ≤ (step s o).lock_epoch
unfolding step begin_app_lock_with_policy finish_app_lock unlock_app reset_after_vault_lock
    cancel_pending prune_client_labels
lock_step_epoch s (begins_lock true) lock = ground arith
lock_step_epoch s (begins_lock false) lock = ground arith
lock_step_epoch s (finishes_lock epoch) lock = ground arith
lock_step_epoch s (unlocks epoch) lock = ground arith
lock_step_epoch s resets lock = ground arith
lock_step_epoch s _ lock = cc

step_epoch : (s : ApprovalState) (o : Operation) → s.lock_epoch ≤ (step s o).lock_epoch
step_epoch s o = elim (Bool-cases (is_lock o)) [
  | inl lock ↦ lock_step_epoch s o lock
  | inr other ↦ let (_, e) = same_lock s o other in ground arith
]

run_epoch : (s : ApprovalState) (os : List Operation) → s.lock_epoch ≤ (run s os).lock_epoch
unfolding run
run_epoch s [] = ground arith
run_epoch s (o ∷ os) = ground (arith, step_epoch s o, run_epoch (step s o) os)

by_lock :
    (s : ApprovalState) (o : Operation)
    → is_lock o ≡ true
    → is_app_active s ≡ false
    → is_app_active (step s o) ≡ true
    → ((epoch : ℕ) × (o ≡ unlocks epoch) × (s.app_access ≡ locked epoch)) ⊎ (o ≡ resets)
unfolding is_app_active step begin_app_lock_with_policy finish_app_lock unlock_app
by_lock s (begins_lock preserve) lock inactive opened = absurd (ground arith)
by_lock s (finishes_lock epoch) lock inactive opened = absurd (ground arith)
by_lock s (unlocks epoch) lock inactive opened = inl (epoch, refl, ground arith)
by_lock s resets lock inactive opened = inr refl
by_lock s _ lock inactive opened = cc

-- An app that is not active becomes active by nothing but an unlock with the epoch of the lock that is
-- finished, or the reset after the vault was locked.
pub step-is_app_active :
    (s : ApprovalState) (o : Operation)
    → is_app_active s ≡ false
    → is_app_active (step s o) ≡ true
    → ((epoch : ℕ) × (o ≡ unlocks epoch) × (s.app_access ≡ locked epoch)) ⊎ (o ≡ resets)
unfolding is_app_active
step-is_app_active s o inactive opened = elim (Bool-cases (is_lock o)) [
  | inl lock ↦ by_lock s o lock inactive opened
  | inr other ↦ let (e, _) = same_lock s o other in absurd (ground arith)
]

beginning :
    (s t : ApprovalState) (preserve : Bool) (epoch : ℕ)
    → begin_app_lock_with_policy preserve s ≡ (t, ok epoch)
    → (epoch ≡ s.lock_epoch + 1) × (t.lock_epoch ≡ epoch)
unfolding begin_app_lock_with_policy cancel_pending prune_client_labels
beginning s t true epoch h = ground arith
beginning s t false epoch h = ground arith

refuses :
    (s : ApprovalState) (epoch : ℕ)
    → IsSound s
    → epoch < s.lock_epoch
    → (finish_app_lock epoch s ≡ (s, err invalid_request))
      × (unlock_app epoch s ≡ (s, err invalid_request))
unfolding finish_app_lock unlock_app
refuses s epoch h stale = ground arith

began-IsSound :
    (s t : ApprovalState) (preserve : Bool) (epoch : ℕ)
    → IsSound s
    → begin_app_lock_with_policy preserve s ≡ (t, ok epoch)
    → IsSound t
unfolding step
began-IsSound s t preserve epoch sound h =
    subst (λ out. IsSound (out.0)) h (step-IsSound s (begins_lock preserve) sound)

-- Once a later lock has begun, the epoch of an earlier one neither finishes nor opens the lock, whatever
-- happens in between and afterwards.
pub stale_epoch :
    (s t v : ApprovalState) (preserve preserve' : Bool) (epoch later : ℕ) (os os' : List Operation)
    → IsSound s
    → begin_app_lock_with_policy preserve s ≡ (t, ok epoch)
    → begin_app_lock_with_policy preserve' (run t os) ≡ (v, ok later)
    → let w = run v os' in
      (finish_app_lock epoch w ≡ (w, err invalid_request))
      × (unlock_app epoch w ≡ (w, err invalid_request))
stale_epoch s t v preserve preserve' epoch later os os' sound first second =
    let (_, e) = beginning s t preserve epoch first in
    let (f, g) = beginning (run t os) v preserve' later second in
    let sound_t = began-IsSound s t preserve epoch sound first in
    let sound_v = began-IsSound (run t os) v preserve' later (run-IsSound t os sound_t) second in
    refuses (run v os') epoch (run-IsSound v os' sound_v)
      (ground (arith, run_epoch t os, run_epoch v os'))
