-- ===== src/Approval/Invariant.antt =====
-- What holds of the coordinator after any sequence of calls (crates/ladon-app/src/approval.rs).
use ladon.Prelude.{
  ℕ, ◌≡◌, ◌≤◌, Bool, true, false, List, [], ◌∷◌, Bool-cases, inl, inr, arith, nat_eq, length, refl,
  suc,
}
use ladon.Prelude.Map.{Map, insert, remove, insert-Distinct}
use ladon.Grants.{Clock}
use ladon.Grants
use ladon.Grants.History
use ladon.Grants.History.{step-IsValid}
use ladon.Approval.State.{
  max_tracked_sessions, AppAccessState, active, locking, locked, ApprovalState, new, disconnect,
  disconnect_all, disconnected, purge_disconnected_clients, prune_client_labels, cancel_pending,
}
use ladon.Approval.Control.{
  begin_app_lock_with_policy, finish_app_lock, unlock_app, reset_after_vault_lock,
}
use ladon.Approval.View.{IsValid, purge-IsValid, purge-SameAccess}
use ladon.Approval.Operations.{Operation, begins_lock, finishes_lock, unlocks, resets, step, run}
use ladon.Approval.Keeps.{Closed}
use ladon.Approval.Kept.{is_lock, step_keeps}

length-remove : (k : ℕ) (m : Map ℕ ℕ) → length (remove k m) ≤ length m
unfolding remove
length-remove k [] = ground arith
length-remove k ((j, v) ∷ m) = ground (arith, length-remove k m)

length-insert : (k v : ℕ) (m : Map ℕ ℕ) → length (insert k v m) ≤ suc (length m)
unfolding insert
length-insert k v [] = ground arith
length-insert k v ((j, w) ∷ m) = ground (arith, length-insert k v m)

length-disconnect_all :
    (s : ApprovalState) (clients : List ℕ)
    → length (disconnect_all s clients).client_sessions ≤ length s.client_sessions
unfolding disconnect_all disconnect
length-disconnect_all s [] = ground arith
length-disconnect_all s (client ∷ rest) = ground (
  arith,
  length-disconnect_all (disconnect s client) rest,
  length-remove client s.client_sessions,
)

abbrev pub IsCurrent : AppAccessState → ℕ → Type 0
IsCurrent active epoch = Unit
IsCurrent (locking e) epoch = e ≡ epoch
IsCurrent (locked e) epoch = e ≡ epoch

-- Every pair has one grant and every client one token, at most 32 clients are tracked, and a lock that is
-- in force has the current epoch.
abbrev pub IsSound : ApprovalState → Type 0
IsSound s =
    IsValid s
    × (length s.client_sessions ≤ max_tracked_sessions)
    × IsCurrent s.app_access s.lock_epoch

purge-IsSound : (s : ApprovalState) → IsSound s → IsSound (purge_disconnected_clients s)
unfolding purge_disconnected_clients
purge-IsSound s (v, few, current) =
    let (access, epoch, _, _) = purge-SameAccess s in
    (
      purge-IsValid s v,
      ground (arith, length-disconnect_all s (disconnected s.cancelled s.client_sessions)),
      rw (access, epoch) current,
    )

IsSound-Closed : Closed IsSound
IsSound-Closed = record {
  to_purge = purge-IsSound;
  to_grants = λ s call (v, few, current). ((step-IsValid s.grants call v.0, v.1), few, current);
  to_pending = λ s p h. h;
  to_labels = λ s m h. h;
  to_sessions = λ s m h. h;
  to_revision = λ s n h. h;
  to_vault = λ s v h. h;
  to_closed = λ s b h. h;
  to_cancelled = λ s f h. h;
  to_registered = λ s client token free (v, few, current). (
    (v.0, insert-Distinct client token s.client_sessions v.1),
    ground (arith, length-insert client token s.client_sessions),
    current,
  );
}

begin-IsSound :
    (s : ApprovalState) (preserve : Bool)
    → IsSound s
    → IsSound (begin_app_lock_with_policy preserve s).0
unfolding begin_app_lock_with_policy cancel_pending prune_client_labels History.step
begin-IsSound s true (v, few, current) =
    let w = step-IsValid s.grants History.retains_unattended v.0 in
    let u = step-IsValid (History.step s.grants History.retains_unattended) History.asks_active w in
    ground arith
begin-IsSound s false (v, few, current) =
    let w = step-IsValid s.grants History.revokes_all v.0 in ground arith

reset-IsSound : (s : ApprovalState) → IsSound s → IsSound (reset_after_vault_lock s).0
unfolding reset_after_vault_lock cancel_pending History.step
reset-IsSound s (v, few, current) =
    let w = step-IsValid s.grants History.revokes_all v.0 in ground arith

finish-IsSound : (s : ApprovalState) (epoch : ℕ) → IsSound s → IsSound (finish_app_lock epoch s).0
unfolding finish_app_lock
finish-IsSound s epoch (v, few, current) = elim s.app_access [
  | active ↦ ground arith
  | locking e ↦ ground arith
  | locked e ↦ ground arith
]

unlock-IsSound : (s : ApprovalState) (epoch : ℕ) → IsSound s → IsSound (unlock_app epoch s).0
unfolding unlock_app
unlock-IsSound s epoch (v, few, current) = ground arith

lock-IsSound :
    (s : ApprovalState) (o : Operation) → is_lock o ≡ true → IsSound s → IsSound (step s o)
unfolding step
lock-IsSound s (begins_lock preserve) lock h = begin-IsSound s preserve h
lock-IsSound s (finishes_lock epoch) lock h = finish-IsSound s epoch h
lock-IsSound s (unlocks epoch) lock h = unlock-IsSound s epoch h
lock-IsSound s resets lock h = reset-IsSound s h
lock-IsSound s _ lock h = cc

pub step-IsSound : (s : ApprovalState) (o : Operation) → IsSound s → IsSound (step s o)
step-IsSound s o h = elim (Bool-cases (is_lock o)) [
  | inr other ↦ step_keeps IsSound IsSound-Closed s o other h
  | inl lock ↦ lock-IsSound s o lock h
]

-- No sequence of calls, disconnections and clock readings breaks the coordinator's invariant: at most 32
-- clients are tracked, no pair has two grants, no client two connections, and the lock that is in force
-- is the latest.
pub run-IsSound : (s : ApprovalState) (os : List Operation) → IsSound s → IsSound (run s os)
unfolding run
run-IsSound s [] h = h
run-IsSound s (o ∷ os) h = run-IsSound (step s o) os (step-IsSound s o h)

pub new-IsSound :
    (clock : Clock) (grant_lifetime : ℕ) (cancelled : ℕ → Bool)
    → IsSound (new clock grant_lifetime cancelled)
unfolding new Grants.new
new-IsSound clock grant_lifetime cancelled = ((tt, tt), ground arith, tt)

-- The lock and its epoch, as every other operation leaves them.
SameLock-Closed :
    (access : AppAccessState) (epoch : ℕ)
    → Closed (λ t. (t.app_access ≡ access) × (t.lock_epoch ≡ epoch))
SameLock-Closed access epoch = record {
  to_purge = λ s h. let (a, e, _, _) = purge-SameAccess s in (rw (a) (h.0), rw (e) (h.1));
  to_grants = λ s call h. h;
  to_pending = λ s p h. h;
  to_labels = λ s m h. h;
  to_sessions = λ s m h. h;
  to_revision = λ s n h. h;
  to_vault = λ s v h. h;
  to_closed = λ s b h. h;
  to_cancelled = λ s f h. h;
  to_registered = λ s client token free h. h;
}

pub same_lock :
    (s : ApprovalState) (o : Operation)
    → is_lock o ≡ false
    → ((step s o).app_access ≡ s.app_access) × ((step s o).lock_epoch ≡ s.lock_epoch)
same_lock s o other =
    step_keeps (λ t. (t.app_access ≡ s.app_access) × (t.lock_epoch ≡ s.lock_epoch))
      (SameLock-Closed s.app_access s.lock_epoch) s o other (refl, refl)
