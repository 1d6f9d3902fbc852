-- ===== src/Approval/Control.antt =====
-- The decisions, the lock of the app and the withdrawal of grants (crates/ladon-app/src/approval.rs).
use ladon.Prelude.{
  ℕ, Bool, true, false, ◌&&◌, Option, none, some, [], ◌==◌, nat_eq, contains, is_some, is_none,
  if◌then◌else◌,
}
use ladon.Prelude.Result.{
  Result, ok, err, busy, vault_locked, approval_cancelled, invalid_request, ensure, ok_or,
}
use ladon.Prelude.Method.{Method, ◌>>=◌, ◌>>◌, lift, return, read, modify, perform}
use ladon.Prelude.Map.{contains_key}
use ladon.Prelude.Time.{checked_add}
use ladon.Grants
use ladon.Approval.State.{
  AppAccessState, ApprovalDecision, PendingState, ApprovalState, is_app_active, prune_client_labels,
  cancel_pending, purge_disconnected_clients, decide_if, is_of_client,
}

abbrev pub M {ℓ} : Type ℓ → Type ℓ
M T = Method ApprovalState T

abbrev pub is_locking_at : ℕ → AppAccessState → Bool
is_locking_at epoch (AppAccessState.locking e) = e == epoch
is_locking_at epoch _ = false

abbrev pub is_locked_at : ℕ → AppAccessState → Bool
is_locked_at epoch (AppAccessState.locked e) = e == epoch
is_locked_at epoch _ = false

unfoldable pub require_app_active : M (Unit {0})
require_app_active = do s ← read; lift (ensure (is_app_active s) vault_locked)

abbrev revoke_everything : ApprovalState → ApprovalState
revoke_everything s = record s { grants = Grants.revoke_all s.grants; client_labels = [] }

abbrev preserve_unattended : ApprovalState → ApprovalState
preserve_unattended s =
    prune_client_labels (record s { grants = Grants.retain_unattended s.grants })

unfoldable pub begin_app_lock_with_policy : Bool → M ℕ
unfolding cancel_pending
begin_app_lock_with_policy preserve = do
  s ← read
  lift (ensure (is_app_active s) busy)
  epoch ← lift (ok_or (checked_add s.lock_epoch 1) invalid_request)
  modify (λ s. record s { lock_epoch = epoch; app_access = AppAccessState.locking epoch })
  modify cancel_pending
  modify (if preserve then preserve_unattended else revoke_everything)
  return epoch

unfoldable pub begin_app_lock : M ℕ
unfolding begin_app_lock_with_policy
begin_app_lock = begin_app_lock_with_policy false

unfoldable pub begin_auto_app_lock : M ℕ
unfolding begin_app_lock_with_policy
begin_auto_app_lock = begin_app_lock_with_policy true

unfoldable pub finish_app_lock : ℕ → M (Unit {0})
finish_app_lock epoch = do
  s ← read
  lift (ensure (is_locking_at epoch s.app_access) invalid_request)
  modify (λ s. record s { app_access = AppAccessState.locked epoch })

unfoldable pub unlock_app : ℕ → M (Unit {0})
unlock_app epoch = do
  s ← read
  lift (ensure (is_locked_at epoch s.app_access) invalid_request)
  modify (λ s. record s { app_access = AppAccessState.active })

unfoldable pub reset_after_vault_lock : M (Unit {0})
unfolding cancel_pending
reset_after_vault_lock = do
  s ← read
  epoch ← lift (ok_or (checked_add s.lock_epoch 1) invalid_request)
  modify (λ s. record s { lock_epoch = epoch; app_access = AppAccessState.active })
  modify cancel_pending
  modify revoke_everything
  modify (λ s. record s { vault_session_id = none })

abbrev is_approve_session : ApprovalDecision → Bool
is_approve_session ApprovalDecision.approve_session = true
is_approve_session _ = false

abbrev keeps_label : ApprovalDecision → Bool
keeps_label (ApprovalDecision.approve lifetime) = true
keeps_label (ApprovalDecision.approve_until deadline) = true
keeps_label ApprovalDecision.approve_session = true
keeps_label _ = false

-- Approval for the session needs a connected client.
abbrev require_connected : ApprovalDecision → ApprovalState → Result (Unit {0})
require_connected decision s =
    if is_approve_session decision
    then elim s.pending [
      | none ↦ err invalid_request
      | some p ↦
          ensure (contains_key p.request.client_session_id s.client_sessions) approval_cancelled
    ]
    else ok tt

abbrev pub awaits : ℕ → PendingState → Bool
awaits approval_id p = p.request.id == approval_id && is_none p.decision

abbrev pub is_awaited : ℕ → Option PendingState → Bool
is_awaited approval_id none = false
is_awaited approval_id (some p) = awaits approval_id p

unfoldable pub set_decision : ℕ → ApprovalDecision → M (Unit {0})
set_decision approval_id decision = do
  modify purge_disconnected_clients
  s ← read
  lift (require_connected decision s)
  lift (ensure (is_awaited approval_id s.pending) invalid_request)
  modify (λ s. record s { pending = decide_if (λ p. true) decision s.pending })
  modify (if keeps_label decision then (λ s. s) else prune_client_labels)

unfoldable pub approve : ℕ → M (Unit {0})
unfolding set_decision
approve approval_id = set_decision approval_id (ApprovalDecision.approve none)

unfoldable pub approve_for : ℕ → ℕ → M (Unit {0})
unfolding set_decision
approve_for approval_id lifetime =
    set_decision approval_id (ApprovalDecision.approve (some lifetime))

unfoldable pub approve_until : ℕ → ℕ → M (Unit {0})
unfolding set_decision
approve_until approval_id deadline =
    set_decision approval_id (ApprovalDecision.approve_until deadline)

unfoldable pub approve_session : ℕ → M (Unit {0})
unfolding set_decision
approve_session approval_id = set_decision approval_id ApprovalDecision.approve_session

unfoldable pub deny : ℕ → M (Unit {0})
unfolding set_decision
deny approval_id = set_decision approval_id ApprovalDecision.deny

-- The method of this name; `State.cancel_pending` is the function that it shares with the locks.
unfoldable pub cancel_pending_request : M (Unit {0})
unfolding cancel_pending
cancel_pending_request =
    modify (λ s. if is_some s.pending then prune_client_labels (cancel_pending s) else s)

unfoldable pub next_revision : M (Unit {0})
next_revision = do
  s ← read
  revision ← lift (ok_or (checked_add s.revision 1) invalid_request)
  modify (λ s. record s { revision = revision })

unfoldable pub revoke_all : M (Unit {0})
unfolding next_revision
revoke_all = do next_revision; modify revoke_everything

unfoldable pub revoke_pair : ℕ → ℕ → M Bool
unfolding next_revision
revoke_pair client secret = do
  next_revision
  modify (λ s. record s {
    pending =
        decide_if (λ p. is_of_client client p && contains p.requested_secret_ids secret)
          ApprovalDecision.cancel s.pending;
  })
  revoked ← perform (λ s.
      let (grants, done) = Grants.revoke_pair s.grants client secret in
      (record s { grants = grants }, done))
  modify prune_client_labels
  return revoked

unfoldable pub revoke_client : ℕ → M (Unit {0})
unfolding next_revision
revoke_client client = do
  next_revision
  modify (λ s. record s { grants = Grants.revoke_client s.grants client })
  modify (λ s. record s {
    pending = decide_if (is_of_client client) ApprovalDecision.cancel s.pending;
  })
  modify prune_client_labels

-- `prepared` is what `prepare` returns, and `commit` the other closure.
unfoldable pub coordinate_secret_mutation {ℓ κ} :
    {P : Type ℓ} {T : Type κ} → ℕ → Result P → (P → Result T) → M T
unfolding next_revision
coordinate_secret_mutation secret prepared commit = do
  ready ← lift prepared
  next_revision
  modify (λ s. record s {
    pending =
        decide_if (λ p. contains p.requested_secret_ids secret) ApprovalDecision.cancel s.pending;
  })
  modify (λ s. record s { grants = Grants.revoke_secret s.grants secret })
  modify prune_client_labels
  lift (commit ready)
