-- ===== src/Approval/Unattended.antt =====
-- Unattended access (crates/ladon-app/src/approval.rs): what the user is shown before he grants it, the
-- grant, and the access that it gives while the app is locked.
use ladon.Prelude.{
  ℕ, ◌*◌, Bool, true, false, not, ◌&&◌, ◌||◌, Option, none, some, List, ◌==◌, nat_eq, contains, all,
  is_none, is_empty, if◌then◌else◌, leb,
}
use ladon.Prelude.Result.{
  Result, ok, vault_locked, approval_cancelled, invalid_request, ensure, ok_or,
}
use ladon.Prelude.Method.{◌>>=◌, ◌>>◌, lift, return, read, modify, perform}
use ladon.Prelude.Map.{get, contains_key}
use ladon.Prelude.Time.{duration_since, from_secs}
use ladon.Grants
use ladon.Model.{Text}
use ladon.Approval.State.{
  ApprovalDecision, PendingState, SessionDetails, UnattendedContext, ApprovalState, is_app_active,
  purge_disconnected_clients, client_has_unattended, decide_if, is_of_client,
}
use ladon.Approval.Authorize.{same_vault, enter_vault, unattended_access}
use ladon.Approval.Control.{M}

abbrev session_label : SessionDetails → Text
session_label session =
    if is_empty session.user_name then session.reported_name else session.user_name

-- `captured` is what the closure would return.
unfoldable pub capture_unattended_with {ℓ} :
    {T : Type ℓ} → ℕ → Result (ℕ × T) → M (UnattendedContext × T)
capture_unattended_with client captured = do
  modify purge_disconnected_clients
  s ← read
  lift (ensure (is_app_active s && contains_key client s.client_sessions) approval_cancelled)
  taken ← lift captured
  modify (λ s. enter_vault s (taken.0))
  s ← read
  session ← lift (ok_or (get client s.sessions) approval_cancelled)
  return (
    record {
      client = client;
      vault = taken.0;
      revision = s.revision;
      epoch = s.lock_epoch;
      connection_id = session.connection_id;
      session_label = session_label session;
    },
    taken.1,
  )

unfoldable pub capture_unattended : ℕ → ℕ → M UnattendedContext
unfolding capture_unattended_with
capture_unattended client vault = do
  captured ← capture_unattended_with {T = Unit {0}} client (ok (vault, tt))
  return (captured.0)

-- Nothing that the user decided on has changed since the context was taken.
abbrev pub is_connection_of : Option SessionDetails → ℕ → Bool
is_connection_of none connection_id = false
is_connection_of (some session) connection_id = session.connection_id == connection_id

abbrev pub is_current : UnattendedContext → ApprovalState → Bool
is_current context s =
    is_app_active s
    && same_vault s.vault_session_id context.vault
    && (s.lock_epoch == context.epoch)
    && (s.revision == context.revision)
    && contains_key context.client s.client_sessions
    && is_connection_of (get context.client s.sessions) context.connection_id

abbrev pub is_covered : UnattendedContext → List ℕ → PendingState → Bool
is_covered context secrets p =
    is_of_client context.client p
    && is_none p.decision
    && all (λ id. contains secrets id) p.requested_secret_ids

-- `validated` is what the closure would return.
unfoldable pub grant_unattended : UnattendedContext → List ℕ → ℕ → Result (Unit {0}) → M (Unit {0})
grant_unattended context secrets deadline validated = do
  modify purge_disconnected_clients
  s ← read
  remaining ← lift (ok_or (duration_since deadline s.grants.clock.wall_time) invalid_request)
  lift (
      ensure
        (not ((remaining == 0) || not (leb remaining (from_secs (24 * 3600))) || is_empty secrets))
        invalid_request)
  lift (ensure (is_current context s) approval_cancelled)
  lift validated
  modify (λ s. record s {
    grants = Grants.grant_unattended_until s.grants context.client secrets deadline;
  })
  modify (λ s. record s {
    pending = decide_if (is_covered context secrets) ApprovalDecision.granted s.pending;
  })

-- `||` asks for unattended grants only if the app is not active.
unfoldable pub require_client_access : ℕ → M (Unit {0})
unfolding client_has_unattended
require_client_access client = do
  modify purge_disconnected_clients
  s ← read
  allowed ← if is_app_active s then return true else perform (λ s. client_has_unattended s client)
  lift (ensure allowed vault_locked)

unfoldable pub has_unattended : ℕ → M Bool
unfolding client_has_unattended
has_unattended client = do
  modify purge_disconnected_clients
  perform (λ s. client_has_unattended s client)

unfoldable pub unattended_covers : ℕ → List ℕ → M Bool
unfolding unattended_access
unattended_covers client ids = do
  modify purge_disconnected_clients
  perform (λ s. unattended_access s client ids)
