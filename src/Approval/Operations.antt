-- ===== src/Approval/Operations.antt =====
-- The coordinator under every sequence of calls (crates/ladon-app/src/approval.rs): its methods as one
-- operation each, the cancellation of a connection's token by another thread, and the passing of time.
use ladon.Prelude.{ℕ, Bool, Option, List, [], ◌∷◌, ◌||◌, ◌==◌, nat_eq}
use ladon.Prelude.Result.{Result, ok}
use ladon.Grants.{Clock, at}
use ladon.Model.{Text}
use ladon.Approval.State.{
  PendingApproval, GrantTicket, UnattendedContext, ApprovalDecision, ApprovalState,
}
use ladon.Approval.Authorize.{authorize_start, authorize_poll, with_valid_grant}
use ladon.Approval.Control
use ladon.Approval.Control.{
  begin_app_lock_with_policy, finish_app_lock, unlock_app, reset_after_vault_lock, set_decision,
  cancel_pending_request, coordinate_secret_mutation,
}
use ladon.Approval.Sessions
use ladon.Approval.Sessions.{
  register_client_session, client_session_connected, close_client_sessions, observe_client,
  active_grants, set_session_annotation_checked, observe_run,
}
use ladon.Approval.Unattended.{
  capture_unattended_with, grant_unattended, require_client_access, has_unattended,
  unattended_covers,
}

pub data Operation : Type 0 where
  authorizes : PendingApproval → Operation
  polls : ℕ → GrantTicket → Bool → Bool → Operation
  uses : GrantTicket → Operation
  decides : ℕ → ApprovalDecision → Operation
  cancels_pending : Operation
  begins_lock : Bool → Operation
  finishes_lock : ℕ → Operation
  unlocks : ℕ → Operation
  resets : Operation
  revokes_all : Operation
  revokes_pair : ℕ → ℕ → Operation
  revokes_client : ℕ → Operation
  mutates_secret : ℕ → Result (Unit {0}) → Operation
  registers : ℕ → ℕ → ℕ → Operation
  asks_connected : ℕ → Operation
  closes : Operation
  asks_pending : Operation
  observes_client : ℕ → Text → Operation
  asks_grants : Operation
  asks_sessions : Operation
  annotates : ℕ → Option ℕ → Text → Text → Operation
  observes_run : ℕ → Text → Text → Operation
  captures : ℕ → Result (ℕ × Unit {0}) → Operation
  grants_unattended : UnattendedContext → List ℕ → ℕ → Result (Unit {0}) → Operation
  requires_access : ℕ → Operation
  asks_unattended : ℕ → Operation
  asks_covered : ℕ → List ℕ → Operation
  disconnects : ℕ → Operation
  passes : Clock → Operation

unfoldable pub step : ApprovalState → Operation → ApprovalState
step s (authorizes request) = (authorize_start s request).0
step s (polls approval_id ticket is_cancelled timed_out) =
    (authorize_poll s approval_id ticket is_cancelled timed_out).0
step s (uses ticket) = (with_valid_grant s ticket (ok (tt {0}))).0
step s (decides approval_id decision) = (set_decision approval_id decision s).0
step s cancels_pending = (cancel_pending_request s).0
step s (begins_lock preserve) = (begin_app_lock_with_policy preserve s).0
step s (finishes_lock epoch) = (finish_app_lock epoch s).0
step s (unlocks epoch) = (unlock_app epoch s).0
step s resets = (reset_after_vault_lock s).0
step s revokes_all = (Control.revoke_all s).0
step s (revokes_pair client secret) = (Control.revoke_pair client secret s).0
step s (revokes_client client) = (Control.revoke_client client s).0
step s (mutates_secret secret prepared) =
    (coordinate_secret_mutation secret prepared (λ _. ok (tt {0})) s).0
step s (registers client connection_id token) =
    (register_client_session client connection_id token s).0
step s (asks_connected client) = (client_session_connected client s).0
step s closes = (close_client_sessions s).0
step s asks_pending = (Sessions.pending s).0
step s (observes_client client label) = (observe_client client label s).0
step s asks_grants = (active_grants s).0
step s asks_sessions = (Sessions.sessions s).0
step s (annotates client connection_id name note) =
    (set_session_annotation_checked client connection_id name note s).0
step s (observes_run client project action) = (observe_run client project action s).0
step s (captures client captured) = (capture_unattended_with client captured s).0
step s (grants_unattended context secrets deadline validated) =
    (grant_unattended context secrets deadline validated s).0
step s (requires_access client) = (require_client_access client s).0
step s (asks_unattended client) = (has_unattended client s).0
step s (asks_covered client ids) = (unattended_covers client ids s).0
step s (disconnects token) = record s { cancelled = (λ other. s.cancelled other || token == other) }
step s (passes clock) = record s { grants = at clock s.grants }

unfoldable pub run : ApprovalState → List Operation → ApprovalState
unfolding step
run s [] = s
run s (o ∷ os) = run (step s o) os
