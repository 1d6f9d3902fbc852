-- ===== src/Approval/Kept.antt =====
-- Every operation but the locks is made of the changes of `Closed` (crates/ladon-app/src/approval.rs).
use ladon.Prelude.{
  ℕ, ◌+◌, ◌≡◌, Bool, true, false, Option, List, [], if◌then◌else◌, Bool-cases, Option-cases, inl,
  inr, arith, nat_eq, ◌&&◌, contains,
}
use ladon.Prelude.Result.{Result, ok, err}
use ladon.Prelude.Map.{insert, get}
use ladon.Grants.History
use ladon.Model.{Text}
use ladon.Approval.State.{
  UnattendedContext, ApprovalDecision, ApprovalState, decide_if, is_of_client,
  purge_disconnected_clients,
}
use ladon.Approval.Control
use ladon.Approval.Control.{
  set_decision, cancel_pending_request, coordinate_secret_mutation, next_revision,
}
use ladon.Approval.Sessions
use ladon.Approval.Sessions.{
  trim, client_session_connected, can_register, new_session, register_client_session,
  close_client_sessions, observe_client, active_grants, set_session_annotation_checked, observe_run,
  relabel_client,
}
use ladon.Approval.Unattended.{
  capture_unattended_with, grant_unattended, require_client_access, has_unattended,
  unattended_covers, is_covered,
}
use ladon.Approval.Operations.{
  Operation, step, authorizes, polls, uses, decides, cancels_pending, begins_lock, finishes_lock,
  unlocks, resets, revokes_all, revokes_pair, revokes_client, mutates_secret, registers,
  asks_connected, closes, asks_pending, observes_client, asks_grants, asks_sessions, annotates,
  observes_run, captures, grants_unattended, requires_access, asks_unattended, asks_covered,
  disconnects, passes,
}
use ladon.Approval.Keeps.{
  Closed, start-Keeps, poll-Keeps, use-Keeps, prune-Keeps, cancel-Keeps, enter-Keeps,
  unattended-Keeps, access-Keeps,
}

module _ (P : ApprovalState → Type 0) (closed : Closed P) where
  decide-Keeps :
      (s : ApprovalState) (approval_id : ℕ) (d : ApprovalDecision)
      → P s
      → P (set_decision approval_id d s).0
  unfolding set_decision
  decide-Keeps s approval_id d p =
      let q = closed.to_purge s p in
      let r =
        closed.to_pending (purge_disconnected_clients s)
          (decide_if (λ _. true) d (purge_disconnected_clients s).pending) q in
      let u = prune-Keeps P closed _ r in ground arith

  revise-Keeps : (s : ApprovalState) → P s → P (next_revision s).0
  unfolding next_revision
  revise-Keeps s p = let r = closed.to_revision s (s.revision + 1) p in ground arith

  cancel_request-Keeps : (s : ApprovalState) → P s → P (cancel_pending_request s).0
  unfolding cancel_pending_request
  cancel_request-Keeps s p =
      let q = prune-Keeps P closed _ (cancel-Keeps P closed s p) in ground arith

  revoke_all-Keeps : (s : ApprovalState) → P s → P (Control.revoke_all s).0
  unfolding Control.revoke_all next_revision History.step
  revoke_all-Keeps s p =
      let r = closed.to_revision s (s.revision + 1) p in
      let t = closed.to_labels _ [] (closed.to_grants _ History.revokes_all r) in ground arith

  revoke_pair-Keeps :
      (s : ApprovalState) (client secret : ℕ) → P s → P (Control.revoke_pair client secret s).0
  unfolding Control.revoke_pair next_revision History.step
  revoke_pair-Keeps s client secret p =
      let r = closed.to_revision s (s.revision + 1) p in
      let t =
        closed.to_pending _
          (decide_if (λ p. is_of_client client p && contains p.requested_secret_ids secret)
            ApprovalDecision.cancel s.pending)
          r in
      let u = prune-Keeps P closed _ (closed.to_grants _ (History.revokes_pair client secret) t) in
      ground arith

  revoke_client-Keeps :
      (s : ApprovalState) (client : ℕ) → P s → P (Control.revoke_client client s).0
  unfolding Control.revoke_client next_revision History.step
  revoke_client-Keeps s client p =
      let r = closed.to_revision s (s.revision + 1) p in
      let t = closed.to_grants _ (History.revokes_client client) r in
      let u =
        closed.to_pending _ (decide_if (is_of_client client) ApprovalDecision.cancel s.pending) t in
      let w = prune-Keeps P closed _ u in ground arith

  mutate-Keeps :
      (s : ApprovalState) (secret : ℕ) (prepared : Result (Unit {0}))
      → P s
      → P (coordinate_secret_mutation secret prepared (λ _. ok (tt {0})) s).0
  unfolding coordinate_secret_mutation next_revision History.step
  mutate-Keeps s secret prepared p =
      let r = closed.to_revision s (s.revision + 1) p in
      let t =
        closed.to_pending _
          (decide_if (λ p. contains p.requested_secret_ids secret) ApprovalDecision.cancel
            s.pending)
          r in
      let u = prune-Keeps P closed _ (closed.to_grants _ (History.revokes_secret secret) t) in
      ground arith

  register-Keeps :
      (s : ApprovalState) (client connection_id token : ℕ)
      → P s
      → P (register_client_session client connection_id token s).0
  unfolding register_client_session History.step
  register-Keeps s client connection_id token p =
      let s' = purge_disconnected_clients s in
      let q = closed.to_purge s p in
      elim (Bool-cases (can_register s' client)) [
        | inr full ↦ ground arith
        | inl free ↦
            let r = closed.to_registered s' client token free q in
            let t = closed.to_grants _ (History.revokes_client client) r in
            let u =
              closed.to_sessions _
                (insert client (new_session client connection_id s'.grants.clock.wall_time)
                  s'.sessions)
                t in
            ground arith
      ]

  close-Keeps : (s : ApprovalState) → P s → P (close_client_sessions s).0
  unfolding close_client_sessions
  close-Keeps s p = closed.to_purge _ (closed.to_cancelled _ _ (closed.to_closed s true p))

  observe_client-Keeps :
      (s : ApprovalState) (client : ℕ) (label : Text) → P s → P (observe_client client label s).0
  unfolding observe_client History.step
  observe_client-Keeps s client label p =
      let q = closed.to_purge s p in
      let r = closed.to_grants _ History.asks_active (closed.to_sessions _ _ q) in
      prune-Keeps P closed _ (
        either_kept _ (relabel_client client label) _
          (λ t u. closed.to_labels _ _ (closed.to_pending t _ u)) r)
    where
      either_kept :
          (test : Bool) (f : ApprovalState → ApprovalState) (t : ApprovalState)
          → ((t : ApprovalState) → P t → P (f t))
          → P t
          → P ((if test then f else (λ s. s)) t)
      either_kept true f t k r = k t r
      either_kept false f t k r = r

  asks_grants-Keeps : (s : ApprovalState) → P s → P (active_grants s).0
  unfolding active_grants History.step
  asks_grants-Keeps s p =
      closed.to_labels _ _ (closed.to_grants _ History.asks_active (closed.to_purge s p))

  annotate-Keeps :
      (s : ApprovalState) (client : ℕ) (connection_id : Option ℕ) (name note : Text)
      → P s
      → P (set_session_annotation_checked client connection_id name note s).0
  unfolding set_session_annotation_checked
  annotate-Keeps s client connection_id name note p =
      let s' = purge_disconnected_clients s in
      let q = closed.to_purge s p in
      elim (Option-cases (get client s'.sessions)) [
        | inl e ↦ ground arith
        | inr (session, e) ↦
            let annotated = record session { user_name = trim name; note = trim note } in
            let r = closed.to_sessions s' (insert client annotated s'.sessions) q in ground arith
      ]

  capture-Keeps :
      (s : ApprovalState) (client : ℕ) (captured : Result (ℕ × Unit {0}))
      → P s
      → P (capture_unattended_with client captured s).0
  unfolding capture_unattended_with
  capture-Keeps s client (err e) p = let q = closed.to_purge s p in ground arith
  capture-Keeps s client (ok (vault, tt)) p =
      let q = closed.to_purge s p in
      let r = enter-Keeps P closed (purge_disconnected_clients s) vault q in ground arith

  grant-Keeps :
      (s : ApprovalState) (context : UnattendedContext) (secrets : List ℕ) (deadline : ℕ)
      (validated : Result (Unit {0}))
      → P s
      → P (grant_unattended context secrets deadline validated s).0
  unfolding grant_unattended History.step
  grant-Keeps s context secrets deadline validated p =
      let s' = purge_disconnected_clients s in
      let q = closed.to_purge s p in
      let call = History.grants_unattended context.client secrets deadline in
      let r = closed.to_grants s' call q in
      let t =
        closed.to_pending _
          (decide_if (is_covered context secrets) ApprovalDecision.granted s'.pending) r in
      ground arith

  require-Keeps : (s : ApprovalState) (client : ℕ) → P s → P (require_client_access client s).0
  unfolding require_client_access
  require-Keeps s client p =
      let q = closed.to_purge s p in let r = unattended-Keeps P closed _ client q in ground arith

abbrev pub is_lock : Operation → Bool
is_lock (begins_lock preserve) = true
is_lock (finishes_lock epoch) = true
is_lock (unlocks epoch) = true
is_lock resets = true
is_lock _ = false

pub step_keeps :
    (P : ApprovalState → Type 0) (closed : Closed P) (s : ApprovalState) (o : Operation)
    → is_lock o ≡ false
    → P s
    → P (step s o)
unfolding step client_session_connected Sessions.pending Sessions.sessions observe_run
    has_unattended unattended_covers History.step
step_keeps P closed s (authorizes request) h p = start-Keeps P closed s request p
step_keeps P closed s (polls approval_id ticket is_cancelled timed_out) h p =
    poll-Keeps P closed s approval_id ticket is_cancelled timed_out p
step_keeps P closed s (uses ticket) h p = use-Keeps P closed s ticket (ok tt) p
step_keeps P closed s (decides approval_id decision) h p =
    decide-Keeps P closed s approval_id decision p
step_keeps P closed s cancels_pending h p = cancel_request-Keeps P closed s p
step_keeps P closed s (begins_lock preserve) h p = cc
step_keeps P closed s (finishes_lock epoch) h p = cc
step_keeps P closed s (unlocks epoch) h p = cc
step_keeps P closed s resets h p = cc
step_keeps P closed s revokes_all h p = revoke_all-Keeps P closed s p
step_keeps P closed s (revokes_pair client secret) h p =
    revoke_pair-Keeps P closed s client secret p
step_keeps P closed s (revokes_client client) h p = revoke_client-Keeps P closed s client p
step_keeps P closed s (mutates_secret secret prepared) h p =
    mutate-Keeps P closed s secret prepared p
step_keeps P closed s (registers client connection_id token) h p =
    register-Keeps P closed s client connection_id token p
step_keeps P closed s (asks_connected client) h p = closed.to_purge s p
step_keeps P closed s closes h p = close-Keeps P closed s p
step_keeps P closed s asks_pending h p = closed.to_purge s p
step_keeps P closed s (observes_client client label) h p =
    observe_client-Keeps P closed s client label p
step_keeps P closed s asks_grants h p = asks_grants-Keeps P closed s p
step_keeps P closed s asks_sessions h p = closed.to_purge s p
step_keeps P closed s (annotates client connection_id name note) h p =
    annotate-Keeps P closed s client connection_id name note p
step_keeps P closed s (observes_run client project action) h p = closed.to_sessions s _ p
step_keeps P closed s (captures client captured) h p = capture-Keeps P closed s client captured p
step_keeps P closed s (grants_unattended context secrets deadline validated) h p =
    grant-Keeps P closed s context secrets deadline validated p
step_keeps P closed s (requires_access client) h p = require-Keeps P closed s client p
step_keeps P closed s (asks_unattended client) h p =
    unattended-Keeps P closed _ client (closed.to_purge s p)
step_keeps P closed s (asks_covered client ids) h p =
    access-Keeps P closed _ client ids (closed.to_purge s p)
step_keeps P closed s (disconnects token) h p = closed.to_cancelled s _ p
step_keeps P closed s (passes clock) h p = closed.to_grants s (History.passes clock) p
