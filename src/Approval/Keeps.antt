-- ===== src/Approval/Keeps.antt =====
-- What a property of the coordinator's state needs for every method but the locks to keep it
-- (crates/ladon-app/src/approval.rs).
use ladon.Prelude.{
  ℕ, ◌≡◌, Bool, true, false, Option, none, some, List, [], if◌then◌else◌, Option-cases, inl, inr,
  arith, is_some, nat_eq,
}
use ladon.Prelude.Result.{Result}
use ladon.Prelude.Map.{Map, insert, get}
use ladon.Grants.History
use ladon.Model.{Text}
use ladon.Approval.State.{
  secret_ids, PendingApproval, PendingState, GrantTicket, ApprovalDecision, ApprovalState,
  SessionDetails, approve, approve_until, approve_session, deny, cancel, granted,
  prune_client_labels, cancel_pending, clear_pending, purge_disconnected_clients,
  client_has_unattended, decision_for,
}
use ladon.Approval.Authorize.{
  enter_vault, publish, unattended_access, authorize_start, authorize_active, authorize_locked,
  authorize_poll, conclude, conclude_pending, finish_or_wait, with_valid_grant, token_of,
  same_vault,
}
use ladon.Approval.Sessions.{can_register}

-- The changes of which the methods are made.
pub record Closed (P : ApprovalState → Type 0) : Type 0 where
  pub to_purge : (s : ApprovalState) → P s → P (purge_disconnected_clients s)
  pub to_grants :
      (s : ApprovalState) (call : History.Call)
      → P s
      → P (record s { grants = History.step s.grants call })
  pub to_pending :
      (s : ApprovalState) (p : Option PendingState) → P s → P (record s { pending = p })
  pub to_labels : (s : ApprovalState) (m : Map ℕ Text) → P s → P (record s { client_labels = m })
  pub to_sessions :
      (s : ApprovalState) (m : Map ℕ SessionDetails) → P s → P (record s { sessions = m })
  pub to_revision : (s : ApprovalState) (n : ℕ) → P s → P (record s { revision = n })
  pub to_vault : (s : ApprovalState) (v : Option ℕ) → P s → P (record s { vault_session_id = v })
  pub to_closed : (s : ApprovalState) (b : Bool) → P s → P (record s { sessions_closed = b })
  pub to_cancelled : (s : ApprovalState) (f : ℕ → Bool) → P s → P (record s { cancelled = f })
  pub to_registered :
      (s : ApprovalState) (client token : ℕ)
      → can_register s client ≡ true
      → P s
      → P (record s { client_sessions = insert client token s.client_sessions })

module _ (P : ApprovalState → Type 0) where
  pub if_keeps {ℓ} :
      {T : Type ℓ} (test : Bool) (x y : ApprovalState × T)
      → P x.0
      → P y.0
      → P (if test then x else y).0
  if_keeps true x y p q = p
  if_keeps false x y p q = q

  pub either_keeps : (test : Bool) (x y : ApprovalState) → P x → P y → P (if test then x else y)
  either_keeps true x y p q = p
  either_keeps false x y p q = q

-- The helpers and the ways of authorising.
module _ (P : ApprovalState → Type 0) (closed : Closed P) where
  pub prune-Keeps : (s : ApprovalState) → P s → P (prune_client_labels s)
  unfolding prune_client_labels History.step
  prune-Keeps s p = closed.to_labels _ _ (closed.to_grants s History.asks_active p)

  pub cancel-Keeps : (s : ApprovalState) → P s → P (cancel_pending s)
  unfolding cancel_pending
  cancel-Keeps s p = closed.to_pending s _ p

  clear-Keeps : (s : ApprovalState) (approval_id : ℕ) → P s → P (clear_pending s approval_id)
  unfolding clear_pending
  clear-Keeps s approval_id p = elim (Option-cases s.pending) [
    | inl e ↦ ground arith
    | inr (q, e) ↦
        let pruned = prune-Keeps (record s { pending = none }) (closed.to_pending s none p) in
        ground arith
  ]

  pub enter-Keeps : (s : ApprovalState) (vault : ℕ) → P s → P (enter_vault s vault)
  unfolding enter_vault History.step
  enter-Keeps s vault p = either_keeps P (same_vault s.vault_session_id vault) _ _ p (
      closed.to_vault _ (some vault)
        (closed.to_labels _ [] (closed.to_grants s History.revokes_all p)))

  pub unattended-Keeps :
      (s : ApprovalState) (client : ℕ) → P s → P (client_has_unattended s client).0
  unfolding client_has_unattended History.step
  unattended-Keeps s client p =
      if_keeps P _ _ _ (closed.to_grants s (History.asks_unattended client) p) p

  pub access-Keeps :
      (s : ApprovalState) (client : ℕ) (ids : List ℕ) → P s → P (unattended_access s client ids).0
  unfolding unattended_access History.step
  access-Keeps s client ids p =
      let s' = (client_has_unattended s client).0 in
      let q = unattended-Keeps s client p in
      if_keeps P _ _ _ (closed.to_grants s' (History.asks_missing_unattended client ids) q) q

  locked-Keeps :
      (s : ApprovalState) (request : PendingApproval) → P s → P (authorize_locked s request).0
  unfolding authorize_locked
  locked-Keeps s request p =
      if_keeps P (same_vault s.vault_session_id request.vault_session_id) _ _
        (access-Keeps s request.client_session_id _ p) p

  active-Keeps :
      (s : ApprovalState) (request : PendingApproval) → P s → P (authorize_active s request).0
  unfolding authorize_active publish History.step
  active-Keeps s request p =
      let client = request.client_session_id in
      let entered = enter_vault s request.vault_session_id in
      let asked =
        closed.to_grants entered (History.asks_missing client (secret_ids request))
          (enter-Keeps s request.vault_session_id p) in
      let labelled = closed.to_labels _ _ asked in
      if_keeps P _ _ _ labelled (closed.to_pending _ _ labelled)

  pub start-Keeps :
      (s : ApprovalState) (request : PendingApproval) → P s → P (authorize_start s request).0
  unfolding authorize_start
  start-Keeps state request p =
      let s = purge_disconnected_clients state in
      let q = closed.to_purge state p in
      if_keeps P _ _ _ (locked-Keeps s request q)
        (if_keeps P (is_some s.pending) _ _ q (active-Keeps s request q))

  conclude-Keeps :
      (d : ApprovalDecision) (request : PendingApproval) (ticket : GrantTicket) (s : ApprovalState)
      → P s
      → P (conclude d request ticket s).0
  unfolding conclude History.step
  conclude-Keeps granted request ticket s p =
      closed.to_grants s (History.asks_missing ticket.client_session_id ticket.secret_ids) p
  conclude-Keeps (approve none) request ticket s p =
      closed.to_labels _ _
        (closed.to_grants s (History.grants request.client_session_id (secret_ids request)) p)
  conclude-Keeps (approve (some lifetime)) request ticket s p = closed.to_labels _ _ (
      closed.to_grants s
        (History.grants_for request.client_session_id (secret_ids request) lifetime) p)
  conclude-Keeps (approve_until deadline) request ticket s p = closed.to_labels _ _ (
      closed.to_grants s
        (History.grants_until request.client_session_id (secret_ids request) deadline) p)
  conclude-Keeps approve_session request ticket s p =
      if_keeps P (token_of s (get request.client_session_id s.client_sessions)) _ _ p (
        closed.to_labels _ _ (
          closed.to_grants s (History.grants_session request.client_session_id (secret_ids request))
            p))
  conclude-Keeps deny request ticket s p = prune-Keeps s p
  conclude-Keeps cancel request ticket s p = prune-Keeps s p

  conclude_pending-Keeps :
      (o : Option PendingState) (d : ApprovalDecision) (ticket : GrantTicket) (s : ApprovalState)
      → P s
      → P (conclude_pending o d ticket s).0
  conclude_pending-Keeps none d ticket s p = p
  conclude_pending-Keeps (some q) d ticket s p =
      conclude-Keeps d q.request ticket (record s { pending = none }) (closed.to_pending s none p)

  finish-Keeps :
      (d : Option ApprovalDecision) (timed_out : Bool) (s : ApprovalState) (approval_id : ℕ)
      (ticket : GrantTicket)
      → P s
      → P (finish_or_wait d timed_out s approval_id ticket).0
  finish-Keeps (some d) timed_out s approval_id ticket p =
      conclude_pending-Keeps s.pending d ticket s p
  finish-Keeps none true s approval_id ticket p = clear-Keeps s approval_id p
  finish-Keeps none false s approval_id ticket p = p

  pub poll-Keeps :
      (s : ApprovalState) (approval_id : ℕ) (ticket : GrantTicket) (is_cancelled timed_out : Bool)
      → P s
      → P (authorize_poll s approval_id ticket is_cancelled timed_out).0
  unfolding authorize_poll
  poll-Keeps state approval_id ticket is_cancelled timed_out p =
      let s = purge_disconnected_clients state in
      let q = closed.to_purge state p in
      if_keeps P is_cancelled _ _ (clear-Keeps s approval_id q)
        (finish-Keeps (decision_for s approval_id) timed_out s approval_id ticket q)

  pub use-Keeps {ℓ} :
      {T : Type ℓ} (s : ApprovalState) (ticket : GrantTicket) (operation : Result T)
      → P s
      → P (with_valid_grant s ticket operation).0
  unfolding with_valid_grant History.step
  use-Keeps state ticket operation p =
      let s = purge_disconnected_clients state in
      let q = closed.to_purge state p in
      let asked = access-Keeps s ticket.client_session_id ticket.secret_ids q in
      let call = History.asks_missing ticket.client_session_id ticket.secret_ids in
      let counted_active = closed.to_grants s call q in
      let counted_locked = closed.to_grants _ call asked in ground arith
