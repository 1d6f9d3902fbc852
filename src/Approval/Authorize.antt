-- ===== src/Approval/Authorize.antt =====
-- How a request for secrets is authorised (crates/ladon-app/src/approval.rs, `authorize` and
-- `with_valid_grant`). `authorize_with_wake` waits between its start and its end: `authorize_start` is
-- the part before it releases the mutex, `authorize_poll` one round of its loop, with what the clock and
-- the cancellation token show then.
use ladon.Prelude.{
  ℕ, Bool, true, false, not, ◌||◌, Option, none, some, List, [], ◌==◌, nat_eq, contains, is_some,
  is_empty, if◌then◌else◌, keep,
}
use ladon.Prelude.Result.{
  Result, ok, err, LadonError, busy, vault_locked, approval_cancelled, approval_denied,
  approval_timeout,
}
use ladon.Prelude.Map.{get, insert}
use ladon.Grants.{GrantStore, first_seen}
use ladon.Grants
use ladon.Approval.State.{
  PendingApproval, ApprovalDecision, PendingState, GrantTicket, ApprovalState, secret_ids,
  is_app_active, prune_client_labels, clear_pending, decision_for, purge_disconnected_clients,
  client_has_unattended,
}

abbrev pub same_vault : Option ℕ → ℕ → Bool
same_vault none vault = false
same_vault (some v) vault = v == vault

-- `client_has_unattended(…) && grants.missing_unattended(…).is_empty()`.
unfoldable pub unattended_access : ApprovalState → ℕ → List ℕ → ApprovalState × Bool
unfolding client_has_unattended
unattended_access s client ids =
    let (s', has) = client_has_unattended s client in
    if has
    then (let (grants, missing) = Grants.missing_unattended s'.grants client ids in
        (record s' { grants = grants }, is_empty missing))
    else (s', false)

-- What the start of a request leads to.
pub data Start : Type 0 where
  done : Result GrantTicket → Start
  waiting : GrantTicket → Start

-- The app is locked.
unfoldable pub authorize_locked :
    ApprovalState → PendingApproval → ApprovalState × Result GrantTicket
unfolding unattended_access
authorize_locked s request =
    let ids = secret_ids request in
    let (s', allowed) = unattended_access s request.client_session_id ids in
    let ticket : GrantTicket = record {
      vault_session_id = request.vault_session_id;
      client_session_id = request.client_session_id;
      secret_ids = ids;
    } in
    if same_vault s.vault_session_id request.vault_session_id
    then (s', if allowed then ok ticket else err vault_locked)
    else (s, err vault_locked)

-- Another vault session than before drops every grant.
unfoldable pub enter_vault : ApprovalState → ℕ → ApprovalState
enter_vault s vault = if same_vault s.vault_session_id vault then s else record s {
  grants = Grants.revoke_all s.grants;
  client_labels = [];
  vault_session_id = some vault;
}

unfoldable pub ticket_for : PendingApproval → GrantTicket
ticket_for request = record {
  vault_session_id = request.vault_session_id;
  client_session_id = request.client_session_id;
  secret_ids = first_seen [] (secret_ids request);
}

-- The request as it is shown: only the secrets that still need a grant.
unfoldable pub publish : ApprovalState → PendingApproval → List ℕ → ApprovalState
unfolding ticket_for
publish s request missing = record s {
  pending = some (record {
    request = record request {
      secrets = keep (λ secret. contains missing secret.id) request.secrets;
    };
    requested_secret_ids = (ticket_for request).secret_ids;
    decision = none;
  });
}

unfoldable pub authorize_active : ApprovalState → PendingApproval → ApprovalState × Start
unfolding enter_vault ticket_for publish
authorize_active s request =
    let client = request.client_session_id in
    let entered = enter_vault s request.vault_session_id in
    let (grants, missing) = Grants.missing entered.grants client (secret_ids request) in
    let labelled = record entered {
      client_labels = insert client request.client_label entered.client_labels;
      grants = grants;
    } in
    if is_empty missing
    then (labelled, done (ok (ticket_for request)))
    else (publish labelled request missing, waiting (ticket_for request))

unfoldable pub authorize_start : ApprovalState → PendingApproval → ApprovalState × Start
unfolding authorize_locked authorize_active
authorize_start state request =
    let s = purge_disconnected_clients state in
    let (refused, result) = authorize_locked s request in
    if not (is_app_active s)
    then (refused, done result)
    else if is_some s.pending
    then (s, done (err busy))
    else authorize_active s request

abbrev pub token_of : ApprovalState → Option ℕ → Bool
token_of s none = true
token_of s (some token) = s.cancelled token

abbrev label_granted : ApprovalState → PendingApproval → GrantStore → ApprovalState
label_granted s request grants = record s {
  grants = grants;
  client_labels = insert request.client_session_id request.client_label s.client_labels;
}

-- The `match decision`, on the state from which the pending request is taken.
unfoldable pub conclude :
    ApprovalDecision
    → PendingApproval
    → GrantTicket
    → ApprovalState
    → ApprovalState × Result GrantTicket
conclude ApprovalDecision.granted request ticket s =
    let (grants, missing) = Grants.missing s.grants ticket.client_session_id ticket.secret_ids in
    (record s { grants = grants }, if is_empty missing then ok ticket else err approval_cancelled)
conclude (ApprovalDecision.approve none) request ticket s = (
  label_granted s request (Grants.grant s.grants request.client_session_id (secret_ids request)),
  ok ticket,
)
conclude (ApprovalDecision.approve (some lifetime)) request ticket s = (
  label_granted s request
      (Grants.grant_for s.grants request.client_session_id (secret_ids request) lifetime),
  ok ticket,
)
conclude (ApprovalDecision.approve_until deadline) request ticket s = (
  label_granted s request
      (Grants.grant_until s.grants request.client_session_id (secret_ids request) deadline),
  ok ticket,
)
conclude ApprovalDecision.approve_session request ticket s =
    if token_of s (get request.client_session_id s.client_sessions)
    then (s, err approval_cancelled)
    else (
      label_granted s request
          (Grants.grant_session s.grants request.client_session_id (secret_ids request)),
      ok ticket,
    )
conclude ApprovalDecision.deny request ticket s = (prune_client_labels s, err approval_denied)
conclude ApprovalDecision.cancel request ticket s = (prune_client_labels s, err approval_cancelled)

abbrev pub conclude_pending :
    Option PendingState
    → ApprovalDecision
    → GrantTicket
    → ApprovalState
    → ApprovalState × Result GrantTicket
conclude_pending none decision ticket s = (s, err LadonError.process_failure)
conclude_pending (some p) decision ticket s =
    conclude decision p.request ticket (record s { pending = none })

abbrev pub finish_or_wait :
    Option ApprovalDecision
    → Bool
    → ApprovalState
    → ℕ
    → GrantTicket
    → ApprovalState × Option (Result GrantTicket)
finish_or_wait (some decision) timed_out s approval_id ticket =
    let (s', result) = conclude_pending s.pending decision ticket s in (s', some result)
finish_or_wait none true s approval_id ticket =
    (clear_pending s approval_id, some (err approval_timeout))
finish_or_wait none false s approval_id ticket = (s, none)

-- One round of the loop; `none` means that the thread goes on waiting.
unfoldable pub authorize_poll :
    ApprovalState → ℕ → GrantTicket → Bool → Bool → ApprovalState × Option (Result GrantTicket)
authorize_poll state approval_id ticket is_cancelled timed_out =
    let s = purge_disconnected_clients state in
    if is_cancelled
    then (clear_pending s approval_id, some (err approval_cancelled))
    else finish_or_wait (decision_for s approval_id) timed_out s approval_id ticket

-- `operation` is what the closure would return.
unfoldable pub with_valid_grant {ℓ} :
    {T : Type ℓ} → ApprovalState → GrantTicket → Result T → ApprovalState × Result T
unfolding unattended_access
with_valid_grant state ticket operation =
    let s = purge_disconnected_clients state in
    let client = ticket.client_session_id in
    let (asked, allowed) = unattended_access s client ticket.secret_ids in
    let s' = if is_app_active s then s else asked in
    let (grants, missing) = Grants.missing s'.grants client ticket.secret_ids in
    let counted = record s' { grants = grants } in
    if not (is_app_active s || allowed)
    then (s', err approval_cancelled)
    else if not (same_vault s'.vault_session_id ticket.vault_session_id)
    then (s', err approval_cancelled)
    else if not (is_empty missing)
    then (counted, err approval_cancelled)
    else (counted, operation)
