-- ===== src/Approval/Tickets.antt =====
-- What `authorize` answers at once (crates/ladon-app/src/approval.rs), what it asks of the user, and how
-- the user's decision is turned into grants.
use ladon.Prelude.{
  is_empty, ◌∙◌, Bool, Bool-cases, inl, inr, nat_eq, pair_eq, ℕ, ◌≡◌, refl, not, ◌&&◌, Option, none,
  some, List, [], ◌∷◌, arith, contains, all, is_some, if◌then◌else◌, keep, map,
}
use ladon.Prelude.Result.{Result, ok, err, approval_cancelled, approval_denied, vault_locked, busy}
use ladon.Prelude.Time.{saturating_add, from_millis}
use ladon.Prelude.Map.{Distinct, get}
use ladon.Grants.{
  GrantDeadline, elapsed, wall_clock, session, duration_millis, GrantStore, is_unattended, missing,
  missing_unattended, purge_expired, first_seen,
}
use ladon.Grants
use ladon.Grants.View.{holds, missing_lem, grants_lem, granted}
use ladon.Approval.State.{
  PendingApproval, PendingState, GrantTicket, ApprovalState, ApprovalSecret, is_app_active,
  secret_ids, ApprovalDecision, approve, approve_until, approve_session, deny, cancel,
  prune_client_labels, purge_disconnected_clients,
}
use ladon.Approval.Authorize.{
  Start, done, waiting, same_vault, enter_vault, ticket_for, authorize_start, conclude, token_of,
}
use ladon.Approval.View.{IsValid, can_use, holds-purge_expired, is_empty-missing, purge-IsValid}
use ladon.Approval.Access.{all_ext, unattended_allows, unattended_access_lem}

abbrev locked_ticket : PendingApproval → GrantTicket
locked_ticket request = record {
  vault_session_id = request.vault_session_id;
  client_session_id = request.client_session_id;
  secret_ids = secret_ids request;
}

-- The client has a grant for the secret in the vault that is asked for.
abbrev pub usable : ApprovalState → PendingApproval → ℕ → Bool
usable s request secret =
    same_vault s.vault_session_id request.vault_session_id
    && can_use s request.client_session_id secret

-- The answer of `authorize` by the state without the disconnected clients.
unfoldable pub answer : ApprovalState → PendingApproval → Start
answer p request =
    let client = request.client_session_id in
    if not (is_app_active p)
    then done (
        if same_vault p.vault_session_id request.vault_session_id
          && unattended_allows p client (secret_ids request)
        then ok (locked_ticket request)
        else err vault_locked)
    else if is_some p.pending
    then done (err busy)
    else if all (usable p request) (secret_ids request)
    then done (ok (ticket_for request))
    else waiting (ticket_for request)

enter_vault-Distinct :
    (s : ApprovalState) (vault : ℕ)
    → Distinct s.grants.deadlines
    → Distinct (enter_vault s vault).grants.deadlines
unfolding enter_vault Grants.revoke_all
enter_vault-Distinct s vault v = ground arith

entered_usable :
    (s : ApprovalState) (request : PendingApproval) (secret : ℕ)
    → can_use (enter_vault s request.vault_session_id) request.client_session_id secret
      ≡ usable s request secret
unfolding enter_vault Grants.revoke_all holds get
entered_usable s request secret =
    elim (Bool-cases (same_vault s.vault_session_id request.vault_session_id)) [
      | inl e ↦ ground arith
      | inr e ↦ ground arith
    ]

is_empty-missing_entered :
    (s : ApprovalState) (request : PendingApproval) (ids : List ℕ)
    → Distinct s.grants.deadlines
    → let entered = enter_vault s request.vault_session_id in
      is_empty (missing entered.grants request.client_session_id ids).1 ≡ all (usable s request) ids
is_empty-missing_entered s request ids v =
    let client = request.client_session_id in
    let entered = enter_vault s request.vault_session_id in
    let (e, _) =
      is_empty-missing entered.grants client ids
        (enter_vault-Distinct s request.vault_session_id v) in
    e ∙ all_ext (can_use entered client) (usable s request) ids (entered_usable s request)

-- A request is answered at once in all cases but one. While the app is not active it succeeds exactly if
-- its vault is the open one and the client's unattended grants cover it. While the app is active it is
-- refused if another request is pending, and it succeeds if every secret is granted to the client in the
-- requested vault, which has to be the one that they were given for. Otherwise the user is asked.
pub authorize_start_lem :
    (s : ApprovalState) (request : PendingApproval)
    → IsValid s
    → (authorize_start s request).1 ≡ answer (purge_disconnected_clients s) request
unfolding authorize_start answer
authorize_start_lem s request v =
    let p = purge_disconnected_clients s in
    let w = purge-IsValid s v in
    let ids = secret_ids request in
    ground (
      arith,
      unattended_access_lem p request.client_session_id ids w.0,
      is_empty-missing_entered p request ids w.0,
    )

abbrev pub shown_ids : Option PendingState → List ℕ
shown_ids none = []
shown_ids (some p) = secret_ids p.request

-- What the request becomes: its ticket has the same secrets.
contains-keep_secrets :
    (missing : List ℕ) (secrets : List ApprovalSecret) (x : ℕ)
    → contains (map (λ s. s.id) (keep (λ s. contains missing s.id) secrets)) x
      ≡ (contains (map (λ s. s.id) secrets) x && contains missing x)
contains-keep_secrets missing [] x = refl
contains-keep_secrets missing (s ∷ ss) x =
    ground (arith, contains-keep_secrets missing ss x, nat_eq.eq_iff s.id x)

-- The user is shown exactly those secrets of the request that the client has no grant for in the
-- requested vault.
pub authorize_start-asks :
    (s : ApprovalState) (request : PendingApproval) (ticket : GrantTicket) (secret : ℕ)
    → IsValid s
    → (authorize_start s request).1 ≡ waiting ticket
    → contains (shown_ids (authorize_start s request).0.pending) secret ≡ (
        contains (secret_ids request) secret
        && not (usable (purge_disconnected_clients s) request secret))
unfolding authorize_start
authorize_start-asks s request ticket secret v asked =
    let p = purge_disconnected_clients s in
    let w = purge-IsValid s v in
    let client = request.client_session_id in
    let entered = enter_vault p request.vault_session_id in
    let ids = (missing entered.grants client (secret_ids request)).1 in
    ground (
      arith,
      contains-keep_secrets ids request.secrets secret,
      entered_usable p request secret,
      missing_lem entered.grants client (secret_ids request) secret
          (enter_vault-Distinct p request.vault_session_id w.0),
    )

abbrev pub Concludes : ApprovalState → PendingApproval → GrantTicket → ℕ → ℕ → ℕ → Type 0
Concludes s request ticket time c x =
    let ids = secret_ids request in
    let client = request.client_session_id in
    let now = s.grants.clock.now_millis in
    let after : ApprovalDecision → Option GrantDeadline =
      λ d. holds (conclude d request ticket s).0.grants c x in
    let outcome : ApprovalDecision → Result GrantTicket = λ d. (conclude d request ticket s).1 in
    ((after (approve none)
        ≡ granted s.grants client ids
            (elapsed (saturating_add now (duration_millis (from_millis s.grants.lifetime_millis))))
            c x)
      × (outcome (approve none) ≡ ok ticket))
    × ((after (approve (some time))
          ≡ granted s.grants client ids (elapsed (saturating_add now (duration_millis time))) c x)
        × (outcome (approve (some time)) ≡ ok ticket))
    × ((after (approve_until time) ≡ granted s.grants client ids (wall_clock time) c x)
        × (outcome (approve_until time) ≡ ok ticket))
    × ((after approve_session ≡ (
          if token_of s (get client s.client_sessions)
          then holds s.grants c x
          else granted s.grants client ids session c x))
        × (outcome approve_session ≡ (
            if token_of s (get client s.client_sessions)
            then err approval_cancelled
            else ok ticket)))
    × ((after ApprovalDecision.granted ≡ holds s.grants c x)
        × (outcome ApprovalDecision.granted ≡ (
            if all (can_use s ticket.client_session_id) ticket.secret_ids
            then ok ticket
            else err approval_cancelled)))
    × ((after deny ≡ holds s.grants c x) × (outcome deny ≡ err approval_denied))
    × ((after cancel ≡ holds s.grants c x) × (outcome cancel ≡ err approval_cancelled))

-- How each decision of the user ends a request: the four approvals give the client the shown secrets
-- with the store's lifetime, or the lifetime, the deadline or the session that the user chose, and return
-- the ticket; `granted` returns the ticket only if all its secrets are granted; the others change no grant and are errors. An
-- approval for the session of a client that is gone is an error too.
pub conclude_lem :
    (s : ApprovalState) (request : PendingApproval) (ticket : GrantTicket) (time c x : ℕ)
    → Distinct s.grants.deadlines
    → Concludes s request ticket time c x
unfolding conclude prune_client_labels Grants.missing Grants.active Grants.grant
conclude_lem s request ticket time c x v =
    let ids = secret_ids request in
    let client = request.client_session_id in
    let (g_for, g_until, g_session, _) = grants_lem s.grants client ids time c x v in
    let lifetime = from_millis s.grants.lifetime_millis in
    let (g_default, _, _, _) = grants_lem s.grants client ids lifetime c x v in
    let purged = holds-purge_expired s.grants c x v in
    (
      (g_default, refl),
      (g_for, refl),
      (g_until, refl),
      (ground (arith, g_session), ground arith),
      (
        purged,
        ground (arith, is_empty-missing s.grants ticket.client_session_id ticket.secret_ids v),
      ),
      (purged, refl),
      (purged, refl),
    )
