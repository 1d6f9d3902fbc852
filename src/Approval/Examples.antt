-- ===== src/Approval/Examples.antt =====
-- The coordinator at concrete inputs.
use ladon.Prelude.{
  ℕ, ◌≡◌, ◌⊎◌, ◌==◌, nat_eq, pair_eq, refl, Bool, true, false, Option, none, some, List, [], ◌∷◌,
  contains, ◌&&◌, not, ◌≤◌, keep_if,
}
use ladon.Prelude.Result.{Result, LadonError, ok, err, invalid_request}
use ladon.Prelude.Map.{get, contains_key, retain}
use ladon.Prelude.Time.{u64_max}
use ladon.Grants.{Clock, elapsed, unattended, session, GrantStore, GrantDeadline, is_unattended}
use ladon.Grants
use ladon.Grants.View.{holds}
use ladon.Prelude.Utf8.{codes}
use ladon.Approval.State.{
  ApprovalSecret, PendingState, PendingApproval, GrantTicket, ApprovalState, AppAccessState,
  is_app_active, secret_ids, new, ApprovalDecision, purge_disconnected_clients, disconnect,
  disconnected, disconnect_all,
}
use ladon.Approval.Authorize.{authorize_start, with_valid_grant, ticket_for}
use ladon.Approval.Control.{begin_app_lock_with_policy, finish_app_lock, unlock_app}
use ladon.Approval.Operations.{
  Operation, registers, disconnects, begins_lock, finishes_lock, unlocks, resets, step, run,
}
use ladon.Approval.View.{IsValid, can_use, can_use_unattended, purge_lem}
use ladon.Approval.Access.{with_valid_grant_lem, operation_granted}
use ladon.Approval.Tickets.{
  answer, authorize_start_lem, authorize_start-asks, usable, shown_ids, Concludes, conclude_lem,
}
use ladon.Approval.Invariant.{IsSound, new-IsSound, run-IsSound}
use ladon.Approval.Locks.{begin_app_lock_lem, step-is_app_active, stale_epoch}

abbrev noon : Clock
noon = record { now_millis = 1000; wall_time = 5000000000 }

-- The token 101 is cancelled, the others are not.
abbrev one_cancelled : ℕ → Bool
one_cancelled token = token == 101

-- Client 1 is connected and may use secret 7, and secret 8 unattended; client 2 has gone.
abbrev desk : ApprovalState
desk = record {
  grants = record {
    clock = noon;
    lifetime_millis = 60000;
    deadlines =
        ((1, 7), elapsed 9000) ∷ ((1, 8), unattended 9000000000 9000) ∷ ((2, 7), session) ∷ [];
  };
  vault_session_id = some 3;
  pending = none;
  client_labels = [];
  client_sessions = (1, 100) ∷ (2, 101) ∷ [];
  sessions_closed = false;
  app_access = AppAccessState.active;
  lock_epoch = 4;
  revision = 0;
  sessions = [];
  cancelled = one_cancelled;
}

desk-IsValid : IsValid desk
unfolding contains_key
desk-IsValid = ((refl, (refl, (refl, tt))), (refl, (refl, tt)))

abbrev ticket : GrantTicket
ticket = record { vault_session_id = 3; client_session_id = 1; secret_ids = 7 ∷ 8 ∷ [] }

abbrev token_secret : ℕ → ApprovalSecret
token_secret i = record { id = i; name = codes "token"; fields = [] }

abbrev request : PendingApproval
request = record {
  id = 50;
  vault_session_id = 3;
  client_session_id = 1;
  client_label = codes "agent";
  secrets = token_secret 7 ∷ token_secret 9 ∷ [];
  executable = codes "/bin/true";
  arguments = [];
  working_directory = codes "/";
}

abbrev five : Result ℕ
five = ok 5

-- The user is asked for client 2.
abbrev asked : Option ApprovalDecision → PendingState
asked decision = record {
  request = record request { client_session_id = 2 };
  requested_secret_ids = 7 ∷ 9 ∷ [];
  decision = decision;
}

abbrev asking : ApprovalState
asking = record desk { pending = some (asked none) }

purge_lem_example :
    (get 2 (purge_disconnected_clients asking).client_sessions ≡ none)
    × (holds (purge_disconnected_clients asking).grants 2 7 ≡ none)
    × ((purge_disconnected_clients asking).pending ≡ some (asked (some ApprovalDecision.cancel)))
unfolding get
purge_lem_example = purge_lem asking 2 7 desk-IsValid

with_valid_grant_lem_example : (with_valid_grant desk ticket five).1 ≡ five
unfolding with_valid_grant is_app_active purge_disconnected_clients disconnect_all disconnected
    disconnect holds get retain Grants.revoke_client Grants.is_live
with_valid_grant_lem_example = with_valid_grant_lem desk ticket five desk-IsValid

operation_granted_example :
    let p = purge_disconnected_clients desk in
    (can_use p 1 8 ≡ true)
    × (p.vault_session_id ≡ some 3)
    × ((is_app_active p ≡ true)
        ⊎ ((can_use_unattended p 1 8 ≡ true) × (contains_key 1 p.client_sessions ≡ true)))
unfolding with_valid_grant is_app_active purge_disconnected_clients disconnect_all disconnected
    disconnect Grants.missing contains_key retain Grants.revoke_client Grants.is_live
operation_granted_example = operation_granted desk ticket five 5 8 desk-IsValid refl refl

authorize_start_lem_example :
    (authorize_start desk request).1 ≡ answer (purge_disconnected_clients desk) request
authorize_start_lem_example = authorize_start_lem desk request desk-IsValid

authorize_start-asks_example :
    contains (shown_ids (authorize_start desk request).0.pending) 9
    ≡ (contains (secret_ids request) 9 && not (usable (purge_disconnected_clients desk) request 9))
unfolding authorize_start is_app_active purge_disconnected_clients disconnect_all disconnected
    disconnect Grants.missing contains_key retain Grants.revoke_client Grants.is_live
authorize_start-asks_example =
    authorize_start-asks desk request (ticket_for request) 9 desk-IsValid refl

conclude_lem_example : Concludes desk request ticket 6000000000 1 9
conclude_lem_example = conclude_lem desk request ticket 6000000000 1 9 (desk-IsValid.0)

abbrev few_calls : List Operation
few_calls =
    registers 1 60 100
    ∷ registers 2 61 101
    ∷ begins_lock true
    ∷ finishes_lock 1
    ∷ disconnects 100
    ∷ unlocks 1
    ∷ []

run-IsSound_example : IsSound (run (new noon 60000 one_cancelled) few_calls)
run-IsSound_example =
    run-IsSound (new noon 60000 one_cancelled) few_calls (new-IsSound noon 60000 one_cancelled)

begin_app_lock_lem_example :
    let (t, result) = begin_app_lock_with_policy true desk in
    ((is_app_active desk ≡ false) × (t ≡ desk) × (result ≡ err LadonError.busy))
    ⊎ ((is_app_active desk ≡ true) × (u64_max ≤ 4) × (t ≡ desk) × (result ≡ err invalid_request))
    ⊎ ((is_app_active desk ≡ true)
        × (result ≡ ok 5)
        × (t.app_access ≡ AppAccessState.locking 5)
        × (t.lock_epoch ≡ 5)
        × (t.pending ≡ none)
        × (holds t.grants 1 8 ≡ keep_if is_unattended (holds desk.grants 1 8)))
begin_app_lock_lem_example = begin_app_lock_lem desk true 1 8 desk-IsValid

abbrev locked_desk : ApprovalState
locked_desk = record desk { app_access = AppAccessState.locked 4 }

step-is_app_active_example :
    ((epoch : ℕ) × (unlocks 4 ≡ unlocks epoch)
      × (locked_desk.app_access ≡ AppAccessState.locked epoch))
    ⊎ (unlocks 4 ≡ resets)
unfolding step is_app_active unlock_app
step-is_app_active_example = step-is_app_active locked_desk (unlocks 4) refl refl

abbrev start : ApprovalState
start = new noon 60000 one_cancelled

abbrev first_lock : ApprovalState
first_lock = (begin_app_lock_with_policy false start).0

abbrev second_lock : ApprovalState
second_lock =
    (begin_app_lock_with_policy false (run first_lock (finishes_lock 1 ∷ unlocks 1 ∷ []))).0

stale_epoch_example :
    let w = run second_lock (finishes_lock 2 ∷ []) in
    (finish_app_lock 1 w ≡ (w, err invalid_request)) × (unlock_app 1 w ≡ (w, err invalid_request))
unfolding new begin_app_lock_with_policy run is_app_active unlock_app finish_app_lock
stale_epoch_example =
    stale_epoch start first_lock second_lock false false 1 2 (finishes_lock 1 ∷ unlocks 1 ∷ [])
      (finishes_lock 2 ∷ []) (new-IsSound noon 60000 one_cancelled) refl refl
