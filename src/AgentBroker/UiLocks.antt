-- ===== src/AgentBroker/UiLocks.antt =====
-- UiLockCoordinator (crates/ladon-app/src/agent_broker.rs): an agent's request to lock waits until the user
-- interface has locked too, and not while that is busy itself. A method that waits for the condition
-- variable is one round of its loop, with no result while it goes on waiting.
pub mod Ordered
use ladon.Prelude.{
  ℕ, ◌+◌, Bool, true, false, not, ◌&&◌, ◌||◌, Option, none, some, ltb, leb, ◌==◌, nat_eq,
  if◌then◌else◌,
}
use ladon.Prelude.Time.{u64_max}
use ladon.Prelude.Result.{
  Result, ok, err, LadonError, busy, invalid_request, process_failure, endpoint_unavailable,
}
use ladon.UnlockRequest
use ladon.UnlockRequest.{UnlockRequests}

-- UiLockState, with the requests to unlock beside it.
pub record UiLockCoordinator : Type 0 where
  pub unlock_requests : UnlockRequests
  pub requested : ℕ
  pub acknowledged : ℕ
  pub ready : Option ℕ
  pub local_operation : Bool
  pub connected : Bool

abbrev pub new : UiLockCoordinator
new = record {
  unlock_requests = UnlockRequest.new;
  requested = 0;
  acknowledged = 0;
  ready = none;
  local_operation = false;
  connected = true;
}

unfoldable pub begin_request : UiLockCoordinator → UiLockCoordinator × Option (Result ℕ)
begin_request s =
    if (ltb s.acknowledged s.requested || s.local_operation) && s.connected
    then (s, none)
    else if not s.connected
    then (s, some (err endpoint_unavailable))
    else if not (leb (s.requested + 1) u64_max)
    then (s, some (err process_failure))
    else (
      record s {
        requested = s.requested + 1;
        unlock_requests = UnlockRequest.cancel s.unlock_requests;
      },
      some (ok (s.requested + 1)),
    )

-- Whether the operation begins, where there is no error.
unfoldable pub try_begin_local_operation : UiLockCoordinator → UiLockCoordinator × Result Bool
try_begin_local_operation s =
    if not s.connected
    then (s, err endpoint_unavailable)
    else if ltb s.acknowledged s.requested
    then (s, ok false)
    else if s.local_operation
    then (s, err busy)
    else (record s { local_operation = true }, ok true)

unfoldable pub wait_begin_local_operation :
    UiLockCoordinator → UiLockCoordinator × Option (Result Bool)
wait_begin_local_operation s =
    if not s.connected
    then (s, some (err endpoint_unavailable))
    else if ltb s.acknowledged s.requested
    then (s, some (ok false))
    else if not s.local_operation
    then (record s { local_operation = true }, some (ok true))
    else (s, none)

-- `finish_request`, up to its wait.
unfoldable pub make_ready : ℕ → UiLockCoordinator → UiLockCoordinator × Result (Unit {0})
make_ready request_id s =
    if not (request_id == s.requested) || leb request_id s.acknowledged
    then (s, err invalid_request)
    else (record s { ready = some request_id }, ok tt)

-- A round of its loop, which changes nothing.
unfoldable pub finish_request : ℕ → UiLockCoordinator → Option (Result (Unit {0}))
finish_request request_id s =
    if ltb s.acknowledged request_id && s.connected
    then none
    else if leb request_id s.acknowledged
    then some (ok tt)
    else some (err endpoint_unavailable)

abbrev pub is_ready : Option ℕ → ℕ → Bool
is_ready none request_id = false
is_ready (some ready) request_id = ready == request_id

unfoldable pub pending_request : UiLockCoordinator → Option ℕ
pending_request s =
    if is_ready s.ready s.requested && ltb s.acknowledged s.requested
    then some s.requested
    else none

unfoldable pub unlock_blocked : UiLockCoordinator → Bool
unlock_blocked s = not s.connected || (s.local_operation || ltb s.acknowledged s.requested)

unfoldable pub request_in_progress : UiLockCoordinator → Bool
request_in_progress s = ltb s.acknowledged s.requested

unfoldable pub acknowledge : ℕ → UiLockCoordinator → UiLockCoordinator × Result (Unit {0})
acknowledge request_id s =
    if not (request_id == s.requested)
      || (not (is_ready s.ready request_id) || leb request_id s.acknowledged)
    then (s, err invalid_request)
    else (record s { acknowledged = request_id; ready = none }, ok tt)

unfoldable pub disconnect : UiLockCoordinator → UiLockCoordinator
disconnect s = record s {
  connected = false;
  unlock_requests = UnlockRequest.cancel s.unlock_requests;
}

-- `drop` of a UiLocalOperation.
unfoldable pub drop_local_operation : UiLockCoordinator → UiLockCoordinator
drop_local_operation s = record s { local_operation = false }
