-- ===== src/AgentBroker/UiLocks/Ordered.antt =====
-- Lock requests one after the other, and never together with an operation of the user interface
-- (crates/ladon-app/src/agent_broker.rs).
use ladon.Prelude.{
  ℕ, ◌+◌, ◌≡◌, ◌≤◌, ◌<◌, refl, Bool, true, false, ◌&&◌, Option, none, some, List, [], ◌∷◌, ltb,
  ◌==◌, nat_eq, if◌then◌else◌, arith,
}
use ladon.Prelude.Time.{u64_max}
use ladon.Prelude.Result.{ok, err, invalid_request, approval_cancelled}
use ladon.Model.{Text}
use ladon.UnlockRequest
use ladon.UnlockRequest.{UnlockRequests, register}
use ladon.UnlockRequest.Decisions.{register-stale, cancelled}
use ladon.AgentBroker.UiLocks
use ladon.AgentBroker.UiLocks.{
  UiLockCoordinator, begin_request, try_begin_local_operation, wait_begin_local_operation,
  make_ready, finish_request, is_ready, pending_request, unlock_blocked, request_in_progress,
  acknowledge, disconnect, drop_local_operation,
}

-- What a thread does next. A request is acknowledged by the user interface.
pub data Step : Type 0 where
  begins tries_local waits_local drops_local disconnects : Step
  makes_ready acknowledges : ℕ → Step

unfoldable pub step : UiLockCoordinator → Step → UiLockCoordinator
unfolding begin_request try_begin_local_operation wait_begin_local_operation make_ready acknowledge
    disconnect drop_local_operation
step s Step.begins = (begin_request s).0
step s Step.tries_local = (try_begin_local_operation s).0
step s Step.waits_local = (wait_begin_local_operation s).0
step s Step.drops_local = drop_local_operation s
step s Step.disconnects = disconnect s
step s (Step.makes_ready request_id) = (make_ready request_id s).0
step s (Step.acknowledges request_id) = (acknowledge request_id s).0

unfoldable pub run : UiLockCoordinator → List Step → UiLockCoordinator
unfolding step
run s [] = s
run s (x ∷ xs) = run (step s x) xs

abbrev pub is_open : Option ℕ → UiLockCoordinator → Bool
is_open none s = true
is_open (some ready) s = ready == s.requested && ltb s.acknowledged s.requested

-- At most one request is open, and not together with a local operation; only an open request is ready.
pub record IsOrdered (s : UiLockCoordinator) : Type 0 where
  pub answered : s.acknowledged ≤ s.requested
  pub one_open : s.requested ≤ s.acknowledged + 1
  pub apart : (s.local_operation && ltb s.acknowledged s.requested) ≡ false
  pub ready_open : is_open s.ready s ≡ true

step-IsOrdered : (s : UiLockCoordinator) (x : Step) → IsOrdered s → IsOrdered (step s x)
unfolding step
step-IsOrdered s Step.begins o = record {
  answered = ground arith;
  one_open = ground arith;
  apart = ground arith;
  ready_open = ground arith;
}
step-IsOrdered s Step.tries_local o = record {
  answered = ground arith;
  one_open = ground arith;
  apart = ground arith;
  ready_open = ground arith;
}
step-IsOrdered s Step.waits_local o = record {
  answered = ground arith;
  one_open = ground arith;
  apart = ground arith;
  ready_open = ground arith;
}
step-IsOrdered s Step.drops_local o = record {
  answered = ground arith;
  one_open = ground arith;
  apart = ground arith;
  ready_open = ground arith;
}
step-IsOrdered s Step.disconnects o = record {
  answered = ground arith;
  one_open = ground arith;
  apart = ground arith;
  ready_open = ground arith;
}
step-IsOrdered s (Step.makes_ready request_id) o = record {
  answered = ground arith;
  one_open = ground arith;
  apart = ground arith;
  ready_open = ground arith;
}
step-IsOrdered s (Step.acknowledges request_id) o = record {
  answered = ground arith;
  one_open = ground arith;
  apart = ground arith;
  ready_open = ground arith;
}

from : (s : UiLockCoordinator) (xs : List Step) → IsOrdered s → IsOrdered (run s xs)
unfolding run
from s [] o = o
from s (x ∷ xs) o = from (step s x) xs (step-IsOrdered s x o)

-- Whatever the threads and the user interface have done: at most one lock request is not acknowledged; there
-- is none while the user interface does an operation of its own; and the request that is ready to be
-- acknowledged is that one.
pub run-IsOrdered : (xs : List Step) → IsOrdered (run UiLocks.new xs)
run-IsOrdered xs =
    from UiLocks.new xs
      (record { answered = omega arith; one_open = omega arith; apart = refl; ready_open = refl })

-- `acknowledge` accepts exactly the pending request, and then no request is in progress.
pub acknowledge_lem :
    (request_id : ℕ) (s : UiLockCoordinator)
    → acknowledge request_id s ≡ (
        if is_ready (pending_request s) request_id
        then (record s { acknowledged = request_id; ready = none }, ok tt)
        else (s, err invalid_request))
unfolding acknowledge pending_request
acknowledge_lem request_id s = ground arith

-- The coordinator after each step of a request.
abbrev opened : UiLockCoordinator → UiLockCoordinator
opened s = record s {
  requested = s.requested + 1;
  unlock_requests = UnlockRequest.cancel s.unlock_requests;
}

abbrev offered : UiLockCoordinator → UiLockCoordinator
offered s = record (opened s) { ready = some (s.requested + 1) }

abbrev closed : UiLockCoordinator → UiLockCoordinator
closed s = record (offered s) { acknowledged = s.requested + 1; ready = none }

opened-stale :
    (s : UiLockCoordinator) (label purpose : Text) (unlock_id : ℕ)
    → s.unlock_requests.epoch < 18446744073709551616
    → register s.unlock_requests.epoch label purpose unlock_id (opened s).unlock_requests
      ≡ ((opened s).unlock_requests, err approval_cancelled)
unfolding UnlockRequest.cancel ladon.UnlockRequest.Decisions.run
opened-stale s label purpose unlock_id small =
    register-stale s.unlock_requests (cancelled ∷ []) label purpose unlock_id small (omega arith)
      (omega arith)

-- A lock request on a connected coordinator that is idle: it gets the next number; a wait to unlock that had
-- read the epoch before is refused; once made ready, it is pending and waits for the user interface; and
-- once that has acknowledged it, `finish_request` succeeds.
pub begin-finish :
    (s : UiLockCoordinator) (label purpose : Text) (unlock_id : ℕ)
    → IsOrdered s
    → s.connected ≡ true
    → unlock_blocked s ≡ false
    → s.requested < u64_max
    → s.unlock_requests.epoch < 18446744073709551616
    → let request_id = s.requested + 1 in
      let begun = (begin_request s).0 in
      let ready = (make_ready request_id begun).0 in
      let done = (acknowledge request_id ready).0 in
      ((begin_request s).1 ≡ some (ok request_id))
      × (register s.unlock_requests.epoch label purpose unlock_id begun.unlock_requests
          ≡ (begun.unlock_requests, err approval_cancelled))
      × (pending_request ready ≡ some request_id)
      × (finish_request request_id ready ≡ none)
      × (finish_request request_id done ≡ some (ok tt))
      × (request_in_progress done ≡ false)
unfolding begin_request make_ready acknowledge pending_request finish_request request_in_progress
    unlock_blocked
begin-finish s label purpose unlock_id o up free room small =
    let idle : s.acknowledged ≡ s.requested = ground arith in
    let began : begin_request s ≡ (opened s, some (ok (s.requested + 1))) = ground arith in
    let readied : make_ready (s.requested + 1) (opened s) ≡ (offered s, ok tt) = ground arith in
    let answer : acknowledge (s.requested + 1) (offered s) ≡ (closed s, ok tt) = ground arith in
    rw (began, readied, answer)
      (
        refl,
        opened-stale s label purpose unlock_id small,
        ground arith,
        ground arith,
        ground arith,
        ground arith,
      )
