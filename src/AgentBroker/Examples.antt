-- ===== src/AgentBroker/Examples.antt =====
-- What the threads of the broker share, at concrete inputs.
use ladon.Prelude.{◌≡◌, refl, true, false, none, some, List, [], ◌∷◌, arith}
use ladon.Prelude.Result.{ok, err, approval_cancelled}
use ladon.UnlockRequest.{register}
use ladon.AgentBroker.Runs.{RunBlock}
use ladon.AgentBroker.Threads
use ladon.AgentBroker.Threads.{start, Step}
use ladon.AgentBroker.Threads.Exclusive.{IsExclusive}
use ladon.AgentBroker.Threads.Sound.{run-IsExclusive}
use ladon.AgentBroker.UiLocks
use ladon.AgentBroker.UiLocks.{
  UiLockCoordinator, begin_request, make_ready, acknowledge, pending_request, finish_request,
  request_in_progress, is_ready, unlock_blocked,
}
use ladon.AgentBroker.UiLocks.Ordered
use ladon.AgentBroker.UiLocks.Ordered.{IsOrdered, run-IsOrdered, acknowledge_lem, begin-finish}

-- A run is cancelled by a lock, is over, and the lock gets its block.
abbrev locks_while_running : List Step
locks_while_running =
    Step.starts_run false 1
    ∷ Step.sets_context (7 ∷ [])
    ∷ Step.spawns true
    ∷ Step.blocks_runs
    ∷ Step.looks_again 0
    ∷ Step.starts_run false 2
    ∷ Step.drops_lease
    ∷ Step.looks_again 0
    ∷ Step.starts_run false 2
    ∷ []

blocked_at_last : (Threads.run start locks_while_running).blocks ≡ RunBlock.all_runs ∷ []
unfolding Threads.run
blocked_at_last = refl

run-IsExclusive_example : IsExclusive (Threads.run start locks_while_running)
run-IsExclusive_example = run-IsExclusive locks_while_running

abbrev asks_twice : List Ordered.Step
asks_twice =
    Ordered.Step.begins
    ∷ Ordered.Step.tries_local
    ∷ Ordered.Step.makes_ready 1
    ∷ Ordered.Step.acknowledges 1
    ∷ Ordered.Step.begins
    ∷ []

two_requested : (Ordered.run UiLocks.new asks_twice).requested ≡ 2
unfolding Ordered.run
two_requested = refl

run-IsOrdered_example : IsOrdered (Ordered.run UiLocks.new asks_twice)
run-IsOrdered_example = run-IsOrdered asks_twice

new-IsOrdered : IsOrdered UiLocks.new
new-IsOrdered = record {
  answered = omega arith;
  one_open = omega arith;
  apart = refl;
  ready_open = refl;
}

new_unblocked : unlock_blocked UiLocks.new ≡ false
unfolding unlock_blocked
new_unblocked = refl

begin-finish_example :
    let begun = (begin_request UiLocks.new).0 in
    let ready = (make_ready 1 begun).0 in
    let done = (acknowledge 1 ready).0 in
    ((begin_request UiLocks.new).1 ≡ some (ok 1))
    × (register 0 [] [] 5 begun.unlock_requests ≡ (begun.unlock_requests, err approval_cancelled))
    × (pending_request ready ≡ some 1)
    × (finish_request 1 ready ≡ none)
    × (finish_request 1 done ≡ some (ok tt))
    × (request_in_progress done ≡ false)
begin-finish_example =
    begin-finish UiLocks.new [] [] 5 new-IsOrdered refl new_unblocked (omega arith) (omega arith)
