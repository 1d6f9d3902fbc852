-- ===== src/AgentBroker/Threads.antt =====
-- The threads that hold leases and blocks of a RunCoordinator (crates/ladon-app/src/agent_broker.rs), in any
-- interleaving.
pub mod Exclusive
pub mod Sound
use ladon.Prelude.{
  ℕ, suc, ◌+◌, ◌-◌, Bool, true, false, Option, none, some, List, [], ◌∷◌, get_elem?, remove_at,
  if◌then◌else◌, ltb,
}
use ladon.Prelude.Result.{Result, ok, err}
use ladon.AgentBroker.Runs
use ladon.AgentBroker.Runs.{
  RunCoordinator, RunBlock, try_start, cancel_active, block_new_runs, block_for_revoke,
  block_for_client_revoke, waits, try_block_new_runs, set_secret_context, spawn_child, drop_lease,
  drop_block,
}

-- The coordinator; how many leases there are; the blocks that were returned and not dropped; and those
-- that are waited for.
pub record Threads : Type 0 where
  pub coordinator : RunCoordinator
  pub leases : ℕ
  pub blocks : List RunBlock
  pub waiting : List RunBlock

abbrev pub start : Threads
start = record { coordinator = Runs.new; leases = 0; blocks = []; waiting = [] }

-- What a thread does next. Only a thread with a lease sets the context of the run, starts its process or
-- drops the lease; a thread that waits for a block does a round of its loop.
pub data Step : Type 0 where
  starts_run : Bool → ℕ → Step
  cancels : Step
  sets_context : List ℕ → Step
  spawns : Bool → Step
  drops_lease : Step
  blocks_runs tries_block : Step
  blocks_revoke : ℕ → ℕ → Step
  blocks_client : ℕ → Step
  looks_again : ℕ → Step
  drops_block : ℕ → Step

abbrev pub leased : Threads → RunCoordinator × Result (Unit {0}) → Threads
leased s (c, ok u) = record s { coordinator = c; leases = s.leases + 1 }
leased s (c, err e) = record s { coordinator = c }

abbrev pub claimed : Threads → RunCoordinator × Option RunBlock → Threads
claimed s (c, none) = record s { coordinator = c }
claimed s (c, some b) = record s { coordinator = c; waiting = b ∷ s.waiting }

abbrev pub returned : Threads → RunCoordinator × Option RunBlock → Threads
returned s (c, none) = record s { coordinator = c }
returned s (c, some b) = record s { coordinator = c; blocks = b ∷ s.blocks }

abbrev pub looked : Threads → ℕ → Option RunBlock → Threads
looked s i none = s
looked s i (some b) =
    if waits b s.coordinator
    then s
    else record s { blocks = b ∷ s.blocks; waiting = remove_at s.waiting i }

abbrev pub unblocked : Threads → ℕ → Option RunBlock → Threads
unblocked s i none = s
unblocked s i (some b) = record s {
  coordinator = drop_block s.coordinator;
  blocks = remove_at s.blocks i;
}

unfoldable pub step : Threads → Step → Threads
unfolding try_start cancel_active set_secret_context spawn_child drop_lease block_new_runs
    try_block_new_runs block_for_revoke block_for_client_revoke waits drop_block
step s (Step.starts_run cancelled client) = leased s (try_start cancelled client s.coordinator)
step s Step.cancels = record s { coordinator = cancel_active s.coordinator }
step s (Step.sets_context ids) =
    if ltb 0 s.leases
    then record s { coordinator = (set_secret_context ids s.coordinator).0 }
    else s
step s (Step.spawns starts) =
    if ltb 0 s.leases then record s { coordinator = (spawn_child starts s.coordinator).0 } else s
step s Step.drops_lease =
    if ltb 0 s.leases
    then record s { coordinator = drop_lease s.coordinator; leases = s.leases - 1 }
    else s
step s Step.blocks_runs = claimed s (block_new_runs s.coordinator)
step s Step.tries_block = returned s (try_block_new_runs s.coordinator)
step s (Step.blocks_revoke client secret_id) =
    claimed s (block_for_revoke client secret_id s.coordinator)
step s (Step.blocks_client client) = claimed s (block_for_client_revoke client s.coordinator)
step s (Step.looks_again i) = looked s i (get_elem? s.waiting i)
step s (Step.drops_block i) = unblocked s i (get_elem? s.blocks i)

unfoldable pub run : Threads → List Step → Threads
unfolding step
run s [] = s
run s (x ∷ xs) = run (step s x) xs
