-- ===== src/AgentBroker/Runs.antt =====
-- RunCoordinator (crates/ladon-app/src/agent_broker.rs): at most one run at a time, and none that a lock
-- or a revocation waits for. A method that waits for the condition variable is split where it gives the
-- mutex away: what it does up to there, and then a round of its loop. The mutex serialises the parts. The
-- token of a run is kept with the run.
use ladon.Prelude.{
  ℕ, Bool, true, false, not, ◌&&◌, ◌||◌, Option, none, some, List, [], map, ◌==◌, nat_eq, contains,
  is_some, is_none, if◌then◌else◌,
}
use ladon.Prelude.Result.{
  Result, ok, err, ensure, busy, invalid_request, approval_cancelled, process_failure,
}
use ladon.Prelude.Method.{Method, ◌>>=◌, ◌>>◌, lift, modify, read}

pub record ActiveRun : Type 0 where
  -- The token, `cancellation.is_cancelled()`.
  pub cancelled : Bool
  pub client_session_id : ℕ
  pub secret_ids : Option (List ℕ)
  pub running : Bool

pub record RunCoordinator : Type 0 where
  pub active : Option ActiveRun
  pub block_new : Bool

-- `default`.
abbrev pub new : RunCoordinator
new = record { active = none; block_new = false }

-- The caller's token may have been cancelled before.
unfoldable pub try_start : Bool → ℕ → Method RunCoordinator (Unit {0})
try_start cancelled client_session_id = do
  s ← read
  lift (ensure (not (s.block_new || is_some s.active)) busy)
  modify λ s. record s {
    active = some (record {
      cancelled = cancelled;
      client_session_id = client_session_id;
      secret_ids = none;
      running = false;
    });
  }

abbrev pub cancelled_run : Option ActiveRun → Option ActiveRun
cancelled_run none = none
cancelled_run (some run) = some (record run { cancelled = true })

unfoldable pub cancel_active : RunCoordinator → RunCoordinator
cancel_active s = record s { active = cancelled_run s.active }

abbrev pub uses_secret : ℕ → Option (List ℕ) → Bool
uses_secret secret_id none = true
uses_secret secret_id (some ids) = contains ids secret_id

-- `matches` of `block_for_revoke`.
abbrev pub is_run_with : ℕ → ℕ → Option ActiveRun → Bool
is_run_with client_session_id secret_id none = false
is_run_with client_session_id secret_id (some run) =
    run.client_session_id == client_session_id && uses_secret secret_id run.secret_ids

abbrev pub is_run_of : ℕ → Option ActiveRun → Bool
is_run_of client none = false
is_run_of client (some run) = run.client_session_id == client

-- What a method that has set `block_new` waits for before it returns the block.
pub data RunBlock : Type 0 where
  all_runs : RunBlock
  revoke : ℕ → ℕ → Bool → RunBlock
  client_revoke : ℕ → RunBlock

-- `block_new_runs`, up to its second loop; none while it has to wait for another block.
unfoldable pub block_new_runs : RunCoordinator → RunCoordinator × Option RunBlock
block_new_runs s =
    if s.block_new
    then (s, none)
    else (record { active = cancelled_run s.active; block_new = true }, some all_runs)

-- `block_for_revoke`, up to its second loop.
unfoldable pub block_for_revoke : ℕ → ℕ → RunCoordinator → RunCoordinator × Option RunBlock
block_for_revoke client_session_id secret_id s =
    let matches = is_run_with client_session_id secret_id s.active in
    if s.block_new then (s, none) else (
      record { active = if matches then cancelled_run s.active else s.active; block_new = true },
      some (revoke client_session_id secret_id matches),
    )

-- `block_for_client_revoke`, up to its second loop.
unfoldable pub block_for_client_revoke : ℕ → RunCoordinator → RunCoordinator × Option RunBlock
block_for_client_revoke client s = if s.block_new then (s, none) else (
  record {
    active = if is_run_of client s.active then cancelled_run s.active else s.active;
    block_new = true;
  },
  some (client_revoke client),
)

-- The condition of the second loop of each.
unfoldable pub waits : RunBlock → RunCoordinator → Bool
waits all_runs s = is_some s.active
waits (revoke client_session_id secret_id matches) s = matches && is_some s.active
waits (client_revoke client) s = is_run_of client s.active

unfoldable pub try_block_new_runs : RunCoordinator → RunCoordinator × Option RunBlock
try_block_new_runs s =
    if s.block_new || is_some s.active
    then (s, none)
    else (record s { block_new = true }, some all_runs)

-- The secrets of the run, if it runs.
abbrev pub pairs_of : Option ActiveRun → List (ℕ × ℕ)
pairs_of none = []
pairs_of (some run) = elim run.secret_ids [
  | none ↦ []
  | some ids ↦ if run.running then map (λ id. (run.client_session_id, id)) ids else []
]

unfoldable pub running_pairs : RunCoordinator → List (ℕ × ℕ)
running_pairs s = pairs_of s.active

abbrev pub is_running : Option ActiveRun → Bool
is_running none = false
is_running (some run) = run.running

unfoldable pub has_active_run : RunCoordinator → Bool
has_active_run s = is_running s.active

-- `RunLease::set_secret_context`.
abbrev pub with_context : List ℕ → Option ActiveRun → Option ActiveRun × Result (Unit {0})
with_context ids none = (none, err invalid_request)
with_context ids (some run) =
    if is_some run.secret_ids
    then (some run, err invalid_request)
    else (some (record run { secret_ids = some ids }), ok tt)

unfoldable pub set_secret_context : List ℕ → Method RunCoordinator (Unit {0})
set_secret_context ids s =
    let (active, result) = with_context ids s.active in (record s { active = active }, result)

-- `RunLease::spawn_child` and `RunCancellation::launch`; whether the system starts the process is given.
abbrev pub spawned : Bool → Option ActiveRun → Option ActiveRun × Result (Unit {0})
spawned starts none = (none, err invalid_request)
spawned starts (some run) =
    if is_none run.secret_ids
    then (some run, err invalid_request)
    else if run.cancelled
    then (some run, err approval_cancelled)
    else if starts
    then (some (record run { running = true }), ok tt)
    else (some run, err process_failure)

unfoldable pub spawn_child : Bool → Method RunCoordinator (Unit {0})
spawn_child starts s =
    let (active, result) = spawned starts s.active in (record s { active = active }, result)

-- `drop` of a RunLease.
unfoldable pub drop_lease : RunCoordinator → RunCoordinator
drop_lease s = record s { active = none }

-- `drop` of a RunBlock.
unfoldable pub drop_block : RunCoordinator → RunCoordinator
drop_block s = record s { block_new = false }
