-- ===== src/Broker.antt =====
-- crates/ladon-core/src/broker.rs: the lock state of the vault, and the log of recent activity.
-- `clock` stands for the value behind the `MonotonicClock` trait, as in Grants. A `String` of the log
-- is the list of its UTF-8 bytes, which is what its truncation reads.
pub mod Lock
pub mod Log
pub mod Truncate
mod Examples
use ladon.Prelude.{
  ℕ, zero, suc, ◌+◌, ◌-◌, ◌≡◌, Bool, true, false, not, ◌&&◌, ◌||◌, Option, none, some, List, [],
  ◌∷◌, ◌++◌, min, ltb, leb, ◌==◌, nat_eq, length, take, drop, get_elem?, if◌then◌else◌,
}
use ladon.Prelude.Time.{saturating_add, saturating_sub, as_millis, u64_max}
use ladon.Grants.{Clock, duration_millis}

abbrev pub max_activity_entries : ℕ
max_activity_entries = 100

abbrev pub max_activity_references : ℕ
max_activity_references = 16

pub data SessionStatus : Type 0 where
  locked unlock_pending unlocked running locking : SessionStatus

pub data BrokerDecision : Type 0 where
  no_change prompt_unlock authorized busy denied unlock_timed_out : BrokerDecision
  cancel_run_before_lock locked : BrokerDecision

pub data LockReason : Type 0 where
  manual mcp screen_lock suspend shutdown : LockReason

pub data ActivityOutcome : Type 0 where
  succeeded failed denied timed_out cancelled : ActivityOutcome

pub record ReferencedField : Type 0 where
  pub secret_id : ℕ
  pub field : List ℕ

pub record ActivityEntry : Type 0 where
  pub client_label : List ℕ
  pub executable : Option (List ℕ)
  pub referenced_fields : List ReferencedField
  pub timestamp_millis : ℕ
  pub outcome : ActivityOutcome
  pub redaction_count : ℕ

pub data State : Type 0 where
  locked : State
  unlock_pending : ℕ → State
  unlocked : ℕ → State
  running : State
  locking : State

pub record BrokerState : Type 0 where
  pub clock : Clock
  pub idle_timeout_millis : ℕ
  pub state : State
  pub activities : List ActivityEntry

unfoldable pub new : Clock → ℕ → BrokerState
unfolding duration_millis
new clock idle_timeout = record {
  clock = clock;
  idle_timeout_millis = duration_millis idle_timeout;
  state = State.locked;
  activities = [];
}

abbrev pub status_of : State → SessionStatus
status_of State.locked = SessionStatus.locked
status_of (State.unlock_pending deadline) = SessionStatus.unlock_pending
status_of (State.unlocked last) = SessionStatus.unlocked
status_of State.running = SessionStatus.running
status_of State.locking = SessionStatus.locking

unfoldable pub status : BrokerState → SessionStatus
status b = status_of b.state

request_from : State → BrokerState → BrokerState × BrokerDecision
request_from State.locked b = (
  record b { state = State.unlock_pending (saturating_add b.clock.now_millis 120000) },
  BrokerDecision.prompt_unlock,
)
request_from (State.unlocked last) b = (b, BrokerDecision.authorized)
request_from (State.unlock_pending deadline) b = (b, BrokerDecision.busy)
request_from State.running b = (b, BrokerDecision.busy)
request_from State.locking b = (b, BrokerDecision.busy)

unfoldable pub request_secret_access : BrokerState → BrokerState × BrokerDecision
unfolding request_from
request_secret_access b = request_from b.state b

complete_from : State → BrokerState → Bool → BrokerState × BrokerDecision
complete_from (State.unlock_pending deadline) b approved =
    if leb deadline b.clock.now_millis
    then (record b { state = State.locked }, BrokerDecision.unlock_timed_out)
    else if approved
    then (record b { state = State.unlocked b.clock.now_millis }, BrokerDecision.authorized)
    else (record b { state = State.locked }, BrokerDecision.denied)
complete_from _ b approved = (b, BrokerDecision.denied)

unfoldable pub complete_unlock : BrokerState → Bool → BrokerState × BrokerDecision
unfolding complete_from
complete_unlock b approved = complete_from b.state b approved

touch : State → BrokerState → BrokerState
touch (State.unlocked last) b = record b { state = State.unlocked b.clock.now_millis }
touch _ b = b

unfoldable pub secret_activity : BrokerState → BrokerState
unfolding touch
secret_activity b = touch b.state b

start_from : State → BrokerState → BrokerState × BrokerDecision
start_from (State.unlocked last) b = (record b { state = State.running }, BrokerDecision.authorized)
start_from _ b = (b, BrokerDecision.busy)

unfoldable pub start_run : BrokerState → BrokerState × BrokerDecision
unfolding start_from
start_run b = start_from b.state b

finish_from : State → BrokerState → BrokerState × BrokerDecision
finish_from State.running b =
    (record b { state = State.unlocked b.clock.now_millis }, BrokerDecision.no_change)
finish_from State.locking b = (record b { state = State.locked }, BrokerDecision.locked)
finish_from _ b = (b, BrokerDecision.no_change)

unfoldable pub finish_run : BrokerState → BrokerState × BrokerDecision
unfolding finish_from
finish_run b = finish_from b.state b

lock_from : State → BrokerState → BrokerState × BrokerDecision
lock_from State.running b =
    (record b { state = State.locking }, BrokerDecision.cancel_run_before_lock)
lock_from _ b = (record b { state = State.locked }, BrokerDecision.locked)

unfoldable pub request_lock : BrokerState → LockReason → BrokerState × BrokerDecision
unfolding lock_from
request_lock b reason = lock_from b.state b

tick_from : State → BrokerState → BrokerState × BrokerDecision
tick_from (State.unlock_pending deadline) b =
    if leb deadline b.clock.now_millis
    then (record b { state = State.locked }, BrokerDecision.unlock_timed_out)
    else (b, BrokerDecision.no_change)
tick_from (State.unlocked last) b =
    if leb b.idle_timeout_millis (saturating_sub b.clock.now_millis last)
    then (record b { state = State.locked }, BrokerDecision.locked)
    else (b, BrokerDecision.no_change)
tick_from _ b = (b, BrokerDecision.no_change)

unfoldable pub tick : BrokerState → BrokerState × BrokerDecision
unfolding tick_from
tick b = tick_from b.state b

-- A continuation byte of UTF-8, 10xxxxxx.
unfoldable pub is_continuation : ℕ → Bool
is_continuation byte = leb 128 byte && ltb byte 192

-- `str::is_char_boundary`.
unfoldable pub is_char_boundary : List ℕ → ℕ → Bool
unfolding is_continuation
is_char_boundary value zero = true
is_char_boundary value (suc i) = elim (get_elem? value (suc i)) [
  | none ↦ suc i == length value
  | some byte ↦ not (is_continuation byte)
]

-- `while !value.is_char_boundary(boundary) { boundary -= 1; }`; 0 is a boundary.
unfoldable pub boundary_below : List ℕ → ℕ → ℕ
unfolding is_char_boundary
boundary_below value zero = 0
boundary_below value (suc i) =
    let lower = boundary_below value i in if is_char_boundary value (suc i) then suc i else lower

unfoldable pub truncate_utf8 : List ℕ → ℕ → List ℕ
unfolding boundary_below
truncate_utf8 value maximum_bytes =
    if leb (length value) maximum_bytes
    then value
    else take (boundary_below value maximum_bytes) value

abbrev truncate_executable : Option (List ℕ) → Option (List ℕ)
truncate_executable none = none
truncate_executable (some executable) = some (truncate_utf8 executable 32768)

unfoldable pub bounded_entry : ActivityEntry → ActivityEntry
bounded_entry entry = record entry {
  referenced_fields = take max_activity_references entry.referenced_fields;
  client_label = truncate_utf8 entry.client_label 64;
  executable = truncate_executable entry.executable;
}

unfoldable pub record_activity : BrokerState → ActivityEntry → BrokerState
unfolding bounded_entry
record_activity b entry =
    let kept =
      if length b.activities == max_activity_entries then drop 1 b.activities else b.activities in
    record b { activities = kept ++ bounded_entry entry ∷ [] }
