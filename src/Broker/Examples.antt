-- ===== src/Broker/Examples.antt =====
-- Concrete runs of the broker, and its theorems at concrete inputs.
use ladon.Prelude.{ℕ, ◌≡◌, refl, true, false, none, List, [], ◌∷◌, ◌++◌, arith}
use ladon.Prelude.Utf8.{bytes}
use ladon.Prelude.Time.{from_millis}
use ladon.Grants.{Clock}
use ladon.Broker.{State, BrokerState, LockReason, ActivityOutcome, ActivityEntry, new, tick}
use ladon.Broker.Lock.{
  Event, passes, requests_access, completes_unlock, starts_run, requests_lock, run, is_open,
  idle_locks,
}

abbrev clock_at : ℕ → Clock
clock_at t = record { now_millis = t; wall_time = 0 }

abbrev fresh : BrokerState
fresh = record {
  clock = clock_at 1000;
  idle_timeout_millis = 1800000;
  state = State.locked;
  activities = [];
}

fresh-new : new (clock_at 1000) (from_millis 1800000) ≡ fresh
unfolding new
fresh-new = refl

abbrev opening : List Event
opening = requests_access ∷ passes (clock_at 60000) ∷ completes_unlock true ∷ starts_run ∷ []

opening_runs : (run fresh opening).state ≡ State.running
unfolding run
opening_runs = refl

-- A run that is asked to lock twice counts as locked before it has ended.
locked_early :
    (run fresh
      (opening ++ requests_lock LockReason.manual ∷ requests_lock LockReason.suspend ∷ [])).state
    ≡ State.locked
unfolding run
locked_early = refl

abbrev used : BrokerState
used = record fresh { state = State.unlocked 1000 }

idle_locks_example :
    is_open (tick (run used (requests_access ∷ passes (clock_at 1801000) ∷ []))).0.state ≡ false
unfolding run
idle_locks_example =
    idle_locks used (requests_access ∷ passes (clock_at 1801000) ∷ []) 1000 refl (tt, (tt, tt))
      (omega arith)

abbrev entry : ActivityEntry
entry = record {
  client_label = bytes (b'a' ∷ 0x20ac ∷ []);
  executable = none;
  referenced_fields = [];
  timestamp_millis = 1000;
  outcome = ActivityOutcome.succeeded;
  redaction_count = 0;
}
