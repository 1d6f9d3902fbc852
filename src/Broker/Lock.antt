-- ===== src/Broker/Lock.antt =====
-- The lock state over any sequence of events (crates/ladon-core/src/broker.rs).
use ladon.Prelude.{
  ℕ, ◌+◌, ◌≤◌, ◌<◌, ◌≡◌, refl, ◌∙◌, Bool, true, false, List, [], ◌∷◌, inl, inr, arith, Bool-cases,
  All,
}
use ladon.Grants.{Clock}
use ladon.Broker.{
  State, BrokerState, LockReason, ActivityEntry, SessionStatus, status, request_secret_access,
  complete_unlock, secret_activity, start_run, finish_run, request_lock, tick, record_activity,
}

pub data Event : Type 0 where
  passes : Clock → Event
  requests_access starts_run finishes_run uses_secret ticks : Event
  completes_unlock : Bool → Event
  requests_lock : LockReason → Event
  records : ActivityEntry → Event

unfoldable pub step : BrokerState → Event → BrokerState
unfolding request_secret_access complete_unlock secret_activity start_run finish_run request_lock
    tick record_activity
step b (passes c) = record b { clock = c }
step b requests_access = (request_secret_access b).0
step b starts_run = (start_run b).0
step b finishes_run = (finish_run b).0
step b uses_secret = secret_activity b
step b ticks = (tick b).0
step b (completes_unlock approved) = (complete_unlock b approved).0
step b (requests_lock reason) = (request_lock b reason).0
step b (records entry) = record_activity b entry

unfoldable pub run : BrokerState → List Event → BrokerState
unfolding step
run b [] = b
run b (e ∷ es) = run (step b e) es

-- The diagram of the lock state.
infix 40 ◌⟶◌
pub data ◌⟶◌ : SessionStatus → SessionStatus → Type 0 where
  stay : {s : SessionStatus} → s ⟶ s
  prompt : SessionStatus.locked ⟶ SessionStatus.unlock_pending
  approve : SessionStatus.unlock_pending ⟶ SessionStatus.unlocked
  refuse : SessionStatus.unlock_pending ⟶ SessionStatus.locked
  start : SessionStatus.unlocked ⟶ SessionStatus.running
  finish : SessionStatus.running ⟶ SessionStatus.unlocked
  lock : SessionStatus.unlocked ⟶ SessionStatus.locked
  cancel : SessionStatus.running ⟶ SessionStatus.locking
  drain : SessionStatus.locking ⟶ SessionStatus.locked

ruleset edges = (stay, prompt, approve, refuse, start, finish, lock, cancel, drain)

-- Every event, in every state, follows an edge of the diagram or leaves the status as it was: access
-- opens only from a pending unlock, and a run that is asked to lock passes through `locking`.
step-⟶ : (b : BrokerState) (e : Event) → status b ⟶ status (step b e)
unfolding status step
step-⟶ b e = grind (arith, edges)

-- Access to the vault is open, or a run that had it still drains.
abbrev pub is_open : State → Bool
is_open State.locked = false
is_open (State.unlock_pending deadline) = false
is_open _ = true

-- What opens the vault: an approved unlock that is still pending, before its deadline.
abbrev pub Opens : BrokerState → State → Event → Type 0
Opens b (State.unlock_pending deadline) (completes_unlock true) = b.clock.now_millis < deadline
Opens b _ _ = ⊥

step-Opens :
    (b : BrokerState) (s : State) (e : Event)
    → b.state ≡ s
    → is_open s ≡ false
    → is_open (step b e).state ≡ true
    → Opens b s e
unfolding step
step-Opens b State.locked e h c o = ground arith
step-Opens b (State.unlock_pending deadline) (completes_unlock true) h c o = ground arith
step-Opens b (State.unlock_pending deadline) (completes_unlock false) h c o = ground arith
step-Opens b (State.unlock_pending deadline) e h c o = ground arith
step-Opens b (State.unlocked last) e h c o = cc
step-Opens b State.running e h c o = cc
step-Opens b State.locking e h c o = cc

-- Some event of the history opened the vault.
pub data Opened : BrokerState → List Event → Type 0 where
  here : {b : BrokerState} {e : Event} {es : List Event} → Opens b b.state e → Opened b (e ∷ es)
  later : {b : BrokerState} {e : Event} {es : List Event} → Opened (step b e) es → Opened b (e ∷ es)

-- From a closed vault, no sequence of events gives access or starts a run unless one of them is an
-- approved unlock, given while the unlock was pending and before its deadline.
run-Opened :
    (b : BrokerState) (es : List Event)
    → is_open b.state ≡ false
    → is_open (run b es).state ≡ true
    → Opened b es
unfolding run
run-Opened b [] c o = cc
run-Opened b (e ∷ es) c o = elim (Bool-cases (is_open (step b e).state)) [
  | inl opened ↦ here (step-Opens b b.state e refl c opened)
  | inr closed ↦ later (run-Opened (step b e) es closed o)
]

-- Events that neither use the vault nor open it.
abbrev pub IsIdle : Event → Type 0
IsIdle uses_secret = ⊥
IsIdle starts_run = ⊥
IsIdle finishes_run = ⊥
IsIdle (completes_unlock true) = ⊥
IsIdle _ = Unit

-- The vault is closed, or was last used at `last`.
abbrev pub Untouched : ℕ → State → Type 0
Untouched last (State.unlocked t) = t ≡ last
Untouched last State.running = ⊥
Untouched last State.locking = ⊥
Untouched last _ = Unit

step-Untouched :
    (b : BrokerState) (s : State) (e : Event) (last : ℕ)
    → b.state ≡ s
    → Untouched last s
    → IsIdle e
    → Untouched last (step b e).state
unfolding step
step-Untouched b State.locked e last h u i = ground arith
step-Untouched b (State.unlock_pending deadline) (completes_unlock true) last h u i = absurd i
step-Untouched b (State.unlock_pending deadline) e last h u i = ground arith
step-Untouched b (State.unlocked t) e last h u i = ground arith
step-Untouched b State.running e last h u i = absurd u
step-Untouched b State.locking e last h u i = absurd u

step-idle_timeout :
    (b : BrokerState) (e : Event) → (step b e).idle_timeout_millis ≡ b.idle_timeout_millis
unfolding step
step-idle_timeout b e = ground arith

run-Untouched :
    (b : BrokerState) (es : List Event) (last : ℕ)
    → Untouched last b.state
    → All IsIdle es
    → Untouched last (run b es).state × ((run b es).idle_timeout_millis ≡ b.idle_timeout_millis)
unfolding run
run-Untouched b [] last u i = (u, refl)
run-Untouched b (e ∷ es) last u i =
    let (u', same) =
      run-Untouched (step b e) es last (step-Untouched b b.state e last refl u i.0) i.1 in
    (u', same ∙ step-idle_timeout b e)

tick_closes :
    (b : BrokerState) (s : State) (last : ℕ)
    → b.state ≡ s
    → Untouched last s
    → last + b.idle_timeout_millis ≤ b.clock.now_millis
    → is_open (tick b).0.state ≡ false
unfolding tick
tick_closes b State.locked last h u late = ground arith
tick_closes b (State.unlock_pending deadline) last h u late = ground arith
tick_closes b (State.unlocked t) last h u late = ground arith
tick_closes b State.running last h u late = absurd u
tick_closes b State.locking last h u late = absurd u

-- Once the vault was last used at `last`, whatever else happens that neither uses nor opens it, a tick
-- after the idle timeout finds it closed or closes it.
pub idle_locks :
    (b : BrokerState) (es : List Event) (last : ℕ)
    → Untouched last b.state
    → All IsIdle es
    → last + b.idle_timeout_millis ≤ (run b es).clock.now_millis
    → is_open (tick (run b es)).0.state ≡ false
idle_locks b es last u i late =
    let (u', same) = run-Untouched b es last u i in
    tick_closes (run b es) (run b es).state last refl u' (rw same late)
