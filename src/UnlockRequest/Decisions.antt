-- ===== src/UnlockRequest/Decisions.antt =====
-- Who decides on a request to unlock (crates/ladon-app/src/unlock_request.rs).
use ladon.Prelude.{
  ℕ, suc, ◌+◌, ◌%◌, ◌≡◌, ◌<◌, refl, Bool, true, false, Option, none, some, List, [], ◌∷◌, ◌==◌,
  nat_eq, is_some, is_none, if◌then◌else◌, arith, ap, ◌∙◌, Bool-cases, inl, inr,
}
use ladon.Prelude.Result.{
  Result, ok, err, approval_denied, approval_cancelled, approval_timeout, busy, ensure,
}
use ladon.Prelude.Method.{◌>>◌, lift, modify}
use ladon.Model.{Text}
use ladon.UnlockRequest.{
  UnlockState, UnlockRequests, resolve, cancel, register, poll, verdict, decision_of, decide,
}

-- The calls of the other threads.
pub data Call : Type 0 where
  resolved : ℕ → Bool → Call
  cancelled : Call
  registered : ℕ → Text → Text → ℕ → Call

abbrev pub handle : Call → UnlockRequests → UnlockRequests
handle (resolved id allow) s = (resolve id allow s).0
handle cancelled s = cancel s
handle (registered epoch label purpose id) s = (register epoch label purpose id s).0

-- The state after calls, of which the first is the latest.
unfoldable pub run : UnlockRequests → List Call → UnlockRequests
unfolding resolve cancel register
run s [] = s
run s (call ∷ older) = handle call (run s older)

abbrev pub first_answer : Option (Result (Unit {0})) → Bool → Bool → Option (Result (Unit {0}))
first_answer (some answer) same allow = some answer
first_answer none false allow = none
first_answer none true allow = some (if allow then ok tt else err approval_denied)

-- The decision on a request, as the calls tell it: a cancellation replaces what was decided before; an
-- answer counts if it names the request and nothing was decided yet.
abbrev pub answered : ℕ → List Call → Option (Result (Unit {0}))
answered id [] = none
answered id (cancelled ∷ older) = some (err approval_cancelled)
answered id (resolved other allow ∷ older) = first_answer (answered id older) (id == other) allow
answered id (registered _ _ _ _ ∷ older) = answered id older

-- `register`, for any outcome of its two tests.
abbrev attempt : Bool → Bool → UnlockState → UnlockRequests → UnlockRequests × Result (Unit {0})
attempt current free waiting =
    lift (ensure current approval_cancelled)
    >> (lift (ensure free busy) >> modify λ s. record s { state = some waiting })

attempt-epoch :
    (current free : Bool) (waiting : UnlockState) (s : UnlockRequests)
    → (attempt current free waiting s).0.epoch ≡ s.epoch
attempt-epoch false free waiting s = refl
attempt-epoch true false waiting s = refl
attempt-epoch true true waiting s = refl

attempt-ok :
    (current free : Bool) (waiting : UnlockState) (s : UnlockRequests)
    → (attempt current free waiting s).1 ≡ ok tt
    → (attempt current free waiting s).0.state ≡ some waiting
attempt-ok false free waiting s h = cc
attempt-ok true false waiting s h = cc
attempt-ok true true waiting s h = refl

module _ (id : ℕ) (label purpose : Text) where
  abbrev waiting : Option (Result (Unit {0})) → Option UnlockState
  waiting decision = some (record {
    request = record { id = id; client_label = label; purpose = purpose };
    decision = decision;
  })

  decide-waiting :
      (other : ℕ) (allow : Bool) (decision : Option (Result (Unit {0})))
      → (decide other allow (waiting decision)).0
        ≡ waiting (first_answer decision (id == other) allow)
  decide-waiting other allow (some d) = elim (Bool-cases (id == other)) [
    | inl same ↦ rw same refl
    | inr differ ↦ rw differ refl
  ]
  decide-waiting other allow none = elim (Bool-cases (id == other)) [
    | inl same ↦ rw same refl
    | inr differ ↦ rw differ refl
  ]

  register-waiting :
      (e : ℕ) (l p : Text) (i : ℕ) (t : UnlockRequests) (decision : Option (Result (Unit {0})))
      → (register e l p i (record t { state = waiting decision })).0.state ≡ waiting decision
  unfolding register
  register-waiting e l p i t decision = elim (Bool-cases (e == t.epoch)) [
    | inl same ↦ rw same refl
    | inr differ ↦ rw differ refl
  ]

  step_waiting :
      (call : Call) (older : List Call) (t : UnlockRequests)
      → t.state ≡ waiting (answered id older)
      → (handle call t).state ≡ waiting (answered id (call ∷ older))
  unfolding resolve cancel
  step_waiting (resolved other allow) older t h =
      ap (λ o. (decide other allow o).0) h ∙ decide-waiting other allow (answered id older)
  step_waiting cancelled older t h = ap (λ o. (cancel (record t { state = o })).state) h
  step_waiting (registered e l p i) older t h =
      ap (λ o. (register e l p i (record t { state = o })).0.state) h
      ∙ register-waiting e l p i t (answered id older)

  run-waiting :
      (start : UnlockRequests) (calls : List Call)
      → start.state ≡ waiting none
      → (run start calls).state ≡ waiting (answered id calls)
  unfolding run
  run-waiting start [] h = h
  run-waiting start (call ∷ older) h =
      step_waiting call older (run start older) (run-waiting start older h)

  registered_waiting :
      (epoch : ℕ) (s : UnlockRequests)
      → (register epoch label purpose id s).1 ≡ ok tt
      → (register epoch label purpose id s).0.state ≡ waiting none
  unfolding register
  registered_waiting epoch s h = attempt-ok (epoch == s.epoch) (is_none s.state) _ s h

verdict_lem :
    (is_cancelled is_late : Bool) (t : UnlockRequests) (decision : Option (Result (Unit {0})))
    → decision_of t.state ≡ decision
    → verdict is_cancelled is_late t ≡ (
        if is_cancelled
        then some (err approval_cancelled)
        else if is_late
        then some (err approval_timeout)
        else decision)
unfolding verdict
verdict_lem true is_late t decision h = refl
verdict_lem false true t decision h = refl
verdict_lem false false t decision h = h

cleared :
    (t : UnlockRequests) (v : Option (Result (Unit {0})))
    → is_none t.state ≡ false
    → is_none (if is_some v then record t { state = none } else t).state ≡ is_some v
cleared t none h = h
cleared t (some answer) h = refl

-- What a round of `wait` ends with, after any calls of other threads: a cancelled request and a late one
-- are refused; else the request has the decision that was made on it, by its identifier, and only a
-- cancellation replaces it. The request is gone from the state exactly if the wait ends.
pub poll-run :
    (s : UnlockRequests) (epoch : ℕ) (label purpose : Text) (id : ℕ) (calls : List Call)
    (is_cancelled is_late : Bool)
    → (register epoch label purpose id s).1 ≡ ok tt
    → let round = poll is_cancelled is_late (run (register epoch label purpose id s).0 calls) in
      (round.1 ≡ (
        if is_cancelled
        then some (err approval_cancelled)
        else if is_late
        then some (err approval_timeout)
        else answered id calls))
      × (is_none round.0.state ≡ is_some round.1)
unfolding poll
poll-run s epoch label purpose id calls is_cancelled is_late h =
    let state =
      run-waiting id label purpose (register epoch label purpose id s).0 calls
        (registered_waiting id label purpose epoch s h) in
    (
      verdict_lem is_cancelled is_late (run (register epoch label purpose id s).0 calls)
          (answered id calls) (ap decision_of state),
      cleared (run (register epoch label purpose id s).0 calls) _ (ap is_none state),
    )

abbrev pub cancellations : List Call → ℕ
cancellations [] = 0
cancellations (cancelled ∷ older) = suc (cancellations older)
cancellations (resolved _ _ ∷ older) = cancellations older
cancellations (registered _ _ _ _ ∷ older) = cancellations older

run-epoch :
    (s : UnlockRequests) (calls : List Call)
    → s.epoch < 18446744073709551616
    → (run s calls).epoch ≡ (s.epoch + cancellations calls) % 18446744073709551616
unfolding run resolve cancel register
run-epoch s [] h = omega arith
run-epoch s (resolved _ _ ∷ older) h = run-epoch s older h
run-epoch s (cancelled ∷ older) h = let before = run-epoch s older h in omega arith
run-epoch s (registered e _ _ _ ∷ older) h =
    attempt-epoch (e == (run s older).epoch) (is_none (run s older).state) _ (run s older)
    ∙ run-epoch s older h

-- A request whose epoch was read before a cancellation is refused, and nothing changes, as long as fewer
-- than 2^64 cancellations came between.
pub register-stale :
    (s : UnlockRequests) (calls : List Call) (label purpose : Text) (id : ℕ)
    → s.epoch < 18446744073709551616
    → 0 < cancellations calls
    → cancellations calls < 18446744073709551616
    → register s.epoch label purpose id (run s calls) ≡ (run s calls, err approval_cancelled)
unfolding register
register-stale s calls label purpose id h some_cancel few =
    let now = run-epoch s calls h in
    let differs : (s.epoch == (run s calls).epoch) ≡ false = ground arith in rw differs refl
