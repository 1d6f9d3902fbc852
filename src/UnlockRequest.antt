-- ===== src/UnlockRequest.antt =====
-- crates/ladon-app/src/unlock_request.rs: an agent asks for the vault to be unlocked, and waits for the
-- user. `wait` is split into what it does before it gives the mutex away, and the rounds of its loop; what
-- the token and the clock show in a round are arguments, and so is the random identifier.
pub mod Decisions
mod Examples
use ladon.Prelude.{
  ℕ, ◌+◌, ◌%◌, ◌≡◌, Bool, true, false, not, ◌&&◌, ◌||◌, Option, none, some, ◌==◌, nat_eq, is_some,
  is_none, if◌then◌else◌,
}
use ladon.Prelude.Result.{
  Result, ok, err, ensure, LadonError, invalid_request, approval_denied, approval_cancelled,
  approval_timeout, busy,
}
use ladon.Prelude.Method
use ladon.Prelude.Method.{Method, ◌>>=◌, ◌>>◌, lift, modify, return, read}
use ladon.Model.{Text}

pub record PendingUnlock : Type 0 where
  pub id : ℕ
  pub client_label : Text
  pub purpose : Text

pub record UnlockState : Type 0 where
  pub request : PendingUnlock
  pub decision : Option (Result (Unit {0}))

pub record UnlockRequests : Type 0 where
  pub state : Option UnlockState
  pub epoch : ℕ

-- `default`.
abbrev pub new : UnlockRequests
new = record { state = none; epoch = 0 }

abbrev pub undecided : Option UnlockState → Option PendingUnlock
undecided none = none
undecided (some s) = if is_none s.decision then some s.request else none

unfoldable pub pending : UnlockRequests → Option PendingUnlock
pending s = undecided s.state

abbrev pub decide : ℕ → Bool → Option UnlockState → Option UnlockState × Result (Unit {0})
decide id allow none = (none, err invalid_request)
decide id allow (some s) =
    if not (s.request.id == id) || is_some s.decision
    then (some s, err invalid_request)
    else (some (record s { decision = some (if allow then ok tt else err approval_denied) }), ok tt)

unfoldable pub resolve : ℕ → Bool → Method UnlockRequests (Unit {0})
resolve id allow s =
    let (state, result) = decide id allow s.state in (record s { state = state }, result)

abbrev pub cancelled : Option UnlockState → Option UnlockState
cancelled none = none
cancelled (some s) = some (record s { decision = some (err approval_cancelled) })

-- `fetch_add` wraps around.
unfoldable pub cancel : UnlockRequests → UnlockRequests
cancel s = record { state = cancelled s.state; epoch = (s.epoch + 1) % 18446744073709551616 }

-- The first part of `wait`.
unfoldable pub register : ℕ → Text → Text → ℕ → Method UnlockRequests (Unit {0})
register epoch client_label purpose id = do
  s ← read
  lift (ensure (epoch == s.epoch) approval_cancelled)
  lift (ensure (is_none s.state) busy)
  modify λ s. record s {
    state = some (record {
      request = record { id = id; client_label = client_label; purpose = purpose };
      decision = none;
    });
  }

abbrev pub decision_of : Option UnlockState → Option (Result (Unit {0}))
decision_of none = none
decision_of (some s) = s.decision

-- What a round breaks the loop with.
unfoldable pub verdict : Bool → Bool → UnlockRequests → Option (Result (Unit {0}))
verdict is_cancelled is_late s =
    if is_cancelled
    then some (err approval_cancelled)
    else if is_late
    then some (err approval_timeout)
    else decision_of s.state

-- A round of the loop of `wait`: the result of `wait`, if it ends.
unfoldable pub poll : Bool → Bool → UnlockRequests → UnlockRequests × Option (Result (Unit {0}))
unfolding verdict
poll is_cancelled is_late s =
    let result = verdict is_cancelled is_late s in
    (if is_some result then record s { state = none } else s, result)
