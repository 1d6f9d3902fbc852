-- ===== src/UnlockRequest/Examples.antt =====
-- A request to unlock and its answers (crates/ladon-app/src/unlock_request.rs).
use ladon.Prelude.{◌≡◌, refl, true, false, some, List, [], ◌∷◌, is_some, is_none}
use ladon.Prelude.Result.{ok}
use ladon.Prelude.Utf8.{codes}
use ladon.UnlockRequest
use ladon.UnlockRequest.{UnlockRequests, register, poll}
use ladon.UnlockRequest.Decisions.{Call, resolved, registered, run, poll-run}

-- The latest first: the answer to request 9 stands, an earlier one names another request.
abbrev calls : List Call
calls =
    resolved 9 false
    ∷ resolved 9 true
    ∷ registered 0 (codes "other") (codes "list") 10
    ∷ resolved 8 false
    ∷ []

abbrev waiting : UnlockRequests
waiting = (register 0 (codes "agent") (codes "run") 9 UnlockRequest.new).0

register_accepts : (register 0 (codes "agent") (codes "run") 9 UnlockRequest.new).1 ≡ ok tt
unfolding register
register_accepts = refl

poll-run_example :
    ((poll false false (run waiting calls)).1 ≡ some (ok tt))
    × (is_none (poll false false (run waiting calls)).0.state
        ≡ is_some (poll false false (run waiting calls)).1)
poll-run_example =
    poll-run UnlockRequest.new 0 (codes "agent") (codes "run") 9 calls false false register_accepts
