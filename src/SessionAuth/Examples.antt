-- ===== src/SessionAuth/Examples.antt =====
-- A PIN and its tries (crates/ladon-app/src/session_auth.rs), with a hash that is the PIN and the salt.
use ladon.Prelude.{◌≡◌, refl, some, List, [], ◌∷◌, ◌++◌}
use ladon.Prelude.Result.{ok}
use ladon.Prelude.Utf8.{codes}
use ladon.SessionAuth.{Externals, SessionPin, lock_vault, verify_pin, new}
use ladon.SessionAuth.Attempts.{Event, pin, touch_id, run, verify_pin-run}

abbrev externals : Externals
externals = record { hash_password = λ p salt. some (p ++ salt) }

abbrev own_pin : SessionPin
own_pin = record { salt = 7 ∷ []; hash = codes "2468" ++ 7 ∷ [] }

-- The right PIN, Touch ID, and four wrong ones.
abbrev tries : List Event
tries =
    pin (codes "1")
    ∷ pin (codes "2")
    ∷ pin (codes "3")
    ∷ pin (codes "4")
    ∷ touch_id
    ∷ pin (codes "2468")
    ∷ []

verify_pin-run_example :
    (verify_pin externals (codes "1111") (run externals own_pin tries)).1 ≡ ok lock_vault
verify_pin-run_example = verify_pin-run externals own_pin tries (codes "1111")

new_pin : new externals (codes "2468") (codes "2468") (some (7 ∷ [])) ≡ ok own_pin
unfolding new
new_pin = refl
