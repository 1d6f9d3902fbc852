-- ===== src/Grants/Examples.antt =====
-- Concrete runs of the store of grants, and its theorems at concrete inputs.
use ladon.Prelude.{
  ℕ, ◌≡◌, refl, true, none, some, List, [], ◌∷◌, nat_eq, pair_eq, contains, is_some, keep_if,
}
use ladon.Prelude.Map.{get, contains_key, insert, retain}
use ladon.Prelude.Time.{from_millis}
use ladon.Grants.{
  Clock, elapsed, unattended, session, GrantStore, at, is_live, is_unattended, new,
  unattended_bound, insert_all, grant_for, grant_session, grant_unattended_until, retain_unattended,
  missing, has_unattended, duration_millis,
}
use ladon.Grants.View.{
  IsValid, holds, granted, grants_lem, revocations_lem, missing_lem, has_unattended-holds,
}
use ladon.Grants.History.{Call, passes, grants_for, grants_unattended, run, Given}
use ladon.Grants.Provenance.{run-Given, grants_end}

abbrev start : Clock
start = record { now_millis = 1000; wall_time = 5000000000 }

abbrev later_on : Clock
later_on = record { now_millis = 2500; wall_time = 6500000000 }

-- Client 1 may use secret 7 for two seconds, and client 2 secret 8 unattended for four.
abbrev shift : List Call
shift =
    grants_for 1 (7 ∷ []) (from_millis 2000)
    ∷ grants_unattended 2 (8 ∷ []) 9000000000
    ∷ passes later_on
    ∷ []

abbrev store : GrantStore
store = record {
  clock = later_on;
  lifetime_millis = 60000;
  deadlines = ((1, 7), elapsed 3000) ∷ ((2, 8), unattended 9000000000 5000) ∷ [];
}

shift_runs : run (new start (from_millis 60000)) shift ≡ store
unfolding run new grant_for grant_unattended_until unattended_bound insert_all insert retain is_live
shift_runs = refl

store-IsValid : IsValid store
unfolding contains_key
store-IsValid = (refl, (refl, tt))

grants_lem_example :
    holds (grant_session store 3 (7 ∷ [])) 3 7 ≡ granted store 3 (7 ∷ []) session 3 7
grants_lem_example = (grants_lem store 3 (7 ∷ []) 0 3 7 store-IsValid).2

revocations_lem_example : holds (retain_unattended store) 1 7 ≡ none
unfolding holds get is_live
revocations_lem_example = (revocations_lem store 1 7 1 7 store-IsValid).5

missing_lem_example : contains (missing store 1 (7 ∷ 8 ∷ [])).1 8 ≡ true
unfolding holds get
missing_lem_example = (missing_lem store 1 (7 ∷ 8 ∷ []) 8 store-IsValid).0

has_unattended-holds_example : (x : ℕ) × (is_some (keep_if is_unattended (holds store 2 x)) ≡ true)
unfolding has_unattended retain is_live
has_unattended-holds_example = has_unattended-holds store 2 store-IsValid refl

holds_7 : holds (run (new start (from_millis 60000)) shift) 1 7 ≡ some (elapsed 3000)
unfolding holds get is_live
holds_7 = rw shift_runs

run-Given_example :
    Given (new start (from_millis 60000)) shift 1 7 (elapsed 3000)
    × (is_live (run (new start (from_millis 60000)) shift).clock (elapsed 3000) ≡ true)
run-Given_example = run-Given start (from_millis 60000) shift 1 7 (elapsed 3000) holds_7

grants_end_example :
    holds (at later_on (grant_for store 3 (9 ∷ []) (from_millis 10))) 3 9 ≡ some (elapsed 2510)
unfolding duration_millis
grants_end_example = (grants_end store 3 (9 ∷ []) (from_millis 10) later_on 9 refl).0
