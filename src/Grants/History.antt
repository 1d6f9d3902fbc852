-- ===== src/Grants/History.antt =====
-- Any sequence of calls on the store of grants, with time passing in between
-- (crates/ladon-core/src/grants.rs).
use ladon.Prelude.{
  ℕ, ◌≡◌, ◌&&◌, Option, none, some, List, [], ◌∷◌, ◌==◌, pair_eq, nat_eq, contains, if◌then◌else◌,
}
use ladon.Prelude.Map.{retain-Distinct, remove-Distinct}
use ladon.Prelude.Time.{saturating_add, from_millis}
use ladon.Grants.{
  Clock, GrantDeadline, elapsed, wall_clock, unattended, session, GrantStore, at, duration_millis,
  unattended_bound, grant, grant_for, grant_until, grant_session, grant_unattended_until,
  retain_unattended, revoke_client, revoke_secret, revoke_all, revoke_pair, missing,
  missing_unattended, remaining, active, has_unattended, len, is_empty,
}
use ladon.Grants.View.{IsValid, purge_expired-IsValid, insert_all-Distinct}

pub data Call : Type 0 where
  passes : Clock → Call
  grants : ℕ → List ℕ → Call
  grants_for : ℕ → List ℕ → ℕ → Call
  grants_until : ℕ → List ℕ → ℕ → Call
  grants_session : ℕ → List ℕ → Call
  grants_unattended : ℕ → List ℕ → ℕ → Call
  asks_missing : ℕ → List ℕ → Call
  asks_missing_unattended : ℕ → List ℕ → Call
  asks_remaining : ℕ → ℕ → Call
  asks_unattended : ℕ → Call
  asks_active asks_len asks_empty : Call
  revokes_pair : ℕ → ℕ → Call
  revokes_client revokes_secret : ℕ → Call
  revokes_all retains_unattended : Call

unfoldable pub step : GrantStore → Call → GrantStore
unfolding grant grant_for grant_until grant_session grant_unattended_until missing
    missing_unattended remaining has_unattended active len is_empty revoke_pair revoke_client
    revoke_secret revoke_all retain_unattended
step s (passes c) = at c s
step s (grants client secrets) = grant s client secrets
step s (grants_for client secrets lifetime) = grant_for s client secrets lifetime
step s (grants_until client secrets deadline) = grant_until s client secrets deadline
step s (grants_session client secrets) = grant_session s client secrets
step s (grants_unattended client secrets deadline) =
    grant_unattended_until s client secrets deadline
step s (asks_missing client secrets) = (missing s client secrets).0
step s (asks_missing_unattended client secrets) = (missing_unattended s client secrets).0
step s (asks_remaining client secret) = (remaining s client secret).0
step s (asks_unattended client) = (has_unattended s client).0
step s asks_active = (active s).0
step s asks_len = (len s).0
step s asks_empty = (is_empty s).0
step s (revokes_pair client secret) = (revoke_pair s client secret).0
step s (revokes_client client) = revoke_client s client
step s (revokes_secret secret) = revoke_secret s secret
step s revokes_all = revoke_all s
step s retains_unattended = retain_unattended s

unfoldable pub run : GrantStore → List Call → GrantStore
unfolding step
run s [] = s
run s (c ∷ cs) = run (step s c) cs

-- No call makes two entries for one pair.
pub step-IsValid : (s : GrantStore) (c : Call) → IsValid s → IsValid (step s c)
unfolding step
step-IsValid s (passes c) v = v
step-IsValid s (grants client secrets) v =
    insert_all-Distinct client secrets _ _ (purge_expired-IsValid s v)
step-IsValid s (grants_for client secrets lifetime) v =
    insert_all-Distinct client secrets _ _ (purge_expired-IsValid s v)
step-IsValid s (grants_until client secrets deadline) v =
    insert_all-Distinct client secrets _ _ (purge_expired-IsValid s v)
step-IsValid s (grants_session client secrets) v =
    insert_all-Distinct client secrets _ _ (purge_expired-IsValid s v)
step-IsValid s (grants_unattended client secrets deadline) v =
    insert_all-Distinct client secrets _ _ (purge_expired-IsValid s v)
step-IsValid s (asks_missing client secrets) v = purge_expired-IsValid s v
step-IsValid s (asks_missing_unattended client secrets) v = purge_expired-IsValid s v
step-IsValid s (asks_remaining client secret) v = purge_expired-IsValid s v
step-IsValid s (asks_unattended client) v = purge_expired-IsValid s v
step-IsValid s asks_active v = purge_expired-IsValid s v
step-IsValid s asks_len v = purge_expired-IsValid s v
step-IsValid s asks_empty v = purge_expired-IsValid s v
step-IsValid s (revokes_pair client secret) v =
    remove-Distinct (client, secret) _ (purge_expired-IsValid s v)
step-IsValid s (revokes_client client) v = retain-Distinct _ s.deadlines v
step-IsValid s (revokes_secret secret) v = retain-Distinct _ s.deadlines v
step-IsValid s revokes_all v = tt
step-IsValid s retains_unattended v = retain-Distinct _ _ (purge_expired-IsValid s v)

-- The grant that a call gives to a pair, at the store's clock.
unfoldable pub gives : GrantStore → Call → ℕ → ℕ → Option GrantDeadline
gives s (grants client secrets) c x =
    let t = saturating_add s.clock.now_millis (duration_millis (from_millis s.lifetime_millis)) in
    if (client == c) && contains secrets x then some (elapsed t) else none
gives s (grants_for client secrets lifetime) c x =
    let t = saturating_add s.clock.now_millis (duration_millis lifetime) in
    if (client == c) && contains secrets x then some (elapsed t) else none
gives s (grants_until client secrets deadline) c x =
    if (client == c) && contains secrets x then some (wall_clock deadline) else none
gives s (grants_session client secrets) c x =
    if (client == c) && contains secrets x then some session else none
gives s (grants_unattended client secrets deadline) c x =
    if (client == c) && contains secrets x
    then some (unattended deadline (unattended_bound s.clock deadline))
    else none
gives s _ c x = none

-- Some call of the history gave the pair this grant.
pub data Given : GrantStore → List Call → ℕ → ℕ → GrantDeadline → Type 0 where
  here :
      {s : GrantStore} {call : Call} {cs : List Call} {c x : ℕ} {d : GrantDeadline}
      → gives s call c x ≡ some d
      → Given s (call ∷ cs) c x d
  later :
      {s : GrantStore} {call : Call} {cs : List Call} {c x : ℕ} {d : GrantDeadline}
      → Given (step s call) cs c x d
      → Given s (call ∷ cs) c x d
