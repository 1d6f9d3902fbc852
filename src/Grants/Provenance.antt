-- ===== src/Grants/Provenance.antt =====
-- Where a grant comes from and when it ends (crates/ladon-core/src/grants.rs).
use ladon.Prelude.{
  ℕ, ◌≡◌, refl, true, ◌&&◌, none, some, List, [], ◌∷◌, arith, ◌==◌, pair_eq, nat_eq, contains, ◌⊎◌,
  inl, inr, ltb, if◌then◌else◌,
}
use ladon.Prelude.Map.{get, get_of_retain, get_of_remove}
use ladon.Prelude.Time.{saturating_add}
use ladon.Grants.{
  Clock, GrantDeadline, elapsed, wall_clock, unattended, session, GrantStore, at, is_live, new,
  duration_millis, unattended_bound, purge_expired, insert_all, grant_for, grant_until,
  grant_unattended_until,
}
use ladon.Grants.View.{IsValid, holds, get-purge_expired, purge_expired-IsValid, get-insert_all}
use ladon.Grants.History.{
  Call, passes, grants, grants_for, grants_until, grants_session, grants_unattended, asks_missing,
  asks_missing_unattended, asks_remaining, asks_unattended, asks_active, asks_len, asks_empty,
  revokes_pair, revokes_client, revokes_secret, revokes_all, retains_unattended, step, run,
  step-IsValid, gives, Given, here, later,
}

-- A deadline is alive exactly while the clocks that it names are before it.
pub is_live_lem :
    (c : Clock) (t bound : ℕ)
    → (is_live c (elapsed t) ≡ ltb c.now_millis t)
      × (is_live c (wall_clock t) ≡ ltb c.wall_time t)
      × (is_live c (unattended t bound) ≡ (ltb c.wall_time t && ltb c.now_millis bound))
      × (is_live c session ≡ true)
unfolding is_live
is_live_lem c t bound = (ground arith, ground arith, ground arith, refl)

kept :
    (s : GrantStore) (c x : ℕ) {d : GrantDeadline}
    → IsValid s
    → get (c, x) (purge_expired s).deadlines ≡ some d
    → get (c, x) s.deadlines ≡ some d
unfolding holds
kept s c x v h = ground (arith, get-purge_expired s c x v)

given :
    (s : GrantStore) (client : ℕ) (secrets : List ℕ) (e : GrantDeadline) (c x : ℕ)
    {d : GrantDeadline}
    → IsValid s
    → get (c, x) (insert_all client secrets e (purge_expired s).deadlines) ≡ some d
    → (get (c, x) s.deadlines ≡ some d)
      ⊎ ((if (client == c) && contains secrets x then some e else none) ≡ some d)
unfolding holds
given s client secrets e c x v h = ground (
  arith,
  get-purge_expired s c x v,
  get-insert_all client secrets e (purge_expired s).deadlines c x,
)

step_provenance :
    (s : GrantStore) (call : Call) (c x : ℕ) {d : GrantDeadline}
    → IsValid s
    → get (c, x) (step s call).deadlines ≡ some d
    → (get (c, x) s.deadlines ≡ some d) ⊎ (gives s call c x ≡ some d)
unfolding step gives get
step_provenance s (passes t) c x v h = inl h
step_provenance s (grants client secrets) c x v h = given s client secrets _ c x v h
step_provenance s (grants_for client secrets lifetime) c x v h = given s client secrets _ c x v h
step_provenance s (grants_until client secrets deadline) c x v h = given s client secrets _ c x v h
step_provenance s (grants_session client secrets) c x v h = given s client secrets _ c x v h
step_provenance s (grants_unattended client secrets deadline) c x v h =
    given s client secrets _ c x v h
step_provenance s (asks_missing client secrets) c x v h = inl (kept s c x v h)
step_provenance s (asks_missing_unattended client secrets) c x v h = inl (kept s c x v h)
step_provenance s (asks_remaining client secret) c x v h = inl (kept s c x v h)
step_provenance s (asks_unattended client) c x v h = inl (kept s c x v h)
step_provenance s asks_active c x v h = inl (kept s c x v h)
step_provenance s asks_len c x v h = inl (kept s c x v h)
step_provenance s asks_empty c x v h = inl (kept s c x v h)
step_provenance s (revokes_pair client secret) c x v h =
    inl (kept s c x v (get_of_remove (client, secret) (c, x) _ (purge_expired-IsValid s v) h))
step_provenance s (revokes_client client) c x v h = inl (get_of_retain _ (c, x) s.deadlines v h)
step_provenance s (revokes_secret secret) c x v h = inl (get_of_retain _ (c, x) s.deadlines v h)
step_provenance s revokes_all c x v h = cc
step_provenance s retains_unattended c x v h =
    inl (kept s c x v (get_of_retain _ (c, x) _ (purge_expired-IsValid s v) h))

run_provenance :
    (s : GrantStore) (cs : List Call) (c x : ℕ) {d : GrantDeadline}
    → IsValid s
    → get (c, x) (run s cs).deadlines ≡ some d
    → (get (c, x) s.deadlines ≡ some d) ⊎ Given s cs c x d
unfolding run
run_provenance s [] c x v h = inl h
run_provenance s (call ∷ cs) c x v h =
    elim (run_provenance (step s call) cs c x (step-IsValid s call v) h) [
      | inl e ↦ elim (step_provenance s call c x v e) [
        | inl old ↦ inl old
        | inr new ↦ inr (here new)
      ]
      | inr g ↦ inr (later g)
    ]

-- From an empty store, whatever is called in whatever order: a pair that holds a grant was given that
-- very grant by one of the calls, at that call's clock, and its deadline has not passed.
pub run-Given :
    (clock : Clock) (lifetime : ℕ) (cs : List Call) (c x : ℕ) (d : GrantDeadline)
    → let s = run (new clock lifetime) cs in
      holds s c x ≡ some d → Given (new clock lifetime) cs c x d × (is_live s.clock d ≡ true)
unfolding holds new get
run-Given clock lifetime cs c x d h =
    let s = run (new clock lifetime) cs in
    let e : get (c, x) s.deadlines ≡ some d = ground arith in
    (
      elim (run_provenance (new clock lifetime) cs c x tt e) [ inl old ↦ cc | inr g ↦ g ],
      ground arith,
    )

pub run-IsValid : (s : GrantStore) (cs : List Call) → IsValid s → IsValid (run s cs)
unfolding run
run-IsValid s [] v = v
run-IsValid s (call ∷ cs) v = run-IsValid (step s call) cs (step-IsValid s call v)

-- A grant of any of the three timed kinds is held at a later clock exactly while that clock is before
-- its deadline: the monotonic one, the wall clock's, or for an unattended grant both, so that setting
-- the wall clock back does not prolong it.
pub grants_end :
    (s : GrantStore) (client : ℕ) (secrets : List ℕ) (time : ℕ) (after : Clock) (x : ℕ)
    → contains secrets x ≡ true
    → let t = saturating_add s.clock.now_millis (duration_millis time) in
      let bound = unattended_bound s.clock time in
      (holds (at after (grant_for s client secrets time)) client x
        ≡ (if ltb after.now_millis t then some (elapsed t) else none))
      × (holds (at after (grant_until s client secrets time)) client x
          ≡ (if ltb after.wall_time time then some (wall_clock time) else none))
      × (holds (at after (grant_unattended_until s client secrets time)) client x ≡ (
          if ltb after.wall_time time && ltb after.now_millis bound
          then some (unattended time bound)
          else none))
unfolding holds grant_for grant_until grant_unattended_until
grants_end s client secrets time after x h =
    let m = (purge_expired s).deadlines in
    let t = saturating_add s.clock.now_millis (duration_millis time) in
    let bound = unattended_bound s.clock time in
    let live = is_live_lem after in
    (
      rw (get-insert_all client secrets (elapsed t) m client x) (ground (arith, live t 0)),
      rw (get-insert_all client secrets (wall_clock time) m client x) (ground (arith, live time 0)),
      rw (get-insert_all client secrets (unattended time bound) m client x)
          (ground (arith, live time bound)),
    )
