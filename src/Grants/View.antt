-- ===== src/Grants/View.antt =====
-- The store of grants as the set of pairs that are authorised now (crates/ladon-core/src/grants.rs):
-- `holds` is the specification, and each operation is stated by what it does to it.
use ladon.Prelude.{
  ℕ, ◌≡◌, refl, Bool, true, not, ◌&&◌, Option, none, some, List, [], ◌∷◌, map, arith, ◌==◌, pair_eq,
  nat_eq, contains, keep, any, is_some, is_none, keep_if, if◌then◌else◌, Bool-cases, inl, inr,
}
use ladon.Prelude.Map.{
  Map, Distinct, get, insert, get-insert, get-retain, get-remove, contains_key-get, get_absent,
  insert-Distinct, retain-Distinct,
}
use ladon.Prelude.Time.{saturating_add}
use ladon.Grants.{
  Clock, GrantDeadline, elapsed, wall_clock, unattended, session, GrantStore, is_live,
  is_unattended, duration_millis, unattended_bound, purge_expired, insert_all, grant_for,
  grant_until, grant_session, grant_unattended_until, retain_unattended, revoke_client,
  revoke_secret, revoke_all, revoke_pair, first_seen, missing, missing_unattended, active,
  grant_entry, has_unattended,
}

abbrev pub IsValid : GrantStore → Type 0
IsValid s = Distinct s.deadlines

-- The grant by which the client may use the secret at the store's clock.
unfoldable pub holds : GrantStore → ℕ → ℕ → Option GrantDeadline
holds s client secret = keep_if (is_live s.clock) (get (client, secret) s.deadlines)

pub get-purge_expired :
    (s : GrantStore) (client secret : ℕ)
    → IsValid s
    → get (client, secret) (purge_expired s).deadlines ≡ holds s client secret
unfolding purge_expired holds
get-purge_expired s client secret v = get-retain _ (client, secret) s.deadlines v

pub purge_expired-IsValid : (s : GrantStore) → IsValid s → IsValid (purge_expired s)
unfolding purge_expired
purge_expired-IsValid s v = retain-Distinct _ s.deadlines v

pub insert_all-Distinct :
    (client : ℕ) (secrets : List ℕ) (d : GrantDeadline) (m : Map (ℕ × ℕ) GrantDeadline)
    → Distinct m
    → Distinct (insert_all client secrets d m)
unfolding insert_all
insert_all-Distinct client [] d m v = v
insert_all-Distinct client (s ∷ ss) d m v =
    insert_all-Distinct client ss d (insert (client, s) d m) (insert-Distinct (client, s) d m v)

pub get-insert_all :
    (client : ℕ) (secrets : List ℕ) (d : GrantDeadline) (m : Map (ℕ × ℕ) GrantDeadline) (c x : ℕ)
    → get (c, x) (insert_all client secrets d m)
      ≡ (if (client == c) && contains secrets x then some d else get (c, x) m)
unfolding insert_all
get-insert_all client [] d m c x = ground arith
get-insert_all client (s ∷ ss) d m c x = ground (
  arith,
  get-insert_all client ss d (insert (client, s) d m) c x,
  get-insert (client, s) (c, x) d m,
)

-- What a grant of `d` to `client` for `secrets` makes of the standing of every pair.
abbrev pub granted : GrantStore → ℕ → List ℕ → GrantDeadline → ℕ → ℕ → Option GrantDeadline
granted s client secrets d c x =
    if (client == c) && contains secrets x then keep_if (is_live s.clock) (some d) else holds s c x

holds-insert_all :
    (s : GrantStore) (client : ℕ) (secrets : List ℕ) (d : GrantDeadline) (c x : ℕ)
    → IsValid s
    → keep_if
        (is_live s.clock)
        (get (c, x) (insert_all client secrets d (purge_expired s).deadlines))
      ≡ granted s client secrets d c x
unfolding holds
holds-insert_all s client secrets d c x v =
    rw (get-insert_all client secrets d (purge_expired s).deadlines c x, get-purge_expired s c x v)
      (idem (is_live s.clock) (get (c, x) s.deadlines))
  where
    idem :
        (p : GrantDeadline → Bool) (o : Option GrantDeadline)
        → keep_if p (if (client == c) && contains secrets x then some d else keep_if p o)
          ≡ (if (client == c) && contains secrets x then keep_if p (some d) else keep_if p o)
    idem p o = ground arith

-- Each of the four grants gives `client` a grant with its own deadline for each of `secrets`, unless
-- that deadline has passed already, and leaves every other pair as it was.
pub grants_lem :
    (s : GrantStore) (client : ℕ) (secrets : List ℕ) (time c x : ℕ)
    → IsValid s
    → (holds (grant_for s client secrets time) c x
        ≡ granted s client secrets
            (elapsed (saturating_add s.clock.now_millis (duration_millis time)))
            c
            x)
      × (holds (grant_until s client secrets time) c x
          ≡ granted s client secrets (wall_clock time) c x)
      × (holds (grant_session s client secrets) c x ≡ granted s client secrets session c x)
      × (holds (grant_unattended_until s client secrets time) c x
          ≡ granted s client secrets (unattended time (unattended_bound s.clock time)) c x)
unfolding holds grant_for grant_until grant_session grant_unattended_until unattended_bound
grants_lem s client secrets time c x v = (
  holds-insert_all s client secrets _ c x v,
  holds-insert_all s client secrets _ c x v,
  holds-insert_all s client secrets _ c x v,
  holds-insert_all s client secrets _ c x v,
)

filter_twice :
    (p q : GrantDeadline → Bool) (o : Option GrantDeadline)
    → keep_if p (keep_if q (keep_if p o)) ≡ keep_if q (keep_if p o)
filter_twice p q o = ground arith

-- The five ways to withdraw grants: every grant; those of one client; those for one secret; one pair,
-- with a report whether it was granted; all but the unattended ones. All other pairs keep theirs.
pub revocations_lem :
    (s : GrantStore) (client secret c x : ℕ)
    → IsValid s
    → (holds (revoke_all s) c x ≡ none)
      × (holds (revoke_client s client) c x ≡ (if c == client then none else holds s c x))
      × (holds (revoke_secret s secret) c x ≡ (if x == secret then none else holds s c x))
      × (holds (revoke_pair s client secret).0 c x
          ≡ (if (client == c) && (secret == x) then none else holds s c x))
      × ((revoke_pair s client secret).1 ≡ is_some (holds s client secret))
      × (holds (retain_unattended s) c x ≡ keep_if is_unattended (holds s c x))
unfolding holds revoke_all revoke_client revoke_secret revoke_pair retain_unattended get
revocations_lem s client secret c x v = (
  refl,
  rw (get-retain _ (c, x) s.deadlines v) (ground arith),
  rw (get-retain _ (c, x) s.deadlines v) (ground arith),
  rw
      (
        get-remove (client, secret) (c, x) (purge_expired s).deadlines (purge_expired-IsValid s v),
        get-purge_expired s c x v,
      )
      (ground arith),
  rw (get-purge_expired s client secret v),
  rw
      (
        get-retain _ (c, x) (purge_expired s).deadlines (purge_expired-IsValid s v),
        get-purge_expired s c x v,
      )
      (filter_twice (is_live s.clock) is_unattended (get (c, x) s.deadlines)),
)

contains-keep :
    (p : ℕ → Bool) (xs : List ℕ) (x : ℕ) → contains (keep p xs) x ≡ (contains xs x && p x)
contains-keep p [] x = refl
contains-keep p (y ∷ xs) x = ground (arith, contains-keep p xs x)

contains-first_seen :
    (seen xs : List ℕ) (x : ℕ)
    → contains (first_seen seen xs) x ≡ (contains xs x && not (contains seen x))
unfolding first_seen
contains-first_seen seen [] x = refl
contains-first_seen seen (y ∷ xs) x =
    ground (arith, contains-first_seen seen xs x, contains-first_seen (y ∷ seen) xs x)

-- `missing` and `missing_unattended` name exactly those of the requested secrets for which the client
-- has no grant, or no unattended one, that is still running.
pub missing_lem :
    (s : GrantStore) (client : ℕ) (secrets : List ℕ) (x : ℕ)
    → IsValid s
    → (contains (missing s client secrets).1 x ≡ (contains secrets x && is_none (holds s client x)))
      × (contains (missing_unattended s client secrets).1 x
          ≡ (contains secrets x && is_none (keep_if is_unattended (holds s client x))))
unfolding missing missing_unattended
missing_lem s client secrets x v = (
  rw
      (
        contains-keep _ (first_seen [] secrets) x,
        contains-first_seen [] secrets x,
        contains_key-get (client, x) (purge_expired s).deadlines,
        get-purge_expired s client x v,
      )
      (ground arith),
  rw (contains-keep _ secrets x, get-purge_expired s client x v) (ground arith),
)

any-active :
    (clock : Clock) (m : Map (ℕ × ℕ) GrantDeadline) (c x : ℕ)
    → any (λ e. (e.client_session_id == c) && (e.secret_id == x)) (map (grant_entry clock) m)
      ≡ is_some (get (c, x) m)
unfolding grant_entry get
any-active clock [] c x = refl
any-active clock (((i, j), d) ∷ m) c x = ground (arith, any-active clock m c x)

-- `active` has an entry for a pair exactly if the pair holds a running grant.
active_lem :
    (s : GrantStore) (c x : ℕ)
    → IsValid s
    → any (λ e. (e.client_session_id == c) && (e.secret_id == x)) (active s).1
      ≡ is_some (holds s c x)
unfolding active
active_lem s c x v =
    rw (any-active s.clock (purge_expired s).deadlines c x, get-purge_expired s c x v)

any-unattended :
    (m : Map (ℕ × ℕ) GrantDeadline) (c : ℕ)
    → any (λ e. (e.0.0 == c) && is_unattended e.1) m ≡ true
    → Distinct m
    → (x : ℕ) × (is_some (keep_if is_unattended (get (c, x) m)) ≡ true)
unfolding get
any-unattended [] c h v = cc
any-unattended (((i, j), d) ∷ m) c h v = elim (Bool-cases ((i == c) && is_unattended d)) [
  | inl e ↦ (j, ground arith)
  | inr e ↦
      let (x, p) = any-unattended m c (ground arith) v.1 in
      (x, ground (arith, get_absent (i, j) m v.0))
]

-- A client that `has_unattended` reports has a running unattended grant for some secret.
pub has_unattended-holds :
    (s : GrantStore) (c : ℕ)
    → IsValid s
    → (has_unattended s c).1 ≡ true
    → (x : ℕ) × (is_some (keep_if is_unattended (holds s c x)) ≡ true)
unfolding has_unattended
has_unattended-holds s c v h =
    let (x, p) = any-unattended (purge_expired s).deadlines c h (purge_expired-IsValid s v) in
    (x, rw (get-purge_expired s c x v) at p)
