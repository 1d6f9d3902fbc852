-- ===== src/Grants.antt =====
-- crates/ladon-core/src/grants.rs: which client session may use which secret, and until when.
-- Client sessions and secrets are known only by their identifiers, which are compared and never
-- read: they are numbers. `clock` stands for the value behind the `MonotonicClock` trait: one
-- operation sees one reading of it, and `at` puts another in its place as time passes.
pub mod View
pub mod History
pub mod Provenance
mod Examples
use ladon.Prelude.{
  ℕ, ◌+◌, ◌-◌, ◌≡◌, Bool, true, false, not, ◌&&◌, Option, none, some, List, [], ◌∷◌, map, min, ltb,
  nat_beq, ◌==◌, pair_eq, nat_eq, contains, keep, any, length, is_some, is_none, if◌then◌else◌,
}
use ladon.Prelude.Map.{Map, Distinct, get, contains_key, insert, remove, retain}
use ladon.Prelude.Time.{
  saturating_add, saturating_sub, from_millis, as_millis, until_or_zero, duration_max, u64_max,
  time_checked_add,
}

pub record Clock : Type 0 where
  pub now_millis : ℕ
  pub wall_time : ℕ

pub data GrantDeadline : Type 0 where
  elapsed : ℕ → GrantDeadline
  wall_clock : ℕ → GrantDeadline
  unattended : ℕ → ℕ → GrantDeadline
  session : GrantDeadline

pub record GrantStore : Type 0 where
  pub clock : Clock
  pub lifetime_millis : ℕ
  pub deadlines : Map (ℕ × ℕ) GrantDeadline

pub record GrantEntry : Type 0 where
  pub client_session_id : ℕ
  pub secret_id : ℕ
  pub remaining : ℕ
  pub expires_with_session : Bool
  pub unattended : Bool
  pub expires_at : Option ℕ

abbrev pub at : Clock → GrantStore → GrantStore
at c s = record s { clock = c }

unfoldable pub duration_millis : ℕ → ℕ
duration_millis d = min (as_millis d) u64_max

unfoldable pub deadline_remaining : GrantDeadline → ℕ → ℕ → ℕ
deadline_remaining (elapsed deadline) now wall = from_millis (saturating_sub deadline now)
deadline_remaining (wall_clock deadline) now wall = until_or_zero deadline wall
deadline_remaining (unattended deadline bound) now wall =
    min (until_or_zero deadline wall) (from_millis (saturating_sub bound now))
deadline_remaining session now wall = duration_max

abbrev pub is_unattended : GrantDeadline → Bool
is_unattended (unattended wall bound) = true
is_unattended _ = false

abbrev pub is_session : GrantDeadline → Bool
is_session session = true
is_session _ = false

unfoldable pub is_live : Clock → GrantDeadline → Bool
unfolding deadline_remaining
is_live c d = not (deadline_remaining d c.now_millis c.wall_time == 0)

unfoldable pub new : Clock → ℕ → GrantStore
unfolding duration_millis
new clock lifetime = record {
  clock = clock;
  lifetime_millis = duration_millis lifetime;
  deadlines = [];
}

unfoldable pub purge_expired : GrantStore → GrantStore
purge_expired s = record s { deadlines = retain (λ _ d. is_live s.clock d) s.deadlines }

-- The loop `for secret_id in secret_ids { deadlines.insert((client, secret_id), deadline) }`.
unfoldable pub insert_all :
    ℕ → List ℕ → GrantDeadline → Map (ℕ × ℕ) GrantDeadline → Map (ℕ × ℕ) GrantDeadline
insert_all client [] d m = m
insert_all client (s ∷ ss) d m = insert_all client ss d (insert (client, s) d m)

unfoldable pub grant_for : GrantStore → ℕ → List ℕ → ℕ → GrantStore
unfolding purge_expired duration_millis
grant_for s client secrets lifetime =
    let s' = purge_expired s in
    let deadline = saturating_add s.clock.now_millis (duration_millis lifetime) in
    record s' { deadlines = insert_all client secrets (elapsed deadline) s'.deadlines }

unfoldable pub grant : GrantStore → ℕ → List ℕ → GrantStore
unfolding grant_for
grant s client secrets = grant_for s client secrets (from_millis s.lifetime_millis)

unfoldable pub grant_until : GrantStore → ℕ → List ℕ → ℕ → GrantStore
unfolding purge_expired
grant_until s client secrets deadline =
    let s' = purge_expired s in
    record s' { deadlines = insert_all client secrets (wall_clock deadline) s'.deadlines }

unfoldable pub grant_session : GrantStore → ℕ → List ℕ → GrantStore
unfolding purge_expired
grant_session s client secrets =
    let s' = purge_expired s in
    record s' { deadlines = insert_all client secrets session s'.deadlines }

-- The monotonic bound of an unattended grant.
unfoldable pub unattended_bound : Clock → ℕ → ℕ
unfolding duration_millis
unattended_bound c deadline =
    saturating_add c.now_millis (duration_millis (until_or_zero deadline c.wall_time))

unfoldable pub grant_unattended_until : GrantStore → ℕ → List ℕ → ℕ → GrantStore
unfolding purge_expired
grant_unattended_until s client secrets deadline =
    let s' = purge_expired s in
    let bound = unattended_bound s.clock deadline in
    record s' { deadlines = insert_all client secrets (unattended deadline bound) s'.deadlines }

unfoldable pub retain_unattended : GrantStore → GrantStore
unfolding purge_expired
retain_unattended s =
    let s' = purge_expired s in
    record s' { deadlines = retain (λ _ d. is_unattended d) s'.deadlines }

unfoldable pub has_unattended : GrantStore → ℕ → GrantStore × Bool
unfolding purge_expired
has_unattended s client =
    let s' = purge_expired s in
    (s', any (λ entry. entry.0.0 == client && is_unattended entry.1) s'.deadlines)

abbrev pub is_some_unattended : Option GrantDeadline → Bool
is_some_unattended none = false
is_some_unattended (some d) = is_unattended d

unfoldable pub missing_unattended : GrantStore → ℕ → List ℕ → GrantStore × List ℕ
unfolding purge_expired
missing_unattended s client secrets =
    let s' = purge_expired s in
    (s', keep (λ secret. not (is_some_unattended (get (client, secret) s'.deadlines))) secrets)

unfoldable pub revoke_client : GrantStore → ℕ → GrantStore
revoke_client s client = record s {
  deadlines = retain (λ key _. not (key.0 == client)) s.deadlines;
}

-- The filter by `seen.insert`: the first occurrence of each identifier.
unfoldable pub first_seen : List ℕ → List ℕ → List ℕ
first_seen seen [] = []
first_seen seen (x ∷ xs) = elim (contains seen x) [
  | true ↦ first_seen seen xs
  | false ↦ x ∷ first_seen (x ∷ seen) xs
]

unfoldable pub missing : GrantStore → ℕ → List ℕ → GrantStore × List ℕ
unfolding purge_expired first_seen
missing s client secrets =
    let s' = purge_expired s in
    (s', keep (λ secret. not (contains_key (client, secret) s'.deadlines)) (first_seen [] secrets))

unfoldable pub remaining : GrantStore → ℕ → ℕ → GrantStore × Option ℕ
unfolding purge_expired deadline_remaining
remaining s client secret =
    let s' = purge_expired s in
    (
      s',
      elim (get (client, secret) s'.deadlines) [
        | none ↦ none
        | some d ↦ some (deadline_remaining d s.clock.now_millis s.clock.wall_time)
      ],
    )

unfoldable pub revoke_all : GrantStore → GrantStore
revoke_all s = record s { deadlines = [] }

unfoldable pub revoke_secret : GrantStore → ℕ → GrantStore
revoke_secret s secret = record s {
  deadlines = retain (λ key _. not (key.1 == secret)) s.deadlines;
}

unfoldable pub entry_expires_at : Clock → GrantDeadline → Option ℕ
unfolding deadline_remaining
entry_expires_at c session = none
entry_expires_at c (wall_clock time) = some time
entry_expires_at c (unattended time bound) = some time
entry_expires_at c (elapsed deadline) =
    time_checked_add c.wall_time (deadline_remaining (elapsed deadline) c.now_millis c.wall_time)

unfoldable pub grant_entry : Clock → (ℕ × ℕ) × GrantDeadline → GrantEntry
unfolding deadline_remaining entry_expires_at
grant_entry c ((client, secret), d) = record {
  client_session_id = client;
  secret_id = secret;
  remaining = deadline_remaining d c.now_millis c.wall_time;
  expires_with_session = is_session d;
  unattended = is_unattended d;
  expires_at = entry_expires_at c d;
}

unfoldable pub active : GrantStore → GrantStore × List GrantEntry
unfolding purge_expired grant_entry
active s = let s' = purge_expired s in (s', map (grant_entry s.clock) s'.deadlines)

unfoldable pub revoke_pair : GrantStore → ℕ → ℕ → GrantStore × Bool
unfolding purge_expired
revoke_pair s client secret =
    let s' = purge_expired s in
    (
      record s' { deadlines = remove (client, secret) s'.deadlines },
      is_some (get (client, secret) s'.deadlines),
    )

unfoldable pub len : GrantStore → GrantStore × ℕ
unfolding purge_expired
len s = let s' = purge_expired s in (s', length s'.deadlines)

unfoldable pub is_empty : GrantStore → GrantStore × Bool
unfolding len
is_empty s = let (s', n) = len s in (s', n == 0)
