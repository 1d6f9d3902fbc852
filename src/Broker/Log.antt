-- ===== src/Broker/Log.antt =====
-- The log of recent activity (crates/ladon-core/src/broker.rs).
use ladon.Prelude.{
  ℕ, ◌-◌, ◌≤◌, ◌<◌, ◌≡◌, List, [], ◌∷◌, ◌++◌, map, arith, ◌==◌, nat_eq, length, drop, if◌then◌else◌,
  length-append, length-drop, drop-append, last_n, last_n-append, Bool-cases, inl, inr, ◌∙◌, ap,
}
use mathlib.Core.List.{append_assoc, append-nil}
use ladon.Broker.{BrokerState, ActivityEntry, max_activity_entries, bounded_entry, record_activity}

unfoldable pub record_all : BrokerState → List ActivityEntry → BrokerState
record_all b [] = b
record_all b (e ∷ es) = record_all (record_activity b e) es

push-last_n {ℓ} :
    {A : Type ℓ} (n : ℕ) (xs : List A) (x : A)
    → length xs ≤ n
    → 0 < n
    → (if length xs == n then drop 1 xs else xs) ++ x ∷ [] ≡ last_n n (xs ++ x ∷ [])
push-last_n n xs x h p = elim (Bool-cases (length xs == n)) [
  | inl full ↦
      let at_limit : length xs ≡ n = ground arith in
      let one : length (xs ++ x ∷ []) - n ≡ 1 = omega (arith, length-append xs (x ∷ [])) in
      rw (full, one, drop-append 1 xs (x ∷ []) (omega arith))
  | inr room ↦
      let below : length xs < n = ground arith in
      let nothing : length (xs ++ x ∷ []) - n ≡ 0 = omega (arith, length-append xs (x ∷ [])) in
      rw (room, nothing)
]

record_activity-last :
    (b : BrokerState) (e : ActivityEntry)
    → length b.activities ≤ max_activity_entries
    → (record_activity b e).activities
      ≡ last_n max_activity_entries (b.activities ++ bounded_entry e ∷ [])
unfolding record_activity
record_activity-last b e h =
    push-last_n max_activity_entries b.activities (bounded_entry e) h (omega arith)

length-last_n {ℓ} : {A : Type ℓ} (n : ℕ) (xs : List A) → length (last_n n xs) ≤ n
length-last_n n xs = omega (arith, length-drop (length xs - n) xs)

-- The log holds the latest 100 entries, oldest first and each one bounded, however many are recorded.
record_all-last_n :
    (b : BrokerState) (es : List ActivityEntry)
    → length b.activities ≤ max_activity_entries
    → (record_all b es).activities
      ≡ last_n max_activity_entries (b.activities ++ map bounded_entry es)
unfolding record_all
record_all-last_n b [] h =
    let nothing : length b.activities - max_activity_entries ≡ 0 = omega arith in
    rw (append-nil, nothing)
record_all-last_n b (e ∷ es) h =
    let entry = bounded_entry e ∷ [] in
    let next = record_activity-last b e h in
    let bound : length (record_activity b e).activities ≤ max_activity_entries =
      rw next (length-last_n max_activity_entries (b.activities ++ entry)) in
    record_all-last_n (record_activity b e) es bound
    ∙ ap (λ l. last_n max_activity_entries (l ++ map bounded_entry es)) next
    ∙ last_n-append max_activity_entries (b.activities ++ entry) (map bounded_entry es)
    ∙ ap (last_n max_activity_entries) (append_assoc b.activities entry (map bounded_entry es))
