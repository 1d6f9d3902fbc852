-- ===== src/Redact/Ready.antt =====
-- What `StreamingRedactor::new` guarantees of the patterns (crates/ladon-core/src/redact.rs).
use ladon.Prelude.{
  ℕ, ◌≡◌, ◌≤◌, ◌<◌, refl, Bool, true, false, Option, none, some, List, [], ◌∷◌, ◌++◌, leb, nat_eq,
  if◌then◌else◌, length, All, arith, is_empty, subst,
}
use ladon.Prelude.Result.{ok}
use ladon.Prelude.Time.{u64_max}
use ladon.Redact.Utf8.{Bytes, from_utf8}
use ladon.Redact.Patterns.{
  Externals, add_pattern, binary_forms, text_forms, add_json, add_all, add_text, add_secret,
  add_secrets, insert_by_length, sort_by_length, longest, maximum_length,
}
use ladon.Redact.Stream.{StreamingRedactor, fresh, new}
use ladon.Redact.Reference.{All-map}

abbrev pub AllNonempty : List Bytes → Type 0
AllNonempty ps = All (λ p. 0 < length p) ps

add_pattern-AllNonempty :
    (ps : List Bytes) (p : Bytes) → AllNonempty ps → AllNonempty (add_pattern ps p)
unfolding add_pattern
add_pattern-AllNonempty ps [] h = h
add_pattern-AllNonempty ps (b ∷ bs) h = ground (arith, extended ps h)
  where
    extended : (ps : List Bytes) → AllNonempty ps → AllNonempty (ps ++ ((b ∷ bs) ∷ []))
    extended [] h = (omega arith, tt)
    extended (p ∷ ps) (h, hs) = (h, extended ps hs)

add_json-AllNonempty :
    (ps : List Bytes) (json : Option Bytes) → AllNonempty ps → AllNonempty (add_json ps json)
add_json-AllNonempty ps none h = h
add_json-AllNonempty ps (some json) h = add_pattern-AllNonempty ps _ h

kept_either :
    (test : Bool) (ps qs : List Bytes)
    → AllNonempty ps
    → AllNonempty qs
    → AllNonempty (if test then ps else qs)
kept_either true ps qs h k = h
kept_either false ps qs h k = k

add_all-AllNonempty : (ps forms : List Bytes) → AllNonempty ps → AllNonempty (add_all ps forms)
unfolding add_all
add_all-AllNonempty ps [] h = h
add_all-AllNonempty ps (p ∷ forms) h =
    add_all-AllNonempty (add_pattern ps p) forms (add_pattern-AllNonempty ps p h)

add_text-AllNonempty :
    (ext : Externals) (ps : List Bytes) (value : Bytes)
    → AllNonempty ps
    → AllNonempty (add_text ext ps value)
unfolding add_text
add_text-AllNonempty ext ps value h =
    kept_either (is_empty (from_utf8 value).1)
      (add_all (add_json ps (ext.to_json value)) (text_forms value)) ps
      (add_all-AllNonempty (add_json ps (ext.to_json value)) (text_forms value)
        (add_json-AllNonempty ps (ext.to_json value) h))
      h

add_secret-AllNonempty :
    (ext : Externals) (ps : List Bytes) (value : Bytes)
    → AllNonempty ps
    → AllNonempty (add_secret ext ps value)
unfolding add_secret
add_secret-AllNonempty ext ps value h =
    kept_either (is_empty value) ps (add_text ext (add_all ps (binary_forms ext value)) value) h (
      add_text-AllNonempty ext (add_all ps (binary_forms ext value)) value
        (add_all-AllNonempty ps (binary_forms ext value) h))

add_secrets-AllNonempty :
    (ext : Externals) (ps secrets : List Bytes)
    → AllNonempty ps
    → AllNonempty (add_secrets ext ps secrets)
unfolding add_secrets
add_secrets-AllNonempty ext ps [] h = h
add_secrets-AllNonempty ext ps (value ∷ rest) h =
    add_secrets-AllNonempty ext (add_secret ext ps value) rest
      (add_secret-AllNonempty ext ps value h)

insert-AllNonempty :
    (p : Bytes) (ps : List Bytes)
    → 0 < length p
    → AllNonempty ps
    → AllNonempty (insert_by_length p ps)
unfolding insert_by_length
insert-AllNonempty p [] h hs = (h, tt)
insert-AllNonempty p (q ∷ qs) h (k, ks) =
    kept_either (leb (length q) (length p)) _ _ (h, (k, ks)) (k, insert-AllNonempty p qs h ks)

sort-AllNonempty : (ps : List Bytes) → AllNonempty ps → AllNonempty (sort_by_length ps)
unfolding sort_by_length
sort-AllNonempty [] h = tt
sort-AllNonempty (p ∷ ps) (h, hs) =
    insert-AllNonempty p (sort_by_length ps) h (sort-AllNonempty ps hs)

longest_bound : (ps : List Bytes) → All (λ p. length p ≤ longest ps) ps
unfolding longest
longest_bound [] = tt
longest_bound (p ∷ ps) = (ground arith, All-map ps (λ q h. ground arith) (longest_bound ps))

maximum_lem :
    (ps : List Bytes)
    → AllNonempty ps
    → All (λ p. length p ≤ maximum_length ps) ps × (0 < maximum_length ps)
unfolding maximum_length
maximum_lem [] h = (tt, omega arith)
maximum_lem (p ∷ ps) (h, hs) =
    let (first, rest) = longest_bound (p ∷ ps) in ((first, rest), omega arith)

-- A redactor that has seen no output, with patterns that are not empty and no longer than its window.
abbrev pub IsReady : StreamingRedactor → Type 0
IsReady r =
    (r.pending ≡ [])
    × (r.sink.utf8 ≡ [])
    × (r.redaction_count ≤ u64_max)
    × AllNonempty r.patterns
    × All (λ p. length p ≤ r.maximum_pattern_bytes) r.patterns
    × (0 < r.maximum_pattern_bytes)

pub new-IsReady :
    (ext : Externals) (secrets : List Bytes) (limit : ℕ) (r : StreamingRedactor)
    → new ext secrets limit ≡ ok r
    → IsReady r
unfolding new
new-IsReady ext secrets limit r h =
    let ps = sort_by_length (add_secrets ext [] secrets) in
    let nonempty =
      sort-AllNonempty (add_secrets ext [] secrets) (add_secrets-AllNonempty ext [] secrets tt) in
    let (bound, positive) = maximum_lem ps nonempty in
    let same : fresh ext secrets ps limit ≡ r = ground arith in
    subst IsReady same (refl, refl, omega arith, nonempty, bound, positive)
