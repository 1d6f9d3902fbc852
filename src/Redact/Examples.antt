-- ===== src/Redact/Examples.antt =====
-- The redactor at concrete outputs (crates/ladon-core/src/redact.rs).
use ladon.Prelude.{
  ℕ, zero, suc, ◌≡◌, ◌<◌, refl, Bool, true, false, Option, none, some, List, [], ◌∷◌, if◌then◌else◌,
  drop, All, arith,
}
use ladon.Prelude.Result.{ok}
use ladon.Prelude.Utf8.{codes}
use ladon.Redact.Utf8.{Bytes}
use ladon.Redact.Capture
use ladon.Redact.Capture.{BoundedCapture, push_str, finish, width}
use ladon.Redact.Patterns.{
  Externals, add_secrets, sort_by_length, is_suppressed, maximum_length, contains_pattern,
  redaction_marker, encode_hex,
}
use ladon.Redact.Stream.{StreamingRedactor, RedactedOutput, new, push_all}
use ladon.Redact.Stream
use ladon.Redact.Reference.{is_prefix}
use ladon.Redact.Search.{IsSearch}
use ladon.Redact.Chunks.{concat, redact_whole, finish-push_all}
use ladon.Redact.Bounded.{IsCharacter, Captures, finish-Captures}
use ladon.Redact.Hidden.{finish-hides}

abbrev shift : Option ℕ → Option ℕ
shift none = none
shift (some i) = some (suc i)

-- A search from the front.
unfoldable first_at : Bytes → Bytes → Option ℕ
unfolding is_prefix
first_at [] needle = if is_prefix needle [] then some 0 else none
first_at (b ∷ bs) needle =
    let rest = first_at bs needle in if is_prefix needle (b ∷ bs) then some 0 else shift rest

-- What a search that goes on gives.
later_found :
    (test : Bool) (rest : Option ℕ) (i : ℕ)
    → (if test then some 0 else shift rest) ≡ some (suc i)
    → rest ≡ some i
later_found true rest i h = ground arith
later_found false none i h = cc
later_found false (some k) i h = ground arith

front_fails :
    (test : Bool) (rest : Option ℕ) (i : ℕ)
    → (if test then some 0 else shift rest) ≡ some (suc i)
    → test ≡ false
front_fails true rest i h = ground arith
front_fails false rest i h = refl

front_found :
    (test : Bool) (rest : Option ℕ) → (if test then some 0 else shift rest) ≡ some 0 → test ≡ true
front_found true rest h = refl
front_found false none h = cc
front_found false (some k) h = ground arith

none_found :
    (test : Bool) (rest : Option ℕ)
    → (if test then some 0 else shift rest) ≡ none
    → (test ≡ false) × (rest ≡ none)
none_found true rest h = cc
none_found false none h = (refl, refl)
none_found false (some k) h = cc

first_at-found :
    (haystack needle : Bytes) (i : ℕ)
    → first_at haystack needle ≡ some i
    → is_prefix needle (drop i haystack) ≡ true
unfolding first_at
first_at-found [] needle zero h = ground arith
first_at-found [] needle (suc i) h = ground arith
first_at-found (b ∷ bs) needle zero h = front_found _ _ h
first_at-found (b ∷ bs) needle (suc i) h = first_at-found bs needle i (later_found _ _ i h)

first_at-first :
    (haystack needle : Bytes) (i j : ℕ)
    → first_at haystack needle ≡ some i
    → j < i
    → is_prefix needle (drop j haystack) ≡ false
unfolding first_at
first_at-first haystack needle zero j h k = absurd (omega arith)
first_at-first [] needle (suc i) j h k = ground arith
first_at-first (b ∷ bs) needle (suc i) zero h k = front_fails _ _ i h
first_at-first (b ∷ bs) needle (suc i) (suc j) h k =
    first_at-first bs needle i j (later_found _ _ i h) (omega arith)

first_at-nowhere :
    (haystack needle : Bytes) (j : ℕ)
    → first_at haystack needle ≡ none
    → is_prefix needle (drop j haystack) ≡ false
unfolding first_at
first_at-nowhere [] needle zero h = ground arith
first_at-nowhere [] needle (suc j) h = ground arith
first_at-nowhere (b ∷ bs) needle zero h = (none_found _ _ h).0
first_at-nowhere (b ∷ bs) needle (suc j) h = first_at-nowhere bs needle j (none_found _ _ h).1

first_at-IsSearch : IsSearch first_at
first_at-IsSearch = record {
  found = first_at-found;
  first = first_at-first;
  nowhere = first_at-nowhere;
}

-- The encodings do not occur in the output below.
abbrev externals : Externals
externals = record {
  find = first_at;
  standard = λ v. [];
  standard_no_pad = λ v. [];
  url_safe = λ v. [];
  url_safe_no_pad = λ v. [];
  to_json = λ v. none;
}

abbrev secrets : List Bytes
secrets = codes "hunter2" ∷ []

abbrev pieces : List Bytes
pieces = codes "key=hunt" ∷ codes "er2, or 68756" ∷ codes "e74657232." ∷ []

abbrev start : StreamingRedactor
start = Stream.fresh externals secrets (sort_by_length (add_secrets externals [] secrets)) 256

made : new externals secrets 256 ≡ ok start
unfolding new
made = refl

abbrev shown : RedactedOutput
shown = record {
  text = codes "key=[REDACTED], or [REDACTED].";
  redaction_count = 2;
  truncated = false;
  omitted_bytes = 0;
  suppressed = false;
}

finish-shown : Stream.finish externals (push_all externals start pieces) ≡ some shown
unfolding Stream.finish push_all is_suppressed finish push_str maximum_length sort_by_length
    add_secrets first_at contains_pattern redaction_marker Capture.new
finish-shown = refl

finish-push_all_example :
    Stream.finish externals (push_all externals start pieces)
    ≡ redact_whole externals start (concat pieces)
finish-push_all_example = finish-push_all externals secrets 256 start pieces first_at-IsSearch made

finish-hides_example : is_prefix (codes "68756e74657232") (drop 4 shown.text) ≡ false
unfolding encode_hex
finish-hides_example =
    finish-hides externals secrets 256 start pieces shown (codes "hunter2") (codes "68756e74657232")
      4 first_at-IsSearch made finish-shown refl refl refl refl refl

abbrev letters : ℕ → List Bytes
letters zero = []
letters (suc n) = (97 ∷ []) ∷ letters n

letters-IsCharacter : (n : ℕ) → All IsCharacter (letters n)
unfolding width
letters-IsCharacter zero = tt
letters-IsCharacter (suc n) = (refl, letters-IsCharacter n)

finish-Captures_example :
    Captures 128 (letters 200) (finish (push_str (Capture.new 128) (letters 200)))
finish-Captures_example =
    finish-Captures 128 (letters 200) (omega arith) (letters-IsCharacter 200) (ground arith)
