-- ===== src/Redact/Stream.antt =====
-- `StreamingRedactor` (crates/ladon-core/src/redact.rs): the output arrives in pieces, and what might be
-- the beginning of a secret waits for the next one.
use ladon.Prelude.{
  ℕ, zero, suc, ◌+◌, ◌-◌, Bool, true, false, ◌&&◌, ◌||◌, Option, none, some, List, [], ◌∷◌, ◌++◌,
  ltb, leb, ◌==◌, nat_eq, if◌then◌else◌, drop, take, length,
}
use ladon.Prelude.Result.{Result, ok, err, LadonError}
use ladon.Prelude.Time.{saturating_add}
use ladon.Redact.Utf8.{Bytes, escape_loop, escapes}
use ladon.Redact.Capture
use ladon.Redact.Capture.{BoundedCapture, push_str}
use ladon.Redact.Patterns.{
  Externals, add_secrets, sort_by_length, maximum_length, contains_pattern, is_suppressed,
  redaction_marker,
}

abbrev pub min_output_limit_bytes : ℕ
min_output_limit_bytes = 128

abbrev pub max_output_limit_bytes : ℕ
max_output_limit_bytes = 2097152

pub record RedactedOutput : Type 0 where
  pub text : Bytes
  pub redaction_count : ℕ
  pub truncated : Bool
  pub omitted_bytes : ℕ
  pub suppressed : Bool

-- The bytes that a `Utf8Escaper` keeps, and the capture that it writes to.
pub record Sink : Type 0 where
  pub utf8 : Bytes
  pub capture : BoundedCapture

pub record StreamingRedactor : Type 0 where
  pub patterns : List Bytes
  pub maximum_pattern_bytes : ℕ
  pub pending : Bytes
  pub marker : Bytes
  pub sink : Sink
  pub redaction_count : ℕ
  pub suppressed : Bool

-- `Utf8Escaper::push`.
unfoldable pub utf8_push : Sink → Bytes → Sink
unfolding escape_loop
utf8_push s bytes =
    let buffer = s.utf8 ++ bytes in
    let (out, pending) = escape_loop (length buffer) buffer in
    record { utf8 = pending; capture = push_str s.capture out }

-- `Utf8Escaper::finish`.
unfoldable pub utf8_finish : Sink → BoundedCapture
utf8_finish s = push_str s.capture (escapes s.utf8)

module _ (ext : Externals) where
  abbrev pub fresh : List Bytes → List Bytes → ℕ → StreamingRedactor
  fresh secrets patterns limit = record {
    patterns = patterns;
    maximum_pattern_bytes = maximum_length patterns;
    pending = [];
    marker = if contains_pattern ext redaction_marker patterns then [] else redaction_marker;
    sink = record { utf8 = []; capture = Capture.new limit };
    redaction_count = 0;
    suppressed = is_suppressed secrets;
  }

  unfoldable pub new : List Bytes → ℕ → Result StreamingRedactor
  new secrets limit =
      if leb min_output_limit_bytes limit && leb limit max_output_limit_bytes
      then ok (fresh secrets (sort_by_length (add_secrets ext [] secrets)) limit)
      else err LadonError.invalid_output_limit

  -- A place of a pattern is better if it is earlier, or as early and longer. The pattern stands for its
  -- index, which the code keeps.
  abbrev pub improve : ℕ → Bytes → Option (ℕ × Bytes) → Option (ℕ × Bytes)
  improve start p none = some (start, p)
  improve start p (some (best, q)) =
      if ltb start best || (start == best && ltb (length q) (length p))
      then some (start, p)
      else some (best, q)

  abbrev pub consider : ℕ → ℕ → Bytes → Option ℕ → Option (ℕ × Bytes) → Option (ℕ × Bytes)
  consider position safe_end p none best = best
  consider position safe_end p (some found) best =
      if ltb (position + found) safe_end then improve (position + found) p best else best

  unfoldable pub find_from : Bytes → ℕ → ℕ → List Bytes → Option (ℕ × Bytes) → Option (ℕ × Bytes)
  find_from buffer position safe_end [] best = best
  find_from buffer position safe_end (p ∷ ps) best =
      find_from buffer position safe_end ps
        (consider position safe_end p (ext.find (drop position buffer) p) best)

  unfoldable pub find_next : Bytes → ℕ → ℕ → List Bytes → Option (ℕ × Bytes)
  unfolding find_from
  find_next buffer position safe_end patterns = find_from buffer position safe_end patterns none

  -- A round of the loop of `process`: `next` are the rounds that follow.
  abbrev pub round :
      Bytes
      → Bytes
      → ℕ
      → ℕ
      → Sink
      → ℕ
      → (ℕ → Sink → ℕ → ℕ × Sink × ℕ)
      → Option (ℕ × Bytes)
      → ℕ × Sink × ℕ
  round marker buffer safe_end position sink count next none =
      (safe_end, utf8_push sink (take (safe_end - position) (drop position buffer)), count)
  round marker buffer safe_end position sink count next (some (start, p)) =
      next (start + length p)
        (utf8_push (utf8_push sink (take (start - position) (drop position buffer))) marker)
        (saturating_add count 1)

  -- The loop of `process`: the position at which it stops, the sink and the count. Every round goes on by
  -- a byte at least.
  unfoldable pub process_loop : ℕ → List Bytes → Bytes → Bytes → ℕ → ℕ → Sink → ℕ → ℕ × Sink × ℕ
  unfolding find_next utf8_push
  process_loop zero patterns marker buffer safe_end position sink count = (position, sink, count)
  process_loop (suc f) patterns marker buffer safe_end position sink count =
      if ltb position safe_end
      then round marker buffer safe_end position sink count
          (process_loop f patterns marker buffer safe_end)
          (find_next buffer position safe_end patterns)
      else (position, sink, count)

  unfoldable pub process : Bool → StreamingRedactor → StreamingRedactor
  unfolding process_loop
  process finishing r =
      let buffer = r.pending in
      let safe_end =
        if finishing then length buffer else length buffer - (r.maximum_pattern_bytes - 1) in
      let (position, sink, count) =
        process_loop (length buffer) r.patterns r.marker buffer safe_end 0 r.sink
          r.redaction_count in
      record r { pending = drop position buffer; sink = sink; redaction_count = count }

  unfoldable pub push : StreamingRedactor → Bytes → StreamingRedactor
  unfolding process
  push r bytes =
      if r.suppressed then r else process false (record r { pending = r.pending ++ bytes })

  unfoldable pub push_all : StreamingRedactor → List Bytes → StreamingRedactor
  unfolding push
  push_all r [] = r
  push_all r (chunk ∷ rest) = push_all (push r chunk) rest

  abbrev pub suppressed_output : ℕ → Bool → ℕ → RedactedOutput
  suppressed_output count truncated omitted = record {
    text = [];
    redaction_count = count;
    truncated = truncated;
    omitted_bytes = omitted;
    suppressed = true;
  }

  abbrev pub checked_output : List Bytes → ℕ → Bytes × Bool × ℕ → RedactedOutput
  checked_output patterns count (text, truncated, omitted) =
      if contains_pattern ext text patterns
      then suppressed_output count truncated omitted
      else record {
        text = text;
        redaction_count = count;
        truncated = truncated;
        omitted_bytes = omitted;
        suppressed = false;
      }

  abbrev pub output : List Bytes → ℕ → Option (Bytes × Bool × ℕ) → Option RedactedOutput
  output patterns count none = none
  output patterns count (some captured) = some (checked_output patterns count captured)

  -- `none` if the loop of the capture's `finish` does not end.
  unfoldable pub finish : StreamingRedactor → Option RedactedOutput
  unfolding process utf8_finish
  finish r =
      let last = process true r in
      if r.suppressed
      then some (suppressed_output 0 false 0)
      else output last.patterns last.redaction_count (Capture.finish (utf8_finish last.sink))
