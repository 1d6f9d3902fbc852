-- ===== src/Redact/Chunks.antt =====
-- The redactor's result does not depend on the pieces in which the output comes
-- (crates/ladon-core/src/redact.rs).
use ladon.Prelude.{
  ℕ, zero, suc, ◌+◌, ◌-◌, ◌≡◌, ◌≤◌, ◌<◌, refl, Bool, true, false, Option, some, List, [], ◌∷◌, ◌++◌,
  nat_eq, if◌then◌else◌, drop, length, length-drop, All, arith, Bool-cases, inl, inr, ap, ◌∙◌, sym,
  subst,
}
use ladon.Prelude.Result.{ok}
use ladon.Prelude.Time.{saturating_add}
use native.Mathlib.Nat.{zero-add, add_assoc}
use mathlib.Core.List.{append_assoc, append-nil}
use ladon.Redact.Utf8.{Bytes, escape_loop}
use ladon.Redact.Capture
use ladon.Redact.Capture.{push_str}
use ladon.Redact.Patterns.{Externals}
use ladon.Redact.Stream.{
  Sink, StreamingRedactor, RedactedOutput, utf8_push, utf8_finish, process_loop, process, push,
  push_all, finish, new, output, suppressed_output,
}
use ladon.Redact.Reference.{longest_at, longest_at-append, redact, All-map}
use ladon.Redact.Search.{IsSearch}
use ladon.Redact.Equivalence.{Emits, process_loop-Emits}
use ladon.Redact.Ready.{AllNonempty, IsReady, new-IsReady}

abbrev pub concat : List Bytes → Bytes
concat [] = []
concat (chunk ∷ rest) = chunk ++ concat rest

-- The result for the whole output at once.
unfoldable pub redact_whole : Externals → StreamingRedactor → Bytes → Option RedactedOutput
redact_whole ext r bytes =
    let redacted = redact r.patterns r.marker bytes in
    if r.suppressed
    then some (suppressed_output ext 0 false 0)
    else output ext r.patterns (saturating_add r.redaction_count redacted.1)
        (Capture.finish (utf8_finish (utf8_push r.sink redacted.0)))

if_true {ℓ} : {A : Type ℓ} (test : Bool) (x y : A) → test ≡ true → (if test then x else y) ≡ x
if_true test x y h = rw h refl

if_false {ℓ} : {A : Type ℓ} (test : Bool) (x y : A) → test ≡ false → (if test then x else y) ≡ y
if_false test x y h = rw h refl

push_nothing : (s : Sink) → s.utf8 ≡ [] → s ≡ utf8_push s []
unfolding utf8_push escape_loop push_str
push_nothing s h =
    let pushed = λ (b : Bytes). record s {
      utf8 = (escape_loop (length b) b).1;
      capture = push_str s.capture (escape_loop (length b) b).0;
    } in
    (λ i. record s { utf8 = h i }) ∙ sym (ap pushed (append-nil s.utf8 ∙ h))

ignored :
    (ext : Externals) (r : StreamingRedactor) (chunks : List Bytes)
    → r.suppressed ≡ true
    → push_all ext r chunks ≡ r
unfolding push_all push
ignored ext r [] off = refl
ignored ext r (chunk ∷ rest) off =
    ap (λ q. push_all ext q rest) (if_true r.suppressed r _ off) ∙ ignored ext r rest off

module _ (ext : Externals) (search : IsSearch ext.find) (start : StreamingRedactor) where
  -- The redactor with these bytes held, `acc` written and `m` redactions made.
  abbrev after : Bytes → Bytes → ℕ → StreamingRedactor
  after pending acc m = record start {
    pending = pending;
    sink = utf8_push start.sink acc;
    redaction_count = saturating_add start.redaction_count m;
  }

  -- What is held and what may follow is redacted as if it had come with what was written.
  abbrev Continues : Bytes → Bytes → Bytes → ℕ → Type 0
  Continues bytes pending acc m =
      (ys : Bytes)
      → redact start.patterns start.marker (bytes ++ ys) ≡ (
        acc ++ (redact start.patterns start.marker (pending ++ ys)).0,
        m + (redact start.patterns start.marker (pending ++ ys)).1,
      )

  abbrev Follows : Bytes → StreamingRedactor → Type 0
  Follows bytes r =
      (pending acc : Bytes) × (m : ℕ) × (r ≡ after pending acc m) × Continues bytes pending acc m

  -- What a window of `maximum_pattern_bytes` bytes shows of the patterns does not change.
  window :
      (buffer ys : Bytes) (i : ℕ)
      → All (λ p. length p ≤ start.maximum_pattern_bytes) start.patterns
      → i < length buffer - (start.maximum_pattern_bytes - 1)
      → longest_at start.patterns (drop i buffer ++ ys) ≡ longest_at start.patterns (drop i buffer)
  window buffer ys i bound below =
      longest_at-append start.patterns (drop i buffer) ys
        (All-map start.patterns (λ p h. omega (arith, length-drop i buffer)) bound)

  abbrev looped : Bytes → Bytes → ℕ → ℕ → ℕ × Sink × ℕ
  looped buffer acc m safe_end =
      process_loop ext (length buffer) start.patterns start.marker buffer safe_end 0
        (utf8_push start.sink acc) (saturating_add start.redaction_count m)

  emitted :
      (buffer acc : Bytes) (m safe_end : ℕ)
      → AllNonempty start.patterns
      → safe_end ≤ length buffer
      → Emits ext search start.patterns start.marker buffer safe_end start.sink
          start.redaction_count 0 acc m
          (looped buffer acc m safe_end)
  emitted buffer acc m safe_end nonempty len =
      process_loop-Emits ext search start.patterns start.marker buffer safe_end start.sink
        start.redaction_count (length buffer) 0 acc m _ _ nonempty len (omega arith) (omega arith)
        refl refl

  -- What a redactor does with the bytes that it holds, up to `safe_end`.
  step :
      (bytes buffer acc : Bytes) (m safe_end : ℕ)
      → AllNonempty start.patterns
      → safe_end ≤ length buffer
      → ((ys : Bytes) (i : ℕ)
          → i < safe_end
          → longest_at start.patterns (drop i buffer ++ ys)
            ≡ longest_at start.patterns (drop i buffer))
      → Continues bytes buffer acc m
      → let (position, sink, count) = looped buffer acc m safe_end in
        Follows bytes
          (record start { pending = drop position buffer; sink = sink; redaction_count = count })
  step bytes buffer acc m safe_end nonempty len local before =
      let (out, n, same_sink, same_count, _, _, rest) =
        emitted buffer acc m safe_end nonempty len in
      let position = (looped buffer acc m safe_end).0 in
      (
        drop position buffer,
        acc ++ out,
        m + n,
        λ i. record start {
          pending = drop position buffer;
          sink = same_sink i;
          redaction_count = same_count i;
        },
        λ ys.
            before ys
            ∙ ap (λ r. (acc ++ r.0, m + r.1)) (rest ys (local ys))
            ∙ simp (append_assoc, add_assoc),
      )

  push-Follows :
      (bytes chunk : Bytes) (r : StreamingRedactor)
      → IsReady start
      → start.suppressed ≡ false
      → Follows bytes r
      → Follows (bytes ++ chunk) (push ext r chunk)
  unfolding push process
  push-Follows bytes chunk r (_, _, _, nonempty, bound, positive) live
        (pending, acc, m, e, before) =
      let buffer = pending ++ chunk in
      let safe_end = length buffer - (start.maximum_pattern_bytes - 1) in
      let stepped =
        step (bytes ++ chunk) buffer acc m safe_end nonempty (omega arith)
          (λ ys i below. window buffer ys i bound below)
          (λ ys. rw (append_assoc, append_assoc) (before (chunk ++ ys))) in
      subst (λ q. Follows (bytes ++ chunk) (push ext q chunk)) (sym e)
        (subst (Follows (bytes ++ chunk)) (sym (if_false start.suppressed _ _ live)) stepped)

  push_all-Follows :
      (bytes : Bytes) (chunks : List Bytes) (r : StreamingRedactor)
      → IsReady start
      → start.suppressed ≡ false
      → Follows bytes r
      → Follows (bytes ++ concat chunks) (push_all ext r chunks)
  unfolding push_all
  push_all-Follows bytes [] r ready live f = rw (append-nil) f
  push_all-Follows bytes (chunk ∷ rest) r ready live f = rw (← append_assoc) (
      push_all-Follows (bytes ++ chunk) rest (push ext r chunk) ready live
        (push-Follows bytes chunk r ready live f))

  begins : IsReady start → Follows [] start
  begins (held, utf8, count, _, _, _) = (
    [],
    [],
    0,
    λ i. record start {
      pending = held i;
      sink = push_nothing start.sink utf8 i;
      redaction_count = saturated i;
    },
    λ ys. rw (zero-add) refl,
  )
    where
      saturated : start.redaction_count ≡ saturating_add start.redaction_count 0
      saturated = omega arith

  drop_all : (n : ℕ) (bytes : Bytes) → length bytes ≤ n → drop n bytes ≡ []
  drop_all zero [] h = refl
  drop_all zero (b ∷ bytes) h = absurd (omega arith)
  drop_all (suc n) [] h = refl
  drop_all (suc n) (b ∷ bytes) h = drop_all n bytes (omega arith)

  ended :
      (bytes pending acc : Bytes) (m position : ℕ) (sink : Sink) (count : ℕ)
      → Continues bytes pending acc m
      → Emits ext search start.patterns start.marker pending
          (length pending)
          start.sink
          start.redaction_count
          0
          acc
          m
          (position, sink, count)
      → (count ≡ saturating_add start.redaction_count (redact start.patterns start.marker bytes).1)
        × (sink ≡ utf8_push start.sink (redact start.patterns start.marker bytes).0)
  unfolding redact
  ended bytes pending acc m position sink count before
        (out, n, same_sink, same_count, end, _, rest) =
      let ps = start.patterns in
      let mk = start.marker in
      let held = rest [] (λ i below. rw (append-nil) refl) in
      let empty : redact ps mk (drop position pending ++ []) ≡ ([], 0) =
        ap (λ d. redact ps mk (d ++ [])) (drop_all position pending end) in
      let whole : redact ps mk bytes ≡ (acc ++ (out ++ []), m + (n + 0)) =
        ap (redact ps mk) (sym (append-nil bytes))
        ∙ before []
        ∙ ap (λ r. (acc ++ r.0, m + r.1)) (held ∙ ap (λ r. (out ++ r.0, n + r.1)) empty) in
      (
        same_count
            ∙ ap (saturating_add start.redaction_count) (omega arith)
            ∙ ap (λ r. saturating_add start.redaction_count r.1) (sym whole),
        same_sink
            ∙ ap (λ o. utf8_push start.sink (acc ++ o)) (sym (append-nil out))
            ∙ ap (λ r. utf8_push start.sink r.0) (sym whole),
      )

  finish-Follows :
      (bytes : Bytes) (r : StreamingRedactor)
      → IsReady start
      → Follows bytes r
      → finish ext r ≡ redact_whole ext start bytes
  unfolding finish process redact_whole
  finish-Follows bytes r (_, _, _, nonempty, _, _) (pending, acc, m, e, before) =
      let (same_count, same_sink) =
        ended bytes pending acc m _ _ _ before
          (emitted pending acc m (length pending) nonempty (omega arith)) in
      ap (finish ext) e ∙ (λ i.
        if start.suppressed
        then some (suppressed_output ext 0 false 0)
        else output ext start.patterns (same_count i) (Capture.finish (utf8_finish (same_sink i))))

-- Whatever the pieces in which the output of the program comes, the redactor's result is that of the
-- whole output at once: from the front, at each place where patterns stand, the longest one is replaced
-- by the marker and counted, and every other byte is kept. (An output that is suppressed from the start is
-- empty either way.)
pub finish-push_all :
    (ext : Externals) (secrets : List Bytes) (limit : ℕ) (start : StreamingRedactor)
    (chunks : List Bytes)
    → IsSearch ext.find
    → new ext secrets limit ≡ ok start
    → finish ext (push_all ext start chunks) ≡ redact_whole ext start (concat chunks)
unfolding push_all push finish redact_whole
finish-push_all ext secrets limit start chunks search made =
    let ready = new-IsReady ext secrets limit start made in
    elim (Bool-cases start.suppressed) [
      | inr live ↦
          finish-Follows ext search start (concat chunks) (push_all ext start chunks) ready (
            push_all-Follows ext search start [] chunks start ready live
              (begins ext search start ready))
      | inl off ↦
          ap (finish ext) (ignored ext start chunks off)
          ∙ if_true start.suppressed (some (suppressed_output ext 0 false 0)) _ off
          ∙ sym (if_true start.suppressed (some (suppressed_output ext 0 false 0)) _ off)
    ]
