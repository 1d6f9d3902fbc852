-- ===== src/Redact/Equivalence.antt =====
-- The redaction of a stream is that of the whole output (crates/ladon-core/src/redact.rs).
use ladon.Prelude.{
  ℕ, zero, suc, ◌+◌, ◌-◌, ◌≡◌, ◌≤◌, ◌<◌, refl, Option, none, some, List, [], ◌∷◌, ◌++◌, ltb, nat_eq,
  drop, take, length, length-drop, length-append, All, arith, Bool-cases, inl, inr, drop-drop,
  drop-append, ap, ◌∙◌, sym, subst,
}
use ladon.Prelude.Time.{saturating_add}
use native.Mathlib.Nat.{zero-add, suc-add}
use mathlib.Core.List.{append_assoc, append-nil}
use ladon.Redact.Utf8.{Bytes, escape_loop}
use ladon.Redact.Capture.{BoundedCapture, push_character, push_str}
use ladon.Redact.Patterns.{Externals}
use ladon.Redact.Stream.{Sink, utf8_push, find_next, round, process_loop}
use ladon.Redact.Scan.{Scans, Scans-append, Scans-unique, escape_loop-Scans}
use ladon.Redact.Reference.{longest_at, redact, redact_byte, redact_pattern}
use ladon.Redact.Search.{IsSearch, Found, find_next_lem}

push_str-append :
    (s : BoundedCapture) (xs ys : List Bytes) → push_str s (xs ++ ys) ≡ push_str (push_str s xs) ys
unfolding push_str
push_str-append s [] ys = refl
push_str-append s (x ∷ xs) ys = push_str-append (push_character s x) xs ys

-- The escaper and the capture do not see in which pieces the bytes come.
pub utf8_push-append :
    (s : Sink) (xs ys : Bytes) → utf8_push (utf8_push s xs) ys ≡ utf8_push s (xs ++ ys)
unfolding utf8_push
utf8_push-append s xs ys =
    let first = s.utf8 ++ xs in
    let (out, rest) = escape_loop (length first) first in
    let second = rest ++ ys in
    let (out', rest') = escape_loop (length second) second in
    let whole = s.utf8 ++ (xs ++ ys) in
    let scanned =
      Scans-append first ys out' rest' (escape_loop-Scans (length first) first (omega arith))
        (escape_loop-Scans (length second) second (omega arith)) in
    let (p, q) =
      Scans-unique whole
        (subst (λ w. Scans w (out ++ out') rest') (append_assoc s.utf8 xs ys) scanned)
        (escape_loop-Scans (length whole) whole (omega arith)) in
    ground (arith, push_str-append s.capture out out')

module _ (ps : List Bytes) (marker : Bytes) where
  -- Bytes at which no pattern stands are kept.
  kept :
      (k : ℕ) (xs ys : Bytes)
      → k ≤ length xs
      → ((i : ℕ) → i < k → longest_at ps (drop i xs ++ ys) ≡ 0)
      → redact ps marker (xs ++ ys) ≡ (
        take k xs ++ (redact ps marker (drop k xs ++ ys)).0,
        (redact ps marker (drop k xs ++ ys)).1,
      )
  kept zero xs ys h none_at = refl
  kept (suc k) [] ys h none_at = absurd (omega arith)
  kept (suc k) (x ∷ xs) ys h none_at =
      let ih = kept k xs ys (omega arith) (λ i below. none_at (suc i) (omega arith)) in
      redact_byte ps marker x (xs ++ ys) (none_at 0 (omega arith)) ∙ ap (λ r. (x ∷ r.0, r.1)) ih

-- What the loop makes of the bytes from `position` on, for a sink that has taken `acc` and a count of `m`
-- redactions: it stops behind `safe_end`, and what follows is redacted as if it had come at once.
module _ (ext : Externals) (search : IsSearch ext.find) (ps : List Bytes) (marker buffer : Bytes)
    (safe_end : ℕ) (start_sink : Sink) (start_count : ℕ) where
  abbrev IsLocal : Bytes → Type 0
  IsLocal ys =
      (i : ℕ) → i < safe_end → longest_at ps (drop i buffer ++ ys) ≡ longest_at ps (drop i buffer)

  abbrev rest_at : ℕ → Bytes → Bytes × ℕ
  rest_at position ys = redact ps marker (drop position buffer ++ ys)

  abbrev pub Emits : ℕ → Bytes → ℕ → ℕ × Sink × ℕ → Type 0
  Emits position acc m (position', sink, count) =
      (out : Bytes) × (n : ℕ) × (sink ≡ utf8_push start_sink (acc ++ out))
      × (count ≡ saturating_add start_count (m + n))
      × (safe_end ≤ position')
      × (position' ≤ length buffer)
      × ((ys : Bytes)
          → IsLocal ys
          → rest_at position ys ≡ (out ++ (rest_at position' ys).0, n + (rest_at position' ys).1))

  kept_to :
      (position e : ℕ) (ys : Bytes)
      → position ≤ e
      → e ≤ safe_end
      → e ≤ length buffer
      → IsLocal ys
      → ((i : ℕ) → position ≤ i → i < e → longest_at ps (drop i buffer) ≡ 0)
      → rest_at position ys
        ≡ (take (e - position) (drop position buffer) ++ (rest_at e ys).0, (rest_at e ys).1)
  kept_to position e ys h safe len local none_at =
      let at : drop (e - position) (drop position buffer) ≡ drop e buffer =
        drop-drop (e - position) position buffer ∙ ap (λ k. drop k buffer) (omega arith) in
      kept ps marker (e - position) (drop position buffer) ys
        (omega (arith, length-drop position buffer))
        (λ i below.
          ap (λ d. longest_at ps (d ++ ys)) (drop-drop i position buffer)
          ∙ local (position + i) (omega arith)
          ∙ none_at (position + i) (omega arith) (omega arith))
      ∙ ap
          (λ d. (
            take (e - position) (drop position buffer) ++ (redact ps marker (d ++ ys)).0,
            (redact ps marker (d ++ ys)).1,
          ))
          at

  -- A pattern is replaced.
  replaced :
      (s : ℕ) (q ys : Bytes)
      → s < safe_end
      → 0 < length q
      → longest_at ps (drop s buffer) ≡ length q
      → length q ≤ length (drop s buffer)
      → IsLocal ys
      → rest_at s ys ≡ (marker ++ (rest_at (s + length q) ys).0, suc (rest_at (s + length q) ys).1)
  replaced s q ys below nonempty longest fits local =
      let k = length q - 1 in
      let e : suc k ≡ length q = omega arith in
      let d : drop (suc k) (drop s buffer ++ ys) ≡ drop (s + length q) buffer ++ ys =
        drop-append (suc k) (drop s buffer) ys (omega arith)
        ∙ ap (λ b. b ++ ys) (drop-drop (suc k) s buffer ∙ ap (λ j. drop (s + j) buffer) e) in
      redact_pattern ps marker (drop s buffer ++ ys) k (local s below ∙ longest ∙ sym e)
        (λ empty. omega (arith, length-append (drop s buffer) ys))
      ∙ ap (λ b. (marker ++ (redact ps marker b).0, suc (redact ps marker b).1)) d

  stopped :
      (position : ℕ) (acc : Bytes) (m : ℕ) (sink : Sink) (count : ℕ)
      → safe_end ≤ position
      → position ≤ length buffer
      → sink ≡ utf8_push start_sink acc
      → count ≡ saturating_add start_count m
      → Emits position acc m (position, sink, count)
  stopped position acc m sink count end len s c =
      ([], 0, rw (append-nil) s, omega arith, end, len, λ ys local. rw (zero-add) refl)

  flushed :
      (position : ℕ) (acc : Bytes) (m : ℕ) (sink : Sink) (count : ℕ)
      → safe_end ≤ length buffer
      → position ≤ safe_end
      → sink ≡ utf8_push start_sink acc
      → count ≡ saturating_add start_count m
      → ((i : ℕ) → position ≤ i → i < safe_end → longest_at ps (drop i buffer) ≡ 0)
      → Emits position acc m
          (safe_end, utf8_push sink (take (safe_end - position) (drop position buffer)), count)
  flushed position acc m sink count len h s c none_at = (
    take (safe_end - position) (drop position buffer),
    0,
    ap (λ t. utf8_push t (take (safe_end - position) (drop position buffer))) s
        ∙ utf8_push-append start_sink acc (take (safe_end - position) (drop position buffer)),
    omega arith,
    omega arith,
    len,
    λ ys local. rw (zero-add) (kept_to position safe_end ys h (omega arith) len local none_at),
  )

  -- One redaction, and what the rest of the loop emits.
  redacted :
      (position : ℕ) (acc : Bytes) (m : ℕ) (s : ℕ) (q : Bytes) (result : ℕ × Sink × ℕ)
      → safe_end ≤ length buffer
      → position ≤ s
      → s < safe_end
      → 0 < length q
      → longest_at ps (drop s buffer) ≡ length q
      → length q ≤ length (drop s buffer)
      → ((i : ℕ) → position ≤ i → i < s → longest_at ps (drop i buffer) ≡ 0)
      → Emits
          (s + length q)
          (acc ++ (take (s - position) (drop position buffer) ++ marker))
          (m + 1)
          result
      → Emits position acc m result
  redacted position acc m s q (position', sink, count) len low high nonempty longest fits none_at
        (out, n, same_sink, same_count, end, bound, rest) =
      let a = take (s - position) (drop position buffer) in
      (
        (a ++ marker) ++ out,
        suc n,
        rw (← append_assoc) same_sink,
        omega arith,
        end,
        bound,
        λ ys local.
            kept_to position s ys low (omega arith) (omega arith) local none_at
            ∙ ap (λ r. (a ++ r.0, r.1)) (replaced s q ys high nonempty longest fits local)
            ∙ ap (λ r. (a ++ (marker ++ r.0), suc r.1)) (rest ys local)
            ∙ simp (append_assoc, suc-add),
      )

  pub process_loop-Emits :
      (f position : ℕ) (acc : Bytes) (m : ℕ) (sink : Sink) (count : ℕ)
      → All (λ p. 0 < length p) ps
      → safe_end ≤ length buffer
      → position ≤ length buffer
      → safe_end ≤ f + position
      → sink ≡ utf8_push start_sink acc
      → count ≡ saturating_add start_count m
      → Emits position acc m (process_loop ext f ps marker buffer safe_end position sink count)
  unfolding process_loop
  process_loop-Emits zero position acc m sink count nonempty len at_most fuel s c =
      stopped position acc m sink count (omega arith) at_most s c
  process_loop-Emits (suc f) position acc m sink count nonempty len at_most fuel s c =
      elim (Bool-cases (ltb position safe_end)) [
        | inr e ↦ rw e (stopped position acc m sink count (ground arith) at_most s c)
        | inl e ↦ rw e (
            go (find_next ext buffer position safe_end ps) (ground arith)
              (find_next_lem ext search ps buffer position safe_end nonempty)
              (λ position' acc' m' sink' count'.
                process_loop-Emits f position' acc' m' sink' count' nonempty len))
      ]
    where
      go :
          (r : Option (ℕ × Bytes))
          → position < safe_end
          → Found ext search ps buffer position safe_end r
          → ((position' : ℕ) (acc' : Bytes) (m' : ℕ) (sink' : Sink) (count' : ℕ)
              → position' ≤ length buffer
              → safe_end ≤ f + position'
              → sink' ≡ utf8_push start_sink acc'
              → count' ≡ saturating_add start_count m'
              → Emits position' acc' m'
                  (process_loop ext f ps marker buffer safe_end position' sink' count'))
          → Emits position acc m (
              round ext marker buffer safe_end position sink count
                (process_loop ext f ps marker buffer safe_end)
                r)
      go none below found ih = flushed position acc m sink count len (omega arith) s c found
      go (some (start, q)) below (low, high, positive, longest, fits, none_at) ih =
          let a = take (start - position) (drop position buffer) in
          redacted position acc m start q _ len low high positive longest fits none_at (
            ih (start + length q) (acc ++ (a ++ marker)) (m + 1) _ _
              (omega (arith, length-drop start buffer)) (omega arith)
              (ap (λ t. utf8_push (utf8_push t a) marker) s
                ∙ utf8_push-append (utf8_push start_sink acc) a marker
                ∙ utf8_push-append start_sink acc (a ++ marker))
              (omega arith))
