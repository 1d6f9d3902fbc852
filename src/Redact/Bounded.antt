-- ===== src/Redact/Bounded.antt =====
-- What `BoundedCapture` keeps of an output (crates/ladon-core/src/redact.rs): its beginning and its end,
-- whole characters, within the limit.
use ladon.Prelude.{
  ℕ, zero, suc, ◌+◌, ◌-◌, ◌/◌, ◌%◌, ◌≡◌, ◌≤◌, ◌<◌, refl, Bool, true, false, not, ◌&&◌, Option, some,
  List, [], ◌∷◌, ◌++◌, ltb, leb, ◌==◌, nat_eq, drop, length, length-append, All, arith, Bool-cases,
  inl, inr, ap, ◌∙◌, sym, subst, ◌⊎◌,
}
use ladon.Prelude.Time.{saturating_add, u64_max}
use ladon.Prelude.Utf8.{codes}
use mathlib.Core.List.{append_assoc, append-nil}
use ladon.Redact.Utf8.{Bytes}
use ladon.Redact.Capture.{
  BoundedCapture, new, width, pop_front_character, shorten, push_character, push_str, digits,
  omission, fit, finish,
}
use ladon.Redact.Chunks.{concat}

-- The encoding of a character: its first byte tells its length.
abbrev pub IsCharacter : Bytes → Type 0
IsCharacter [] = ⊥
IsCharacter (b ∷ bs) = width b ≡ length (b ∷ bs)

drop-append_length : (xs ys : Bytes) → drop (length xs) (xs ++ ys) ≡ ys
drop-append_length [] ys = refl
drop-append_length (x ∷ xs) ys = drop-append_length xs ys

pop-concat :
    (c : Bytes) (cs : List Bytes)
    → IsCharacter c
    → pop_front_character (concat (c ∷ cs)) ≡ concat cs
unfolding pop_front_character
pop-concat [] cs h = absurd h
pop-concat (b ∷ bs) cs h =
    ap (λ n. drop n (b ∷ (bs ++ concat cs))) h ∙ drop-append_length (b ∷ bs) (concat cs)

nonempty : (c : Bytes) → IsCharacter c → 0 < length c
nonempty [] h = absurd h
nonempty (b ∷ bs) h = omega arith

-- The front characters of a text that are dropped, and the others.
abbrev Splits : List Bytes → (List Bytes → Type 0) → Type 0
Splits cs P = (dropped kept : List Bytes) × (cs ≡ dropped ++ kept) × P kept

shorten-Splits :
    (f capacity : ℕ) (cs : List Bytes)
    → All IsCharacter cs
    → length (concat cs) ≤ f
    → Splits cs
        (λ kept. (shorten f capacity (concat cs) ≡ concat kept) × (length (concat kept) ≤ capacity))
unfolding shorten pop_front_character
shorten-Splits zero capacity [] h e = ([], [], refl, (refl, omega arith))
shorten-Splits zero capacity (c ∷ cs) (h, hs) e =
    absurd (omega (arith, nonempty c h, length-append c (concat cs)))
shorten-Splits (suc f) capacity [] h e = ([], [], refl, (ground arith, omega arith))
shorten-Splits (suc f) capacity (c ∷ cs) (h, hs) e =
    let (dropped, kept, split, (short, bound)) =
      shorten-Splits f capacity cs hs (omega (arith, nonempty c h, length-append c (concat cs))) in
    elim (Bool-cases (ltb capacity (length (concat (c ∷ cs))))) [
      | inl long ↦ (
        c ∷ dropped,
        kept,
        ap (◌∷◌ c) split,
        (rw long (ap (shorten f capacity) (pop-concat c cs h) ∙ short), bound),
      )
      | inr fits ↦ ([], c ∷ cs, refl, (rw fits refl, ground arith))
    ]

-- The capture after the characters `cs`: what is in the head, what was dropped, what is in the tail.
record Holds (limit : ℕ) (s : BoundedCapture) (cs : List Bytes) : Type 0 where
  first : List Bytes
  dropped : List Bytes
  last : List Bytes
  split : cs ≡ first ++ (dropped ++ last)
  head : s.head ≡ concat first
  tail : s.tail ≡ concat last
  limits : (s.limit ≡ limit) × (s.head_capacity ≡ limit / 2) × (s.tail_capacity ≡ limit - limit / 2)
  head_bound : length s.head ≤ limit / 2
  tail_bound : length s.tail ≤ limit - limit / 2
  started : (s.tail_started ≡ false) → (dropped ≡ []) × (last ≡ [])
  last_characters : All IsCharacter last
  total : s.total_bytes ≡ length (concat cs)
  overflow : (s.tail_started ≡ true) → limit / 2 < s.total_bytes

concat-append : (xs ys : List Bytes) → concat (xs ++ ys) ≡ concat xs ++ concat ys
concat-append [] ys = refl
concat-append (x ∷ xs) ys =
    ap (x ++◌) (concat-append xs ys) ∙ sym (append_assoc x (concat xs) (concat ys))

concat-snoc : (xs : List Bytes) (c : Bytes) → concat (xs ++ (c ∷ [])) ≡ concat xs ++ c
concat-snoc xs c = concat-append xs (c ∷ []) ∙ ap (concat xs ++◌) (append-nil c)

All-append {ℓ κ} :
    {A : Type ℓ} (P : A → Type κ) (xs ys : List A) → All P xs → All P ys → All P (xs ++ ys)
All-append P [] ys h k = k
All-append P (x ∷ xs) ys (h, hs) k = (h, All-append P xs ys hs k)

All-suffix {ℓ κ} : {A : Type ℓ} (P : A → Type κ) (xs ys : List A) → All P (xs ++ ys) → All P ys
All-suffix P [] ys h = h
All-suffix P (x ∷ xs) ys (h, hs) = All-suffix P xs ys hs

-- A character that still fits in the head.
held_in_head :
    (limit : ℕ) (s : BoundedCapture) (cs : List Bytes) (c : Bytes) (n : ℕ)
    → Holds limit s cs
    → s.tail_started ≡ false
    → length s.head + length c ≤ s.head_capacity
    → n ≡ length (concat (cs ++ (c ∷ [])))
    → Holds limit (record s { total_bytes = n; head = s.head ++ c }) (cs ++ (c ∷ []))
held_in_head limit s cs c n h off fits total =
    let (no_gap, no_tail) = h.started off in
    let all_first : cs ≡ h.first =
      h.split ∙ (λ i. h.first ++ (no_gap i ++ no_tail i)) ∙ append-nil h.first in
    record {
      first = h.first ++ (c ∷ []);
      dropped = [];
      last = [];
      split = ap (λ f. f ++ (c ∷ [])) all_first ∙ sym (append-nil (h.first ++ (c ∷ [])));
      head = ap (λ b. b ++ c) h.head ∙ sym (concat-snoc h.first c);
      tail = h.tail ∙ ap concat no_tail;
      limits = h.limits;
      head_bound = omega (arith, length-append s.head c, h.limits.1);
      tail_bound = h.tail_bound;
      started = λ _. (refl, refl);
      last_characters = tt;
      total = total;
      overflow = λ on. cc;
    }

-- A character that goes to the tail, from whose front others give way.
held_in_tail :
    (limit : ℕ) (s : BoundedCapture) (cs : List Bytes) (c : Bytes) (n : ℕ)
    → Holds limit s cs
    → IsCharacter c
    → n ≡ length (concat (cs ++ (c ∷ [])))
    → limit / 2 < n
    → Holds limit
        (record s {
          total_bytes = n;
          tail_started = true;
          tail = shorten (length (s.tail ++ c)) s.tail_capacity (s.tail ++ c);
        })
        (cs ++ (c ∷ []))
held_in_tail limit s cs c n h char total over =
    let last = h.last ++ (c ∷ []) in
    let chars = All-append IsCharacter h.last (c ∷ []) h.last_characters (char, tt) in
    let e : s.tail ++ c ≡ concat last = ap (λ t. t ++ c) h.tail ∙ sym (concat-snoc h.last c) in
    let (gone, kept, split, (short, bound)) =
      shorten-Splits (length (concat last)) s.tail_capacity last chars (omega arith) in
    let same = ap (λ b. shorten (length b) s.tail_capacity b) e ∙ short in
    record {
      first = h.first;
      dropped = h.dropped ++ gone;
      last = kept;
      split =
          ap (λ q. q ++ (c ∷ [])) h.split
          ∙ simp append_assoc (ap (λ q. h.first ++ (h.dropped ++ q)) split);
      head = h.head;
      tail = same;
      limits = h.limits;
      head_bound = h.head_bound;
      tail_bound = rw same (subst (λ k. length (concat kept) ≤ k) (h.limits.2) bound);
      started = λ on. cc;
      last_characters = All-suffix IsCharacter gone kept (subst (All IsCharacter) split chars);
      total = total;
      overflow = λ on. over;
    }

-- The head that is not left yet holds everything.
all_in_head :
    (limit : ℕ) (s : BoundedCapture) (cs : List Bytes)
    → Holds limit s cs
    → s.tail_started ≡ false
    → s.head ≡ concat cs
all_in_head limit s cs h off =
    let (no_gap, no_tail) = h.started off in
    let all_first : cs ≡ h.first =
      h.split ∙ (λ i. h.first ++ (no_gap i ++ no_tail i)) ∙ append-nil h.first in
    h.head ∙ ap concat (sym all_first)

overflows :
    (limit : ℕ) (s : BoundedCapture) (cs : List Bytes) (c : Bytes)
    → Holds limit s cs
    → length (concat (cs ++ (c ∷ []))) ≤ u64_max
    → (not s.tail_started && leb (length s.head + length c) s.head_capacity) ≡ false
    → limit / 2 < saturating_add s.total_bytes (length c)
overflows limit s cs c h small e =
    let len = ap (λ (b : Bytes). length b) (concat-snoc cs c) in
    let sum = length-append (concat cs) c in
    elim (Bool-cases s.tail_started) [
      | inl on ↦ omega (arith, h.overflow on, h.total)
      | inr off ↦
          let full : leb (length s.head + length c) s.head_capacity ≡ false = ground arith in
          let past : s.head_capacity < length s.head + length c = ground arith in
          omega (
            arith,
            h.total,
            h.limits.1,
            ap (λ (b : Bytes). length b) (all_in_head limit s cs h off),
          )
    ]

push_character-Holds :
    (limit : ℕ) (s : BoundedCapture) (cs : List Bytes) (c : Bytes)
    → Holds limit s cs
    → IsCharacter c
    → length (concat (cs ++ (c ∷ []))) ≤ u64_max
    → Holds limit (push_character s c) (cs ++ (c ∷ []))
unfolding push_character
push_character-Holds limit s cs c h char small =
    let n : saturating_add s.total_bytes (length c) ≡ length (concat (cs ++ (c ∷ []))) = omega (
      arith,
      h.total,
      ap (λ (b : Bytes). length b) (concat-snoc cs c),
      length-append (concat cs) c,
    ) in
    elim (Bool-cases (not s.tail_started && leb (length s.head + length c) s.head_capacity)) [
      | inl e ↦ rw e (held_in_head limit s cs c _ h (ground arith) (ground arith) n)
      | inr e ↦ rw e (held_in_tail limit s cs c _ h char n (overflows limit s cs c h small e))
    ]

push_str-Holds :
    (limit : ℕ) (s : BoundedCapture) (before cs : List Bytes)
    → Holds limit s before
    → All IsCharacter cs
    → length (concat (before ++ cs)) ≤ u64_max
    → Holds limit (push_str s cs) (before ++ cs)
unfolding push_str
push_str-Holds limit s before [] h chars small = rw (append-nil) h
push_str-Holds limit s before (c ∷ cs) h (char, chars) small =
    let grouped = append_assoc before (c ∷ []) cs in
    let small' = subst (λ q. length (concat q) ≤ u64_max) (sym grouped) small in
    let len = ap (λ (b : Bytes). length b) (concat-append (before ++ (c ∷ [])) cs) in
    subst (Holds limit (push_str (push_character s c) cs)) grouped (
      push_str-Holds limit (push_character s c) (before ++ (c ∷ [])) cs
        (push_character-Holds limit s before c h char
          (omega (arith, len, length-append (concat (before ++ (c ∷ []))) (concat cs))))
        chars small')

length-digits : (f n : ℕ) → length (digits f n) ≤ f
unfolding digits
length-digits zero n = omega arith
length-digits (suc f) n =
    ground
      (arith, length-digits f (n / 10), length-append (digits f (n / 10)) ((b'0' + n % 10) ∷ []))

pub length-omission : (n : ℕ) → length (omission n) ≤ 44
unfolding omission
length-omission n =
    let front = 10 ∷ codes "...[" in
    let d = digits 20 n in
    let words = codes " bytes omitted]..." in
    omega (
      arith,
      length-digits 20 n,
      length-append (front ++ d ++ words) (10 ∷ []),
      length-append (front ++ d) words,
      length-append front d,
    )

abbrev text_of : ℕ → Bytes → List Bytes → Bytes
text_of total head kept =
    head ++ omission (total - (length head + length (concat kept))) ++ concat kept

abbrev Fits : ℕ → ℕ → Bytes → Option (Bytes × Bool × ℕ) → List Bytes → Type 0
Fits limit total head result kept =
    (result ≡ some (text_of total head kept, true, total - (length head + length (concat kept))))
    × (length (text_of total head kept) ≤ limit)

abbrev fits_now : ℕ → ℕ → Bytes → List Bytes → Bool
fits_now limit total head cs =
    let marker = omission (total - (length head + length (concat cs))) in
    leb (length head + length marker + length (concat cs)) limit

ends_here :
    (f limit total : ℕ) (head : Bytes) (cs : List Bytes)
    → fits_now limit total head cs ≡ true
    → Fits limit total head (fit (suc f) limit total head (concat cs)) cs
unfolding fit
ends_here f limit total head cs fits =
    let marker = omission (total - (length head + length (concat cs))) in
    (
      rw fits refl,
      ground (arith, length-append (head ++ marker) (concat cs), length-append head marker),
    )

leb-true : (a b : ℕ) → a ≤ b → leb a b ≡ true
leb-true a b h = ground arith

nothing_left :
    (limit total : ℕ) (head : Bytes)
    → length head + 44 ≤ limit
    → fits_now limit total head [] ≡ true
nothing_left limit total head room =
    leb-true _ limit (omega (arith, length-omission (total - (length head + length (concat [])))))

-- The loop of `finish` ends, since the head leaves room for the note of what is omitted.
fit-Splits :
    (f limit total : ℕ) (head : Bytes) (cs : List Bytes)
    → All IsCharacter cs
    → length (concat cs) < f
    → length head + 44 ≤ limit
    → Splits cs (Fits limit total head (fit f limit total head (concat cs)))
unfolding fit
fit-Splits zero limit total head cs h e room = absurd (omega arith)
fit-Splits (suc f) limit total head [] h e room =
    ([], [], refl, ends_here f limit total head [] (nothing_left limit total head room))
fit-Splits (suc f) limit total head (c ∷ cs) (h, hs) e room =
    let (gone, kept, split, (same, bound)) =
      fit-Splits f limit total head cs hs (omega (arith, nonempty c h, length-append c (concat cs)))
        room in
    elim (Bool-cases (fits_now limit total head (c ∷ cs))) [
      | inl fits ↦ ([], c ∷ cs, refl, ends_here f limit total head (c ∷ cs) fits)
      | inr long ↦ (
        c ∷ gone,
        kept,
        ap (◌∷◌ c) split,
        (rw long (ap (fit f limit total head) (pop-concat c cs h) ∙ same), bound),
      )
    ]

-- The result of the capture for the characters `cs`: all of them, or, if they are more than half the
-- limit, their beginning and their end around a note of the bytes left out between.
abbrev pub Captures : ℕ → List Bytes → Option (Bytes × Bool × ℕ) → Type 0
Captures limit cs result =
    ((result ≡ some (concat cs, false, 0)) × (length (concat cs) ≤ limit))
    ⊎ ((first dropped last : List Bytes) × (cs ≡ first ++ (dropped ++ last))
        × (limit / 2 < length (concat cs))
        × (result
            ≡ some (
              concat first ++ omission (length (concat dropped)) ++ concat last,
              true,
              length (concat dropped),
            ))
        × (length (concat first ++ omission (length (concat dropped)) ++ concat last) ≤ limit))

empty_of_length : (b : Bytes) → length b ≡ 0 → b ≡ []
empty_of_length [] h = refl
empty_of_length (x ∷ b) h = absurd (omega arith)

parts :
    (first dropped last : List Bytes)
    → concat (first ++ (dropped ++ last)) ≡ concat first ++ (concat dropped ++ concat last)
parts first dropped last =
    concat-append first (dropped ++ last) ∙ ap (concat first ++◌) (concat-append dropped last)

length-parts :
    (cs first dropped last : List Bytes)
    → cs ≡ first ++ (dropped ++ last)
    → length (concat cs) ≡ length (concat first) + (length (concat dropped) + length (concat last))
length-parts cs first dropped last e =
    let p = ap (λ (b : Bytes). length b) (ap concat e ∙ parts first dropped last) in
    omega (
      arith,
      p,
      length-append (concat first) (concat dropped ++ concat last),
      length-append (concat dropped) (concat last),
    )

module _ (limit : ℕ) (s : BoundedCapture) (cs : List Bytes) (h : Holds limit s cs)
    (room : 128 ≤ limit) where
  whole : length s.head + length s.tail ≡ s.total_bytes → s.head ++ s.tail ≡ concat cs
  whole e =
      let len = length-parts cs h.first h.dropped h.last h.split in
      let a = ap (λ (b : Bytes). length b) h.head in
      let b = ap (λ (b : Bytes). length b) h.tail in
      let gap = empty_of_length (concat h.dropped) (omega (arith, len, a, b, h.total)) in
      (λ i. h.head i ++ h.tail i)
      ∙ ap (λ d. concat h.first ++ (d ++ concat h.last)) (sym gap)
      ∙ sym (ap concat h.split ∙ parts h.first h.dropped h.last)

  over :
      (leb s.total_bytes s.limit && (length s.head + length s.tail == s.total_bytes)) ≡ false
      → limit / 2 < length (concat cs)
  over e = elim (Bool-cases s.tail_started) [
    | inl on ↦ omega (arith, h.overflow on, h.total)
    | inr off ↦
        let (no_gap, no_tail) = h.started off in
        let a = ap (λ (b : Bytes). length b) (all_in_head limit s cs h off) in
        let b = ap (λ (b : Bytes). length b) (h.tail ∙ ap concat no_tail) in
        absurd (
          ground (
            arith,
            a,
            b,
            h.total,
            h.head_bound,
            h.limits.0,
            nat_eq.eq_iff (length s.head + length s.tail) s.total_bytes,
          ))
  ]

  finish_lem : Captures limit cs (finish s)
  unfolding finish
  finish_lem =
      elim (Bool-cases
        (leb s.total_bytes s.limit && (length s.head + length s.tail == s.total_bytes))) [
          | inl e ↦ inl (
            rw e (
                ap (λ b. some (b, false, 0))
                  (whole
                    (ground (arith, nat_eq.eq_iff (length s.head + length s.tail) s.total_bytes)))),
            ground (arith, h.total, h.limits.0),
          )
          | inr e ↦
              let a = ap (λ (b : Bytes). length b) h.head in
              let (gone, kept, split, (same, bound)) =
                fit-Splits (suc (length (concat h.last))) limit s.total_bytes s.head h.last
                  h.last_characters (omega arith) (omega (arith, h.head_bound)) in
              let dropped = h.dropped ++ gone in
              let split' : cs ≡ h.first ++ (dropped ++ kept) =
                h.split ∙ ap (λ q. h.first ++ (h.dropped ++ q)) split ∙ simp append_assoc in
              let omitted : s.total_bytes - (length s.head + length (concat kept))
                  ≡ length (concat dropped) =
                omega (arith, a, h.total, length-parts cs h.first dropped kept split') in
              let text : text_of s.total_bytes s.head kept
                  ≡ concat h.first ++ omission (length (concat dropped)) ++ concat kept =
                λ i. h.head i ++ omission (omitted i) ++ concat kept in
              inr (
                h.first,
                dropped,
                kept,
                split',
                over e,
                rw e (
                    (λ i.
                      fit (suc (length (h.tail i))) (h.limits.0 i) s.total_bytes s.head (h.tail i))
                    ∙ same
                    ∙ (λ i. some (text i, true, omitted i))),
                subst (λ b. length b ≤ limit) text bound,
              )
        ]

-- The captured text of any sequence of characters, for a limit of at least 128 bytes: `finish` ends; the
-- text is no longer than the limit; it is all of the output, or, only for an output of more than half the
-- limit, whole characters of its beginning and its end around a note with the exact number of bytes left
-- out between them.
pub finish-Captures :
    (limit : ℕ) (cs : List Bytes)
    → 128 ≤ limit
    → All IsCharacter cs
    → length (concat cs) ≤ u64_max
    → Captures limit cs (finish (push_str (new limit) cs))
unfolding new
finish-Captures limit cs room chars small =
    let h : Holds limit (new limit) [] = record {
      first = [];
      dropped = [];
      last = [];
      split = refl;
      head = refl;
      tail = refl;
      limits = (refl, refl, refl);
      head_bound = omega arith;
      tail_bound = omega arith;
      started = λ off. (refl, refl);
      last_characters = tt;
      total = refl;
      overflow = λ on. cc;
    } in
    finish_lem limit (push_str (new limit) cs) cs
      (push_str-Holds limit (new limit) [] cs h chars small) room
