-- ===== src/Redact/Scan.antt =====
-- The escaper without its buffer (crates/ladon-core/src/redact.rs): what it writes does not depend on the
-- pieces in which the bytes come.
use ladon.Prelude.{
  ℕ, zero, suc, ◌≡◌, ◌≤◌, ◌<◌, refl, sym, subst, ap, ◌∙◌, Bool, true, false, List, [], ◌∷◌, ◌++◌,
  ltb, nat_eq, if◌then◌else◌, drop, take, length, arith, length-drop, drop-append,
}
use mathlib.Core.List.{append_assoc, append-nil}
use ladon.Redact.Utf8.{
  begins_three, begins_four, third_of_three, third_of_four, fourth_byte, second_of_two,
  second_of_three, second_of_four, between, is_continuation, Bytes, Front, finished, character,
  invalid, incomplete, front, valid_prefix, from_utf8, escapes, escape_loop, prefix_at, escape_at,
}

-- Bytes, the characters that are written for them, and the bytes that wait for more.
pub data Scans : Bytes → List Bytes → Bytes → Type 0 where
  ends : (bs : Bytes) → front bs ≡ finished → Scans bs [] bs
  waits : (bs : Bytes) → front bs ≡ incomplete → Scans bs [] bs
  writes :
      (bs : Bytes) (n : ℕ) (out : List Bytes) (rest : Bytes)
      → front bs ≡ character n
      → Scans (drop n bs) out rest
      → Scans bs (take n bs ∷ out) rest
  rejects :
      (bs : Bytes) (n : ℕ) (out : List Bytes) (rest : Bytes)
      → front bs ≡ invalid n
      → Scans (drop n bs) out rest
      → Scans bs (escapes (take n bs) ++ out) rest

-- How many bytes the front takes.
abbrev Takes : Front → Bytes → Type 0
Takes finished bs = bs ≡ []
Takes incomplete bs = (0 < length bs) × (length bs < 4)
Takes (character n) bs = (0 < n) × (n ≤ length bs) × (n ≤ 4)
Takes (invalid n) bs = (0 < n) × (n ≤ length bs) × (n ≤ 3)

either : (P : Front → Type 0) (test : Bool) (x y : Front) → P x → P y → P (if test then x else y)
either P true x y p q = p
either P false x y p q = q

two_Takes : (a : ℕ) (bs : Bytes) → Takes (second_of_two bs) (a ∷ bs)
two_Takes a [] = omega arith
two_Takes a (b ∷ bs) =
    either (λ r. Takes r (a ∷ b ∷ bs)) (is_continuation b) _ _ (omega arith) (omega arith)

three_Takes : (a : ℕ) (bs : Bytes) → Takes (second_of_three a bs) (a ∷ bs)
three_Takes a [] = omega arith
three_Takes a (b ∷ []) =
    either (λ r. Takes r (a ∷ b ∷ [])) (begins_three a b) incomplete (invalid 1) (omega arith)
      (omega arith)
three_Takes a (b ∷ c ∷ bs) =
    let P = λ (r : Front). Takes r (a ∷ b ∷ c ∷ bs) in
    either P (begins_three a b) (third_of_three (c ∷ bs)) (invalid 1)
      (either P (is_continuation c) (character 3) (invalid 2) (omega arith) (omega arith))
      (omega arith)

four_Takes : (a : ℕ) (bs : Bytes) → Takes (second_of_four a bs) (a ∷ bs)
four_Takes a [] = omega arith
four_Takes a (b ∷ []) =
    either (λ r. Takes r (a ∷ b ∷ [])) (begins_four a b) incomplete (invalid 1) (omega arith)
      (omega arith)
four_Takes a (b ∷ c ∷ []) =
    let P = λ (r : Front). Takes r (a ∷ b ∷ c ∷ []) in
    either P (begins_four a b) (third_of_four (c ∷ [])) (invalid 1)
      (either P (is_continuation c) incomplete (invalid 2) (omega arith) (omega arith))
      (omega arith)
four_Takes a (b ∷ c ∷ d ∷ bs) =
    let P = λ (r : Front). Takes r (a ∷ b ∷ c ∷ d ∷ bs) in
    either P (begins_four a b) (third_of_four (c ∷ d ∷ bs)) (invalid 1)
      (either P (is_continuation c) (fourth_byte (d ∷ bs)) (invalid 2)
        (either P (is_continuation d) (character 4) (invalid 3) (omega arith) (omega arith))
        (omega arith))
      (omega arith)

pub front-Takes : (bs : Bytes) → Takes (front bs) bs
unfolding front
front-Takes [] = refl
front-Takes (a ∷ bs) =
    let P = λ (r : Front). Takes r (a ∷ bs) in
    either P (ltb a 128) _ _ (omega arith) (
      either P (between 194 223 a) _ _ (two_Takes a bs) (
        either P (between 224 239 a) _ _ (three_Takes a bs)
          (either P (between 240 244 a) _ _ (four_Takes a bs) (omega arith))))

abbrev Settled : Front → Type 0
Settled (character n) = Unit
Settled (invalid n) = Unit
Settled _ = ⊥

front-append : (xs ys : Bytes) → Settled (front xs) → front (xs ++ ys) ≡ front xs
unfolding front
front-append [] ys h = absurd h
front-append (a ∷ []) ys h = ground arith
front-append (a ∷ b ∷ []) ys h = ground arith
front-append (a ∷ b ∷ c ∷ []) ys h = ground arith
front-append (a ∷ b ∷ c ∷ d ∷ bs) ys h = refl

drop-length : (xs : Bytes) → drop (length xs) xs ≡ []
drop-length [] = refl
drop-length (x ∷ xs) = drop-length xs

take-append_left : (n : ℕ) (xs ys : Bytes) → n ≤ length xs → take n (xs ++ ys) ≡ take n xs
take-append_left zero xs ys h = refl
take-append_left (suc n) [] ys h = absurd (omega arith)
take-append_left (suc n) (x ∷ xs) ys h = ap (◌∷◌ x) (take-append_left n xs ys (omega arith))

-- Bytes that come later are scanned after those that wait.
pub Scans-append :
    (xs ys : Bytes) {out : List Bytes} {rest : Bytes} (out' : List Bytes) (rest' : Bytes)
    → Scans xs out rest
    → Scans (rest ++ ys) out' rest'
    → Scans (xs ++ ys) (out ++ out') rest'
Scans-append xs ys out' rest' (ends bs e) later = later
Scans-append xs ys out' rest' (waits bs e) later = later
Scans-append xs ys out' rest' (writes bs n out rest e s) later =
    let t : Takes (character n) xs = subst (λ r. Takes r xs) e (front-Takes xs) in
    let f = front-append xs ys (subst Settled (sym e) tt) ∙ e in
    let more =
      subst (λ bs. Scans bs (out ++ out') rest') (sym (drop-append n xs ys t.1))
        (Scans-append (drop n xs) ys out' rest' s later) in
    subst (λ c. Scans (xs ++ ys) (c ∷ (out ++ out')) rest') (take-append_left n xs ys t.1)
      (writes (xs ++ ys) n (out ++ out') rest' f more)
Scans-append xs ys out' rest' (rejects bs n out rest e s) later =
    let t : Takes (invalid n) xs = subst (λ r. Takes r xs) e (front-Takes xs) in
    let f = front-append xs ys (subst Settled (sym e) tt) ∙ e in
    let more =
      subst (λ bs. Scans bs (out ++ out') rest') (sym (drop-append n xs ys t.1))
        (Scans-append (drop n xs) ys out' rest' s later) in
    rw (append_assoc) (
      subst (λ c. Scans (xs ++ ys) (escapes c ++ (out ++ out')) rest')
        (take-append_left n xs ys t.1) (rejects (xs ++ ys) n (out ++ out') rest' f more))

-- What is written and what waits are determined.
pub Scans-unique :
    (bs : Bytes) {out out' : List Bytes} {rest rest' : Bytes}
    → Scans bs out rest
    → Scans bs out' rest'
    → (out ≡ out') × (rest ≡ rest')
Scans-unique bs (ends _ e) (ends _ f) = (refl, refl)
Scans-unique bs (ends _ e) (waits _ f) = (refl, refl)
Scans-unique bs (ends _ e) (writes _ n out rest f s) = cc
Scans-unique bs (ends _ e) (rejects _ n out rest f s) = cc
Scans-unique bs (waits _ e) (ends _ f) = (refl, refl)
Scans-unique bs (waits _ e) (waits _ f) = (refl, refl)
Scans-unique bs (waits _ e) (writes _ n out rest f s) = cc
Scans-unique bs (waits _ e) (rejects _ n out rest f s) = cc
Scans-unique bs (writes _ m o r e s) (ends _ f) = cc
Scans-unique bs (writes _ m o r e s) (waits _ f) = cc
Scans-unique bs (writes _ m o r e s) (rejects _ n out rest f t) = cc
Scans-unique bs (rejects _ m o r e s) (ends _ f) = cc
Scans-unique bs (rejects _ m o r e s) (waits _ f) = cc
Scans-unique bs (rejects _ m o r e s) (writes _ n out rest f t) = cc
Scans-unique bs (writes _ m o r e s) (writes _ n out rest f t) =
    let same : m ≡ n = cc in
    let (p, q) =
      Scans-unique (drop m bs) s (subst (λ k. Scans (drop k bs) out rest) (sym same) t) in
    (cc, q)
Scans-unique bs (rejects _ m o r e s) (rejects _ n out rest f t) =
    let same : m ≡ n = cc in
    let (p, q) =
      Scans-unique (drop m bs) s (subst (λ k. Scans (drop k bs) out rest) (sym same) t) in
    (cc, q)

abbrev Stops : Front → Type 0
Stops (character n) = ⊥
Stops _ = Unit

-- What the search for the characters at the front has to do: they are written, and it ends where none
-- stands.
abbrev Prefixes : Bytes → List Bytes × Bytes → Type 0
Prefixes bs (cs, rest) =
    ((out : List Bytes) (pending : Bytes) → Scans rest out pending → Scans bs (cs ++ out) pending)
    × Stops (front rest)
    × (length rest ≤ length bs)

prefix_at-Prefixes :
    (bs : Bytes) (next : ℕ → List Bytes × Bytes) (r : Front)
    → front bs ≡ r
    → ((n : ℕ) → r ≡ character n → Prefixes (drop n bs) (next n))
    → Prefixes bs (prefix_at bs next r)
prefix_at-Prefixes bs next (character n) e ih =
    let (written, stop, len) = ih n refl in
    (
      λ out pending s. writes bs n _ pending e (written out pending s),
      stop,
      omega (arith, length-drop n bs),
    )
prefix_at-Prefixes bs next finished e ih = (λ out pending s. s, subst Stops (sym e) tt, omega arith)
prefix_at-Prefixes bs next (invalid n) e ih =
    (λ out pending s. s, subst Stops (sym e) tt, omega arith)
prefix_at-Prefixes bs next incomplete e ih =
    (λ out pending s. s, subst Stops (sym e) tt, omega arith)

valid_prefix-Prefixes : (f : ℕ) (bs : Bytes) → length bs ≤ f → Prefixes bs (valid_prefix f bs)
unfolding valid_prefix
valid_prefix-Prefixes zero [] h = (λ out pending s. s, subst Stops (sym empty) tt, omega arith)
  where
    empty : front [] ≡ finished
    empty = unfold front in refl
valid_prefix-Prefixes zero (b ∷ bs) h = absurd (omega arith)
valid_prefix-Prefixes (suc f) bs h = prefix_at-Prefixes bs _ (front bs) refl (λ n e.
    let t = subst (λ r. Takes r bs) e (front-Takes bs) in
    valid_prefix-Prefixes f (drop n bs) (omega (arith, length-drop n bs)))

abbrev ScansTo : Bytes → List Bytes × Bytes → Type 0
ScansTo bs (out, pending) = Scans bs out pending

escape_at-ScansTo :
    (bs rest : Bytes) (cs : List Bytes) (next : ℕ → List Bytes × Bytes) (r : Front)
    → Prefixes bs (cs, rest)
    → front rest ≡ r
    → ((n : ℕ) → r ≡ invalid n → ScansTo (drop n rest) (next n))
    → ScansTo bs (escape_at cs rest next r)
escape_at-ScansTo bs rest cs next (character n) (written, stop, _) e ih =
    absurd (subst Stops e stop)
escape_at-ScansTo bs rest cs next finished (written, _, _) e ih =
    let t = subst (λ r. Takes r rest) e (front-Takes rest) in
    rw (append-nil cs) at (subst (Scans bs (cs ++ [])) t (written [] rest (ends rest e)))
escape_at-ScansTo bs rest cs next (invalid n) (written, _, _) e ih =
    written _ _ (rejects rest n _ _ e (ih n refl))
escape_at-ScansTo bs rest cs next incomplete (written, _, _) e ih =
    rw (append-nil cs) at (written [] rest (waits rest e))

-- The loop of the escaper scans its buffer.
pub escape_loop-Scans : (f : ℕ) (bs : Bytes) → length bs ≤ f → ScansTo bs (escape_loop f bs)
unfolding escape_loop from_utf8
escape_loop-Scans zero [] h = ends [] (unfold front in refl)
escape_loop-Scans zero (b ∷ bs) h = absurd (omega arith)
escape_loop-Scans (suc f) bs h =
    let p = valid_prefix-Prefixes (length bs) bs (omega arith) in
    let (_, _, len) = p in
    let rest = (valid_prefix (length bs) bs).1 in
    escape_at-ScansTo bs rest (valid_prefix (length bs) bs).0 _ (front rest) p refl (λ n e.
      let t = subst (λ r. Takes r rest) e (front-Takes rest) in
      escape_loop-Scans f (drop n rest) (omega (arith, length-drop n rest)))
