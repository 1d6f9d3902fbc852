-- ===== src/Broker/Truncate.antt =====
-- `truncate_utf8` cuts a text between two characters (crates/ladon-core/src/broker.rs).
use ladon.Prelude.{
  ℕ, zero, suc, ◌+◌, ◌-◌, ◌≤◌, ◌<◌, ◌≡◌, refl, Bool, true, not, none, some, List, [], ◌∷◌, ◌++◌,
  arith, leb, ◌==◌, nat_eq, length, take, get_elem?, if◌then◌else◌, length-append, Bool-cases, inl,
  inr, ◌∙◌, ap, take-nil, take-append, get_elem?-append,
}
use ladon.Prelude.Utf8.{encode_utf8, bytes, take_chars}
use ladon.Broker.{is_continuation, boundary_below, truncate_utf8}

at_boundary : List ℕ → ℕ → Bool
at_boundary value i = elim (get_elem? value i) [
  | none ↦ i == length value
  | some byte ↦ not (is_continuation byte)
]

boundary_below_step :
    (value : List ℕ) (i j : ℕ)
    → i ≡ suc j
    → boundary_below value i ≡ (if at_boundary value i then i else boundary_below value j)
unfolding boundary_below at_boundary
boundary_below_step value i j e = rw e (ground arith)

at_boundary-append :
    (i : ℕ) (xs ys : List ℕ) → at_boundary (xs ++ ys) (length xs + i) ≡ at_boundary ys i
unfolding at_boundary
at_boundary-append i xs ys =
    rw (get_elem?-append i xs ys, at_boundary) (ground (arith, length-append xs ys))

at_boundary-bytes : (cs : List ℕ) → at_boundary (bytes cs) 0 ≡ true
unfolding at_boundary bytes is_continuation
at_boundary-bytes [] = refl
at_boundary-bytes (c ∷ cs) = ground arith

encode_utf8_pos : (c : ℕ) → 0 < length (encode_utf8 c)
unfolding encode_utf8
encode_utf8_pos c = ground arith

boundary_inside :
    (c : ℕ) (rest : List ℕ) (i : ℕ)
    → i < length (encode_utf8 c)
    → boundary_below (encode_utf8 c ++ rest) i ≡ 0
unfolding encode_utf8 boundary_below
boundary_inside c rest zero h = refl
boundary_inside c rest (suc zero) h = ground arith
boundary_inside c rest (suc (suc zero)) h = ground arith
boundary_inside c rest (suc (suc (suc zero))) h = ground arith
boundary_inside c rest (suc (suc (suc (suc i)))) h = ground arith

boundary_after :
    (c : ℕ) (cs : List ℕ) (j : ℕ)
    → boundary_below (encode_utf8 c ++ bytes cs) (length (encode_utf8 c) + j)
      ≡ length (encode_utf8 c) + boundary_below (bytes cs) j
unfolding boundary_below
boundary_after c cs zero =
    let w = length (encode_utf8 c) in
    let front = at_boundary-append 0 (encode_utf8 c) (bytes cs) ∙ at_boundary-bytes cs in
    rw (
      boundary_below_step (encode_utf8 c ++ bytes cs) (w + 0) (w - 1)
          (omega (arith, encode_utf8_pos c)),
      front,
    )
boundary_after c cs (suc j) =
    let w = length (encode_utf8 c) in
    rw
      (
        boundary_below_step (encode_utf8 c ++ bytes cs) (w + suc j) (w + j) (omega arith),
        at_boundary-append (suc j) (encode_utf8 c) (bytes cs),
        boundary_below_step (bytes cs) (suc j) j refl,
        boundary_after c cs j,
      )
      (ground arith)

take-boundary :
    (cs : List ℕ) (room : ℕ)
    → take (boundary_below (bytes cs) room) (bytes cs) ≡ bytes (take_chars room cs)
unfolding bytes take_chars
take-boundary [] room = take-nil (boundary_below [] room)
take-boundary (c ∷ cs) room =
    let w = length (encode_utf8 c) in
    elim (Bool-cases (leb w room)) [
      | inl fits ↦
          let split : room ≡ w + (room - w) = ground arith in
          let after = boundary_after c cs (room - w) in
          rw fits (
            ap
              (λ r. take (boundary_below (encode_utf8 c ++ bytes cs) r) (encode_utf8 c ++ bytes cs))
              split
            ∙ ap (λ b. take b (encode_utf8 c ++ bytes cs)) after
            ∙ take-append (boundary_below (bytes cs) (room - w)) (encode_utf8 c) (bytes cs)
            ∙ ap (◌++◌ (encode_utf8 c)) (take-boundary cs (room - w)))
      | inr small ↦ rw (small, boundary_inside c (bytes cs) room (ground arith))
    ]

take_chars_all : (cs : List ℕ) (room : ℕ) → length (bytes cs) ≤ room → take_chars room cs ≡ cs
unfolding bytes take_chars
take_chars_all [] room h = refl
take_chars_all (c ∷ cs) room h =
    let whole = length-append (encode_utf8 c) (bytes cs) in
    ground (arith, whole, take_chars_all cs (room - length (encode_utf8 c)))

truncated : (cs : List ℕ) (n : ℕ) → truncate_utf8 (bytes cs) n ≡ bytes (take_chars n cs)
unfolding truncate_utf8
truncated cs n = elim (Bool-cases (leb (length (bytes cs)) n)) [
  | inl short ↦ rw (short, take_chars_all cs n (ground arith))
  | inr long ↦ rw long (take-boundary cs n)
]

length-take_chars : (cs : List ℕ) (room : ℕ) → length (bytes (take_chars room cs)) ≤ room
unfolding bytes take_chars
length-take_chars [] room = omega arith
length-take_chars (c ∷ cs) room =
    let w = length (encode_utf8 c) in
    let rest = take_chars (room - w) cs in
    ground (arith, length-append (encode_utf8 c) (bytes rest), length-take_chars cs (room - w))

-- Of a text, `truncate_utf8` keeps exactly the characters from the front that fit in the given number
-- of bytes: it never cuts inside a character, never drops one that fits, and stays within the number.
truncate_utf8_lem :
    (cs : List ℕ) (maximum_bytes : ℕ)
    → (truncate_utf8 (bytes cs) maximum_bytes ≡ bytes (take_chars maximum_bytes cs))
      × (length (truncate_utf8 (bytes cs) maximum_bytes) ≤ maximum_bytes)
truncate_utf8_lem cs n = let e = truncated cs n in (e, rw e (length-take_chars cs n))
