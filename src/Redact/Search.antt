-- ===== src/Redact/Search.antt =====
-- `find_next` (crates/ladon-core/src/redact.rs) finds the first place of a pattern, and the longest there.
use ladon.Prelude.{
  ℕ, ◌+◌, ◌-◌, ◌≡◌, ◌≤◌, ◌<◌, refl, Bool, true, false, ◌&&◌, ◌||◌, Option, none, some, List, [],
  ◌∷◌, ltb, leb, ◌==◌, nat_eq, drop, length, All, arith, Bool-cases, inl, inr, drop-drop, ap, ◌∙◌,
  sym,
}
use ladon.Redact.Utf8.{Bytes}
use ladon.Redact.Patterns.{Externals}
use ladon.Redact.Stream.{improve, consider, find_from, find_next}
use ladon.Redact.Reference.{
  is_prefix, longest_at, is_prefix-length, longest_at_bound, longest_at_members, All-map,
}

-- The documented behaviour of `memmem::find`: the first place at which the needle stands.
pub record IsSearch (find : Bytes → Bytes → Option ℕ) : Type 0 where
  pub found :
      (haystack needle : Bytes) (i : ℕ)
      → find haystack needle ≡ some i
      → is_prefix needle (drop i haystack) ≡ true
  pub first :
      (haystack needle : Bytes) (i j : ℕ)
      → find haystack needle ≡ some i
      → j < i
      → is_prefix needle (drop j haystack) ≡ false
  pub nowhere :
      (haystack needle : Bytes) (j : ℕ)
      → find haystack needle ≡ none
      → is_prefix needle (drop j haystack) ≡ false

-- A result is at least as good as a pattern of that length at that place.
abbrev pub beats : Option (ℕ × Bytes) → ℕ → ℕ → Bool
beats none i n = false
beats (some (s, q)) i n = ltb s i || (s == i && leb n (length q))

module _ (ext : Externals) (search : IsSearch ext.find) (patterns : List Bytes) (buffer : Bytes)
    (position safe_end : ℕ) where
  -- A result is a pattern in the range.
  abbrev IsPlace : Option (ℕ × Bytes) → Type 0
  IsPlace none = Unit
  IsPlace (some (s, q)) =
      (position ≤ s)
      × (s < safe_end)
      × (0 < length q)
      × (is_prefix q (drop s buffer) ≡ true)
      × (length q ≤ longest_at patterns (drop s buffer))

  -- What is known of each pattern.
  abbrev IsPattern : Bytes → Type 0
  IsPattern p =
      (0 < length p) × ((bs : Bytes) → is_prefix p bs ≡ true → length p ≤ longest_at patterns bs)

  abbrev Covers : Option (ℕ × Bytes) → Bytes → Type 0
  Covers r p =
      (i : ℕ)
      → position ≤ i
      → i < safe_end
      → is_prefix p (drop i buffer) ≡ true
      → beats r i (length p) ≡ true

  improve-beats :
      (s : ℕ) (p : Bytes) (best : Option (ℕ × Bytes)) (i n : ℕ)
      → beats best i n ≡ true
      → beats (improve ext s p best) i n ≡ true
  improve-beats s p none i n h = cc
  improve-beats s p (some (t, q)) i n h = ground arith

  improved :
      (s : ℕ) (p : Bytes) (best : Option (ℕ × Bytes))
      → beats (improve ext s p best) s (length p) ≡ true
  improved s p none = ground arith
  improved s p (some (t, q)) = ground arith

  later_beats :
      (r : Option (ℕ × Bytes)) (s i n : ℕ) → beats r s n ≡ true → s ≤ i → beats r i n ≡ true
  later_beats none s i n h k = cc
  later_beats (some (t, q)) s i n h k = ground arith

  shifted :
      (p : Bytes) (i : ℕ)
      → position ≤ i
      → is_prefix p (drop (i - position) (drop position buffer)) ≡ is_prefix p (drop i buffer)
  shifted p i h =
      ap (is_prefix p)
        (drop-drop (i - position) position buffer ∙ ap (λ k. drop k buffer) (omega arith))

  consider-beats :
      (p : Bytes) (found : Option ℕ) (best : Option (ℕ × Bytes)) (i n : ℕ)
      → beats best i n ≡ true
      → beats (consider ext position safe_end p found best) i n ≡ true
  consider-beats p none best i n h = h
  consider-beats p (some k) best i n h = elim (Bool-cases (ltb (position + k) safe_end)) [
    | inl e ↦ rw e (improve-beats (position + k) p best i n h)
    | inr e ↦ rw e h
  ]

  consider-Covers :
      (p : Bytes) (best : Option (ℕ × Bytes)) (found : Option ℕ)
      → ext.find (drop position buffer) p ≡ found
      → Covers (consider ext position safe_end p found best) p
  consider-Covers p best none e i low high h =
      let n = search.nowhere (drop position buffer) p (i - position) e in
      ground (arith, shifted p i low)
  consider-Covers p best (some k) e i low high h = elim (Bool-cases (ltb i (position + k))) [
    | inl early ↦
        let n = search.first (drop position buffer) p k (i - position) e (ground arith) in
        ground (arith, shifted p i low)
    | inr late ↦ elim (Bool-cases (ltb (position + k) safe_end)) [
      | inl inside ↦ rw inside (
          later_beats (improve ext (position + k) p best) (position + k) i (length p)
            (improved (position + k) p best) (ground arith))
      | inr outside ↦ absurd (ground arith)
    ]
  ]

  consider-IsPlace :
      (p : Bytes) (best : Option (ℕ × Bytes)) (found : Option ℕ)
      → ext.find (drop position buffer) p ≡ found
      → IsPattern p
      → IsPlace best
      → IsPlace (consider ext position safe_end p found best)
  consider-IsPlace p best none e pattern place = place
  consider-IsPlace p best (some k) e (nonempty, member) place =
      let h = search.found (drop position buffer) p k e in
      let s : is_prefix p (drop (position + k) buffer) ≡ true =
        sym (ap (is_prefix p) (drop-drop k position buffer)) ∙ h in
      elim (Bool-cases (ltb (position + k) safe_end)) [
        | inl inside ↦ rw inside (
            improved_place best place
              (omega arith, ground arith, nonempty, s, member (drop (position + k) buffer) s))
        | inr outside ↦ rw outside place
      ]
    where
      improved_place :
          (best : Option (ℕ × Bytes))
          → IsPlace best
          → IsPlace (some (position + k, p))
          → IsPlace (improve ext (position + k) p best)
      improved_place none place new = new
      improved_place (some (t, q)) place new =
          elim (Bool-cases
            (ltb (position + k) t || (position + k == t && ltb (length q) (length p)))) [
              | inl e ↦ rw e new
              | inr e ↦ rw e place
            ]

  find_from-beats :
      (ps : List Bytes) (best : Option (ℕ × Bytes)) (i n : ℕ)
      → beats best i n ≡ true
      → beats (find_from ext buffer position safe_end ps best) i n ≡ true
  unfolding find_from
  find_from-beats [] best i n h = h
  find_from-beats (p ∷ ps) best i n h =
      find_from-beats ps _ i n (consider-beats p (ext.find (drop position buffer) p) best i n h)

  find_from-IsPlace :
      (ps : List Bytes) (best : Option (ℕ × Bytes))
      → All IsPattern ps
      → IsPlace best
      → IsPlace (find_from ext buffer position safe_end ps best)
  unfolding find_from
  find_from-IsPlace [] best hs place = place
  find_from-IsPlace (p ∷ ps) best (h, hs) place =
      find_from-IsPlace ps _ hs (consider-IsPlace p best _ refl h place)

  find_from-Covers :
      (ps : List Bytes) (best : Option (ℕ × Bytes))
      → All (Covers (find_from ext buffer position safe_end ps best)) ps
  unfolding find_from
  find_from-Covers [] best = tt
  find_from-Covers (p ∷ ps) best =
      let here = consider-Covers p best _ refl in
      (λ i low high h. find_from-beats ps _ i (length p) (here i low high h), find_from-Covers ps _)

  -- Where nothing beats it, no pattern stands.
  not_beaten :
      (r : Option (ℕ × Bytes)) (i : ℕ) (ps : List Bytes)
      → ((n : ℕ) → beats r i n ≡ false)
      → position ≤ i
      → i < safe_end
      → All (Covers r) ps
      → All (λ p. is_prefix p (drop i buffer) ≡ true → length p ≤ 0) ps
  not_beaten r i ps loses low high covers =
      All-map ps (λ p c h. let yes_beats = c i low high h in let no_beats = loses (length p) in cc)
        covers

  -- What `find_next` says of the places from `position` to `safe_end`.
  abbrev pub Found : Option (ℕ × Bytes) → Type 0
  Found none = (i : ℕ) → position ≤ i → i < safe_end → longest_at patterns (drop i buffer) ≡ 0
  Found (some (s, q)) =
      (position ≤ s)
      × (s < safe_end)
      × (0 < length q)
      × (longest_at patterns (drop s buffer) ≡ length q)
      × (length q ≤ length (drop s buffer))
      × ((i : ℕ) → position ≤ i → i < s → longest_at patterns (drop i buffer) ≡ 0)

  found_lem : (r : Option (ℕ × Bytes)) → IsPlace r → All (Covers r) patterns → Found r
  found_lem none place covers = λ i low high.
      let b =
        longest_at_bound patterns (drop i buffer) 0
          (not_beaten none i patterns (λ n. refl) low high covers) in
      omega arith
  found_lem (some (s, q)) (low, high, nonempty, prefix, member) covers =
      let at_s =
        longest_at_bound patterns (drop s buffer) (length q)
          (All-map patterns (λ p c h. let b = c s low high h in ground arith) covers) in
      (
        low,
        high,
        nonempty,
        omega arith,
        is_prefix-length q (drop s buffer) prefix,
        λ i from below.
            let b =
              longest_at_bound patterns (drop i buffer) 0 (
                not_beaten (some (s, q)) i patterns (λ n. ground arith) from (omega arith)
                  covers) in
            omega arith,
      )

  -- `find_next` finds the first place of a pattern in its range and the longest pattern there, or none
  -- stands in the range.
  pub find_next_lem :
      All (λ p. 0 < length p) patterns → Found (find_next ext buffer position safe_end patterns)
  unfolding find_next
  find_next_lem nonempty =
      found_lem _
        (find_from-IsPlace patterns none
          (members patterns patterns nonempty (λ bs. longest_at_members patterns bs)) tt)
        (find_from-Covers patterns none)
    where
      members :
          (qs ps : List Bytes)
          → All (λ p. 0 < length p) ps
          → ((bs : Bytes) → All (λ p. is_prefix p bs ≡ true → length p ≤ longest_at qs bs) ps)
          → All
              (λ p.
                (0 < length p)
                × ((bs : Bytes) → is_prefix p bs ≡ true → length p ≤ longest_at qs bs))
              ps
      members qs [] n h = tt
      members qs (p ∷ ps) (n, ns) h = ((n, λ bs. (h bs).0), members qs ps ns (λ bs. (h bs).1))
