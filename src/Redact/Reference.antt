-- ===== src/Redact/Reference.antt =====
-- What the redactor is to do, on the whole output at once: from the front, the longest pattern that
-- stands at a place is replaced (crates/ladon-core/src/redact.rs).
use ladon.Prelude.{
  ℕ, zero, suc, ◌≡◌, ◌≤◌, refl, Bool, true, false, ◌&&◌, List, [], ◌∷◌, ◌++◌, ltb, ◌==◌, nat_eq,
  ◌≢◌, if◌then◌else◌, drop, length, All, arith, Bool-cases, inl, inr,
}
use ladon.Redact.Utf8.{Bytes}

unfoldable pub is_prefix : Bytes → Bytes → Bool
is_prefix [] bs = true
is_prefix (x ∷ xs) [] = false
is_prefix (x ∷ xs) (b ∷ bs) = x == b && is_prefix xs bs

unfoldable pub longest_at : List Bytes → Bytes → ℕ
unfolding is_prefix
longest_at [] bs = 0
longest_at (p ∷ ps) bs =
    let n = longest_at ps bs in if is_prefix p bs && ltb n (length p) then length p else n

-- The redacted bytes and the number of redactions; the first argument counts the bytes of the pattern
-- that is being replaced.
unfoldable pub redact_from : List Bytes → Bytes → ℕ → Bytes → Bytes × ℕ
unfolding longest_at
redact_from patterns marker skip [] = ([], 0)
redact_from patterns marker (suc k) (b ∷ bs) = redact_from patterns marker k bs
redact_from patterns marker zero (b ∷ bs) = elim (longest_at patterns (b ∷ bs)) [
  | zero ↦ let (out, n) = redact_from patterns marker zero bs in (b ∷ out, n)
  | suc k ↦ let (out, n) = redact_from patterns marker k bs in (marker ++ out, suc n)
]

unfoldable pub redact : List Bytes → Bytes → Bytes → Bytes × ℕ
unfolding redact_from
redact patterns marker bytes = redact_from patterns marker zero bytes

pub is_prefix-length : (p bs : Bytes) → is_prefix p bs ≡ true → length p ≤ length bs
unfolding is_prefix
is_prefix-length [] bs h = omega arith
is_prefix-length (x ∷ xs) [] h = cc
is_prefix-length (x ∷ xs) (b ∷ bs) h = ground (arith, is_prefix-length xs bs)

-- A pattern that could stand at the front already does, or does not.
pub is_prefix-append :
    (p bs later : Bytes) → length p ≤ length bs → is_prefix p (bs ++ later) ≡ is_prefix p bs
unfolding is_prefix
is_prefix-append [] bs later h = refl
is_prefix-append (x ∷ xs) [] later h = absurd (omega arith)
is_prefix-append (x ∷ xs) (b ∷ bs) later h = ground (arith, is_prefix-append xs bs later)

pub longest_at-append :
    (ps : List Bytes) (bs later : Bytes)
    → All (λ p. length p ≤ length bs) ps
    → longest_at ps (bs ++ later) ≡ longest_at ps bs
unfolding longest_at
longest_at-append [] bs later h = refl
longest_at-append (p ∷ ps) bs later (h, hs) =
    ground (arith, longest_at-append ps bs later hs, is_prefix-append p bs later h)

-- The longest pattern at the front is as long as any, and no longer than all.
pub longest_at_bound :
    (ps : List Bytes) (bs : Bytes) (n : ℕ)
    → All (λ p. is_prefix p bs ≡ true → length p ≤ n) ps
    → longest_at ps bs ≤ n
unfolding longest_at
longest_at_bound [] bs n h = omega arith
longest_at_bound (p ∷ ps) bs n (h, hs) = elim (Bool-cases (is_prefix p bs)) [
  | inl e ↦ ground (arith, longest_at_bound ps bs n hs, h e)
  | inr e ↦ ground (arith, longest_at_bound ps bs n hs)
]

pub All-map {ℓ κ μ} :
    {A : Type ℓ} {P : A → Type κ} {Q : A → Type μ} (xs : List A)
    → ((x : A) → P x → Q x)
    → All P xs
    → All Q xs
All-map [] f h = tt
All-map (x ∷ xs) f (h, hs) = (f x h, All-map xs f hs)

pub longest_at_members :
    (ps : List Bytes) (bs : Bytes)
    → All (λ p. is_prefix p bs ≡ true → length p ≤ longest_at ps bs) ps
unfolding longest_at
longest_at_members [] bs = tt
longest_at_members (p ∷ ps) bs =
    (λ e. ground arith, All-map ps (λ q h e. ground (arith, h e)) (longest_at_members ps bs))

-- Bytes that are skipped.
pub redact_from-drop :
    (ps : List Bytes) (marker : Bytes) (k : ℕ) (bs : Bytes)
    → redact_from ps marker k bs ≡ redact ps marker (drop k bs)
unfolding redact redact_from
redact_from-drop ps marker zero bs = refl
redact_from-drop ps marker (suc k) [] = refl
redact_from-drop ps marker (suc k) (b ∷ bs) = redact_from-drop ps marker k bs

-- A byte at which no pattern stands is kept.
pub redact_byte :
    (ps : List Bytes) (marker : Bytes) (b : ℕ) (bs : Bytes)
    → longest_at ps (b ∷ bs) ≡ 0
    → redact ps marker (b ∷ bs) ≡ (b ∷ (redact ps marker bs).0, (redact ps marker bs).1)
unfolding redact redact_from
redact_byte ps marker b bs h = ground arith

pub redact_pattern :
    (ps : List Bytes) (marker : Bytes) (bs : Bytes) (k : ℕ)
    → longest_at ps bs ≡ suc k
    → length bs ≢ 0
    → redact ps marker bs ≡ (
      marker ++ (redact ps marker (drop (suc k) bs)).0,
      suc (redact ps marker (drop (suc k) bs)).1,
    )
unfolding redact redact_from
redact_pattern ps marker [] k h nonempty = absurd (omega arith)
redact_pattern ps marker (b ∷ bs) k h nonempty = ground (arith, redact_from-drop ps marker k bs)
