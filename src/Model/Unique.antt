-- ===== src/Model/Unique.antt =====
-- Lists with no element twice: what the sets of crates/ladon-core/src/model.rs and codec.rs check, and
-- how it fares under the changes of a list.
use ladon.Prelude.{
  ℕ, zero, suc, ◌+◌, ◌<◌, ◌≡◌, ◌↔◌, refl, ap, Bool, false, not, ◌&&◌, ◌||◌, some, List, [], ◌∷◌,
  ◌++◌, map, arith, ◌==◌, nat_eq, PartialEq, contains, set, remove_at, get_elem?,
}
use ladon.Model.{has_duplicate}

module _ {ℓ} {A : Type ℓ} ⦃e : PartialEq A⦄ where
  abbrev pub Unique : List A → Type 0
  Unique [] = Unit
  Unique (x ∷ xs) = (contains xs x ≡ false) × Unique xs

  abbrev pub Disjoint : List A → List A → Type 0
  Disjoint seen [] = Unit
  Disjoint seen (x ∷ xs) = (contains seen x ≡ false) × Disjoint seen xs

  Disjoint-cons :
      (y : A) (seen xs : List A) → contains xs y ≡ false → Disjoint seen xs → Disjoint (y ∷ seen) xs
  Disjoint-cons y seen [] n d = tt
  Disjoint-cons y seen (x ∷ xs) n d =
      ground (arith, e.eq_iff x y, e.eq_iff y x, Disjoint-cons y seen xs)

  pub Disjoint-uncons :
      (y : A) (seen xs : List A)
      → Disjoint (y ∷ seen) xs
      → (contains xs y ≡ false) × Disjoint seen xs
  Disjoint-uncons y seen [] d = (refl, tt)
  Disjoint-uncons y seen (x ∷ xs) d =
      ground (arith, e.eq_iff x y, e.eq_iff y x, Disjoint-uncons y seen xs d.1)

  has_duplicate-Unique :
      (seen xs : List A) → has_duplicate seen xs ≡ false → Unique xs × Disjoint seen xs
  unfolding has_duplicate
  has_duplicate-Unique seen [] h = (tt, tt)
  has_duplicate-Unique seen (x ∷ xs) h =
      let (u, d) = has_duplicate-Unique (x ∷ seen) xs (ground arith) in
      let (n, d') = Disjoint-uncons x seen xs d in ((n, u), (ground arith, d'))

  has_duplicate_of_Unique :
      (seen xs : List A) → Unique xs → Disjoint seen xs → has_duplicate seen xs ≡ false
  unfolding has_duplicate
  has_duplicate_of_Unique seen [] u d = refl
  has_duplicate_of_Unique seen (x ∷ xs) u d =
      ground (arith, Disjoint-cons x seen xs u.0 d.1, has_duplicate_of_Unique (x ∷ seen) xs u.1)

  Disjoint-nil : (xs : List A) → Disjoint [] xs
  Disjoint-nil [] = tt
  Disjoint-nil (x ∷ xs) = (refl, Disjoint-nil xs)

  pub has_duplicate_iff : (xs : List A) → (has_duplicate [] xs ≡ false) ↔ Unique xs
  has_duplicate_iff xs = (
    λ h. (has_duplicate-Unique [] xs h).0,
    λ u. has_duplicate_of_Unique [] xs u (Disjoint-nil xs),
  )

  contains-append :
      (xs ys : List A) (a : A) → contains (xs ++ ys) a ≡ (contains xs a || contains ys a)
  contains-append [] ys a = refl
  contains-append (x ∷ xs) ys a = ground (arith, contains-append xs ys a)

  pub push-Unique :
      (xs : List A) (a : A) → Unique xs → contains xs a ≡ false → Unique (xs ++ a ∷ [])
  push-Unique [] a u n = (refl, tt)
  push-Unique (x ∷ xs) a u n =
      ground
        (arith, push-Unique xs a u.1, contains-append xs (a ∷ []) x, e.eq_iff x a, e.eq_iff a x)

  contains-remove_at :
      (xs : List A) (i : ℕ) (a : A) → contains xs a ≡ false → contains (remove_at xs i) a ≡ false
  contains-remove_at [] i a n = refl
  contains-remove_at (x ∷ xs) zero a n = ground arith
  contains-remove_at (x ∷ xs) (suc i) a n = ground (arith, contains-remove_at xs i a)

  pub remove_at-Unique : (xs : List A) (i : ℕ) → Unique xs → Unique (remove_at xs i)
  remove_at-Unique [] i u = tt
  remove_at-Unique (x ∷ xs) zero u = u.1
  remove_at-Unique (x ∷ xs) (suc i) u = (contains-remove_at xs i x u.0, remove_at-Unique xs i u.1)

  -- `iter().enumerate().any(|(index, x)| index != target && x == a)`, from a first index on.
  abbrev pub elsewhere : ℕ → ℕ → List A → A → Bool
  elsewhere i target [] a = false
  elsewhere i target (x ∷ xs) a = (not (i == target) && x == a) || elsewhere (suc i) target xs a

  elsewhere_past :
      (i target : ℕ) (xs : List A) (a : A) → target < i → elsewhere i target xs a ≡ contains xs a
  elsewhere_past i target [] a h = refl
  elsewhere_past i target (x ∷ xs) a h =
      ground (arith, elsewhere_past (suc i) target xs a (omega arith))

  contains-set :
      (xs : List A) (k : ℕ) (a x : A)
      → contains xs x ≡ false
      → a == x ≡ false
      → contains (set xs k a) x ≡ false
  contains-set [] k a x n d = refl
  contains-set (y ∷ xs) zero a x n d = ground arith
  contains-set (y ∷ xs) (suc k) a x n d = ground (arith, contains-set xs k a x)

  set-Unique_from :
      (i k target : ℕ) (xs : List A) (a : A)
      → target ≡ i + k
      → Unique xs
      → elsewhere i target xs a ≡ false
      → Unique (set xs k a)
  set-Unique_from i k target [] a t u n = tt
  set-Unique_from i zero target (x ∷ xs) a t u n =
      ground (arith, elsewhere_past (suc i) target xs a (omega arith))
  set-Unique_from i (suc k) target (x ∷ xs) a t u n = ground (
    arith,
    set-Unique_from (suc i) k target xs a (omega arith) u.1,
    contains-set xs k a x u.0,
    e.eq_iff x a,
    e.eq_iff a x,
  )

  pub set-Unique :
      (k : ℕ) (xs : List A) (a : A) → Unique xs → elsewhere 0 k xs a ≡ false → Unique (set xs k a)
  set-Unique k xs a u n = set-Unique_from 0 k k xs a (omega arith) u n

module _ {ℓ} {A : Type ℓ} where
  pub set-get_elem? : (xs : List A) (k : ℕ) (a : A) → get_elem? xs k ≡ some a → set xs k a ≡ xs
  set-get_elem? [] k a h = refl
  set-get_elem? (x ∷ xs) zero a h = ground arith
  set-get_elem? (x ∷ xs) (suc k) a h = ap (◌∷◌ x) (set-get_elem? xs k a h)

  pub map-set {κ} :
      {B : Type κ} (f : A → B) (xs : List A) (k : ℕ) (a : A)
      → map f (set xs k a) ≡ set (map f xs) k (f a)
  map-set f [] k a = refl
  map-set f (x ∷ xs) zero a = refl
  map-set f (x ∷ xs) (suc k) a = ap (◌∷◌ (f x)) (map-set f xs k a)

  pub map-remove_at {κ} :
      {B : Type κ} (f : A → B) (xs : List A) (k : ℕ)
      → map f (remove_at xs k) ≡ remove_at (map f xs) k
  map-remove_at f [] k = refl
  map-remove_at f (x ∷ xs) zero = refl
  map-remove_at f (x ∷ xs) (suc k) = ap (◌∷◌ (f x)) (map-remove_at f xs k)

  pub get_elem?-map {κ} :
      {B : Type κ} (f : A → B) (xs : List A) (k : ℕ) {a : A}
      → get_elem? xs k ≡ some a
      → get_elem? (map f xs) k ≡ some (f a)
  get_elem?-map f [] k h = cc
  get_elem?-map f (x ∷ xs) zero h = ground arith
  get_elem?-map f (x ∷ xs) (suc k) h = get_elem?-map f xs k h
