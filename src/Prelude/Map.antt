-- ===== src/Prelude/Map.antt =====
-- `HashMap` as an association list, and `HashSet` as a list. The order of iteration, which Rust
-- leaves open, is that of the list; no theorem depends on it.
use mathlib.Core.Path.{◌≡◌, refl}
use mathlib.Core.Bool.{Bool, false, ◌||◌}
use mathlib.Core.List.{List, [], ◌∷◌}
use mathlib.Core.Option.{Option, none, some}
use native.Mathlib.Omega.{arith}
use ladon.Prelude.Tests.{if◌then◌else◌, is_some, keep_if}
use ladon.Prelude.Eq.{PartialEq, ◌==◌}
use ladon.Prelude.Lists.{keep}

abbrev pub Map {ℓ κ} : Type ℓ → Type κ → Type (ℓ ⊔ κ)
Map K V = List (K × V)

module _ {ℓ κ} {K : Type ℓ} {V : Type κ} ⦃e : PartialEq K⦄ where
  unfoldable pub get : K → Map K V → Option V
  get k [] = none
  get k ((j, v) ∷ m) = let rest = get k m in if j == k then some v else rest

  unfoldable pub contains_key : K → Map K V → Bool
  contains_key k [] = false
  contains_key k ((j, v) ∷ m) = j == k || contains_key k m

  unfoldable pub insert : K → V → Map K V → Map K V
  insert k v [] = (k, v) ∷ []
  insert k v ((j, w) ∷ m) = let rest = insert k v m in if j == k then (k, v) ∷ m else (j, w) ∷ rest

  unfoldable pub remove : K → Map K V → Map K V
  remove k [] = []
  remove k ((j, v) ∷ m) = let rest = remove k m in if j == k then m else (j, v) ∷ rest

  abbrev pub test : (K → V → Bool) → K × V → Bool
  test p (k, v) = p k v

  unfoldable pub retain : (K → V → Bool) → Map K V → Map K V
  retain p m = keep (test p) m

  -- No two entries have one key.
  abbrev pub Distinct : Map K V → Type 0
  Distinct [] = Unit
  Distinct ((k, v) ∷ m) = (contains_key k m ≡ false) × Distinct m

  pub get-insert :
      (k j : K) (v : V) (m : Map K V) → get j (insert k v m) ≡ (if k == j then some v else get j m)
  unfolding get insert
  get-insert k j v [] = refl
  get-insert k j v ((i, w) ∷ m) =
      ground (arith, get-insert k j v m, e.eq_iff k j, e.eq_iff i k, e.eq_iff i j)

  pub contains_key-get : (k : K) (m : Map K V) → contains_key k m ≡ is_some (get k m)
  unfolding get contains_key
  contains_key-get k [] = refl
  contains_key-get k ((j, v) ∷ m) = ground (arith, contains_key-get k m)

  pub contains_key-insert :
      (k j : K) (v : V) (m : Map K V) → contains_key j (insert k v m) ≡ (k == j || contains_key j m)
  unfolding contains_key insert
  contains_key-insert k j v [] = refl
  contains_key-insert k j v ((i, w) ∷ m) =
      ground (arith, contains_key-insert k j v m, e.eq_iff k j, e.eq_iff i k, e.eq_iff i j)

  pub insert-Distinct : (k : K) (v : V) (m : Map K V) → Distinct m → Distinct (insert k v m)
  unfolding contains_key insert
  insert-Distinct k v [] d = (refl, tt)
  insert-Distinct k v ((i, w) ∷ m) d =
      ground
        (arith, insert-Distinct k v m d.1, contains_key-insert k i v m, e.eq_iff i k, e.eq_iff k i)

  pub get_absent : (k : K) (m : Map K V) → contains_key k m ≡ false → get k m ≡ none
  unfolding get contains_key
  get_absent k [] h = refl
  get_absent k ((j, v) ∷ m) h = ground (arith, get_absent k m)

  pub get-remove :
      (k j : K) (m : Map K V) → Distinct m → get j (remove k m) ≡ (if k == j then none else get j m)
  unfolding get remove
  get-remove k j [] d = ground arith
  get-remove k j ((i, w) ∷ m) d =
      ground
        (arith, get-remove k j m d.1, get_absent i m d.0, e.eq_iff k j, e.eq_iff i k, e.eq_iff i j)

  contains_key-remove :
      (k j : K) (m : Map K V) → contains_key j m ≡ false → contains_key j (remove k m) ≡ false
  unfolding contains_key remove
  contains_key-remove k j [] h = refl
  contains_key-remove k j ((i, w) ∷ m) h = ground (arith, contains_key-remove k j m)

  pub remove-Distinct : (k : K) (m : Map K V) → Distinct m → Distinct (remove k m)
  unfolding remove
  remove-Distinct k [] d = tt
  remove-Distinct k ((i, w) ∷ m) d =
      ground (arith, remove-Distinct k m d.1, contains_key-remove k i m d.0)

  contains_key-retain :
      (p : K → V → Bool) (j : K) (m : Map K V)
      → contains_key j m ≡ false
      → contains_key j (retain p m) ≡ false
  unfolding contains_key retain
  contains_key-retain p j [] h = refl
  contains_key-retain p j ((i, w) ∷ m) h = ground (arith, contains_key-retain p j m)

  pub retain-Distinct : (p : K → V → Bool) (m : Map K V) → Distinct m → Distinct (retain p m)
  unfolding retain
  retain-Distinct p [] d = tt
  retain-Distinct p ((i, w) ∷ m) d =
      ground (arith, retain-Distinct p m d.1, contains_key-retain p i m d.0)

  pub get-retain :
      (p : K → V → Bool) (k : K) (m : Map K V)
      → Distinct m
      → get k (retain p m) ≡ keep_if (p k) (get k m)
  unfolding get retain
  get-retain p k [] d = refl
  get-retain p k ((i, w) ∷ m) d =
      ground (arith, get-retain p k m d.1, get_absent i m d.0, e.eq_iff i k)

  pub get_of_retain :
      (p : K → V → Bool) (k : K) (m : Map K V) {v : V}
      → Distinct m
      → get k (retain p m) ≡ some v
      → get k m ≡ some v
  get_of_retain p k m d h = ground (arith, get-retain p k m d)

  pub get_of_remove :
      (k j : K) (m : Map K V) {v : V} → Distinct m → get j (remove k m) ≡ some v → get j m ≡ some v
  get_of_remove k j m d h = ground (arith, get-remove k j m d)
