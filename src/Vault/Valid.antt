-- ===== src/Vault/Valid.antt =====
-- What holds of an unlocked vault between two operations (crates/ladon-core/src/vault.rs).
use ladon.Prelude.{
  ℕ, zero, suc, ◌+◌, ◌≤◌, ◌<◌, ◌≡◌, ◌⊎◌, inl, inr, refl, subst, ap, Bool, true, false, ◌||◌, some,
  List, [], ◌∷◌, ◌++◌, map, arith, ◌==◌, nat_eq, list_eq, contains, length, any, position,
  get_elem?, set, remove_at, All, Bool-cases, Option-cases,
}
use ladon.Prelude.Result.{Result, ok, err, LadonError}
use ladon.Prelude.Time.{u64_max}
use ladon.Model.{
  Text, Externals, SecretField, SecretRecord, SecretRef, from_parts, is_secret_name, field_names,
  max_fields_per_record, parse_secret_name,
}
use ladon.Model.Unique.{
  Unique, has_duplicate_iff, push-Unique, remove_at-Unique, set-get_elem?, map-set, map-remove_at,
  get_elem?-map,
}
use mathlib.Core.List.{map-append}
use mathlib.Core.Option.{some-injective}
use ladon.Vault.{VaultSession, find_record_index, refers}

abbrev pub record_ids : List SecretRecord → List ℕ
record_ids = map λ r. r.id

abbrev pub record_names : List SecretRecord → List Text
record_names = map λ r. r.name

-- Normalising a text twice is normalising it once, as Unicode's NFC promises.
abbrev pub IsIdempotent : Externals → Type 0
IsIdempotent ext = (t : Text) → ext.nfc (ext.nfc t) ≡ ext.nfc t

abbrev pub IsRecord : Externals → SecretRecord → Type 0
IsRecord ext r =
    (0 < length r.fields)
    × (length r.fields ≤ max_fields_per_record)
    × Unique (field_names r.fields)
    × (is_secret_name r.name ≡ true)
    × (ext.nfc r.name ≡ r.name)

pub record IsValid (ext : Externals) (records : List SecretRecord) : Type 0 where
  pub unique_ids : Unique (record_ids records)
  pub unique_names : Unique (record_names records)
  pub well_formed : All (IsRecord ext) records

-- The session after a change of its records.
abbrev pub changed : VaultSession → List SecretRecord → VaultSession
changed s rs = record s {
  payload = record (s.payload) { revision = s.payload.revision + 1; records = rs };
  activity = s.activity + 1;
}

-- An operation failed and left the session as it was, or succeeded and changed the records to ones
-- that satisfy `P`, with the next revision.
abbrev pub Updates :
    {A : Type 0} → (List SecretRecord → Type 0) → VaultSession → VaultSession × Result A → Type 0
Updates {A} P s out =
    ((e : LadonError) × (out ≡ (s, err e)))
    ⊎ ((a : A) × (rs : List SecretRecord) × P rs
        × (s.payload.revision < u64_max)
        × (out ≡ (changed s rs, ok a)))

position_found {ℓ} :
    {A : Type ℓ} (p : A → Bool) (xs : List A) (i : ℕ)
    → position p xs ≡ some i
    → (x : A) × (get_elem? xs i ≡ some x) × (p x ≡ true)
position_found p [] i h = cc
position_found p (x ∷ xs) i h = elim (Bool-cases (p x)) [
  | inl e ↦ (x, ground arith, e)
  | inr e ↦ elim (Option-cases (position p xs)) [
    | inl missing ↦ ground arith
    | inr (j, found) ↦ let (y, g, q) = position_found p xs j found in (y, ground arith, q)
  ]
]

any-names :
    (rs : List SecretRecord) (label : Text)
    → any (λ x. x.name == label) rs ≡ contains (record_names rs) label
any-names [] label = refl
any-names (r ∷ rs) label = ap (◌||◌ (r.name == label)) (any-names rs label)

pub find_record_index_found :
    (rs : List SecretRecord) (reference : SecretRef) (i : ℕ)
    → find_record_index rs reference ≡ ok i
    → (x : SecretRecord) × (get_elem? rs i ≡ some x) × (refers reference x ≡ true)
unfolding find_record_index
find_record_index_found rs reference i h = position_found (refers reference) rs i (ground arith)

module _ {A : Type 0} (P : A → Type 0) where
  push-All : (rs : List A) (r : A) → All P rs → P r → All P (rs ++ r ∷ [])
  push-All [] r h w = (w, tt)
  push-All (x ∷ rs) r h w = (h.0, push-All rs r h.1 w)

  set-All : (rs : List A) (i : ℕ) (r : A) → All P rs → P r → All P (set rs i r)
  set-All [] i r h w = tt
  set-All (x ∷ rs) zero r h w = (w, h.1)
  set-All (x ∷ rs) (suc i) r h w = (h.0, set-All rs i r h.1 w)

  remove_at-All : (rs : List A) (i : ℕ) → All P rs → All P (remove_at rs i)
  remove_at-All [] i h = tt
  remove_at-All (x ∷ rs) zero h = h.1
  remove_at-All (x ∷ rs) (suc i) h = (h.0, remove_at-All rs i h.1)

  pub All-get_elem? : (rs : List A) (i : ℕ) {x : A} → All P rs → get_elem? rs i ≡ some x → P x
  All-get_elem? [] i h g = cc
  All-get_elem? (y ∷ rs) zero {x} h g = subst P (some-injective _ _ g) h.0
  All-get_elem? (y ∷ rs) (suc i) h g = All-get_elem? rs i h.1 g

module _ (ext : Externals) where
  pub push-IsValid :
      (rs : List SecretRecord) (r : SecretRecord)
      → IsValid ext rs
      → IsRecord ext r
      → contains (record_ids rs) r.id ≡ false
      → any (λ x. x.name == r.name) rs ≡ false
      → IsValid ext (rs ++ r ∷ [])
  push-IsValid rs r v w new_id new_name = record {
    unique_ids = rw map-append (push-Unique (record_ids rs) r.id v.unique_ids new_id);
    unique_names =
        rw map-append (
          push-Unique (record_names rs) r.name v.unique_names
            (rw (← any-names rs r.name) new_name));
    well_formed = push-All (IsRecord ext) rs r v.well_formed w;
  }

  pub remove_at-IsValid :
      (rs : List SecretRecord) (i : ℕ) → IsValid ext rs → IsValid ext (remove_at rs i)
  remove_at-IsValid rs i v = record {
    unique_ids = rw map-remove_at (remove_at-Unique (record_ids rs) i v.unique_ids);
    unique_names = rw map-remove_at (remove_at-Unique (record_names rs) i v.unique_names);
    well_formed = remove_at-All (IsRecord ext) rs i v.well_formed;
  }

  pub set-IsValid :
      (rs : List SecretRecord) (i : ℕ) (x r : SecretRecord)
      → IsValid ext rs
      → get_elem? rs i ≡ some x
      → r.id ≡ x.id
      → IsRecord ext r
      → Unique (set (record_names rs) i r.name)
      → IsValid ext (set rs i r)
  set-IsValid rs i x r v g same w names = record {
    unique_ids =
        rw (map-set, same, set-get_elem? (record_ids rs) i x.id (get_elem?-map (λ y. y.id) rs i g))
          v.unique_ids;
    unique_names = rw map-set names;
    well_formed = set-All (IsRecord ext) rs i r v.well_formed w;
  }

  pub from_parts-IsRecord :
      IsIdempotent ext
      → (i : ℕ) (l : Text) (fs : List SecretField) (r : SecretRecord) → from_parts ext i l fs ≡ ok r
      → IsRecord ext r × (r.id ≡ i) × (r.fields ≡ fs) × (r.name ≡ ext.nfc l)
  unfolding from_parts parse_secret_name
  from_parts-IsRecord idem i l fs r h =
      ground (arith, (has_duplicate_iff (field_names fs)).0, idem l)
