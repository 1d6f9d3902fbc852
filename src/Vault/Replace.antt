-- ===== src/Vault/Replace.antt =====
-- A prepared replacement is applied only to the records that it was prepared for
-- (crates/ladon-core/src/vault.rs).
use ladon.Prelude.{
  ℕ, zero, suc, ◌+◌, ◌≡◌, ◌≢◌, ◌⊎◌, inl, inr, refl, sym, ◌∙◌, true, false, some, List, [], ◌∷◌,
  arith, leb, ◌==◌, nat_eq, list_eq, contains, position, get_elem?, set, Bool-cases, nat_beq_iff,
}
use ladon.Prelude.Result.{ok, err, revision_overflow, invalid_request, Result-cases}
use ladon.Prelude.Time.{u64_max}
use ladon.Model.{Text, Externals, SecretField, SecretRecord, SecretRef, from_parts}
use ladon.Model.Unique.{Unique, set-Unique, get_elem?-map}
use ladon.Vault.{
  VaultSession, PreparedRecordReplacement, increment_revision, find_record_index, name_taken,
  apply_record_replacement, prepare_record_replacement, refers,
}
use ladon.Vault.Valid.{
  IsIdempotent, IsRecord, IsValid, record_ids, record_names, Updates, find_record_index_found,
  set-IsValid, from_parts-IsRecord,
}
use ladon.Vault.Operations.{Operation, run, run-Advances}

-- The replacement fits the record at its place.
pub record Fits (ext : Externals) (p : PreparedRecordReplacement) (rs : List SecretRecord)
    : Type 0 where
  pub kept_id : p.replacement.id ≡ p.target_id
  pub well_formed : IsRecord ext p.replacement
  pub unique_names :
      (i : ℕ)
      → find_record_index rs (SecretRef.id p.target_id) ≡ ok i
      → Unique (set (record_names rs) i p.replacement.name)

contains-get_elem? : (xs : List ℕ) (t : ℕ) (a : ℕ) → get_elem? xs t ≡ some a → contains xs a ≡ true
contains-get_elem? [] t a g = cc
contains-get_elem? (x ∷ xs) zero a g = ground arith
contains-get_elem? (x ∷ xs) (suc t) a g = ground (arith, contains-get_elem? xs t a)

position_by_id :
    (rs : List SecretRecord) (t : ℕ) (x : SecretRecord)
    → Unique (record_ids rs)
    → get_elem? rs t ≡ some x
    → position (refers (SecretRef.id x.id)) rs ≡ some t
unfolding refers
position_by_id [] t x u g = cc
position_by_id (r ∷ rs) zero x u g = ground arith
position_by_id (r ∷ rs) (suc t) x u g = ground (
  arith,
  position_by_id rs t x u.1,
  contains-get_elem? (record_ids rs) t x.id (get_elem?-map (λ y. y.id) rs t g),
)

find_by_id :
    (rs : List SecretRecord) (i t : ℕ) (x : SecretRecord)
    → Unique (record_ids rs)
    → get_elem? rs t ≡ some x
    → find_record_index rs (SecretRef.id x.id) ≡ ok i
    → i ≡ t
unfolding find_record_index
find_by_id rs i t x u g h = ground (arith, position_by_id rs t x u g)

abbrev prepared_for : VaultSession → SecretRecord → SecretRecord → PreparedRecordReplacement
prepared_for s x r = record {
  expected_revision = s.payload.revision;
  target_id = x.id;
  replacement = r;
}

prepared_for-Fits :
    (ext : Externals) (s : VaultSession) (t : ℕ) (x r : SecretRecord) (fields : List SecretField)
    (new_name : Text)
    → IsIdempotent ext
    → IsValid ext s.payload.records
    → get_elem? s.payload.records t ≡ some x
    → from_parts ext x.id new_name fields ≡ ok r
    → name_taken t s.payload.records r.name ≡ false
    → Fits ext (prepared_for s x r) s.payload.records
unfolding name_taken
prepared_for-Fits ext s t x r fields new_name idem v g built free =
    let rs = s.payload.records in
    let (w, same, _, _) = from_parts-IsRecord ext idem x.id new_name fields r built in
    record {
      kept_id = same;
      well_formed = w;
      unique_names = λ i at.
          rw (find_by_id rs i t x v.unique_ids g at)
            (set-Unique t (record_names rs) r.name v.unique_names free);
    }

prepare-Fits :
    (ext : Externals) (s : VaultSession) (reference : SecretRef) (new_name : Text)
    (fields : List SecretField) (p : PreparedRecordReplacement)
    → IsIdempotent ext
    → IsValid ext s.payload.records
    → prepare_record_replacement ext s reference new_name fields ≡ ok p
    → (p.expected_revision ≡ s.payload.revision) × Fits ext p s.payload.records
unfolding prepare_record_replacement name_taken
prepare-Fits ext s reference new_name fields p idem v h =
    let rs = s.payload.records in
    elim (Result-cases (find_record_index rs reference)) [
      | inr (e, failed) ↦ ground arith
      | inl (t, found) ↦
          let (x, g, _) = find_record_index_found rs reference t found in
          elim (Result-cases (from_parts ext x.id new_name fields)) [
            | inr (e, failed) ↦ ground arith
            | inl (r, built) ↦ elim (Bool-cases (name_taken t rs r.name)) [
              | inl taken ↦ ground arith
              | inr free ↦
                  let made : p ≡ prepared_for s x r = ground arith in
                  rw made (refl, prepared_for-Fits ext s t x r fields new_name idem v g built free)
            ]
          ]
    ]

apply-Updates :
    (ext : Externals) (p : PreparedRecordReplacement) (s : VaultSession)
    → IsValid ext s.payload.records
    → Fits ext p s.payload.records
    → Updates (IsValid ext) s (apply_record_replacement p s)
unfolding apply_record_replacement increment_revision refers
apply-Updates ext p s v f =
    let rs = s.payload.records in
    elim (Bool-cases (s.payload.revision == p.expected_revision)) [
      | inr stale ↦ inl (invalid_request, ground arith)
      | inl current ↦ elim (Result-cases (find_record_index rs (SecretRef.id p.target_id))) [
        | inr (e, failed) ↦ inl (e, ground arith)
        | inl (i, found) ↦ elim (Bool-cases (leb (s.payload.revision + 1) u64_max)) [
          | inr full ↦ inl (revision_overflow, ground arith)
          | inl room ↦
              let (x, g, is) = find_record_index_found rs (SecretRef.id p.target_id) i found in
              let same = f.kept_id ∙ sym ((nat_beq_iff x.id p.target_id).0 is) in
              let valid =
                set-IsValid ext rs i x p.replacement v g same f.well_formed
                  (f.unique_names i found) in
              inr (tt, set rs i p.replacement, valid, ground arith, ground arith)
        ]
      ]
    ]

stale :
    (p : PreparedRecordReplacement) (s : VaultSession)
    → p.expected_revision ≢ s.payload.revision
    → apply_record_replacement p s ≡ (s, err invalid_request)
unfolding apply_record_replacement
stale p s h = ground arith

-- A replacement that was prepared on a valid vault, and is applied after any other operations on the
-- session: it is refused and changes nothing, or the vault is the one that it was prepared on and
-- becomes a valid one with the next revision.
pub replacement-Updates :
    (ext : Externals) (s : VaultSession) (reference : SecretRef) (new_name : Text)
    (fields : List SecretField) (p : PreparedRecordReplacement) (os : List Operation)
    → IsIdempotent ext
    → IsValid ext s.payload.records
    → prepare_record_replacement ext s reference new_name fields ≡ ok p
    → let t = run ext s os in
      (apply_record_replacement p t ≡ (t, err invalid_request))
      ⊎ ((t.payload ≡ s.payload) × Updates (IsValid ext) t (apply_record_replacement p t))
replacement-Updates ext s reference new_name fields p os idem v h =
    let t = run ext s os in
    let (rev, fits) = prepare-Fits ext s reference new_name fields p idem v h in
    elim (run-Advances ext s os) [
      | inl same ↦
          let records : t.payload.records ≡ s.payload.records = ground arith in
          inr (same, apply-Updates ext p t (rw records v) (rw records fits))
      | inr moved ↦ inl (stale p t (omega arith))
    ]
