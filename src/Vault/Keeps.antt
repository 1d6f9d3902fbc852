-- ===== src/Vault/Keeps.antt =====
-- Every operation of a session keeps the vault valid (crates/ladon-core/src/vault.rs).
use ladon.Prelude.{
  ℕ, ◌+◌, ◌≡◌, inl, inr, refl, ◌∙◌, true, false, Option, none, some, List, [], ◌∷◌, ◌++◌, arith,
  leb, ◌==◌, nat_eq, list_eq, contains, any, set, remove_at, Bool-cases,
}
use ladon.Prelude.Result.{ok, revision_overflow, duplicate_secret_name, Result-cases}
use ladon.Prelude.Time.{u64_max}
use ladon.Model.{
  Text, Externals, SecretField, SecretRecord, SecretRef, from_parts, parse_secret_ref,
  is_secret_name, parse_secret_name, parse_ref_from, parse_secret_id, strip_prefix, id_prefix,
}
use ladon.Model.Unique.{set-Unique, set-get_elem?, get_elem?-map}
use ladon.Vault.{
  VaultSession, increment_revision, find_record_index, name_taken, add, rename, replace_fields,
  delete, only_name,
}
use ladon.Vault.Valid.{
  IsIdempotent, IsRecord, IsValid, record_ids, record_names, Updates, find_record_index_found,
  All-get_elem?, push-IsValid, remove_at-IsValid, set-IsValid, from_parts-IsRecord,
}

abbrev renamed : SecretRecord → Text → SecretRecord
renamed r label = record r { name = label }

parsed_name :
    (ext : Externals) (t : Text) (o : Option Text) (label : Text)
    → IsIdempotent ext
    → parse_ref_from ext t o ≡ ok (SecretRef.name label)
    → (is_secret_name label ≡ true) × (ext.nfc label ≡ label)
unfolding parse_ref_from parse_secret_name parse_secret_id
parsed_name ext t none label idem h = ground (arith, idem t)
parsed_name ext t (some uuid) label idem h = ground arith

parse_secret_ref-name :
    (ext : Externals) (t label : Text)
    → IsIdempotent ext
    → (r : SecretRef) → parse_secret_ref ext t ≡ ok r
    → only_name r ≡ ok label
    → (is_secret_name label ≡ true) × (ext.nfc label ≡ label)
unfolding parse_secret_ref
parse_secret_ref-name ext t label idem (SecretRef.name l) h e =
    parsed_name ext t (strip_prefix id_prefix t) label idem (ground arith)
parse_secret_ref-name ext t label idem (SecretRef.id k) h e = cc

module _ (ext : Externals) (idem : IsIdempotent ext) where
  -- `add` on a valid vault, with an identifier that is not in use, fails and leaves the session as it is,
  -- or leaves a valid vault with the next revision.
  add-Updates :
      (fresh_id : ℕ) (label : Text) (fields : List SecretField) (s : VaultSession)
      → IsValid ext s.payload.records
      → contains (record_ids s.payload.records) fresh_id ≡ false
      → Updates (IsValid ext) s (add ext fresh_id label fields s)
  unfolding add increment_revision
  add-Updates i l fs s v fresh = elim (Result-cases (from_parts ext i l fs)) [
    | inr (e, failed) ↦ inl (e, ground arith)
    | inl (r, built) ↦
        let rs = s.payload.records in
        let (w, same, _, _) = from_parts-IsRecord ext idem i l fs r built in
        elim (Bool-cases (any (λ x. x.name == r.name) rs)) [
          | inl taken ↦ inl (duplicate_secret_name, ground arith)
          | inr distinct ↦ elim (Bool-cases (leb (s.payload.revision + 1) u64_max)) [
            | inl room ↦ inr (
              r.id,
              rs ++ r ∷ [],
              push-IsValid ext rs r v w (rw same fresh) distinct,
              ground arith,
              ground arith,
            )
            | inr full ↦ inl (revision_overflow, ground arith)
          ]
        ]
  ]

  -- `delete` on a valid vault fails and leaves the session as it is, or leaves a valid vault with the
  -- next revision.
  delete-Updates :
      (reference : SecretRef) (s : VaultSession)
      → IsValid ext s.payload.records
      → Updates (IsValid ext) s (delete reference s)
  unfolding delete increment_revision
  delete-Updates reference s v =
      let rs = s.payload.records in
      elim (Result-cases (find_record_index rs reference)) [
        | inr (e, failed) ↦ inl (e, ground arith)
        | inl (i, found) ↦ elim (Bool-cases (leb (s.payload.revision + 1) u64_max)) [
          | inl room ↦
              inr (tt, remove_at rs i, remove_at-IsValid ext rs i v, ground arith, ground arith)
          | inr full ↦ inl (revision_overflow, ground arith)
        ]
      ]

  -- `replace_fields` on a valid vault fails and leaves the session as it is, or leaves a valid vault with
  -- the next revision.
  replace_fields-Updates :
      (reference : SecretRef) (fields : List SecretField) (s : VaultSession)
      → IsValid ext s.payload.records
      → Updates (IsValid ext) s (replace_fields ext reference fields s)
  unfolding replace_fields increment_revision
  replace_fields-Updates reference fields s v =
      let rs = s.payload.records in
      elim (Result-cases (find_record_index rs reference)) [
        | inr (e, failed) ↦ inl (e, ground arith)
        | inl (i, found) ↦
            let (x, g, _) = find_record_index_found rs reference i found in
            elim (Result-cases (from_parts ext x.id x.name fields)) [
              | inr (e, failed) ↦ inl (e, ground arith)
              | inl (r, built) ↦ elim (Bool-cases (leb (s.payload.revision + 1) u64_max)) [
                | inr full ↦ inl (revision_overflow, ground arith)
                | inl room ↦
                    let (w, same, _, label) =
                      from_parts-IsRecord ext idem x.id x.name fields r built in
                    let stays = label ∙ (All-get_elem? (IsRecord ext) rs i v.well_formed g).4 in
                    let names =
                      set-get_elem? (record_names rs) i x.name
                        (get_elem?-map (λ y. y.name) rs i g) in
                    let valid =
                      set-IsValid ext rs i x r v g same w (rw (stays, names) v.unique_names) in
                    inr (tt, set rs i r, valid, ground arith, ground arith)
              ]
            ]
      ]

  -- `rename` on a valid vault fails and leaves the session as it is, or leaves a valid vault with the
  -- next revision.
  rename-Updates :
      (reference : SecretRef) (new_name : Text) (s : VaultSession)
      → IsValid ext s.payload.records
      → Updates (IsValid ext) s (rename ext reference new_name s)
  unfolding rename increment_revision name_taken
  rename-Updates reference new_name s v =
      let rs = s.payload.records in
      elim (Result-cases (parse_secret_ref ext new_name)) [
        | inr (e, failed) ↦ inl (e, ground arith)
        | inl (parsed, was) ↦ elim (Result-cases (only_name parsed)) [
          | inr (e, failed) ↦ inl (e, ground arith)
          | inl (label, is) ↦ elim (Result-cases (find_record_index rs reference)) [
            | inr (e, failed) ↦ inl (e, ground arith)
            | inl (i, found) ↦
                let (x, g, _) = find_record_index_found rs reference i found in
                elim (Bool-cases (name_taken i rs label)) [
                  | inl taken ↦ inl (duplicate_secret_name, ground arith)
                  | inr free ↦ elim (Bool-cases (leb (s.payload.revision + 1) u64_max)) [
                    | inr full ↦ inl (revision_overflow, ground arith)
                    | inl room ↦
                        let named = parse_secret_ref-name ext new_name label idem parsed was is in
                        let w = All-get_elem? (IsRecord ext) rs i v.well_formed g in
                        let r = renamed x label in
                        let valid =
                          set-IsValid ext rs i x r v g refl (w.0, w.1, w.2, named.0, named.1)
                            (set-Unique i (record_names rs) label v.unique_names free) in
                        inr (tt, set rs i r, valid, ground arith, ground arith)
                  ]
                ]
          ]
        ]
      ]

  -- On a valid vault, each of `add` with an identifier that is not in use, `rename`, `replace_fields` and
  -- `delete` fails and leaves the session as it is, or leaves a valid vault with the next revision.
  pub operations-Updates :
      (fresh_id : ℕ) (label : Text) (fields : List SecretField) (reference : SecretRef)
      (s : VaultSession)
      → IsValid ext s.payload.records
      → contains (record_ids s.payload.records) fresh_id ≡ false
      → Updates (IsValid ext) s (add ext fresh_id label fields s)
        × Updates (IsValid ext) s (rename ext reference label s)
        × Updates (IsValid ext) s (replace_fields ext reference fields s)
        × Updates (IsValid ext) s (delete reference s)
  operations-Updates i l fs reference s v fresh = (
    add-Updates i l fs s v fresh,
    rename-Updates reference l s v,
    replace_fields-Updates reference fs s v,
    delete-Updates reference s v,
  )
