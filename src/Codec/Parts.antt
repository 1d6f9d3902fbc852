-- ===== src/Codec/Parts.antt =====
-- Each part of a payload is decoded from its encoding, whatever follows (crates/ladon-core/src/codec.rs).
use mathlib.Core.List.{append_assoc}
use ladon.Prelude.{
  ℕ, suc, ◌≡◌, ◌≤◌, ◌<◌, refl, not, some, List, [], ◌∷◌, ◌++◌, ◌==◌, nat_eq, length, All, arith, ap,
  ◌∙◌,
}
use ladon.Prelude.Result.{ok, ensure, invalid_vault_payload}
use ladon.Model.{
  Text, TextHint, Externals, SecretField, SecretRecord, max_fields_per_record, parse_field_name,
  new_field,
}
use ladon.Redact.Utf8.{Bytes}
use ladon.Vault.{max_records}
use ladon.Codec.{Cbor, hint_code, encode_field, encode_fields, encode_record, encode_records}
use ladon.Codec.Canonical.{decoded}
use ladon.Codec.Decode.{
  as_invalid, definite_len, expect_u8, text_hint, decode_id, decode_field, decode_many,
  decode_record, decode_records, decode_settings,
}
use ladon.Codec.Laws.{IsCbor, IsField, IsRecord, decode_step, then_step, lift_step}

pub fits : (maximum n : ℕ) → n ≤ maximum → maximum < 18446744073709551616 → n < 18446744073709551616
fits maximum n h k = omega arith

module _ (cbor : Cbor) (laws : IsCbor cbor) where
  expect_u8_lem :
      (n : ℕ) (rest : Bytes) → n < 256 → expect_u8 cbor n (cbor.put_u8 n ++ rest) ≡ (rest, ok tt)
  unfolding expect_u8
  expect_u8_lem n rest h = decode_step cbor.get_u8 _ _ rest n (laws.u8 n rest h) ∙ ground arith

  pub definite_map :
      (n maximum : ℕ) (rest : Bytes)
      → n ≤ maximum
      → n < 18446744073709551616
      → definite_len cbor.get_map maximum (cbor.put_map n ++ rest) ≡ (rest, ok n)
  unfolding definite_len
  definite_map n maximum rest h small =
      decode_step cbor.get_map _ _ rest (some n) (laws.map n rest small) ∙ ground arith

  definite_array :
      (n maximum : ℕ) (rest : Bytes)
      → n ≤ maximum
      → n < 18446744073709551616
      → definite_len cbor.get_array maximum (cbor.put_array n ++ rest) ≡ (rest, ok n)
  unfolding definite_len
  definite_array n maximum rest h small =
      decode_step cbor.get_array _ _ rest (some n) (laws.array n rest small) ∙ ground arith

  pub decode_id_lem :
      (id : ℕ) (rest : Bytes)
      → id < 340282366920938463463374607431768211456
      → decode_id cbor (cbor.put_bytes (cbor.as_bytes id) ++ rest) ≡ (rest, ok id)
  unfolding decode_id
  decode_id_lem id rest h =
      decode_step cbor.get_bytes _ _ rest (cbor.as_bytes id) (laws.bytes (cbor.as_bytes id) rest)
      ∙ rw (laws.uuid_length id) (ap (λ i. (rest, ok i)) (laws.uuid id h))

  new_field_lem :
      (name : Text) (value : Bytes) (hint : TextHint)
      → length value ≤ 1048576
      → as_invalid (new_field name value hint)
        ≡ ok (record { name = name; value = value; text_hint = hint })
  unfolding new_field
  new_field_lem name value hint h = ground arith

  text_hint-hint_code : (hint : TextHint) → text_hint (hint_code hint) ≡ ok hint
  text_hint-hint_code TextHint.binary = refl
  text_hint-hint_code TextHint.text = refl

  field_regroup :
      (f : SecretField) (rest : Bytes)
      → encode_field cbor f ++ rest
        ≡ cbor.put_map 3
          ++ (cbor.put_u8 0
              ++ (cbor.put_str f.name
                  ++ (cbor.put_u8 1
                      ++ (cbor.put_bytes f.value
                          ++ (cbor.put_u8 2 ++ (cbor.put_u8 (hint_code f.text_hint) ++ rest))))))
  unfolding encode_field
  field_regroup f rest = simp append_assoc

  hint_code-lt : (hint : TextHint) → hint_code hint < 256
  hint_code-lt TextHint.binary = omega arith
  hint_code-lt TextHint.text = omega arith

  decode_field_lem :
      (f : SecretField) (rest : Bytes)
      → IsField f
      → decode_field cbor (encode_field cbor f ++ rest) ≡ (rest, ok f)
  unfolding decode_field
  decode_field_lem f rest (named, short) =
      ap (decode_field cbor) (field_regroup f rest)
      ∙ then_step (definite_len cbor.get_map 3) _ _ _ 3
          (definite_map 3 3 _ (omega arith) (omega arith))
      ∙ then_step (expect_u8 cbor 0) _ _ _ tt (expect_u8_lem 0 _ (omega arith))
      ∙ decode_step cbor.get_str _ _ _ f.name (laws.str f.name _)
      ∙ lift_step (as_invalid (parse_field_name f.name)) _ _ f.name (ap as_invalid named)
      ∙ then_step (expect_u8 cbor 1) _ _ _ tt (expect_u8_lem 1 _ (omega arith))
      ∙ decode_step cbor.get_bytes _ _ _ f.value (laws.bytes f.value _)
      ∙ then_step (expect_u8 cbor 2) _ _ _ tt (expect_u8_lem 2 _ (omega arith))
      ∙ decode_step cbor.get_u8 _ _ _ (hint_code f.text_hint)
          (laws.u8 _ _ (hint_code-lt f.text_hint))
      ∙ lift_step (text_hint (hint_code f.text_hint)) _ rest f.text_hint
          (text_hint-hint_code f.text_hint)
      ∙ ap (λ r. (rest, r)) (new_field_lem f.name f.value f.text_hint short)

  decode_fields_lem :
      (fs : List SecretField) (rest : Bytes)
      → All IsField fs
      → decode_many (decode_field cbor) (length fs) (encode_fields cbor fs ++ rest) ≡ (rest, ok fs)
  unfolding decode_many encode_fields
  decode_fields_lem [] rest all = refl
  decode_fields_lem (f ∷ fs) rest (here, there) =
      ap (decode_many (decode_field cbor) (suc (length fs)))
        (append_assoc (encode_field cbor f) (encode_fields cbor fs) rest)
      ∙ then_step (decode_field cbor) _ _ _ f (decode_field_lem f _ here)
      ∙ then_step (decode_many (decode_field cbor) (length fs)) _ _ rest fs
          (decode_fields_lem fs rest there)

  not_empty : (n : ℕ) → 0 < n → ensure (not (n == 0)) invalid_vault_payload ≡ ok tt
  not_empty n h = ground arith

  record_regroup :
      (r : SecretRecord) (rest : Bytes)
      → encode_record cbor r ++ rest
        ≡ cbor.put_map 3
          ++ (cbor.put_u8 0
              ++ (cbor.put_bytes (cbor.as_bytes r.id)
                  ++ (cbor.put_u8 1
                      ++ (cbor.put_str r.name
                          ++ (cbor.put_u8 2
                              ++ (cbor.put_array (length r.fields)
                                  ++ (encode_fields cbor r.fields ++ rest)))))))
  unfolding encode_record
  record_regroup r rest = simp append_assoc

  decode_record_lem :
      (ext : Externals) (r : SecretRecord) (rest : Bytes)
      → IsRecord ext r
      → decode_record ext cbor (encode_record cbor r ++ rest) ≡ (rest, ok r)
  unfolding decode_record
  decode_record_lem ext r rest is =
      ap (decode_record ext cbor) (record_regroup r rest)
      ∙ then_step (definite_len cbor.get_map 3) _ _ _ 3
          (definite_map 3 3 _ (omega arith) (omega arith))
      ∙ then_step (expect_u8 cbor 0) _ _ _ tt (expect_u8_lem 0 _ (omega arith))
      ∙ then_step (decode_id cbor) _ _ _ r.id (decode_id_lem r.id _ is.identifier)
      ∙ then_step (expect_u8 cbor 1) _ _ _ tt (expect_u8_lem 1 _ (omega arith))
      ∙ decode_step cbor.get_str _ _ _ r.name (laws.str r.name _)
      ∙ then_step (expect_u8 cbor 2) _ _ _ tt (expect_u8_lem 2 _ (omega arith))
      ∙ then_step (definite_len cbor.get_array max_fields_per_record) _ _ _ (length r.fields)
          (definite_array _ _ _ is.few_fields (fits 64 _ is.few_fields (omega arith)))
      ∙ lift_step (ensure (not (length r.fields == 0)) invalid_vault_payload) _ _ tt
          (not_empty (length r.fields) is.some_fields)
      ∙ then_step (decode_many (decode_field cbor) (length r.fields)) _ _ rest r.fields
          (decode_fields_lem r.fields rest is.fields)
      ∙ ap (λ m. (rest, as_invalid m)) is.made

  decode_many_records :
      (ext : Externals) (rs : List SecretRecord) (rest : Bytes)
      → All (IsRecord ext) rs
      → decode_many (decode_record ext cbor) (length rs) (encode_records cbor rs ++ rest)
        ≡ (rest, ok rs)
  unfolding decode_many encode_records
  decode_many_records ext [] rest all = refl
  decode_many_records ext (r ∷ rs) rest (here, there) =
      ap (decode_many (decode_record ext cbor) (suc (length rs)))
        (append_assoc (encode_record cbor r) (encode_records cbor rs) rest)
      ∙ then_step (decode_record ext cbor) _ _ _ r (decode_record_lem ext r _ here)
      ∙ then_step (decode_many (decode_record ext cbor) (length rs)) _ _ rest rs
          (decode_many_records ext rs rest there)

  pub decode_records_lem :
      (ext : Externals) (rs : List SecretRecord) (rest : Bytes)
      → length rs ≤ 10000
      → All (IsRecord ext) rs
      → decode_records ext cbor (cbor.put_array (length rs) ++ (encode_records cbor rs ++ rest))
        ≡ (rest, ok rs)
  unfolding decode_records
  decode_records_lem ext rs rest few all =
      then_step (definite_len cbor.get_array max_records) _ _ _ (length rs)
        (definite_array _ _ _ few (fits 10000 _ few (omega arith)))
      ∙ decode_many_records ext rs rest all

  pub decode_settings_lem :
      (seconds : ℕ) (rest : Bytes)
      → seconds < 4294967296
      → decode_settings cbor (cbor.put_map 1 ++ (cbor.put_u8 0 ++ (cbor.put_u32 seconds ++ rest)))
        ≡ (rest, ok seconds)
  unfolding decode_settings
  decode_settings_lem seconds rest h =
      then_step (definite_len cbor.get_map 1) _ _ _ 1
        (definite_map 1 1 _ (omega arith) (omega arith))
      ∙ then_step (expect_u8 cbor 0) _ _ _ tt (expect_u8_lem 0 _ (omega arith))
      ∙ ap (decoded _) (laws.u32 seconds rest h)
