-- ===== src/Codec/Decode.antt =====
-- The loop of `decode_payload`, and what it decodes (crates/ladon-core/src/codec.rs).
use ladon.Prelude.{
  ℕ, zero, suc, ◌+◌, ◌-◌, Bool, true, not, Option, none, some, List, [], ◌∷◌, ltb, leb, ◌==◌,
  nat_eq, list_eq, if◌then◌else◌, length, take, is_none,
}
use ladon.Prelude.Result.{Result, ok, err, invalid_vault_payload, ok_or, ensure}
use ladon.Prelude.Method.{Method, ◌>>=◌, ◌>>◌, lift, return, read}
use ladon.Model.{
  Externals, TextHint, SecretField, SecretRecord, from_parts, parse_field_name, new_field,
  max_fields_per_record,
}
use ladon.Redact.Utf8.{Bytes}
use ladon.Vault.{max_records}
use ladon.Codec.{Cbor}
use ladon.Codec.Canonical.{decode, is_canonical_unknown_value}

-- `map_err(|_| LadonError::InvalidVaultPayload)`.
abbrev pub as_invalid {ℓ} : {A : Type ℓ} → Result A → Result A
as_invalid (ok a) = ok a
as_invalid (err e) = err invalid_vault_payload

-- A length that is definite and at most `maximum`.
unfoldable pub definite_len : (Bytes → Option (Option ℕ × Bytes)) → ℕ → Method Bytes ℕ
definite_len get maximum = do
  definite ← decode get
  count ← lift (ok_or definite invalid_vault_payload)
  lift (ensure (leb count maximum) invalid_vault_payload)
  return count

-- `decoder.u8().ok() != Some(n)` is an error.
unfoldable pub expect_u8 : Cbor → ℕ → Method Bytes (Unit {0})
expect_u8 cbor n = do value ← decode cbor.get_u8; lift (ensure (value == n) invalid_vault_payload)

abbrev pub text_hint : ℕ → Result TextHint
text_hint zero = ok TextHint.binary
text_hint (suc zero) = ok TextHint.text
text_hint (suc (suc n)) = err invalid_vault_payload

unfoldable pub decode_id : Cbor → Method Bytes ℕ
decode_id cbor = do
  value ← decode cbor.get_bytes
  lift (ensure (length value == 16) invalid_vault_payload)
  return (cbor.from_bytes value)

unfoldable pub decode_field : Cbor → Method Bytes SecretField
unfolding definite_len expect_u8
decode_field cbor = do
  entries ← definite_len cbor.get_map 3
  lift (ensure (entries == 3) invalid_vault_payload)
  expect_u8 cbor 0
  text ← decode cbor.get_str
  name ← lift (as_invalid (parse_field_name text))
  expect_u8 cbor 1
  value ← decode cbor.get_bytes
  expect_u8 cbor 2
  code ← decode cbor.get_u8
  hint ← lift (text_hint code)
  lift (as_invalid (new_field name value hint))

-- A loop that decodes as often as it is told.
unfoldable pub decode_many : {A : Type 0} → Method Bytes A → ℕ → Method Bytes (List A)
decode_many item zero = return []
decode_many item (suc n) = do first ← item; rest ← decode_many item n; return (first ∷ rest)

unfoldable pub decode_record : Externals → Cbor → Method Bytes SecretRecord
unfolding definite_len expect_u8 decode_id decode_field decode_many
decode_record ext cbor = do
  entries ← definite_len cbor.get_map 3
  lift (ensure (entries == 3) invalid_vault_payload)
  expect_u8 cbor 0
  id ← decode_id cbor
  expect_u8 cbor 1
  name ← decode cbor.get_str
  expect_u8 cbor 2
  field_count ← definite_len cbor.get_array max_fields_per_record
  lift (ensure (not (field_count == 0)) invalid_vault_payload)
  fields ← decode_many (decode_field cbor) field_count
  lift (as_invalid (from_parts ext id name fields))

unfoldable pub decode_records : Externals → Cbor → Method Bytes (List SecretRecord)
unfolding definite_len decode_record decode_many
decode_records ext cbor = do
  count ← definite_len cbor.get_array max_records
  decode_many (decode_record ext cbor) count

unfoldable pub decode_settings : Cbor → Method Bytes ℕ
unfolding definite_len expect_u8
decode_settings cbor = do
  entries ← definite_len cbor.get_map 1
  lift (ensure (entries == 1) invalid_vault_payload)
  expect_u8 cbor 0
  decode cbor.get_u32

-- What the loop of `decode_payload` has read so far.
pub record Partial : Type 0 where
  pub vault_id : Option ℕ
  pub revision : Option ℕ
  pub records : Option (List SecretRecord)
  pub idle_timeout_seconds : Option ℕ
  pub unknown : List (ℕ × Bytes)
  pub previous_key : Option ℕ

abbrev pub nothing_read : Partial
nothing_read = record {
  vault_id = none;
  revision = none;
  records = none;
  idle_timeout_seconds = none;
  unknown = [];
  previous_key = none;
}

-- `BTreeMap::insert`.
unfoldable pub insert : ℕ → Bytes → List (ℕ × Bytes) → List (ℕ × Bytes)
insert key value [] = (key, value) ∷ []
insert key value ((k, v) ∷ m) =
    let rest = insert key value m in
    if ltb key k
    then (key, value) ∷ (k, v) ∷ m
    else if key == k
    then (key, value) ∷ m
    else (k, v) ∷ rest

abbrev pub is_above : Option ℕ → ℕ → Bool
is_above none key = true
is_above (some previous) key = ltb previous key

module _ (ext : Externals) (cbor : Cbor) where
  unfoldable pub decode_unknown : ℕ → Partial → Method Bytes Partial
  unfolding is_canonical_unknown_value insert
  decode_unknown key p = do
    start ← read
    decode cbor.skip
    position ← read
    let raw_value = take (length start - length position) start
    lift (ensure (is_canonical_unknown_value cbor raw_value) invalid_vault_payload)
    return (record p { unknown = insert key raw_value p.unknown })

  abbrev pub decode_value : ℕ → Partial → Method Bytes Partial
  decode_value zero p = do
    lift (ensure (is_none p.vault_id) invalid_vault_payload)
    id ← decode_id cbor
    return (record p { vault_id = some id })
  decode_value (suc zero) p = do
    lift (ensure (is_none p.revision) invalid_vault_payload)
    revision ← decode cbor.get_u64
    return (record p { revision = some revision })
  decode_value (suc (suc zero)) p = do
    lift (ensure (is_none p.records) invalid_vault_payload)
    records ← decode_records ext cbor
    return (record p { records = some records })
  decode_value (suc (suc (suc zero))) p = do
    lift (ensure (is_none p.idle_timeout_seconds) invalid_vault_payload)
    seconds ← decode_settings cbor
    return (record p { idle_timeout_seconds = some seconds })
  decode_value (suc (suc (suc (suc n)))) p = decode_unknown (suc (suc (suc (suc n)))) p

  unfoldable pub decode_entry : Partial → Method Bytes Partial
  unfolding decode_id decode_records decode_settings decode_unknown
  decode_entry p = do
    key ← decode cbor.get_u64
    lift (ensure (is_above p.previous_key key) invalid_vault_payload)
    decode_value key (record p { previous_key = some key })

  unfoldable pub decode_entries : ℕ → Partial → Method Bytes Partial
  unfolding decode_entry
  decode_entries zero p = return p
  decode_entries (suc n) p = do p' ← decode_entry p; decode_entries n p'

  unfoldable pub read_payload : Method Bytes Partial
  unfolding definite_len decode_entries
  read_payload = do
    entries ← definite_len cbor.get_map (4 + max_records)
    decode_entries entries nothing_read
