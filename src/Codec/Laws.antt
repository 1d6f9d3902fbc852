-- ===== src/Codec/Laws.antt =====
-- The documented behaviour of minicbor and uuid that the codec relies on, and what payloads it is given
-- (crates/ladon-core/src/codec.rs).
use ladon.Prelude.{ℕ, ◌≡◌, ◌≤◌, ◌<◌, true, Option, some, List, [], ◌∷◌, ◌++◌, length, All, ap}
use ladon.Prelude.Result.{Result, ok}
use ladon.Prelude.Method.{Method, after, ◌>>=◌, lift}
use ladon.Model.{Text, Externals, SecretField, SecretRecord, from_parts, parse_field_name}
use ladon.Redact.Utf8.{Bytes}
use ladon.Vault.{VaultPayload, new_payload}
use ladon.Codec.{Cbor}
use ladon.Codec.Canonical.{decode, decoded, is_canonical_unknown_value}

-- What is encoded is decoded again, whatever follows it; a small integer also as a wider one; and a UUID has
-- 16 bytes.
pub record IsCbor (cbor : Cbor) : Type 0 where
  pub u8 : (n : ℕ) (rest : Bytes) → n < 256 → cbor.get_u8 (cbor.put_u8 n ++ rest) ≡ some (n, rest)
  pub wide_u8 :
      (n : ℕ) (rest : Bytes) → n < 256 → cbor.get_u64 (cbor.put_u8 n ++ rest) ≡ some (n, rest)
  pub u32 :
      (n : ℕ) (rest : Bytes)
      → n < 4294967296
      → cbor.get_u32 (cbor.put_u32 n ++ rest) ≡ some (n, rest)
  pub u64 :
      (n : ℕ) (rest : Bytes)
      → n < 18446744073709551616
      → cbor.get_u64 (cbor.put_u64 n ++ rest) ≡ some (n, rest)
  pub bytes : (b rest : Bytes) → cbor.get_bytes (cbor.put_bytes b ++ rest) ≡ some (b, rest)
  pub str : (t : Text) (rest : Bytes) → cbor.get_str (cbor.put_str t ++ rest) ≡ some (t, rest)
  pub array :
      (n : ℕ) (rest : Bytes)
      → n < 18446744073709551616
      → cbor.get_array (cbor.put_array n ++ rest) ≡ some (some n, rest)
  pub map :
      (n : ℕ) (rest : Bytes)
      → n < 18446744073709551616
      → cbor.get_map (cbor.put_map n ++ rest) ≡ some (some n, rest)
  pub uuid_length : (id : ℕ) → length (cbor.as_bytes id) ≡ 16
  pub uuid :
      (id : ℕ)
      → id < 340282366920938463463374607431768211456
      → cbor.from_bytes (cbor.as_bytes id) ≡ id

-- What the constructors of a field and of a record ensure.
abbrev pub IsField : SecretField → Type 0
IsField f = (parse_field_name f.name ≡ ok f.name) × (length f.value ≤ 1048576)

pub record IsRecord (ext : Externals) (r : SecretRecord) : Type 0 where
  pub made : from_parts ext r.id r.name r.fields ≡ ok r
  pub identifier : r.id < 340282366920938463463374607431768211456
  pub some_fields : 0 < length r.fields
  pub few_fields : length r.fields ≤ 64
  pub fields : All IsField r.fields

-- An entry that the code does not know: one item, encoded canonically.
pub record IsUnknown (cbor : Cbor) (e : ℕ × Bytes) : Type 0 where
  pub key_above : 3 < e.0
  pub key_fits : e.0 < 18446744073709551616
  pub whole : (rest : Bytes) → cbor.skip (e.1 ++ rest) ≡ some (tt, rest)
  pub canonical : is_canonical_unknown_value cbor e.1 ≡ true

-- The keys ascend, from one on.
abbrev pub Ascends : ℕ → List (ℕ × Bytes) → Type 0
Ascends previous [] = Unit
Ascends previous ((key, raw) ∷ rest) = (previous < key) × Ascends key rest

pub record IsPayload (ext : Externals) (cbor : Cbor) (p : VaultPayload) : Type 0 where
  pub identifier : p.vault_id < 340282366920938463463374607431768211456
  pub revision : p.revision < 18446744073709551616
  pub seconds : p.idle_timeout_seconds < 4294967296
  pub few_records : length p.records ≤ 10000
  pub records : All (IsRecord ext) p.records
  pub apart :
      new_payload p.vault_id p.revision p.records
      ≡ ok (record p { idle_timeout_seconds = 1800; unknown = [] })
  pub few_unknown : length p.unknown ≤ 10000
  pub unknown : All (IsUnknown cbor) p.unknown
  pub ascending : Ascends 3 p.unknown

-- A step of a decoder that succeeds.
pub decode_step {ℓ κ} :
    {A : Type ℓ} {B : Type κ} (get : Bytes → Option (A × Bytes)) (next : A → Method Bytes B)
    (before rest : Bytes) (a : A)
    → get before ≡ some (a, rest)
    → (decode get >>= next) before ≡ next a rest
decode_step get next before rest a h = ap (λ o. after (decoded before o) next) h

pub then_step {ℓ κ} :
    {A : Type ℓ} {B : Type κ} (m : Method Bytes A) (next : A → Method Bytes B) (before rest : Bytes)
    (a : A)
    → m before ≡ (rest, ok a)
    → (m >>= next) before ≡ next a rest
then_step m next before rest a h = ap (λ o. after o next) h

pub lift_step {ℓ κ} :
    {A : Type ℓ} {B : Type κ} (m : Result A) (next : A → Method Bytes B) (before : Bytes) (a : A)
    → m ≡ ok a
    → (lift m >>= next) before ≡ next a before
lift_step m next before a h = ap (λ r. after (before, r) next) h
