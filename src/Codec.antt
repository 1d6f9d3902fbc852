-- ===== src/Codec.antt =====
-- crates/ladon-core/src/codec.rs: the bytes of a vault's payload. The CBOR of single values is the package
-- minicbor's, and so is the form of a UUID in bytes the package uuid's: both are the parameter `Cbor`. An
-- encoder that writes to a `Vec` does not fail. A decoder is the bytes that are left.
pub mod Canonical
pub mod Decode
pub mod Payload
pub mod Laws
pub mod Parts
pub mod Unknown
pub mod RoundTrip
pub mod Opened
pub mod Bytewise
mod Examples
use ladon.Prelude.{
  ℕ, ◌+◌, Bool, true, false, Option, none, some, List, [], ◌∷◌, ◌++◌, leb, if◌then◌else◌, length,
}
use ladon.Prelude.Result.{Result, ok, err, LadonError, vault_payload_too_large}
use ladon.Prelude.Integers.{ℤ}
use ladon.Model.{Text, TextHint, SecretField, SecretRecord}
use ladon.Redact.Utf8.{Bytes}
use ladon.Vault.{VaultPayload}

-- minicbor's `Type`.
pub data DataType : Type 0 where
  bool null undefined u8 u16 u32 u64 i8 i16 i32 i64 int f16 f32 f64 simple : DataType
  bytes bytes_indef string string_indef array array_indef map map_indef tag break : DataType
  unknown : ℕ → DataType

pub record Cbor : Type 0 where
  -- `Encoder`.
  pub put_u8 : ℕ → Bytes
  pub put_u32 : ℕ → Bytes
  pub put_u64 : ℕ → Bytes
  pub put_bytes : Bytes → Bytes
  pub put_str : Text → Bytes
  pub put_array : ℕ → Bytes
  pub put_map : ℕ → Bytes
  pub put_tag : ℕ → Bytes
  pub put_bool : Bool → Bytes
  pub put_u16 : ℕ → Bytes
  pub put_i8 : ℤ → Bytes
  pub put_i16 : ℤ → Bytes
  pub put_i32 : ℤ → Bytes
  pub put_i64 : ℤ → Bytes
  pub put_int : ℤ → Bytes
  pub put_simple : ℕ → Bytes
  pub put_null : Bytes
  pub put_undefined : Bytes
  -- `Decoder`: the value, and the bytes that are left. A length may be indefinite.
  pub get_u8 : Bytes → Option (ℕ × Bytes)
  pub get_u32 : Bytes → Option (ℕ × Bytes)
  pub get_u64 : Bytes → Option (ℕ × Bytes)
  pub get_bytes : Bytes → Option (Bytes × Bytes)
  pub get_str : Bytes → Option (Text × Bytes)
  pub get_array : Bytes → Option (Option ℕ × Bytes)
  pub get_map : Bytes → Option (Option ℕ × Bytes)
  pub get_tag : Bytes → Option (ℕ × Bytes)
  pub get_bool : Bytes → Option (Bool × Bytes)
  pub get_u16 : Bytes → Option (ℕ × Bytes)
  pub get_i8 : Bytes → Option (ℤ × Bytes)
  pub get_i16 : Bytes → Option (ℤ × Bytes)
  pub get_i32 : Bytes → Option (ℤ × Bytes)
  pub get_i64 : Bytes → Option (ℤ × Bytes)
  pub get_int : Bytes → Option (ℤ × Bytes)
  pub get_simple : Bytes → Option (ℕ × Bytes)
  pub get_null : Bytes → Option (Unit {0} × Bytes)
  pub get_undefined : Bytes → Option (Unit {0} × Bytes)
  pub skip : Bytes → Option (Unit {0} × Bytes)
  -- `datatype`, which reads nothing.
  pub datatype : Bytes → Option DataType
  -- `Uuid::as_bytes`, `Uuid::from_bytes`.
  pub as_bytes : ℕ → Bytes
  pub from_bytes : Bytes → ℕ

abbrev pub max_vault_payload_bytes : ℕ
max_vault_payload_bytes = 67108864

abbrev pub hint_code : TextHint → ℕ
hint_code TextHint.binary = 0
hint_code TextHint.text = 1

module _ (cbor : Cbor) where
  open cbor use {put_u8, put_u32, put_u64, put_bytes, put_str, put_array, put_map, as_bytes}

  unfoldable pub encode_field : SecretField → Bytes
  encode_field f =
      put_map 3
      ++ (put_u8 0
          ++ (put_str f.name
              ++ (put_u8 1 ++ (put_bytes f.value ++ (put_u8 2 ++ put_u8 (hint_code f.text_hint))))))

  unfoldable pub encode_fields : List SecretField → Bytes
  unfolding encode_field
  encode_fields [] = []
  encode_fields (f ∷ fs) = encode_field f ++ encode_fields fs

  unfoldable pub encode_record : SecretRecord → Bytes
  unfolding encode_fields
  encode_record r =
      put_map 3
      ++ (put_u8 0
          ++ (put_bytes (as_bytes r.id)
              ++ (put_u8 1
                  ++ (put_str r.name
                      ++ (put_u8 2 ++ (put_array (length r.fields) ++ encode_fields r.fields))))))

  unfoldable pub encode_records : List SecretRecord → Bytes
  unfolding encode_record
  encode_records [] = []
  encode_records (r ∷ rs) = encode_record r ++ encode_records rs

  unfoldable pub encode_unknown : List (ℕ × Bytes) → Bytes
  encode_unknown [] = []
  encode_unknown ((key, raw) ∷ rest) = put_u64 key ++ (raw ++ encode_unknown rest)

  unfoldable pub payload_bytes : VaultPayload → Bytes
  unfolding encode_records encode_unknown
  payload_bytes p =
      put_map (4 + length p.unknown)
      ++ (put_u8 0
          ++ (put_bytes (as_bytes p.vault_id)
              ++ (put_u8 1
                  ++ (put_u64 p.revision
                      ++ (put_u8 2
                          ++ (put_array (length p.records)
                              ++ (encode_records p.records
                                  ++ (put_u8 3
                                      ++ (put_map 1
                                          ++ (put_u8 0
                                              ++ (put_u32 p.idle_timeout_seconds
                                                  ++ encode_unknown p.unknown)))))))))))

  unfoldable pub encode_payload : VaultPayload → Result Bytes
  unfolding payload_bytes
  encode_payload p =
      let encoded = payload_bytes p in
      if leb (length encoded) max_vault_payload_bytes
      then ok encoded
      else err vault_payload_too_large
