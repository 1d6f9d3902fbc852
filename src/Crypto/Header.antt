-- ===== src/Crypto/Header.antt =====
-- `decode_header` (crates/ladon-core/src/crypto.rs).
use ladon.Prelude.{
  ℕ, Bool, false, ◌&&◌, Option, none, some, leb, ◌==◌, nat_eq, list_eq, is_empty, length,
  if◌then◌else◌,
}
use ladon.Prelude.Utf8.{codes}
use ladon.Prelude.Result.{Result, ok, err, ensure, invalid_vault_file}
use ladon.Prelude.Method.{Method, ◌>>=◌, ◌>>◌, lift, return}
use ladon.Model.{Text}
use ladon.Redact.Utf8.{Bytes}
use ladon.Codec.{Cbor}
use ladon.Crypto.{KdfHeader, encode_header, max_header_bytes}

-- A value of the decoder, its error mapped.
abbrev pub decoded {ℓ} : {A : Type ℓ} → Bytes → Option (A × Bytes) → Bytes × Result A
decoded before none = (before, err invalid_vault_file)
decoded before (some (value, rest)) = (rest, ok value)

abbrev pub decode {ℓ} : {A : Type ℓ} → (Bytes → Option (A × Bytes)) → Method Bytes A
decode get before = decoded before (get before)

unfoldable pub expect_key : Cbor → Text → Method Bytes (Unit {0})
expect_key cbor expected = do
  key ← decode cbor.get_str
  lift (ensure (key == expected) invalid_vault_file)

abbrev pub is_five : Option ℕ → Bool
is_five none = false
is_five (some n) = n == 5

abbrev pub within : ℕ → ℕ → ℕ → Bool
within minimum maximum n = leb minimum n && leb n maximum

abbrev pub has_valid_bounds : KdfHeader → Bool
has_valid_bounds header =
    within 32768 262144 header.memory_kib
    && (within 1 10 header.passes
        && (within 1 16 header.parallelism && within 16 64 (length header.salt)))

-- The fields in their order.
unfoldable pub read_header : Cbor → Method Bytes KdfHeader
unfolding expect_key
read_header cbor = do
  entries ← decode cbor.get_map
  lift (ensure (is_five entries) invalid_vault_file)
  expect_key cbor (codes "kdf")
  expect_key cbor (codes "argon2id")
  expect_key cbor (codes "salt")
  salt ← decode cbor.get_bytes
  expect_key cbor (codes "passes")
  passes ← decode cbor.get_u32
  expect_key cbor (codes "memory_kib")
  memory_kib ← decode cbor.get_u32
  expect_key cbor (codes "parallelism")
  parallelism ← decode cbor.get_u32
  return
      (record { memory_kib = memory_kib; passes = passes; parallelism = parallelism; salt = salt })

-- The checks on what was read: nothing is left, and it is the encoding.
abbrev pub is_encoding : Bytes → Result Bytes → Bool
is_encoding input (ok encoded) = encoded == input
is_encoding input (err e) = false

abbrev pub accepted : Cbor → Bytes → Bytes × Result KdfHeader → Result KdfHeader
accepted cbor input (left, err e) = err e
accepted cbor input (left, ok header) =
    if has_valid_bounds header && (is_empty left && is_encoding input (encode_header cbor header))
    then ok header
    else err invalid_vault_file

unfoldable pub decode_header : Cbor → Bytes → Result KdfHeader
unfolding read_header encode_header
decode_header cbor input =
    if leb (length input) max_header_bytes
    then accepted cbor input (read_header cbor input)
    else err invalid_vault_file
