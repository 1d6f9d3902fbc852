-- ===== src/Crypto/File.antt =====
-- The layout of the file, and what is encrypted in it (crates/ladon-core/src/crypto.rs). Offsets are far below the
-- limits of a `usize`.
use ladon.Prelude.{
  ℕ, zero, suc, ◌+◌, ◌-◌, ◌*◌, ◌/◌, ◌%◌, Option, [], ◌∷◌, ◌++◌, leb, ◌==◌, nat_eq, list_eq, length,
  take, drop, if◌then◌else◌,
}
use ladon.Prelude.Result.{
  Result, ok, err, ◌>>=◌, ◌>>◌, ensure, ok_or, invalid_vault_file, unsupported_vault_version,
  vault_authentication_failed, crypto_unavailable,
}
use ladon.Model.{Externals}
use ladon.Redact.Utf8.{Bytes}
use ladon.Vault.{VaultPayload}
use ladon.Codec.{Cbor, max_vault_payload_bytes, encode_payload}
use ladon.Codec.Payload.{decode_payload}
use ladon.Crypto
use ladon.Crypto.{
  magic, fixed_prefix_bytes, max_header_bytes, nonce_bytes, key_bytes, tag_bytes, wrapper_bytes,
  payload_fixed_bytes, dek_domain, payload_domain, KdfHeader, KeyMaterial, UnlockedVault,
  Primitives, encode_header,
}
use ladon.Crypto.Header.{decode_header}

-- `&bytes[a..b]`.
abbrev pub slice : ℕ → ℕ → Bytes → Bytes
slice a b bytes = take (b - a) (drop a bytes)

-- `to_be_bytes` of a number of `n` bytes, before other bytes, and `from_be_bytes`.
abbrev pub to_be : ℕ → ℕ → Bytes → Bytes
to_be zero k rest = rest
to_be (suc n) k rest = to_be n (k / 256) (k % 256 ∷ rest)

abbrev pub from_be : ℕ → Bytes → ℕ
from_be total [] = total
from_be total (b ∷ rest) = from_be (total * 256 + b) rest

-- `read_u16`, `read_u32` and `read_u64`: a number of `n` bytes at an offset.
unfoldable pub read_number : ℕ → Bytes → ℕ → Result ℕ
read_number n input offset =
    if leb (offset + n) (length input)
    then ok (from_be 0 (slice offset (offset + n) input))
    else err invalid_vault_file

pub record ParsedFile : Type 0 where
  pub header : KdfHeader
  pub prefix_before_dek : Bytes
  pub dek_nonce : Bytes
  pub wrapped_dek : Bytes
  pub prefix_through_dek_tag : Bytes
  pub prefix_through_payload_len : Bytes
  pub payload_nonce : Bytes
  pub encrypted_payload : Bytes

-- The parts of a file, by the offsets of their ends.
abbrev pub parts_of : Bytes → KdfHeader → ℕ → ℕ → ℕ → ParsedFile
parts_of file header header_end prefix_end payload_len_end = record {
  header = header;
  prefix_before_dek = take header_end file;
  dek_nonce = slice header_end (header_end + nonce_bytes) file;
  wrapped_dek = slice (header_end + nonce_bytes) prefix_end file;
  prefix_through_dek_tag = take prefix_end file;
  prefix_through_payload_len = take payload_len_end file;
  payload_nonce = slice payload_len_end (payload_len_end + nonce_bytes) file;
  encrypted_payload = drop (payload_len_end + nonce_bytes) file;
}

unfoldable pub parse_file : Cbor → Bytes → Result ParsedFile
unfolding read_number decode_header
parse_file cbor file = do
  ensure (leb (fixed_prefix_bytes + wrapper_bytes + payload_fixed_bytes) (length file))
      invalid_vault_file
  ensure (take 8 file == magic) invalid_vault_file
  number ← read_number 2 file 8
  ensure (number == Crypto.version) unsupported_vault_version
  header_len ← read_number 4 file 10
  ensure (leb header_len max_header_bytes) invalid_vault_file
  let header_end = fixed_prefix_bytes + header_len
  let prefix_end = header_end + wrapper_bytes
  let payload_len_end = prefix_end + 8
  ensure (leb payload_len_end (length file)) invalid_vault_file
  header ← decode_header cbor (slice fixed_prefix_bytes header_end file)
  payload_len ← read_number 8 file prefix_end
  ensure (leb payload_len max_vault_payload_bytes) invalid_vault_file
  ensure (payload_len_end + nonce_bytes + payload_len + tag_bytes == length file) invalid_vault_file
  ok (parts_of file header header_end prefix_end payload_len_end)

abbrev pub associated_data : Bytes → Bytes → Bytes
associated_data domain bytes = domain ++ bytes

abbrev pub default_header : Bytes → KdfHeader
default_header salt = record { memory_kib = 65536; passes = 3; parallelism = 4; salt = salt }

abbrev pub prefix_of : Bytes → Bytes
prefix_of encoded_header =
    magic ++ (to_be 2 Crypto.version [] ++ (to_be 4 (length encoded_header) [] ++ encoded_header))

module _ (ext : Externals) (cbor : Cbor) (primitives : Primitives) where
  open primitives use {hash_password, cipher_encrypt, cipher_decrypt}

  abbrev pub derive_kek : Bytes → KdfHeader → Result Bytes
  derive_kek passphrase header = ok_or (hash_password header passphrase) invalid_vault_file

  abbrev pub encrypt : Bytes → Bytes → Bytes → Bytes → Result Bytes
  encrypt key nonce plaintext aad =
      ok_or (cipher_encrypt key nonce plaintext aad) invalid_vault_file

  abbrev pub decrypt : Bytes → Bytes → Bytes → Bytes → Result Bytes
  decrypt key nonce text aad = ok_or (cipher_decrypt key nonce text aad) vault_authentication_failed

  abbrev pub as_unauthentic {ℓ} : {A : Type ℓ} → Result A → Result A
  as_unauthentic (ok a) = ok a
  as_unauthentic (err e) = err vault_authentication_failed

  -- The salt, the key and the nonce are random.
  unfoldable pub new_key_material :
      Bytes → Option Bytes → Option Bytes → Option Bytes → Result KeyMaterial
  unfolding encode_header
  new_key_material passphrase random_salt random_dek random_nonce = do
    salt ← ok_or random_salt crypto_unavailable
    encoded_header ← encode_header cbor (default_header salt)
    dek ← ok_or random_dek crypto_unavailable
    kek ← derive_kek passphrase (default_header salt)
    nonce ← ok_or random_nonce crypto_unavailable
    wrapped_dek ← encrypt kek nonce dek (associated_data dek_domain (prefix_of encoded_header))
    ok record {
      prefix_through_dek_tag = prefix_of encoded_header ++ (nonce ++ wrapped_dek);
      dek = dek;
    }

  unfoldable pub seal_payload : VaultPayload → KeyMaterial → Option Bytes → Result Bytes
  unfolding encode_payload
  seal_payload payload key_material random_nonce = do
    plaintext ← encode_payload cbor payload
    let output = key_material.prefix_through_dek_tag ++ to_be 8 (length plaintext) []
    nonce ← ok_or random_nonce crypto_unavailable
    encrypted ← encrypt key_material.dek nonce plaintext (associated_data payload_domain output)
    ok (output ++ (nonce ++ encrypted))

  unfoldable pub create_vault :
      VaultPayload
      → Bytes
      → Option Bytes
      → Option Bytes
      → Option Bytes
      → Option Bytes
      → Result (UnlockedVault × Bytes)
  unfolding new_key_material seal_payload
  create_vault payload passphrase random_salt random_dek random_nonce random_payload_nonce = do
    key_material ← new_key_material passphrase random_salt random_dek random_nonce
    encrypted ← seal_payload payload key_material random_payload_nonce
    ok (record { payload = payload; key_material = key_material }, encrypted)

  unfoldable pub unlock_vault : Bytes → Bytes → Result UnlockedVault
  unfolding parse_file decode_payload
  unlock_vault file passphrase = do
    parsed ← parse_file cbor file
    kek ← derive_kek passphrase parsed.header
    dek ←
        decrypt kek parsed.dek_nonce parsed.wrapped_dek
          (associated_data dek_domain parsed.prefix_before_dek)
    ensure (length dek == key_bytes) vault_authentication_failed
    plaintext ←
        decrypt dek parsed.payload_nonce parsed.encrypted_payload
          (associated_data payload_domain parsed.prefix_through_payload_len)
    payload ← as_unauthentic (decode_payload ext cbor plaintext)
    ok record {
      payload = payload;
      key_material = record { prefix_through_dek_tag = parsed.prefix_through_dek_tag; dek = dek };
    }
