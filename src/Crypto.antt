-- ===== src/Crypto.antt =====
-- crates/ladon-core/src/crypto.rs: the encrypted file of a vault. The hash of the passphrase and the cipher
-- are the parameter `Primitives`; CBOR is that of Codec. The random bytes are arguments; none where the system
-- gives none.
pub mod Header
pub mod File
pub mod Slices
pub mod Sealed
pub mod Unlock
pub mod Rotate
mod Examples
use ladon.Prelude.{
  ℕ, ◌+◌, ◌*◌, ◌/◌, ◌%◌, Bool, true, false, not, ◌&&◌, ◌||◌, Option, none, some, List, [], ◌∷◌,
  ◌++◌, leb, ◌==◌, nat_eq, list_eq, length, if◌then◌else◌,
}
use ladon.Prelude.Utf8.{codes}
use ladon.Prelude.Result.{
  Result, ok, err, LadonError, ◌>>=◌, ◌>>◌, ensure, ok_or, invalid_vault_file,
}
use ladon.Model.{Text}
use ladon.Redact.Utf8.{Bytes}
use ladon.Vault.{VaultPayload}
use ladon.Codec.{Cbor, max_vault_payload_bytes}

abbrev pub magic : Bytes
magic = 76 ∷ 65 ∷ 68 ∷ 79 ∷ 78 ∷ 86 ∷ 49 ∷ 0 ∷ []

abbrev pub version : ℕ
version = 1

abbrev pub fixed_prefix_bytes : ℕ
fixed_prefix_bytes = 14

abbrev pub max_header_bytes : ℕ
max_header_bytes = 4096

abbrev pub nonce_bytes : ℕ
nonce_bytes = 24

abbrev pub key_bytes : ℕ
key_bytes = 32

abbrev pub tag_bytes : ℕ
tag_bytes = 16

-- The nonce and the wrapped key.
abbrev pub wrapper_bytes : ℕ
wrapper_bytes = 72

abbrev pub payload_fixed_bytes : ℕ
payload_fixed_bytes = 48

abbrev pub dek_domain : Bytes
dek_domain = codes "ladon/dek/v1"

abbrev pub payload_domain : Bytes
payload_domain = codes "ladon/payload/v1"

pub record KdfHeader : Type 0 where
  pub memory_kib : ℕ
  pub passes : ℕ
  pub parallelism : ℕ
  pub salt : Bytes

pub record KeyMaterial : Type 0 where
  pub prefix_through_dek_tag : Bytes
  pub dek : Bytes

pub record UnlockedVault : Type 0 where
  pub payload : VaultPayload
  pub key_material : KeyMaterial

-- Argon2id for 32 bytes, and XChaCha20-Poly1305: key, nonce, text, associated data.
pub record Primitives : Type 0 where
  pub hash_password : KdfHeader → Bytes → Option Bytes
  pub cipher_encrypt : Bytes → Bytes → Bytes → Bytes → Option Bytes
  pub cipher_decrypt : Bytes → Bytes → Bytes → Bytes → Option Bytes

abbrev pub header_bytes : Cbor → KdfHeader → Bytes
header_bytes cbor header =
    cbor.put_map 5
    ++ (cbor.put_str (codes "kdf")
        ++ (cbor.put_str (codes "argon2id")
            ++ (cbor.put_str (codes "salt")
                ++ (cbor.put_bytes header.salt
                    ++ (cbor.put_str (codes "passes")
                        ++ (cbor.put_u32 header.passes
                            ++ (cbor.put_str (codes "memory_kib")
                                ++ (cbor.put_u32 header.memory_kib
                                    ++ (cbor.put_str (codes "parallelism")
                                        ++ cbor.put_u32 header.parallelism)))))))))

unfoldable pub encode_header : Cbor → KdfHeader → Result Bytes
encode_header cbor header =
    let encoded = header_bytes cbor header in
    if leb (length encoded) max_header_bytes then ok encoded else err invalid_vault_file
