-- ===== src/Crypto/Rotate.antt =====
-- `rotate_passphrase` and `verify_current_passphrase` (crates/ladon-core/src/crypto.rs).
use ladon.Prelude.{◌+◌, ◌≡◌, Option, some, ◌==◌, nat_eq, length, take, drop}
use ladon.Prelude.Result.{
  Result, ok, ◌>>=◌, ◌>>◌, ensure, bind_ok, invalid_vault_file, vault_authentication_failed,
}
use ladon.Model.{Externals}
use ladon.Redact.Utf8.{Bytes}
use ladon.Codec.{Cbor}
use ladon.Codec.Laws.{IsCbor, IsPayload}
use ladon.Crypto.{
  fixed_prefix_bytes, wrapper_bytes, nonce_bytes, key_bytes, dek_domain, KeyMaterial, UnlockedVault,
  Primitives,
}
use ladon.Crypto.Header.{decode_header}
use ladon.Crypto.File.{
  slice, read_number, associated_data, derive_kek, decrypt, new_key_material, seal_payload,
  create_vault, unlock_vault,
}
use ladon.Crypto.Unlock.{IsCipher, unlock_vault-create_vault}

module _ (ext : Externals) (cbor : Cbor) (primitives : Primitives) where
  unfoldable pub verify_current_passphrase : KeyMaterial → Bytes → Result (Unit {0})
  unfolding read_number decode_header
  verify_current_passphrase key_material passphrase = do
    let prefix = key_material.prefix_through_dek_tag
    header_len ← read_number 4 prefix 10
    let header_end = fixed_prefix_bytes + header_len
    ensure (length prefix == header_end + wrapper_bytes) invalid_vault_file
    header ← decode_header cbor (slice fixed_prefix_bytes header_end prefix)
    kek ← derive_kek ext cbor primitives passphrase header
    candidate ←
        decrypt ext cbor primitives kek (slice header_end (header_end + nonce_bytes) prefix)
          (drop (header_end + nonce_bytes) prefix)
          (associated_data dek_domain (take header_end prefix))
    ensure (length candidate == key_bytes) vault_authentication_failed

  -- The vault is changed in the last step only: an error leaves it as it is.
  unfoldable pub rotate_passphrase :
      UnlockedVault
      → Bytes
      → Bytes
      → Option Bytes
      → Option Bytes
      → Option Bytes
      → Option Bytes
      → Result (UnlockedVault × Bytes)
  unfolding verify_current_passphrase new_key_material seal_payload
  rotate_passphrase vault current_passphrase new_passphrase random_salt random_dek random_nonce
        random_payload_nonce =
      do
        verify_current_passphrase vault.key_material current_passphrase
        new_material ←
            new_key_material ext cbor primitives new_passphrase random_salt random_dek random_nonce
        encrypted ← seal_payload ext cbor primitives vault.payload new_material random_payload_nonce
        ok (record vault { key_material = new_material }, encrypted)

  -- After a change of the passphrase, the new file is unlocked with the new passphrase, and gives the vault as it
  -- then is. The random bytes are as many as the code asks for.
  unlock_vault-rotate_passphrase :
      IsCbor cbor
      → IsCipher primitives
      → (vault vault' : UnlockedVault) → IsPayload ext cbor vault.payload
      → (current new salt dek nonce payload_nonce encrypted : Bytes) → length salt ≡ 16
      → length dek ≡ 32
      → length nonce ≡ 24
      → length payload_nonce ≡ 24
      → rotate_passphrase vault current new (some salt) (some dek) (some nonce) (some payload_nonce)
        ≡ ok (vault', encrypted)
      → unlock_vault ext cbor primitives encrypted new ≡ ok vault'
  unfolding rotate_passphrase create_vault
  unlock_vault-rotate_passphrase laws cipher vault vault' is current new salt dek nonce
        payload_nonce encrypted salt_length dek_length nonce_length payload_nonce_length rotated =
      let (verified, _, created) =
        bind_ok (verify_current_passphrase vault.key_material current) _ (vault', encrypted)
          rotated in
      unlock_vault-create_vault ext cbor primitives laws cipher vault.payload is new salt dek nonce
        payload_nonce encrypted vault' salt_length dek_length nonce_length payload_nonce_length
        created
