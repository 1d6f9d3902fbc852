-- ===== src/Crypto/Unlock.antt =====
-- A vault that is created is unlocked with the same passphrase (crates/ladon-core/src/crypto.rs).
use ladon.Prelude.{
  ◌+◌, ◌≡◌, ◌≤◌, refl, true, some, [], ◌++◌, ◌==◌, nat_eq, length, arith, ap, sym, ◌∙◌, subst,
}
use ladon.Prelude.Result.{
  ok, ensure, ok_or, ok_or_ok, bind_ok, then_ok, ok_injective, invalid_vault_file,
  vault_authentication_failed,
}
use ladon.Model.{Externals}
use ladon.Redact.Utf8.{Bytes}
use ladon.Vault.{VaultPayload}
use ladon.Codec.{Cbor, payload_bytes, encode_payload}
use ladon.Codec.Payload.{decode_payload}
use ladon.Codec.Laws.{IsCbor, IsPayload}
use ladon.Codec.RoundTrip.{read_back, decode_payload-encode_payload}
use ladon.Crypto.{KeyMaterial, UnlockedVault, Primitives, encode_header, dek_domain, payload_domain}
use ladon.Crypto.File.{
  to_be, parse_file, associated_data, default_header, prefix_of, derive_kek, encrypt, decrypt,
  as_unauthentic, new_key_material, seal_payload, create_vault, unlock_vault,
}
use ladon.Crypto.Sealed.{decode_header-encode_header, file, parsed, parse_file_lem, passes}

-- What is encrypted is decrypted with the same key, nonce and associated data, and the tag has 16 bytes.
pub record IsCipher (primitives : Primitives) : Type 0 where
  pub decrypts :
      (key nonce text aad c : Bytes)
      → primitives.cipher_encrypt key nonce text aad ≡ some c
      → primitives.cipher_decrypt key nonce c aad ≡ some text
  pub lengthens :
      (key nonce text aad c : Bytes)
      → primitives.cipher_encrypt key nonce text aad ≡ some c
      → length c ≡ length text + 16

module _ (ext : Externals) (cbor : Cbor) (primitives : Primitives) where
  decrypt-encrypt :
      IsCipher primitives
      → (key nonce text aad c : Bytes) → encrypt ext cbor primitives key nonce text aad ≡ ok c
      → (decrypt ext cbor primitives key nonce c aad ≡ ok text) × (length c ≡ length text + 16)
  decrypt-encrypt cipher key nonce text aad c h =
      let made = ok_or_ok (primitives.cipher_encrypt key nonce text aad) invalid_vault_file c h in
      (
        ap (λ o. ok_or o vault_authentication_failed) (cipher.decrypts key nonce text aad c made),
        cipher.lengthens key nonce text aad c made,
      )

  unlock_vault_lem :
      IsCbor cbor
      → IsCipher primitives
      → (payload : VaultPayload) → IsPayload ext cbor payload
      → (passphrase salt dek nonce payload_nonce hb kek wrapped plaintext encrypted : Bytes)
      → length salt ≡ 16
      → length dek ≡ 32
      → length nonce ≡ 24
      → length payload_nonce ≡ 24
      → encode_header cbor (default_header salt) ≡ ok hb
      → derive_kek ext cbor primitives passphrase (default_header salt) ≡ ok kek
      → encrypt ext cbor primitives kek nonce dek (associated_data dek_domain (prefix_of hb))
        ≡ ok wrapped
      → encode_payload cbor payload ≡ ok plaintext
      → encrypt ext cbor primitives dek payload_nonce plaintext (
          associated_data payload_domain
            ((prefix_of hb ++ (nonce ++ wrapped)) ++ to_be 8 (length plaintext) []))
        ≡ ok encrypted
      → unlock_vault ext cbor primitives
          (((prefix_of hb ++ (nonce ++ wrapped)) ++ to_be 8 (length plaintext) [])
            ++ (payload_nonce ++ encrypted))
          passphrase
        ≡ ok (record {
          payload = payload;
          key_material = record {
            prefix_through_dek_tag = prefix_of hb ++ (nonce ++ wrapped);
            dek = dek;
          };
        })
  unfolding unlock_vault encode_payload parsed
  unlock_vault_lem laws cipher payload is passphrase salt dek nonce payload_nonce hb kek wrapped
        plaintext encrypted salt_length dek_length nonce_length payload_nonce_length header kek_is
        wraps encodes seals =
      let aad = associated_data dek_domain (prefix_of hb) in
      let output = (prefix_of hb ++ (nonce ++ wrapped)) ++ to_be 8 (length plaintext) [] in
      let (key_back, wrapped_length) = decrypt-encrypt cipher kek nonce dek aad wrapped wraps in
      let (text_back, encrypted_length) =
        decrypt-encrypt cipher dek payload_nonce plaintext (associated_data payload_domain output)
          encrypted seals in
      let (short, decodes) =
        decode_header-encode_header cbor laws (default_header salt) hb (rw salt_length refl)
          header in
      let (small, same) = read_back _ _ (payload_bytes cbor payload) plaintext encodes in
      let fits : length plaintext ≤ 67108864 = ground arith in
      let whole =
        parse_file_lem cbor hb nonce wrapped (to_be 8 (length plaintext) []) payload_nonce encrypted
          (length plaintext) (default_header salt) decodes short nonce_length (omega arith) refl
          payload_nonce_length encrypted_length fits in
      let key_fits : (length dek == 32) ≡ true = (nat_eq.eq_iff (length dek) 32).1 dek_length in
      then_ok (parse_file cbor (output ++ (payload_nonce ++ encrypted))) _ _ whole
      ∙ then_ok (derive_kek ext cbor primitives passphrase (default_header salt)) _ kek kek_is
      ∙ then_ok (decrypt ext cbor primitives kek nonce wrapped aad) _ dek key_back
      ∙ then_ok (ensure (length dek == 32) vault_authentication_failed) _ tt
          (passes _ vault_authentication_failed key_fits)
      ∙ then_ok
          (decrypt ext cbor primitives dek payload_nonce encrypted
            (associated_data payload_domain output))
          _ plaintext text_back
      ∙ then_ok (as_unauthentic ext cbor primitives (decode_payload ext cbor plaintext)) _ payload (
          ap (as_unauthentic ext cbor primitives)
            (decode_payload-encode_payload ext cbor laws payload plaintext is encodes))

  create_vault_ok :
      (payload : VaultPayload) (passphrase salt dek nonce payload_nonce encrypted : Bytes)
      (vault : UnlockedVault)
      → create_vault ext cbor primitives payload passphrase
          (some salt)
          (some dek)
          (some nonce)
          (some payload_nonce)
        ≡ ok (vault, encrypted)
      → (material : KeyMaterial) × (new_key_material ext cbor primitives passphrase
            (some salt)
            (some dek)
            (some nonce)
          ≡ ok material)
        × (seal_payload ext cbor primitives payload material (some payload_nonce) ≡ ok encrypted)
        × (vault ≡ record { payload = payload; key_material = material })
  unfolding create_vault
  create_vault_ok payload passphrase salt dek nonce payload_nonce encrypted vault created =
      let (material, made, h) =
        bind_ok
          (new_key_material ext cbor primitives passphrase (some salt) (some dek) (some nonce)) _
          (vault, encrypted) created in
      let (file, sealed, h') =
        bind_ok (seal_payload ext cbor primitives payload material (some payload_nonce)) _
          (vault, encrypted) h in
      let both = ok_injective _ (vault, encrypted) h' in
      (material, made, sealed ∙ ap (λ p. ok p.1) both, sym (ap (λ p. p.0) both))

  new_key_material_ok :
      (passphrase salt dek nonce : Bytes) (material : KeyMaterial)
      → new_key_material ext cbor primitives passphrase (some salt) (some dek) (some nonce)
        ≡ ok material
      → (hb kek wrapped : Bytes) × (encode_header cbor (default_header salt) ≡ ok hb)
        × (derive_kek ext cbor primitives passphrase (default_header salt) ≡ ok kek)
        × (encrypt ext cbor primitives kek nonce dek (associated_data dek_domain (prefix_of hb))
            ≡ ok wrapped)
        × (material
            ≡ record { prefix_through_dek_tag = prefix_of hb ++ (nonce ++ wrapped); dek = dek })
  unfolding new_key_material
  new_key_material_ok passphrase salt dek nonce material made =
      let (hb, header, h) = bind_ok (encode_header cbor (default_header salt)) _ material made in
      let (kek, kek_is, h') =
        bind_ok (derive_kek ext cbor primitives passphrase (default_header salt)) _ material h in
      let (wrapped, wraps, h'') =
        bind_ok
          (encrypt ext cbor primitives kek nonce dek (associated_data dek_domain (prefix_of hb))) _
          material h' in
      (hb, kek, wrapped, header, kek_is, wraps, sym (ok_injective _ material h''))

  seal_payload_ok :
      (payload : VaultPayload) (material : KeyMaterial) (payload_nonce file : Bytes)
      → seal_payload ext cbor primitives payload material (some payload_nonce) ≡ ok file
      → (plaintext encrypted : Bytes) × (encode_payload cbor payload ≡ ok plaintext)
        × (encrypt ext cbor primitives material.dek payload_nonce plaintext (
              associated_data payload_domain
                (material.prefix_through_dek_tag ++ to_be 8 (length plaintext) []))
            ≡ ok encrypted)
        × (file
            ≡ (material.prefix_through_dek_tag ++ to_be 8 (length plaintext) [])
              ++ (payload_nonce ++ encrypted))
  unfolding seal_payload
  seal_payload_ok payload material payload_nonce file sealed =
      let (plaintext, encodes, h) = bind_ok (encode_payload cbor payload) _ file sealed in
      let output = material.prefix_through_dek_tag ++ to_be 8 (length plaintext) [] in
      let (encrypted, seals, h') =
        bind_ok
          (encrypt ext cbor primitives material.dek payload_nonce plaintext
            (associated_data payload_domain output))
          _ file h in
      (plaintext, encrypted, encodes, seals, sym (ok_injective _ file h'))

  -- A vault that is created with a well-formed payload is unlocked from its file with the same passphrase: with
  -- its payload and its keys. The random bytes are as many as the code asks for.
  pub unlock_vault-create_vault :
      IsCbor cbor
      → IsCipher primitives
      → (payload : VaultPayload) → IsPayload ext cbor payload
      → (passphrase salt dek nonce payload_nonce encrypted : Bytes) (vault : UnlockedVault)
      → length salt ≡ 16
      → length dek ≡ 32
      → length nonce ≡ 24
      → length payload_nonce ≡ 24
      → create_vault ext cbor primitives payload passphrase
          (some salt)
          (some dek)
          (some nonce)
          (some payload_nonce)
        ≡ ok (vault, encrypted)
      → unlock_vault ext cbor primitives encrypted passphrase ≡ ok vault
  unlock_vault-create_vault laws cipher payload is passphrase salt dek nonce payload_nonce encrypted
        vault salt_length dek_length nonce_length payload_nonce_length created =
      let (material, made, sealed, vault_is) =
        create_vault_ok payload passphrase salt dek nonce payload_nonce encrypted vault created in
      let (hb, kek, wrapped, header, kek_is, wraps, material_is) =
        new_key_material_ok passphrase salt dek nonce material made in
      let sealed' =
        subst (λ m. seal_payload ext cbor primitives payload m (some payload_nonce) ≡ ok encrypted)
          material_is sealed in
      let (plaintext, text, encodes, seals, file_is) =
        seal_payload_ok payload _ payload_nonce encrypted sealed' in
      ap (λ f. unlock_vault ext cbor primitives f passphrase) file_is
      ∙ unlock_vault_lem laws cipher payload is passphrase salt dek nonce payload_nonce hb kek
          wrapped plaintext text salt_length dek_length nonce_length payload_nonce_length header
          kek_is wraps encodes seals
      ∙ ap (λ m. ok (record { payload = payload; key_material = m })) (sym material_is)
      ∙ ap ok (sym vault_is)
