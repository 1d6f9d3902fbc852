-- ===== src/Crypto/Examples.antt =====
-- A vault at a concrete input, with a cipher that appends a tag.
use mathlib.Core.Option.{some-injective}
use ladon.Prelude.{
  ◌+◌, ◌-◌, ◌≡◌, refl, Option, some, [], ◌∷◌, ◌++◌, length, length-append, take, arith, ap, sym,
  ◌∙◌,
}
use ladon.Prelude.Result.{ok}
use ladon.Redact.Utf8.{Bytes}
use ladon.Codec.{
  payload_bytes, encode_payload, encode_records, encode_record, encode_fields, encode_field,
  encode_unknown,
}
use ladon.Codec.Bytewise.{as_is, bytewise, bytewise-IsCbor, payload, payload-IsPayload}
use ladon.Crypto.{KdfHeader, UnlockedVault, Primitives, header_bytes, encode_header}
use ladon.Crypto.File.{
  to_be, default_header, prefix_of, new_key_material, seal_payload, create_vault, unlock_vault,
}
use ladon.Crypto.Slices.{take_front}
use ladon.Crypto.Unlock.{IsCipher, unlock_vault-create_vault}

abbrev zeros : Bytes
zeros = 0 ∷ 0 ∷ 0 ∷ 0 ∷ 0 ∷ 0 ∷ 0 ∷ 0 ∷ []

abbrev as_key : KdfHeader → Bytes → Option Bytes
as_key header passphrase = some passphrase

abbrev tagged : Bytes → Bytes → Bytes → Bytes → Option Bytes
tagged key nonce text aad = some (text ++ (zeros ++ zeros))

abbrev untagged : Bytes → Bytes → Bytes → Bytes → Option Bytes
untagged key nonce text aad = some (take (length text - 16) text)

abbrev tagging : Primitives
tagging = record { hash_password = as_key; cipher_encrypt = tagged; cipher_decrypt = untagged }

tagged_length : (text : Bytes) → length (text ++ (zeros ++ zeros)) ≡ length text + 16
tagged_length text = length-append text (zeros ++ zeros)

tagging-IsCipher : IsCipher tagging
tagging-IsCipher = record {
  decrypts = λ key nonce text aad c h.
      let is : text ++ (zeros ++ zeros) ≡ c = some-injective _ _ h in
      ap (λ d. some (take (length d - 16) d)) (sym is)
      ∙ ap some (take_front _ text (zeros ++ zeros) (omega (arith, tagged_length text)));
  lengthens = λ key nonce text aad c h. ap length (sym (some-injective _ _ h)) ∙ tagged_length text;
}

abbrev salt : Bytes
salt = 3 ∷ 0 ∷ 0 ∷ 0 ∷ 0 ∷ 0 ∷ 0 ∷ 0 ∷ zeros

abbrev key : Bytes
key = salt ++ (zeros ++ zeros)

abbrev nonce : Bytes
nonce = zeros ++ salt

abbrev made : UnlockedVault
made = record {
  payload = payload;
  key_material = record {
    prefix_through_dek_tag =
        prefix_of (header_bytes bytewise (default_header salt))
        ++ (nonce ++ (key ++ (zeros ++ zeros)));
    dek = key;
  };
}

abbrev sealed : Bytes
sealed =
    (made.key_material.prefix_through_dek_tag
      ++ to_be 8 (length (payload_bytes bytewise payload)) [])
    ++ (nonce ++ (payload_bytes bytewise payload ++ (zeros ++ zeros)))

vault_created :
    create_vault as_is bytewise tagging payload
      (9 ∷ [])
      (some salt)
      (some key)
      (some nonce)
      (some nonce)
    ≡ ok (made, sealed)
unfolding create_vault new_key_material seal_payload encode_header encode_payload payload_bytes
    encode_records encode_record encode_fields encode_field encode_unknown
vault_created = refl

unlock_vault-create_vault_example : unlock_vault as_is bytewise tagging sealed (9 ∷ []) ≡ ok made
unlock_vault-create_vault_example =
    unlock_vault-create_vault as_is bytewise tagging bytewise-IsCbor tagging-IsCipher payload
      payload-IsPayload (9 ∷ []) salt key nonce nonce sealed made refl refl refl refl vault_created
