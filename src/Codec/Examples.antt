-- ===== src/Codec/Examples.antt =====
-- The codec at a concrete input, with a CBOR of one byte for each number.
use ladon.Prelude.{◌≡◌, ◌≤◌, refl, [], ◌∷◌, nat_eq, list_eq}
use ladon.Prelude.Result.{ok}
use ladon.Vault.{max_records}
use ladon.Vault.Valid.{IsIdempotent, IsValid}
use ladon.Codec.{
  payload_bytes, encode_payload, encode_field, encode_fields, encode_record, encode_records,
  encode_unknown,
}
use ladon.Codec.Payload.{decode_payload}
use ladon.Codec.RoundTrip.{decode_payload-encode_payload}
use ladon.Codec.Opened.{decode_payload-IsValid}
use ladon.Codec.Bytewise.{as_is, bytewise, bytewise-IsCbor, payload, payload-IsPayload, api}

payload-encoded : encode_payload bytewise payload ≡ ok (payload_bytes bytewise payload)
unfolding encode_payload payload_bytes encode_records encode_record encode_fields encode_field
    encode_unknown
payload-encoded = refl

decode_payload-encode_payload_example :
    decode_payload as_is bytewise (payload_bytes bytewise payload) ≡ ok payload
decode_payload-encode_payload_example =
    decode_payload-encode_payload as_is bytewise bytewise-IsCbor payload
      (payload_bytes bytewise payload) payload-IsPayload payload-encoded

payload-decoded : decode_payload as_is bytewise (payload_bytes bytewise payload) ≡ ok payload
payload-decoded =
    decode_payload-encode_payload as_is bytewise bytewise-IsCbor payload
      (payload_bytes bytewise payload) payload-IsPayload payload-encoded

as_is-IsIdempotent : IsIdempotent as_is
as_is-IsIdempotent t = refl

decode_payload-IsValid_example : (1 ≤ max_records) × IsValid as_is (api ∷ [])
decode_payload-IsValid_example =
    decode_payload-IsValid as_is bytewise as_is-IsIdempotent (payload_bytes bytewise payload)
      payload payload-decoded
