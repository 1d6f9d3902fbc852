-- ===== src/Codec/Payload.antt =====
-- `decode_payload` (crates/ladon-core/src/codec.rs).
use ladon.Prelude.{[], ◌∷◌, leb, ◌==◌, list_eq, length}
use ladon.Prelude.Result.{
  Result, ok, err, ◌>>=◌, ◌>>◌, invalid_vault_payload, vault_payload_too_large, ok_or, ensure,
}
use ladon.Model.{Externals}
use ladon.Redact.Utf8.{Bytes}
use ladon.Vault.{VaultPayload, new_payload}
use ladon.Codec.{Cbor, max_vault_payload_bytes, encode_payload}
use ladon.Codec.Decode.{Partial, read_payload}

-- What `decode_payload` makes of the parts.
unfoldable pub assemble : Partial → Result VaultPayload
assemble p = do
  vault_id ← ok_or p.vault_id invalid_vault_payload
  revision ← ok_or p.revision invalid_vault_payload
  records ← ok_or p.records invalid_vault_payload
  payload ← new_payload vault_id revision records
  seconds ← ok_or p.idle_timeout_seconds invalid_vault_payload
  ok (record payload { idle_timeout_seconds = seconds; unknown = p.unknown })

-- All of the input must have been read.
abbrev pub finished {ℓ} : {A : Type ℓ} → Bytes × Result A → Result A
finished (rest, err e) = err e
finished ([], ok a) = ok a
finished (b ∷ rest, ok a) = err invalid_vault_payload

unfoldable pub decode_payload : Externals → Cbor → Bytes → Result VaultPayload
unfolding read_payload assemble
decode_payload ext cbor input = do
  ensure (leb (length input) max_vault_payload_bytes) vault_payload_too_large
  parts ← finished (read_payload ext cbor input)
  payload ← assemble parts
  encoded ← encode_payload cbor payload
  ensure (encoded == input) invalid_vault_payload
  ok payload
