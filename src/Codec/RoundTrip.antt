-- ===== src/Codec/RoundTrip.antt =====
-- `decode_payload` reads back what `encode_payload` has written (crates/ladon-core/src/codec.rs).
use ladon.Prelude.{
  ℕ, suc, ◌+◌, ◌≡◌, ◌≤◌, ◌<◌, refl, Bool, true, false, some, [], ◌++◌, leb, ◌==◌, nat_eq, list_eq,
  if◌then◌else◌, length, arith, ap, ◌∙◌,
}
use ladon.Prelude.Result.{
  then_ok, ok, err, ensure, ok_injective, LadonError, invalid_vault_payload,
  vault_payload_too_large,
}
use ladon.Model.{Externals}
use ladon.Redact.Utf8.{Bytes}
use ladon.Vault.{VaultPayload, new_payload}
use ladon.Codec.{
  Cbor, payload_bytes, encode_payload, encode_unknown, encode_records, max_vault_payload_bytes,
}
use ladon.Codec.Decode.{
  Partial, nothing_read, decode_entry, decode_entries, decode_value, is_above, decode_id,
  decode_records, decode_settings, definite_len, read_payload,
}
use ladon.Codec.Payload.{assemble, finished, decode_payload}
use ladon.Codec.Laws.{IsCbor, IsPayload, decode_step, then_step, lift_step}
use ladon.Codec.Parts.{definite_map, decode_id_lem, decode_records_lem, decode_settings_lem, fits}
use ladon.Codec.Unknown.{last_key, decode_entries-unknown}

pub read_back :
    (test : Bool) (e : LadonError) (encoded bytes : Bytes)
    → (if test then ok encoded else err e) ≡ ok bytes
    → (test ≡ true) × (encoded ≡ bytes)
read_back true e encoded bytes h = (refl, ok_injective encoded bytes h)
read_back false e encoded bytes h = cc

four_more : (n : ℕ) → 4 + n ≡ suc (suc (suc (suc n)))
four_more n = omega arith

four_above : (n : ℕ) → n ≤ 10000 → 4 + n ≤ 10004
four_above n h = omega arith

module _ (ext : Externals) (cbor : Cbor) (laws : IsCbor cbor) where
  abbrev parts : VaultPayload → Partial
  parts p = record {
    vault_id = some p.vault_id;
    revision = some p.revision;
    records = some p.records;
    idle_timeout_seconds = some p.idle_timeout_seconds;
    unknown = p.unknown;
    previous_key = some (last_key 3 p.unknown);
  }

  known_step :
      (key : ℕ) (before rest : Bytes) (p p' : Partial)
      → key < 256
      → is_above p.previous_key key ≡ true
      → decode_value ext cbor key (record p { previous_key = some key }) before ≡ (rest, ok p')
      → decode_entry ext cbor p (cbor.put_u8 key ++ before) ≡ (rest, ok p')
  unfolding decode_entry
  known_step key before rest p p' small above value =
      decode_step cbor.get_u64 _ _ _ key (laws.wide_u8 key before small)
      ∙ lift_step (ensure (is_above p.previous_key key) invalid_vault_payload) _ before tt
          (ap (λ b. ensure b invalid_vault_payload) above)
      ∙ value

  abbrev with_id : VaultPayload → Partial
  with_id p = record nothing_read { vault_id = some p.vault_id; previous_key = some 0 }

  decode_entry-id :
      (p : VaultPayload) (rest : Bytes)
      → IsPayload ext cbor p
      → decode_entry ext cbor nothing_read
          (cbor.put_u8 0 ++ (cbor.put_bytes (cbor.as_bytes p.vault_id) ++ rest))
        ≡ (rest, ok (with_id p))
  decode_entry-id p rest is = known_step 0 _ rest nothing_read (with_id p) (omega arith) refl (
      then_step (decode_id cbor) _ _ rest p.vault_id
        (decode_id_lem cbor laws p.vault_id rest is.identifier))

  abbrev with_revision : VaultPayload → Partial
  with_revision p = record (with_id p) { revision = some p.revision; previous_key = some 1 }

  decode_entry-revision :
      (p : VaultPayload) (rest : Bytes)
      → IsPayload ext cbor p
      → decode_entry ext cbor (with_id p) (cbor.put_u8 1 ++ (cbor.put_u64 p.revision ++ rest))
        ≡ (rest, ok (with_revision p))
  decode_entry-revision p rest is =
      known_step 1 _ rest (with_id p) (with_revision p) (omega arith) refl
        (decode_step cbor.get_u64 _ _ rest p.revision (laws.u64 p.revision rest is.revision))

  abbrev with_records : VaultPayload → Partial
  with_records p = record (with_revision p) { records = some p.records; previous_key = some 2 }

  decode_entry-records :
      (p : VaultPayload) (rest : Bytes)
      → IsPayload ext cbor p
      → decode_entry ext cbor (with_revision p) (
          cbor.put_u8 2
          ++ (cbor.put_array (length p.records) ++ (encode_records cbor p.records ++ rest)))
        ≡ (rest, ok (with_records p))
  decode_entry-records p rest is =
      known_step 2 _ rest (with_revision p) (with_records p) (omega arith) refl (
        then_step (decode_records ext cbor) _ _ rest p.records
          (decode_records_lem cbor laws ext p.records rest is.few_records is.records))

  abbrev with_settings : VaultPayload → Partial
  with_settings p = record (with_records p) {
    idle_timeout_seconds = some p.idle_timeout_seconds;
    previous_key = some 3;
  }

  decode_entry-settings :
      (p : VaultPayload) (rest : Bytes)
      → IsPayload ext cbor p
      → decode_entry ext cbor (with_records p) (
          cbor.put_u8 3
          ++ (cbor.put_map 1 ++ (cbor.put_u8 0 ++ (cbor.put_u32 p.idle_timeout_seconds ++ rest))))
        ≡ (rest, ok (with_settings p))
  decode_entry-settings p rest is =
      known_step 3 _ rest (with_records p) (with_settings p) (omega arith) refl (
        then_step (decode_settings cbor) _ _ rest p.idle_timeout_seconds
          (decode_settings_lem cbor laws p.idle_timeout_seconds rest is.seconds))

  abbrev known_bytes : VaultPayload → Bytes
  known_bytes p =
      (cbor.put_u8 0
        ++ (cbor.put_bytes (cbor.as_bytes p.vault_id)
            ++ (cbor.put_u8 1
                ++ (cbor.put_u64 p.revision
                    ++ (cbor.put_u8 2
                        ++ (cbor.put_array (length p.records)
                            ++ (encode_records cbor p.records
                                ++ (cbor.put_u8 3
                                    ++ (cbor.put_map 1
                                        ++ (cbor.put_u8 0
                                            ++ (cbor.put_u32 p.idle_timeout_seconds
                                                ++ encode_unknown cbor p.unknown)))))))))))

  decode_known :
      (p : VaultPayload)
      → IsPayload ext cbor p
      → decode_entries ext cbor
          (suc (suc (suc (suc (length p.unknown)))))
          nothing_read
          (known_bytes p)
        ≡ ([], ok (parts p))
  unfolding decode_entries decode_entry
  decode_known p is =
      then_step (decode_entry ext cbor nothing_read) _ _ _ (with_id p) (decode_entry-id p _ is)
      ∙ then_step (decode_entry ext cbor (with_id p)) _ _ _ (with_revision p)
          (decode_entry-revision p _ is)
      ∙ then_step (decode_entry ext cbor (with_revision p)) _ _ _ (with_records p)
          (decode_entry-records p _ is)
      ∙ then_step (decode_entry ext cbor (with_records p)) _ _ _ (with_settings p)
          (decode_entry-settings p _ is)
      ∙ decode_entries-unknown ext cbor laws (with_settings p) [] 3 p.unknown is.unknown
          is.ascending tt

  read_payload-payload_bytes :
      (p : VaultPayload)
      → IsPayload ext cbor p
      → read_payload ext cbor (payload_bytes cbor p) ≡ ([], ok (parts p))
  unfolding read_payload payload_bytes
  read_payload-payload_bytes p is =
      then_step (definite_len cbor.get_map 10004) _ _ _ (4 + length p.unknown) (
        definite_map cbor laws (4 + length p.unknown) 10004 _
          (four_above (length p.unknown) is.few_unknown)
          (fits 10004 _ (four_above (length p.unknown) is.few_unknown) (omega arith)))
      ∙ ap (λ n. decode_entries ext cbor n nothing_read (known_bytes p))
          (four_more (length p.unknown))
      ∙ decode_known p is

  assemble-parts : (p : VaultPayload) → IsPayload ext cbor p → assemble (parts p) ≡ ok p
  unfolding assemble
  assemble-parts p is = then_ok (new_payload p.vault_id p.revision p.records) _ _ is.apart

  -- A well-formed payload of at most 67,108,864 bytes is what its encoding is decoded into, if what the
  -- CBOR package encodes it also decodes.
  pub decode_payload-encode_payload :
      (p : VaultPayload) (bytes : Bytes)
      → IsPayload ext cbor p
      → encode_payload cbor p ≡ ok bytes
      → decode_payload ext cbor bytes ≡ ok p
  unfolding encode_payload decode_payload
  decode_payload-encode_payload p bytes is encoded =
      let (small, same) = read_back _ _ (payload_bytes cbor p) bytes encoded in
      let small' : leb (length bytes) max_vault_payload_bytes ≡ true = rw (← same) small in
      let parsed : read_payload ext cbor bytes ≡ ([], ok (parts p)) =
        rw (← same) (read_payload-payload_bytes p is) in
      then_ok (ensure (leb (length bytes) max_vault_payload_bytes) vault_payload_too_large) _ tt
        (ap (λ b. ensure b vault_payload_too_large) small')
      ∙ then_ok (finished (read_payload ext cbor bytes)) _ (parts p) (ap finished parsed)
      ∙ then_ok (assemble (parts p)) _ p (assemble-parts p is)
      ∙ then_ok (encode_payload cbor p) _ bytes encoded
      ∙ then_ok (ensure (bytes == bytes) invalid_vault_payload) (λ _. ok p) tt
          (ap (λ b. ensure b invalid_vault_payload) ((list_eq.eq_iff bytes bytes).1 refl))
