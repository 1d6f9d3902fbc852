-- ===== src/Codec/Opened.antt =====
-- What holds of a payload that `decode_payload` accepts (crates/ladon-core/src/codec.rs).
use ladon.Prelude.{
  ℕ, zero, suc, ◌+◌, ◌-◌, not, take, is_none, ◌≡◌, ◌≤◌, refl, Option, none, some, List, [], ◌∷◌,
  leb, ◌==◌, nat_eq, list_eq, length, All, ap, sym, ◌∙◌, subst,
}
use ladon.Prelude.Result.{
  ok_or_ok, Result, ok, err, ensure, ensure_ok, ok_injective, bind_ok, ok_or, invalid_vault_payload,
}
use ladon.Prelude.Method.{Method, after, lift, return, read}
use ladon.Model.{Externals, SecretRecord, from_parts, max_fields_per_record}
use ladon.Redact.Utf8.{Bytes}
use ladon.Vault.{VaultPayload, new_payload, max_records}
use ladon.Vault.Valid.{IsIdempotent, IsValid, IsRecord, from_parts-IsRecord}
use ladon.Vault.Capacity.{new_payload-IsValid}
use ladon.Codec.{Cbor, encode_payload, max_vault_payload_bytes}
use ladon.Codec.Canonical.{decode, is_canonical_unknown_value}
use ladon.Codec.Decode.{
  as_invalid, expect_u8, insert, is_above, definite_len, decode_field, decode_many, decode_record,
  decode_records, decode_settings, decode_id, decode_unknown, Partial, nothing_read, decode_value,
  decode_entry, decode_entries, read_payload,
}
use ladon.Codec.Payload.{assemble, finished, decode_payload}

-- Where the method succeeds, its result satisfies the predicate.
abbrev Gives {ℓ} : {S : Type 0} {A : Type ℓ} → (A → Type 0) → Method S A → Type ℓ
Gives {S} {A} P m = (s s' : S) (a : A) → m s ≡ (s', ok a) → P a

after_ok {ℓ κ} :
    {S : Type 0} {A : Type ℓ} {B : Type κ} (o : S × Result A) (next : A → Method S B) (s' : S)
    (b : B)
    → after o next ≡ (s', ok b)
    → (s : S) × (a : A) × (o ≡ (s, ok a)) × (next a s ≡ (s', ok b))
after_ok (s, ok a) next s' b h = (s, a, refl, h)
after_ok (s, err e) next s' b h = cc

then_Gives {ℓ κ} :
    {S : Type 0} {A : Type ℓ} {B : Type κ} (P : B → Type 0) (m : Method S A) (next : A → Method S B)
    → ((a : A) → Gives P (next a))
    → Gives P (λ s. after (m s) next)
then_Gives P m next each s s' b h =
    let (s1, a, first, second) = after_ok (m s) next s' b h in each a s1 s' b second

given_Gives {ℓ κ} :
    {S : Type 0} {A : Type ℓ} {B : Type κ} (Q : A → Type 0) (P : B → Type 0) (m : Method S A)
    (next : A → Method S B)
    → Gives Q m
    → ((a : A) → Q a → Gives P (next a))
    → Gives P (λ s. after (m s) next)
given_Gives Q P m next before each s s' b h =
    let (s1, a, first, second) = after_ok (m s) next s' b h in
    each a (before s s1 a first) s1 s' b second

lift-Gives {ℓ} :
    {S : Type 0} {A : Type ℓ} (P : A → Type 0) (r : Result A)
    → ((a : A) → r ≡ ok a → P a)
    → Gives P (lift {S = S} r)
lift-Gives P r each s s' a h = each a (ap (λ o. o.1) h)

return-Gives {ℓ} :
    {S : Type 0} {A : Type ℓ} (P : A → Type 0) (a : A) → P a → Gives P (return {S = S} a)
return-Gives P a p s s' b h = subst P (ok_injective a b (ap (λ o. o.1) h)) p

module _ (ext : Externals) (cbor : Cbor) (idem : IsIdempotent ext) where
  as_invalid_ok {ℓ} : {A : Type ℓ} (r : Result A) (a : A) → as_invalid r ≡ ok a → r ≡ ok a
  as_invalid_ok (ok x) a h = h
  as_invalid_ok (err e) a h = cc

  decode_record-IsRecord : Gives (IsRecord ext) (decode_record ext cbor)
  unfolding decode_record
  decode_record-IsRecord = then_Gives (IsRecord ext) (definite_len cbor.get_map 3) _ λ entries.
      then_Gives (IsRecord ext) (lift (ensure (entries == 3) invalid_vault_payload)) _ λ _.
        then_Gives (IsRecord ext) (expect_u8 cbor 0) _ λ _.
          then_Gives (IsRecord ext) (decode_id cbor) _ λ id.
            then_Gives (IsRecord ext) (expect_u8 cbor 1) _ λ _.
              then_Gives (IsRecord ext) (decode cbor.get_str) _ λ name.
                then_Gives (IsRecord ext) (expect_u8 cbor 2) _ λ _.
                  then_Gives (IsRecord ext) (definite_len cbor.get_array max_fields_per_record) _
                    λ count.
                      then_Gives (IsRecord ext)
                        (lift (ensure (not (count == 0)) invalid_vault_payload)) _
                        λ _.
                          then_Gives (IsRecord ext) (decode_many (decode_field cbor) count) _
                            λ fields.
                              lift-Gives (IsRecord ext) (as_invalid (from_parts ext id name fields))
                                λ r h.
                                  (from_parts-IsRecord ext idem id name fields r
                                    (as_invalid_ok _ r h)).0

  decode_many-All :
      {A : Type 0} (P : A → Type 0) (item : Method Bytes A) (n : ℕ)
      → Gives P item
      → Gives (All P) (decode_many item n)
  unfolding decode_many
  decode_many-All P item zero each = return-Gives (All P) [] tt
  decode_many-All P item (suc n) each = given_Gives P (All P) item _ each λ x px.
      given_Gives (All P) (All P) (decode_many item n) _ (decode_many-All P item n each)
        λ xs pxs. return-Gives (All P) (x ∷ xs) (px, pxs)

  decode_records-IsRecord : Gives (All (IsRecord ext)) (decode_records ext cbor)
  unfolding decode_records
  decode_records-IsRecord =
      then_Gives _ (definite_len cbor.get_array max_records) _ λ count.
        decode_many-All (IsRecord ext) (decode_record ext cbor) count decode_record-IsRecord

  abbrev Held : Option (List SecretRecord) → Type 0
  Held none = Unit
  Held (some rs) = All (IsRecord ext) rs

  abbrev Holds : Partial → Type 0
  Holds p = Held p.records

  decode_unknown-Holds :
      (key : ℕ) (p : Partial) → Holds p → Gives Holds (decode_unknown ext cbor key p)
  unfolding decode_unknown
  decode_unknown-Holds key p held = then_Gives Holds read _ λ start.
      then_Gives Holds (decode cbor.skip) _ λ _. then_Gives Holds read _ λ position.
        then_Gives Holds
          (lift (
            ensure (is_canonical_unknown_value cbor (take (length start - length position) start))
              invalid_vault_payload))
          _
          λ _.
            return-Gives Holds
              (record p {
                unknown = insert key (take (length start - length position) start) p.unknown;
              })
              held

  decode_value-Holds : (key : ℕ) (p : Partial) → Holds p → Gives Holds (decode_value ext cbor key p)
  decode_value-Holds zero p held =
      then_Gives Holds (lift (ensure (is_none p.vault_id) invalid_vault_payload)) _ λ _.
        then_Gives Holds (decode_id cbor) _
          λ id. return-Gives Holds (record p { vault_id = some id }) held
  decode_value-Holds (suc zero) p held =
      then_Gives Holds (lift (ensure (is_none p.revision) invalid_vault_payload)) _ λ _.
        then_Gives Holds (decode cbor.get_u64) _
          λ revision. return-Gives Holds (record p { revision = some revision }) held
  decode_value-Holds (suc (suc zero)) p held =
      then_Gives Holds (lift (ensure (is_none p.records) invalid_vault_payload)) _ λ _.
        given_Gives (All (IsRecord ext)) Holds (decode_records ext cbor) _ decode_records-IsRecord
          λ rs all. return-Gives Holds (record p { records = some rs }) all
  decode_value-Holds (suc (suc (suc zero))) p held =
      then_Gives Holds (lift (ensure (is_none p.idle_timeout_seconds) invalid_vault_payload)) _ λ _.
        then_Gives Holds (decode_settings cbor) _
          λ seconds. return-Gives Holds (record p { idle_timeout_seconds = some seconds }) held
  decode_value-Holds (suc (suc (suc (suc n)))) p held =
      decode_unknown-Holds (suc (suc (suc (suc n)))) p held

  decode_entry-Holds : (p : Partial) → Holds p → Gives Holds (decode_entry ext cbor p)
  unfolding decode_entry
  decode_entry-Holds p held = then_Gives Holds (decode cbor.get_u64) _ λ key.
      then_Gives Holds (lift (ensure (is_above p.previous_key key) invalid_vault_payload)) _
        λ _. decode_value-Holds key (record p { previous_key = some key }) held

  decode_entries-Holds : (n : ℕ) (p : Partial) → Holds p → Gives Holds (decode_entries ext cbor n p)
  unfolding decode_entries decode_entry
  decode_entries-Holds zero p held = return-Gives Holds p held
  decode_entries-Holds (suc n) p held =
      given_Gives Holds Holds (decode_entry ext cbor p) _ (decode_entry-Holds p held)
        λ p' held'. decode_entries-Holds n p' held'

  read_payload-Holds : Gives Holds (read_payload ext cbor)
  unfolding read_payload
  read_payload-Holds =
      then_Gives Holds (definite_len cbor.get_map (4 + max_records)) _
        λ entries. decode_entries-Holds entries nothing_read tt

  finished_ok {ℓ} : {A : Type ℓ} (o : Bytes × Result A) (a : A) → finished o ≡ ok a → o ≡ ([], ok a)
  finished_ok ([], ok x) a h = ap (λ r. ([], r)) h
  finished_ok (b ∷ rest, ok x) a h = cc
  finished_ok (rest, err e) a h = cc

  assemble-IsValid :
      (parts : Partial) (p : VaultPayload)
      → Holds parts
      → assemble parts ≡ ok p
      → (length p.records ≤ max_records) × IsValid ext p.records
  unfolding assemble
  assemble-IsValid parts p held h =
      let (id, _, h1) = bind_ok (ok_or parts.vault_id invalid_vault_payload) _ p h in
      let (revision, _, h2) = bind_ok (ok_or parts.revision invalid_vault_payload) _ p h1 in
      let (records, found, h3) = bind_ok (ok_or parts.records invalid_vault_payload) _ p h2 in
      let (payload, made, h4) = bind_ok (new_payload id revision records) _ p h3 in
      let (seconds, _, h5) =
        bind_ok (ok_or parts.idle_timeout_seconds invalid_vault_payload) _ p h4 in
      let all = subst Held (ok_or_ok parts.records _ records found) held in
      let (few, valid, same) = new_payload-IsValid ext id revision records payload all made in
      let same_records =
        ap (λ q. q.records) (sym same) ∙ ap (λ q. q.records) (ok_injective _ p h5) in
      subst (λ rs. (length rs ≤ max_records) × IsValid ext rs) same_records (few, valid)

-- The steps of `decode_payload`, where it succeeds.
decode_payload_steps :
    (ext : Externals) (cbor : Cbor) (input : Bytes) (p : VaultPayload)
    → decode_payload ext cbor input ≡ ok p
    → (parts : Partial) × (finished (read_payload ext cbor input) ≡ ok parts)
      × (assemble parts ≡ ok p)
unfolding decode_payload
decode_payload_steps ext cbor input p h =
    let (_, h0) = ensure_ok (leb (length input) max_vault_payload_bytes) _ _ p h in
    let (parts, read_ok, h1) = bind_ok (finished (read_payload ext cbor input)) _ p h0 in
    let (payload, made, h2) = bind_ok (assemble parts) _ p h1 in
    let (encoded, _, h3) = bind_ok (encode_payload cbor payload) _ p h2 in
    let (_, h4) = ensure_ok (encoded == input) invalid_vault_payload (ok payload) p h3 in
    let is_p : payload ≡ p = ok_injective payload p h4 in (parts, read_ok, rw (← is_p) made)

-- A payload that is decoded has at most 10,000 records; their ids and names are distinct, and each is
-- well-formed: it is assumed that normalising a text twice is normalising it once.
pub decode_payload-IsValid :
    (ext : Externals) (cbor : Cbor)
    → IsIdempotent ext
    → (input : Bytes) (p : VaultPayload) → decode_payload ext cbor input ≡ ok p
    → (length p.records ≤ max_records) × IsValid ext p.records
decode_payload-IsValid ext cbor idem input p h =
    let (parts, read_ok, made) = decode_payload_steps ext cbor input p h in
    let done = finished_ok ext cbor idem (read_payload ext cbor input) parts read_ok in
    assemble-IsValid ext cbor idem parts p (read_payload-Holds ext cbor idem input [] parts done)
      made
