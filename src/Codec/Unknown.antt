-- ===== src/Codec/Unknown.antt =====
-- The entries that the code does not know are decoded from their encoding (crates/ladon-core/src/codec.rs).
use mathlib.Core.List.{append_assoc, append-nil}
use ladon.Prelude.{
  ℕ, zero, suc, ◌-◌, ◌≡◌, ◌≤◌, ◌<◌, refl, some, List, [], ◌∷◌, ◌++◌, ltb, nat_eq, length,
  length-append, take, take-append, All, arith, ap, sym, ◌∙◌,
}
use ladon.Prelude.Result.{ok, ensure, invalid_vault_payload}
use ladon.Prelude.Method.{Method, ◌>>◌, lift, return}
use ladon.Model.{Externals}
use ladon.Redact.Utf8.{Bytes}
use ladon.Codec.{Cbor, encode_unknown}
use ladon.Codec.Canonical.{is_canonical_unknown_value}
use ladon.Codec.Decode.{Partial, insert, decode_unknown, decode_value, decode_entry, decode_entries}
use ladon.Codec.Laws.{IsCbor, IsUnknown, Ascends, decode_step, then_step, lift_step}

-- The keys of the entries are at most the bound.
abbrev pub Below : ℕ → List (ℕ × Bytes) → Type 0
Below bound [] = Unit
Below bound ((key, raw) ∷ rest) = (key ≤ bound) × Below bound rest

insert-Below :
    (bound key : ℕ) (raw : Bytes) (known : List (ℕ × Bytes))
    → bound < key
    → Below bound known
    → insert key raw known ≡ known ++ (key, raw) ∷ []
unfolding insert
insert-Below bound key raw [] above below = refl
insert-Below bound key raw ((k, v) ∷ known) above (here, there) =
    let rest = insert-Below bound key raw known above there in ground arith

append-Below :
    (bound key : ℕ) (raw : Bytes) (known : List (ℕ × Bytes))
    → bound < key
    → Below bound known
    → Below key (known ++ (key, raw) ∷ [])
append-Below bound key raw [] above below = (omega arith, tt)
append-Below bound key raw ((k, v) ∷ known) above (here, there) =
    (omega arith, append-Below bound key raw known above there)

take_back : (raw rest : Bytes) → take (length (raw ++ rest) - length rest) (raw ++ rest) ≡ raw
take_back raw rest =
    ap (λ n. take n (raw ++ rest)) (omega (arith, length-append raw rest))
    ∙ take-append 0 raw rest
    ∙ append-nil raw

abbrev pub last_key : ℕ → List (ℕ × Bytes) → ℕ
last_key previous [] = previous
last_key previous ((key, raw) ∷ rest) = last_key key rest

module _ (ext : Externals) (cbor : Cbor) (laws : IsCbor cbor) where
  decode_value_unknown :
      (key : ℕ) (p : Partial)
      → 3 < key
      → decode_value ext cbor key p ≡ decode_unknown ext cbor key p
  decode_value_unknown zero p h = absurd (omega arith)
  decode_value_unknown (suc zero) p h = absurd (omega arith)
  decode_value_unknown (suc (suc zero)) p h = absurd (omega arith)
  decode_value_unknown (suc (suc (suc zero))) p h = absurd (omega arith)
  decode_value_unknown (suc (suc (suc (suc n)))) p h = refl

  abbrev kept : ℕ → Partial → Bytes → Method Bytes Partial
  kept key p value = do
    lift (ensure (is_canonical_unknown_value cbor value) invalid_vault_payload)
    return (record p { unknown = insert key value p.unknown })

  decode_unknown_lem :
      (e : ℕ × Bytes) (p : Partial) (rest : Bytes)
      → IsUnknown cbor e
      → decode_unknown ext cbor e.0 p (e.1 ++ rest)
        ≡ (rest, ok (record p { unknown = insert e.0 e.1 p.unknown }))
  unfolding decode_unknown
  decode_unknown_lem (key, raw) p rest is =
      decode_step cbor.skip _ _ rest tt (is.whole rest)
      ∙ ap (λ value. kept key p value rest) (take_back raw rest)
      ∙ lift_step (ensure (is_canonical_unknown_value cbor raw) invalid_vault_payload) _ rest tt
          (ap (λ b. ensure b invalid_vault_payload) is.canonical)

  abbrev pub seen : Partial → List (ℕ × Bytes) → ℕ → Partial
  seen p known previous = record p { unknown = known; previous_key = some previous }

  above_ok :
      (previous key : ℕ) → previous < key → ensure (ltb previous key) invalid_vault_payload ≡ ok tt
  above_ok previous key h = ground arith

  decode_entry-unknown :
      (p : Partial) (known : List (ℕ × Bytes)) (previous : ℕ) (e : ℕ × Bytes) (rest : Bytes)
      → IsUnknown cbor e
      → previous < e.0
      → Below previous known
      → decode_entry ext cbor (seen p known previous) (cbor.put_u64 e.0 ++ (e.1 ++ rest))
        ≡ (rest, ok (seen p (known ++ e ∷ []) e.0))
  unfolding decode_entry
  decode_entry-unknown p known previous e rest is above below =
      decode_step cbor.get_u64 _ _ _ e.0 (laws.u64 e.0 _ is.key_fits)
      ∙ lift_step (ensure (ltb previous e.0) invalid_vault_payload) _ _ tt
          (above_ok previous e.0 above)
      ∙ ap (λ m. m (e.1 ++ rest)) (decode_value_unknown e.0 (seen p known e.0) is.key_above)
      ∙ decode_unknown_lem e (seen p known e.0) rest is
      ∙ ap (λ m. (rest, ok (seen p m e.0))) (insert-Below previous e.0 e.1 known above below)

  pub decode_entries-unknown :
      (p : Partial) (known : List (ℕ × Bytes)) (previous : ℕ) (es : List (ℕ × Bytes))
      → All (IsUnknown cbor) es
      → Ascends previous es
      → Below previous known
      → decode_entries ext cbor (length es) (seen p known previous) (encode_unknown cbor es)
        ≡ ([], ok (seen p (known ++ es) (last_key previous es)))
  unfolding decode_entries encode_unknown
  decode_entries-unknown p known previous [] all ascends below =
      ap (λ m. ([], ok (seen p m previous))) (sym (append-nil known))
  decode_entries-unknown p known previous (e ∷ es) (here, there) (above, ascends) below =
      then_step (decode_entry ext cbor (seen p known previous)) _ _ (encode_unknown cbor es)
        (seen p (known ++ e ∷ []) e.0)
        (decode_entry-unknown p known previous e (encode_unknown cbor es) here above below)
      ∙ decode_entries-unknown p (known ++ e ∷ []) e.0 es there ascends
          (append-Below previous e.0 e.1 known above below)
      ∙ ap (λ m. ([], ok (seen p m (last_key e.0 es)))) (append_assoc known (e ∷ []) es)
