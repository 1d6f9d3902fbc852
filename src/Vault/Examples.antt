-- ===== src/Vault/Examples.antt =====
-- The vault at concrete inputs.
use ladon.Prelude.{
  ℕ, zero, suc, ◌+◌, false, any, ◌==◌, list_eq, ◌≡◌, ◌⊎◌, refl, none, Option, List, [], ◌∷◌, ◌++◌,
  arith, length, nat_eq,
}
use ladon.Prelude.Result.{ok, err, invalid_request, invalid_vault_payload}
use ladon.Model.{
  Text, Externals, SecretField, SecretRecord, SecretRef, TextHint, is_secret_name, from_parts,
  parse_secret_name, has_duplicate,
}
use ladon.Vault.{
  VaultSession, PreparedRecordReplacement, add, rename, delete, replace_fields, new_payload,
  prepare_record_replacement, apply_record_replacement, find_record_index, name_taken,
  increment_revision,
}
use ladon.Vault.Valid.{IsIdempotent, IsValid, Updates}
use ladon.Vault.Keeps.{operations-Updates}
use ladon.Vault.Operations.{deletes, run}
use ladon.Vault.Replace.{replacement-Updates}
use ladon.Vault.Capacity.{reopened, add_past_capacity}

abbrev no_uuid : Text → Option ℕ
no_uuid t = none

abbrev plain : Externals
plain = record { nfc = λ t. t; parse_uuid = no_uuid; format_uuid = λ k. k ∷ [] }

plain-IsIdempotent : IsIdempotent plain
plain-IsIdempotent t = refl

abbrev value_field : SecretField
value_field = record { name = b'v' ∷ []; value = 1 ∷ 2 ∷ 3 ∷ 4 ∷ []; text_hint = TextHint.binary }

abbrev named : ℕ → ℕ → SecretRecord
named i c = record { id = i; name = c ∷ []; fields = value_field ∷ [] }

abbrev vault : VaultSession
vault = record { payload = reopened 1 5 (named 10 b'a' ∷ named 11 b'b' ∷ []); activity = 0 }

vault-IsValid : IsValid plain vault.payload.records
unfolding is_secret_name
vault-IsValid = record {
  unique_ids = (refl, (refl, tt));
  unique_names = (refl, (refl, tt));
  well_formed = (
    (omega arith, omega arith, (refl, tt), refl, refl),
    ((omega arith, omega arith, (refl, tt), refl, refl), tt),
  );
}

operations-Updates_example :
    Updates (IsValid plain) vault (add plain 12 (b'c' ∷ []) (value_field ∷ []) vault)
    × Updates (IsValid plain) vault (rename plain (SecretRef.id 10) (b'c' ∷ []) vault)
    × Updates
        (IsValid plain)
        vault
        (replace_fields plain (SecretRef.id 10) (value_field ∷ []) vault)
    × Updates (IsValid plain) vault (delete (SecretRef.id 10) vault)
operations-Updates_example =
    operations-Updates plain plain-IsIdempotent 12 (b'c' ∷ []) (value_field ∷ []) (SecretRef.id 10)
      vault vault-IsValid refl

abbrev prepared : PreparedRecordReplacement
prepared = record { expected_revision = 5; target_id = 10; replacement = named 10 b'z' }

prepared_now :
    prepare_record_replacement plain vault (SecretRef.id 10) (b'z' ∷ []) (value_field ∷ [])
    ≡ ok prepared
unfolding prepare_record_replacement find_record_index name_taken from_parts parse_secret_name
    is_secret_name has_duplicate
prepared_now = refl

replacement-Updates_example :
    let t = run plain vault (deletes (SecretRef.id 11) ∷ []) in
    (apply_record_replacement prepared t ≡ (t, err invalid_request))
    ⊎ ((t.payload ≡ vault.payload)
        × Updates (IsValid plain) t (apply_record_replacement prepared t))
replacement-Updates_example =
    replacement-Updates plain vault (SecretRef.id 10) (b'z' ∷ []) (value_field ∷ []) prepared
      (deletes (SecretRef.id 11) ∷ []) plain-IsIdempotent vault-IsValid prepared_now

-- Records with as many different names and identifiers.
numbered : ℕ → List SecretRecord
numbered zero = []
numbered (suc k) = named k (1000 + k) ∷ numbered k

length-numbered : (n : ℕ) → length (numbered n) ≡ n
unfolding numbered
length-numbered zero = refl
length-numbered (suc k) = omega (arith, length-numbered k)

any-numbered : (n : ℕ) → any (λ r. r.name == b'c' ∷ []) (numbered n) ≡ false
unfolding numbered
any-numbered zero = refl
any-numbered (suc k) = ground (arith, any-numbered k)

abbrev full : VaultSession
full = record { payload = reopened 1 5 (numbered 10000); activity = 0 }

abbrev overfull : VaultSession
overfull = record { payload = reopened 1 6 (numbered 10000 ++ named 20000 b'c' ∷ []); activity = 1 }

full-add : add plain 20000 (b'c' ∷ []) (value_field ∷ []) full ≡ (overfull, ok 20000)
unfolding add increment_revision from_parts parse_secret_name is_secret_name has_duplicate
full-add = rw (any-numbered 10000)

add_past_capacity_example : new_payload 1 6 overfull.payload.records ≡ err invalid_vault_payload
add_past_capacity_example =
    add_past_capacity plain 20000 (b'c' ∷ []) (value_field ∷ []) full overfull 20000 1 6
      (length-numbered 10000) full-add
