-- ===== src/Vault/Capacity.antt =====
-- The number of records that a vault can hold, on both sides of the file (crates/ladon-core/src/vault.rs
-- and codec.rs).
use ladon.Prelude.{
  ℕ, ◌≡◌, ◌≤◌, All, false, inl, inr, refl, ◌||◌, List, [], ◌∷◌, arith, leb, nat_eq, list_eq, length,
  length-append, if◌then◌else◌,
}
use ladon.Prelude.Result.{ok, err, invalid_vault_payload, Result-cases}
use ladon.Model.{Text, Externals, SecretField, SecretRecord, from_parts, has_duplicate}
use ladon.Model.Unique.{has_duplicate_iff}
use ladon.Vault.{
  VaultPayload, VaultSession, has_clash, new_payload, max_records, default_idle_timeout_seconds,
  add, increment_revision,
}
use ladon.Vault.Valid.{IsValid, IsRecord, record_ids, record_names}

has_clash_lem :
    (is : List ℕ) (ns : List Text) (rs : List SecretRecord)
    → has_clash is ns rs ≡ (has_duplicate is (record_ids rs) || has_duplicate ns (record_names rs))
unfolding has_clash has_duplicate
has_clash_lem is ns [] = refl
has_clash_lem is ns (r ∷ rs) = ground (arith, has_clash_lem (r.id ∷ is) (r.name ∷ ns) rs)

-- The payload that a file with these records is read into.
abbrev pub reopened : ℕ → ℕ → List SecretRecord → VaultPayload
reopened vault_id revision rs = record {
  vault_id = vault_id;
  revision = revision;
  records = rs;
  idle_timeout_seconds = default_idle_timeout_seconds;
  unknown = [];
}

-- The records of a valid vault are accepted when a payload is built from them, as on unlocking, exactly
-- if there are at most 10,000.
new_payload_lem :
    (ext : Externals) (vault_id revision : ℕ) (rs : List SecretRecord)
    → IsValid ext rs
    → new_payload vault_id revision rs ≡ (
        if leb (length rs) max_records
        then ok (reopened vault_id revision rs)
        else err invalid_vault_payload)
unfolding new_payload
new_payload_lem ext i n rs v = ground (
  arith,
  has_clash_lem [] [] rs,
  (has_duplicate_iff (record_ids rs)).1 v.unique_ids,
  (has_duplicate_iff (record_names rs)).1 v.unique_names,
)

new_payload_made :
    (vault_id revision : ℕ) (rs : List SecretRecord) (p : VaultPayload)
    → new_payload vault_id revision rs ≡ ok p
    → (length rs ≤ max_records)
      × ((has_duplicate [] (record_ids rs) ≡ false) × (has_duplicate [] (record_names rs) ≡ false))
      × (p ≡ reopened vault_id revision rs)
unfolding new_payload
new_payload_made i n rs p made = ground (arith, has_clash_lem [] [] rs)

pub new_payload-IsValid :
    (ext : Externals) (vault_id revision : ℕ) (rs : List SecretRecord) (p : VaultPayload)
    → All (IsRecord ext) rs
    → new_payload vault_id revision rs ≡ ok p
    → (length rs ≤ max_records) × IsValid ext rs × (p ≡ reopened vault_id revision rs)
unfolding new_payload
new_payload-IsValid ext i n rs p all made =
    let (few, apart, same) = new_payload_made i n rs p made in
    (
      few,
      record {
        unique_ids = (has_duplicate_iff (record_ids rs)).0 (apart.0);
        unique_names = (has_duplicate_iff (record_names rs)).0 (apart.1);
        well_formed = all;
      },
      same,
    )

-- `add` does not look at that limit: where it succeeds on a vault of 10,000 records, it leaves records
-- from which no payload can be built again.
pub add_past_capacity :
    (ext : Externals) (fresh_id : ℕ) (label : Text) (fields : List SecretField) (s t : VaultSession)
    (i vault_id revision : ℕ)
    → length s.payload.records ≡ max_records
    → add ext fresh_id label fields s ≡ (t, ok i)
    → new_payload vault_id revision t.payload.records ≡ err invalid_vault_payload
unfolding add increment_revision new_payload
add_past_capacity ext fresh label fields s t i vault_id revision full added =
    elim (Result-cases (from_parts ext fresh label fields)) [
      | inr (e, failed) ↦ ground arith
      | inl (r, built) ↦ ground (arith, length-append s.payload.records (r ∷ []))
    ]
