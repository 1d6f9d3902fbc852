-- ===== src/Vault.antt =====
-- crates/ladon-core/src/vault.rs, and the `VaultPayload` of codec.rs that it works on: the records of
-- an unlocked vault, its revision, and the operations of a session.
-- The key material that an `UnlockedVault` also holds takes part in no operation here. `activity` counts
-- the calls of the `ActivitySink`. The identifier that `SecretId::new` draws is an argument.
pub mod Valid
pub mod Keeps
pub mod Operations
pub mod Replace
pub mod Capacity
mod Examples
use ladon.Prelude.{
  ℕ, ◌+◌, ◌≤◌, ◌≡◌, Bool, true, false, not, ◌&&◌, ◌||◌, Option, none, some, List, [], ◌∷◌, ◌++◌,
  map, leb, ◌==◌, nat_eq, list_eq, contains, length, any, position, find, get_elem?, set, remove_at,
  if◌then◌else◌,
}
use ladon.Prelude.Result.{
  Result, ok, err, LadonError, ok_or, ensure, invalid_vault_payload, revision_overflow,
  duplicate_secret_name, secret_not_found, field_not_found, invalid_request, invalid_secret_ref,
}
use ladon.Prelude.Method.{Method, after, ◌>>=◌, ◌>>◌, lift, return}
use ladon.Prelude.Time.{checked_add}
use ladon.Model.{
  Text, Externals, SecretField, SecretRecord, SecretRef, from_parts, parse_secret_ref, field_names,
}
use ladon.Model.Unique.{elsewhere}

abbrev pub max_records : ℕ
max_records = 10000

abbrev pub default_idle_timeout_seconds : ℕ
default_idle_timeout_seconds = 1800

pub record VaultPayload : Type 0 where
  pub vault_id : ℕ
  pub revision : ℕ
  pub records : List SecretRecord
  pub idle_timeout_seconds : ℕ
  pub unknown : List (ℕ × List ℕ)

-- `any(|record| !ids.insert(record.id()) || !names.insert(record.name()))`.
unfoldable pub has_clash : List ℕ → List Text → List SecretRecord → Bool
has_clash ids names [] = false
has_clash ids names (r ∷ rs) =
    contains ids r.id || (contains names r.name || has_clash (r.id ∷ ids) (r.name ∷ names) rs)

unfoldable pub new_payload : ℕ → ℕ → List SecretRecord → Result VaultPayload
unfolding has_clash
new_payload vault_id revision records =
    if not (leb (length records) max_records)
    then err invalid_vault_payload
    else if has_clash [] [] records
    then err invalid_vault_payload
    else ok (record {
      vault_id = vault_id;
      revision = revision;
      records = records;
      idle_timeout_seconds = default_idle_timeout_seconds;
      unknown = [];
    })

pub record SecretMetadata : Type 0 where
  pub id : ℕ
  pub name : Text
  pub field_names : List Text

pub record VaultSession : Type 0 where
  pub payload : VaultPayload
  pub activity : ℕ

pub record PreparedRecordReplacement : Type 0 where
  pub expected_revision : ℕ
  pub target_id : ℕ
  pub replacement : SecretRecord

abbrev pub M {ℓ} : Type ℓ → Type ℓ
M A = Method VaultSession A

abbrev pub the_records : M (List SecretRecord)
the_records s = (s, ok s.payload.records)

-- `activity.secret_activity()`.
abbrev pub secret_activity : M (Unit {0})
secret_activity s = (record s { activity = s.activity + 1 }, ok tt)

with_revision : Option ℕ → M (Unit {0})
with_revision none s = (s, err revision_overflow)
with_revision (some n) s = (record s { payload = record (s.payload) { revision = n } }, ok tt)

unfoldable pub increment_revision : M (Unit {0})
unfolding with_revision
increment_revision s = with_revision (checked_add s.payload.revision 1) s

abbrev pub put_records : List SecretRecord → M (Unit {0})
put_records rs s = (record s { payload = record (s.payload) { records = rs } }, ok tt)

unfoldable pub refers : SecretRef → SecretRecord → Bool
refers (SecretRef.name label) r = r.name == label
refers (SecretRef.id key) r = r.id == key

unfoldable pub find_record_index : List SecretRecord → SecretRef → Result ℕ
unfolding refers
find_record_index records reference = ok_or (position (refers reference) records) secret_not_found

-- `records[index]`; an index out of range would panic.
abbrev pub record_at : List SecretRecord → ℕ → Result SecretRecord
record_at records index = ok_or (get_elem? records index) secret_not_found

unfoldable pub record_activity : VaultSession → VaultSession
record_activity s = record s { activity = s.activity + 1 }

unfoldable pub with_record {ℓ} : {R : Type ℓ} → SecretRef → (SecretRecord → R) → M R
with_record reference operation = do
  records ← the_records
  target ← lift (find_record_index records reference)
  current ← lift (record_at records target)
  secret_activity
  return (operation current)

-- The names of records other than the one at `target`.
unfoldable pub name_taken : ℕ → List SecretRecord → Text → Bool
name_taken target records label = elsewhere 0 target (map (λ r. r.name) records) label

unfoldable pub prepare_record_replacement :
    Externals
    → VaultSession
    → SecretRef
    → Text
    → List SecretField
    → Result PreparedRecordReplacement
prepare_record_replacement ext s reference new_name fields = (prepare s).1
  where
    prepare : M PreparedRecordReplacement
    prepare = do
      records ← the_records
      target ← lift (find_record_index records reference)
      current ← lift (record_at records target)
      replacement ← lift (from_parts ext current.id new_name fields)
      lift (ensure (not (name_taken target records replacement.name)) duplicate_secret_name)
      return (record {
        expected_revision = s.payload.revision;
        target_id = current.id;
        replacement = replacement;
      })

unfoldable pub apply_record_replacement : PreparedRecordReplacement → M (Unit {0})
apply_record_replacement prepared s = update s
  where
    update : M (Unit {0})
    update = do
      lift (ensure (s.payload.revision == prepared.expected_revision) invalid_request)
      records ← the_records
      target ← lift (find_record_index records (SecretRef.id prepared.target_id))
      increment_revision
      put_records (set records target prepared.replacement)
      secret_activity

unfoldable pub list : VaultSession → List SecretMetadata
list s =
    map (λ r. record { id = r.id; name = r.name; field_names = field_names r.fields })
      s.payload.records

unfoldable pub add : Externals → ℕ → Text → List SecretField → M ℕ
add ext fresh_id label fields = do
  new_record ← lift (from_parts ext fresh_id label fields)
  records ← the_records
  lift (ensure (not (any (λ r. r.name == new_record.name) records)) duplicate_secret_name)
  increment_revision
  put_records (records ++ new_record ∷ [])
  secret_activity
  return new_record.id

abbrev only_name : SecretRef → Result Text
only_name (SecretRef.name label) = ok label
only_name (SecretRef.id key) = err invalid_secret_ref

unfoldable pub rename : Externals → SecretRef → Text → M (Unit {0})
rename ext reference new_name = do
  parsed ← lift (parse_secret_ref ext new_name)
  normalized ← lift (only_name parsed)
  records ← the_records
  target ← lift (find_record_index records reference)
  lift (ensure (not (name_taken target records normalized)) duplicate_secret_name)
  current ← lift (record_at records target)
  increment_revision
  put_records (set records target (record current { name = normalized }))
  secret_activity

unfoldable pub replace_fields : Externals → SecretRef → List SecretField → M (Unit {0})
replace_fields ext reference fields = do
  records ← the_records
  target ← lift (find_record_index records reference)
  current ← lift (record_at records target)
  replacement ← lift (from_parts ext current.id current.name fields)
  increment_revision
  put_records (set records target replacement)
  secret_activity

unfoldable pub delete : SecretRef → M (Unit {0})
delete reference = do
  records ← the_records
  target ← lift (find_record_index records reference)
  increment_revision
  put_records (remove_at records target)
  secret_activity

unfoldable pub with_field {ℓ} : {R : Type ℓ} → SecretRef → Text → (List ℕ → R) → M R
with_field reference field_name operation = do
  records ← the_records
  target ← lift (find_record_index records reference)
  current ← lift (record_at records target)
  field ← lift (ok_or (find (λ f. f.name == field_name) current.fields) field_not_found)
  secret_activity
  return (operation field.value)
