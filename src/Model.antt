-- ===== src/Model.antt =====
-- crates/ladon-core/src/model.rs: names, references, fields and records of secrets, with their checks.
-- A text is the list of its characters' scalar values; an identifier is a number, which is compared and
-- never read. Unicode normalisation and the reading of a UUID are of other packages: they are the
-- parameter `Externals`.
pub mod Names
pub mod Unique
mod Examples
use ladon.Prelude.{
  ℕ, ◌+◌, ◌≤◌, ◌≡◌, Bool, true, false, not, ◌&&◌, ◌||◌, Option, none, some, List, [], ◌∷◌, ◌++◌,
  map, ltb, leb, ◌==◌, nat_eq, list_eq, PartialEq, contains, length, any, all, is_empty,
  if◌then◌else◌,
}
use ladon.Prelude.Result.{
  Result, ok, err, ◌>>=◌, ◌>>◌, ensure, ok_or, LadonError, invalid_secret_ref, invalid_field_name,
  field_too_large, duplicate_field, empty_record, too_many_fields,
}
use ladon.Prelude.Utf8.{bytes, byte_len}

abbrev pub Text : Type 0
Text = List ℕ

pub record Externals : Type 0 where
  -- `UnicodeNormalization::nfc`.
  pub nfc : Text → Text
  -- `Uuid::parse_str`.
  pub parse_uuid : Text → Option ℕ
  -- The `Display` of a UUID.
  pub format_uuid : ℕ → Text

abbrev pub max_field_bytes : ℕ
max_field_bytes = 1048576

abbrev pub max_fields_per_record : ℕ
max_fields_per_record = 64

pub data TextHint : Type 0 where
  binary text : TextHint

pub record SecretField : Type 0 where
  pub name : Text
  pub value : List ℕ
  pub text_hint : TextHint

pub record SecretRecord : Type 0 where
  pub id : ℕ
  pub name : Text
  pub fields : List SecretField

pub data SecretRef : Type 0 where
  name : Text → SecretRef
  id : ℕ → SecretRef

-- `str::strip_prefix`.
unfoldable pub strip_prefix : Text → Text → Option Text
strip_prefix [] s = some s
strip_prefix (p ∷ ps) [] = none
strip_prefix (p ∷ ps) (c ∷ cs) = let rest = strip_prefix ps cs in if p == c then rest else none

unfoldable pub starts_with : Text → Text → Bool
starts_with [] s = true
starts_with (p ∷ ps) [] = false
starts_with (p ∷ ps) (c ∷ cs) = p == c && starts_with ps cs

-- `str::contains` of a text.
unfoldable pub contains_text : Text → Text → Bool
unfolding starts_with
contains_text p [] = starts_with p []
contains_text p (c ∷ cs) = starts_with p (c ∷ cs) || contains_text p cs

abbrev pub id_prefix : Text
id_prefix = b'i' ∷ b'd' ∷ b':' ∷ []

abbrev pub in_range : ℕ → ℕ → ℕ → Bool
in_range lo hi c = leb lo c && leb c hi

unfoldable pub is_ascii_control : ℕ → Bool
is_ascii_control c = ltb c 32 || c == 127

unfoldable pub is_forbidden_name_character : ℕ → Bool
unfolding is_ascii_control
is_forbidden_name_character c =
    is_ascii_control c
    || c == 0x061c
    || c == 0x200e
    || c == 0x200f
    || in_range 0x202a 0x202e c
    || in_range 0x2066 0x2069 c

-- What `SecretName::parse` asks of the normalised text.
unfoldable pub is_secret_name : Text → Bool
unfolding contains_text starts_with is_forbidden_name_character bytes
is_secret_name s =
    not (is_empty s)
    && leb (byte_len s) 128
    && not (contains_text (b':' ∷ b':' ∷ []) s)
    && not (starts_with id_prefix s)
    && not (any is_forbidden_name_character s)

unfoldable pub parse_secret_name : Externals → Text → Result Text
parse_secret_name ext input =
    let normalized = ext.nfc input in
    if is_secret_name normalized then ok normalized else err invalid_secret_ref

unfoldable pub parse_secret_id : Externals → Text → Result ℕ
parse_secret_id ext input = ok_or (ext.parse_uuid input) invalid_secret_ref

unfoldable pub parse_ref_from : Externals → Text → Option Text → Result SecretRef
parse_ref_from ext input (some uuid) = do
  parsed ← parse_secret_id ext uuid
  ok (SecretRef.id parsed)
parse_ref_from ext input none = do parsed ← parse_secret_name ext input; ok (SecretRef.name parsed)

unfoldable pub parse_secret_ref : Externals → Text → Result SecretRef
unfolding parse_ref_from
parse_secret_ref ext input = parse_ref_from ext input (strip_prefix id_prefix input)

-- `Display` for `SecretRef`.
unfoldable pub display_ref : Externals → SecretRef → Text
display_ref ext (SecretRef.name label) = label
display_ref ext (SecretRef.id key) = id_prefix ++ ext.format_uuid key

unfoldable pub is_ascii_alphabetic : ℕ → Bool
is_ascii_alphabetic b = in_range b'A' b'Z' b || in_range b'a' b'z' b

unfoldable pub is_ascii_alphanumeric : ℕ → Bool
unfolding is_ascii_alphabetic
is_ascii_alphanumeric b = is_ascii_alphabetic b || in_range b'0' b'9' b

unfoldable pub is_field_byte : ℕ → Bool
unfolding is_ascii_alphanumeric
is_field_byte b = is_ascii_alphanumeric b || b == b'_' || b == b'-'

unfoldable pub is_field_bytes : List ℕ → Bool
unfolding is_ascii_alphabetic is_field_byte
is_field_bytes [] = false
is_field_bytes (b ∷ bs) = is_ascii_alphabetic b && all is_field_byte bs

unfoldable pub parse_field_name : Text → Result Text
parse_field_name input =
    if leb (byte_len input) 64 && is_field_bytes (bytes input)
    then ok input
    else err invalid_field_name

unfoldable pub new_field : Text → List ℕ → TextHint → Result SecretField
new_field field_name value text_hint = do
  ensure (leb (length value) max_field_bytes) field_too_large
  ok (record { name = field_name; value = value; text_hint = text_hint })

-- `any(|x| !seen.insert(x))`: an element is met twice, or was seen before.
unfoldable pub has_duplicate {ℓ} : {A : Type ℓ} ⦃e : PartialEq A⦄ → List A → List A → Bool
has_duplicate seen [] = false
has_duplicate seen (x ∷ xs) = contains seen x || has_duplicate (x ∷ seen) xs

abbrev pub field_names : List SecretField → List Text
field_names = map λ f. f.name

unfoldable pub from_parts : Externals → ℕ → Text → List SecretField → Result SecretRecord
from_parts ext record_id label fields = do
  ensure (not (is_empty fields)) empty_record
  ensure (leb (length fields) max_fields_per_record) too_many_fields
  ensure (not (has_duplicate [] (field_names fields))) duplicate_field
  parsed ← parse_secret_name ext label
  ok (record { id = record_id; name = parsed; fields = fields })

-- `SecretRecord::rename`.
unfoldable pub rename_record : Externals → SecretRecord → Text → Result SecretRecord
rename_record ext r label = do parsed ← parse_secret_name ext label; ok (record r { name = parsed })
