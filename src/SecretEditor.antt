-- ===== src/SecretEditor.antt =====
-- crates/ladon-app/src/secret_editor.rs: a record while the user edits it. A text value is its bytes.
pub mod RoundTrip
mod Examples
use ladon.Prelude.{
  ℕ, Bool, true, false, ◌&&◌, ◌||◌, List, [], ◌∷◌, ◌++◌, map, leb, if◌then◌else◌, length, is_empty,
  remove_at,
}
use ladon.Prelude.Result.{Result, ok, err, ◌>>=◌, ◌>>◌, ensure, LadonError, field_too_large}
use ladon.Model.{
  Text, TextHint, SecretField, SecretRecord, parse_field_name, new_field, max_field_bytes,
}
use ladon.Redact.Utf8.{Bytes, from_utf8}

pub data EditableValue : Type 0 where
  text : Bytes → EditableValue
  binary : Bytes → TextHint → EditableValue

pub record EditableField : Type 0 where
  pub name : Text
  pub value : EditableValue

pub record EditSecretDraft : Type 0 where
  pub id : ℕ
  pub name : Text
  pub fields : List EditableField

abbrev pub editable : TextHint → Bool → Bytes → EditableValue
editable TextHint.text true bytes = EditableValue.text bytes
editable text_hint _ bytes = EditableValue.binary bytes text_hint

unfoldable pub from_field : SecretField → EditableField
unfolding from_utf8
from_field field = record {
  name = field.name;
  value = editable field.text_hint (is_empty (from_utf8 field.value).1) field.value;
}

unfoldable pub from_record : SecretRecord → EditSecretDraft
unfolding from_field
from_record r = record { id = r.id; name = r.name; fields = map from_field r.fields }

unfoldable pub set_name : Text → EditSecretDraft → EditSecretDraft
set_name name draft = record draft { name = name }

unfoldable pub add_text_field : EditSecretDraft → EditSecretDraft
add_text_field draft = record draft {
  fields = draft.fields ++ (record { name = []; value = EditableValue.text [] } ∷ []);
}

unfoldable pub remove_field : ℕ → EditSecretDraft → EditSecretDraft × Bool
remove_field index draft =
    if leb (length draft.fields) 1 || leb (length draft.fields) index
    then (draft, false)
    else (record draft { fields = remove_at draft.fields index }, true)

unfoldable pub validate_field : Text → ℕ → Result Text
validate_field name value_len = do
  parsed ← parse_field_name name
  ensure (leb value_len max_field_bytes) field_too_large
  ok parsed

abbrev pub value_bytes : EditableValue → Bytes
value_bytes (EditableValue.text bytes) = bytes
value_bytes (EditableValue.binary bytes _) = bytes

abbrev pub value_hint : EditableValue → TextHint
value_hint (EditableValue.text _) = TextHint.text
value_hint (EditableValue.binary _ original_hint) = original_hint

-- The length was checked, so that the last step succeeds: the code's `expect`.
unfoldable pub to_field : EditableField → Result SecretField
unfolding validate_field
to_field field = do
  name ← validate_field field.name (length (value_bytes field.value))
  new_field name (value_bytes field.value) (value_hint field.value)

unfoldable pub to_fields : List EditableField → Result (List SecretField)
unfolding to_field
to_fields [] = ok []
to_fields (field ∷ rest) = do first ← to_field field; others ← to_fields rest; ok (first ∷ others)
