-- ===== src/SecretEditor/Examples.antt =====
-- A record with a text and a binary value (crates/ladon-app/src/secret_editor.rs).
use ladon.Prelude.{◌≡◌, refl, [], ◌∷◌, arith}
use ladon.Prelude.Result.{ok}
use ladon.Prelude.Utf8.{codes, bytes}
use ladon.Model.{TextHint, SecretRecord, parse_field_name, is_field_bytes}
use ladon.SecretEditor.{to_fields, from_record}
use ladon.SecretEditor.RoundTrip.{to_fields-from_record}

abbrev entry : SecretRecord
entry = record {
  id = 1;
  name = codes "api";
  fields =
      record { name = codes "token"; value = codes "abcd"; text_hint = TextHint.text }
      ∷ record { name = codes "key"; value = 255 ∷ 0 ∷ []; text_hint = TextHint.text }
      ∷ [];
}

token_name : parse_field_name (codes "token") ≡ ok (codes "token")
unfolding parse_field_name is_field_bytes bytes
token_name = refl

key_name : parse_field_name (codes "key") ≡ ok (codes "key")
unfolding parse_field_name is_field_bytes bytes
key_name = refl

to_fields-from_record_example : to_fields (from_record entry).fields ≡ ok entry.fields
to_fields-from_record_example =
    to_fields-from_record entry ((token_name, omega arith), ((key_name, omega arith), tt))
