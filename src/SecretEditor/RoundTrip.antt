-- ===== src/SecretEditor/RoundTrip.antt =====
-- An editor that is opened and closed changes nothing (crates/ladon-app/src/secret_editor.rs).
use ladon.Prelude.{
  ◌≡◌, ◌≤◌, refl, Bool, true, false, List, [], ◌∷◌, map, leb, length, is_empty, All, arith, ap, ◌∙◌,
}
use ladon.Prelude.Result.{ok, ◌>>=◌}
use ladon.Model.{
  Text, TextHint, SecretField, SecretRecord, parse_field_name, new_field, max_field_bytes,
}
use ladon.Redact.Utf8.{Bytes, from_utf8}
use ladon.SecretEditor.{
  editable, from_field, from_record, value_bytes, value_hint, validate_field, to_field, to_fields,
}

-- What a field of a record is: its name is one, and its value is not too long.
abbrev pub IsField : SecretField → Type 0
IsField field = (parse_field_name field.name ≡ ok field.name) × (length field.value ≤ 1048576)

editable_bytes :
    (hint : TextHint) (is_text : Bool) (bytes : Bytes)
    → value_bytes (editable hint is_text bytes) ≡ bytes
editable_bytes TextHint.text true bytes = refl
editable_bytes TextHint.text false bytes = refl
editable_bytes TextHint.binary is_text bytes = refl

editable_hint :
    (hint : TextHint) (is_text : Bool) (bytes : Bytes)
    → value_hint (editable hint is_text bytes) ≡ hint
editable_hint TextHint.text true bytes = refl
editable_hint TextHint.text false bytes = refl
editable_hint TextHint.binary is_text bytes = refl

field_made :
    (name : Text) (value : Bytes) (hint : TextHint)
    → parse_field_name name ≡ ok name
    → length value ≤ 1048576
    → (validate_field name (length value) >>= λ n. new_field n value hint)
      ≡ ok (record { name = name; value = value; text_hint = hint })
unfolding validate_field new_field
field_made name value hint p h =
    let fits : leb (length value) max_field_bytes ≡ true = ground arith in rw p (rw fits refl)

to_field-from_field : (field : SecretField) → IsField field → to_field (from_field field) ≡ ok field
unfolding to_field from_field
to_field-from_field field (p, h) =
    let is_text = is_empty (from_utf8 field.value).1 in
    (λ i.
      validate_field field.name (length (editable_bytes field.text_hint is_text field.value i))
      >>= λ n.
          new_field n (editable_bytes field.text_hint is_text field.value i)
            (editable_hint field.text_hint is_text field.value i))
    ∙ field_made field.name field.value field.text_hint p h

fields_lem :
    (fields : List SecretField) → All IsField fields → to_fields (map from_field fields) ≡ ok fields
unfolding to_fields
fields_lem [] hs = refl
fields_lem (f ∷ fs) (h, hs) =
    ap (λ r. r >>= λ first. to_fields (map from_field fs) >>= λ others. ok (first ∷ others))
      (to_field-from_field f h)
    ∙ ap (λ r. r >>= λ others. ok (f ∷ others)) (fields_lem fs hs)

-- A record that is put into the editor and taken out again has the same fields: names, values and hints,
-- whether they are edited as text or kept as bytes.
pub to_fields-from_record :
    (r : SecretRecord) → All IsField r.fields → to_fields (from_record r).fields ≡ ok r.fields
unfolding from_record
to_fields-from_record r hs = fields_lem r.fields hs
