-- ===== src/Model/Examples.antt =====
-- The model of secrets at concrete inputs.
use ladon.Prelude.{ℕ, ◌≡◌, refl, Option, none, some, [], ◌∷◌}
use ladon.Prelude.Result.{ok, err, invalid_secret_ref, invalid_field_name}
use ladon.Model.{
  Text, Externals, SecretRef, parse_secret_ref, display_ref, is_secret_name, parse_secret_name,
  parse_field_name, is_field_bytes, strip_prefix,
}
use ladon.Prelude.Utf8.{bytes}
use ladon.Model.Names.{parse-display}

-- Texts of one form, and identifiers that are shown as one character.
abbrev read_one : Text → Option ℕ
read_one [] = none
read_one (c ∷ cs) = some c

abbrev plain : Externals
plain = record { nfc = λ t. t; parse_uuid = read_one; format_uuid = λ k. k ∷ [] }

abbrev api_key : Text
api_key = b'a' ∷ b'p' ∷ b'i' ∷ b' ' ∷ b'k' ∷ b'e' ∷ b'y' ∷ []

parse-display_example :
    parse_secret_ref plain (display_ref plain (SecretRef.name api_key))
    ≡ ok (SecretRef.name api_key)
unfolding is_secret_name
parse-display_example = parse-display plain (SecretRef.name api_key) (refl, refl)

colons_refused : parse_secret_ref plain (b'a' ∷ b':' ∷ b':' ∷ []) ≡ err invalid_secret_ref
unfolding parse_secret_ref parse_secret_name is_secret_name strip_prefix
colons_refused = refl

digit_first_refused : parse_field_name (b'1' ∷ b'a' ∷ []) ≡ err invalid_field_name
unfolding parse_field_name is_field_bytes bytes
digit_first_refused = refl
