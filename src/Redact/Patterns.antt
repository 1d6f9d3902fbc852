-- ===== src/Redact/Patterns.antt =====
-- The patterns that a redactor looks for (crates/ladon-core/src/redact.rs): each secret value, and the
-- forms in which a program may print it.
use ladon.Prelude.{
  ℕ, ◌+◌, ◌-◌, ◌/◌, ◌%◌, Bool, true, false, ◌&&◌, ◌||◌, Option, none, some, List, [], ◌∷◌, ◌++◌,
  ltb, leb, nat_eq, list_eq, contains, if◌then◌else◌, drop, take, length, is_empty, any, is_some,
}
use ladon.Prelude.Utf8.{codes}
use ladon.Redact.Utf8.{Bytes, from_utf8, hex_digit, between}

-- The code of other packages: the search of memchr, the four encodings of base64 and the JSON text of
-- serde_json.
pub record Externals : Type 0 where
  pub find : Bytes → Bytes → Option ℕ
  pub standard : Bytes → Bytes
  pub standard_no_pad : Bytes → Bytes
  pub url_safe : Bytes → Bytes
  pub url_safe_no_pad : Bytes → Bytes
  pub to_json : Bytes → Option Bytes

unfoldable pub upper_hex_digit : ℕ → ℕ
upper_hex_digit n = if ltb n 10 then b'0' + n else 55 + n

abbrev digit_of : Bool → ℕ → ℕ
digit_of true = upper_hex_digit
digit_of false = hex_digit

unfoldable pub encode_hex : Bytes → Bool → Bytes
unfolding hex_digit upper_hex_digit
encode_hex [] uppercase = []
encode_hex (b ∷ bs) uppercase =
    digit_of uppercase (b / 16) ∷ digit_of uppercase (b % 16) ∷ encode_hex bs uppercase

abbrev is_unreserved : ℕ → Bool
is_unreserved b =
    between b'0' b'9' b
    || between b'A' b'Z' b
    || between b'a' b'z' b
    || contains (b'-' ∷ b'.' ∷ b'_' ∷ b'~' ∷ []) b

unfoldable pub percent_encode : Bytes → Bool → Bytes
unfolding hex_digit upper_hex_digit
percent_encode [] lowercase = []
percent_encode (b ∷ bs) lowercase =
    let rest = percent_encode bs lowercase in
    if is_unreserved b
    then b ∷ rest
    else b'%'
      ∷ (if lowercase then hex_digit (b / 16) else upper_hex_digit (b / 16))
      ∷ (if lowercase then hex_digit (b % 16) else upper_hex_digit (b % 16))
      ∷ rest

unfoldable pub add_pattern : List Bytes → Bytes → List Bytes
add_pattern patterns needle =
    if is_empty needle || contains patterns needle then patterns else patterns ++ (needle ∷ [])

-- `json.as_bytes()[1..json.len() - 1]`: the text without its quotes.
abbrev pub add_json : List Bytes → Option Bytes → List Bytes
add_json patterns none = patterns
add_json patterns (some json) = add_pattern patterns (take (length json - 2) (drop 1 json))

-- The calls of `add_pattern`, one after the other.
unfoldable pub add_all : List Bytes → List Bytes → List Bytes
unfolding add_pattern
add_all patterns [] = patterns
add_all patterns (needle ∷ rest) = add_all (add_pattern patterns needle) rest

abbrev pub text_forms : Bytes → List Bytes
text_forms value = percent_encode value false ∷ percent_encode value true ∷ []

unfoldable pub add_text : Externals → List Bytes → Bytes → List Bytes
unfolding add_all percent_encode from_utf8
add_text ext patterns value =
    if is_empty (from_utf8 value).1
    then add_all (add_json patterns (ext.to_json value)) (text_forms value)
    else patterns

abbrev pub binary_forms : Externals → Bytes → List Bytes
binary_forms ext value =
    value
    ∷ encode_hex value false
    ∷ encode_hex value true
    ∷ ext.standard value
    ∷ ext.standard_no_pad value
    ∷ ext.url_safe value
    ∷ ext.url_safe_no_pad value
    ∷ []

-- The body of the loop over the secrets.
unfoldable pub add_secret : Externals → List Bytes → Bytes → List Bytes
unfolding add_all encode_hex add_text
add_secret ext patterns value =
    if is_empty value
    then patterns
    else add_text ext (add_all patterns (binary_forms ext value)) value

unfoldable pub add_secrets : Externals → List Bytes → List Bytes → List Bytes
unfolding add_secret
add_secrets ext patterns [] = patterns
add_secrets ext patterns (value ∷ rest) = add_secrets ext (add_secret ext patterns value) rest

abbrev is_short : Bytes → Bool
is_short value = not_empty value && ltb (length value) 4
  where
    not_empty : Bytes → Bool
    not_empty [] = false
    not_empty (b ∷ bs) = true

-- A value of fewer than four bytes suppresses the whole output.
unfoldable pub is_suppressed : List Bytes → Bool
is_suppressed secrets = any is_short secrets

unfoldable pub insert_by_length : Bytes → List Bytes → List Bytes
insert_by_length p [] = p ∷ []
insert_by_length p (q ∷ qs) =
    let rest = insert_by_length p qs in if leb (length q) (length p) then p ∷ q ∷ qs else q ∷ rest

-- `sort_by_key(Reverse(len))`.
unfoldable pub sort_by_length : List Bytes → List Bytes
unfolding insert_by_length
sort_by_length [] = []
sort_by_length (p ∷ ps) = insert_by_length p (sort_by_length ps)

unfoldable pub longest : List Bytes → ℕ
longest [] = 0
longest (p ∷ ps) = let n = longest ps in if ltb n (length p) then length p else n

-- `max().unwrap_or(1)`.
unfoldable pub maximum_length : List Bytes → ℕ
unfolding longest
maximum_length patterns = if is_empty patterns then 1 else longest patterns

unfoldable pub contains_pattern : Externals → Bytes → List Bytes → Bool
contains_pattern ext haystack patterns = any (λ needle. is_some (ext.find haystack needle)) patterns

unfoldable pub redaction_marker : Bytes
redaction_marker = codes "[REDACTED]"
