-- ===== src/Codec/Bytewise.antt =====
-- A CBOR of one byte for each number, and a payload: for concrete inputs.
use ladon.Prelude.{
  ℕ, ◌-◌, ◌≡◌, refl, Bool, ltb, ◌==◌, if◌then◌else◌, Option, none, some, [], ◌∷◌, ◌++◌, nat_eq,
  list_eq, length, take, take-append, drop, arith, ap, ◌∙◌,
}
use mathlib.Core.List.{append-nil}
use ladon.Model.{
  Text, TextHint, Externals, SecretField, SecretRecord, from_parts, parse_field_name,
  is_field_bytes, is_secret_name, parse_secret_name, has_duplicate,
}
use ladon.Redact.Utf8.{Bytes}
use ladon.Vault.{VaultPayload, new_payload, has_clash}
use ladon.Codec.{Cbor, DataType}
use ladon.Prelude.Integers.{ℤ, pos, negsuc}
use ladon.Codec.Canonical.{is_canonical_unknown_value, canonicalize_item}
use ladon.Codec.Laws.{IsCbor, IsPayload}

abbrev pub put_one : ℕ → Bytes
put_one n = n ∷ []

abbrev pub get_one : Bytes → Option (ℕ × Bytes)
get_one [] = none
get_one (n ∷ rest) = some (n, rest)

abbrev pub get_length : Bytes → Option (Option ℕ × Bytes)
get_length [] = none
get_length (n ∷ rest) = some (some n, rest)

abbrev pub put_many : Bytes → Bytes
put_many b = length b ∷ b

abbrev pub get_many : Bytes → Option (Bytes × Bytes)
get_many [] = none
get_many (n ∷ rest) = some (take n rest, drop n rest)

abbrev pub skip_one : Bytes → Option (Unit {0} × Bytes)
skip_one [] = none
skip_one (n ∷ rest) = some (tt, rest)

-- Only bytes are numbers.
abbrev pub type_of : Bytes → Option DataType
type_of [] = none
type_of (n ∷ rest) = some DataType.u8

abbrev pub put_bool : Bool → Bytes
put_bool b = (if b then 1 else 0) ∷ []

abbrev pub get_bool : Bytes → Option (Bool × Bytes)
get_bool [] = none
get_bool (n ∷ rest) = some (n == 1, rest)

abbrev pub put_integer : ℤ → Bytes
put_integer (pos n) = n ∷ []
put_integer (negsuc n) = (255 - n) ∷ []

abbrev pub get_integer : Bytes → Option (ℤ × Bytes)
get_integer [] = none
get_integer (n ∷ rest) = some (if ltb n 128 then pos n else negsuc (255 - n), rest)

abbrev pub sixteen : ℕ → Bytes
sixteen n = n ∷ 0 ∷ 0 ∷ 0 ∷ 0 ∷ 0 ∷ 0 ∷ 0 ∷ 0 ∷ 0 ∷ 0 ∷ 0 ∷ 0 ∷ 0 ∷ 0 ∷ 0 ∷ []

abbrev pub first_of : Bytes → ℕ
first_of [] = 0
first_of (n ∷ rest) = n

abbrev pub bytewise : Cbor
bytewise = record {
  put_u8 = put_one;
  put_u32 = put_one;
  put_u64 = put_one;
  put_bytes = put_many;
  put_str = put_many;
  put_array = put_one;
  put_map = put_one;
  put_tag = put_one;
  put_bool = put_bool;
  put_u16 = put_one;
  put_i8 = put_integer;
  put_i16 = put_integer;
  put_i32 = put_integer;
  put_i64 = put_integer;
  put_int = put_integer;
  put_simple = put_one;
  put_null = 246 ∷ [];
  put_undefined = 247 ∷ [];
  get_u8 = get_one;
  get_u32 = get_one;
  get_u64 = get_one;
  get_bytes = get_many;
  get_str = get_many;
  get_array = get_length;
  get_map = get_length;
  get_tag = get_one;
  get_bool = get_bool;
  get_u16 = get_one;
  get_i8 = get_integer;
  get_i16 = get_integer;
  get_i32 = get_integer;
  get_i64 = get_integer;
  get_int = get_integer;
  get_simple = get_one;
  get_null = skip_one;
  get_undefined = skip_one;
  skip = skip_one;
  datatype = type_of;
  as_bytes = sixteen;
  from_bytes = first_of;
}

take_all : (b rest : Bytes) → take (length b) (b ++ rest) ≡ b
take_all b rest = ap (λ n. take n (b ++ rest)) (omega arith) ∙ take-append 0 b rest ∙ append-nil b

drop_all : (b rest : Bytes) → drop (length b) (b ++ rest) ≡ rest
drop_all [] rest = refl
drop_all (x ∷ b) rest = drop_all b rest

pub get_many-put_many : (b rest : Bytes) → get_many (put_many b ++ rest) ≡ some (b, rest)
get_many-put_many b rest = rw (take_all b rest, drop_all b rest) refl

pub bytewise-IsCbor : IsCbor bytewise
bytewise-IsCbor = record {
  u8 = λ n rest h. refl;
  wide_u8 = λ n rest h. refl;
  u32 = λ n rest h. refl;
  u64 = λ n rest h. refl;
  bytes = get_many-put_many;
  str = get_many-put_many;
  array = λ n rest h. refl;
  map = λ n rest h. refl;
  uuid_length = λ id. refl;
  uuid = λ id h. refl;
}

abbrev pub no_uuid : Text → Option ℕ
no_uuid t = none

abbrev pub as_is : Externals
as_is = record { nfc = λ t. t; parse_uuid = no_uuid; format_uuid = λ k. k ∷ [] }

abbrev pub token : SecretField
token = record { name = b't' ∷ []; value = 1 ∷ 2 ∷ []; text_hint = TextHint.text }

abbrev pub api : SecretRecord
api = record { id = 10; name = b'a' ∷ []; fields = token ∷ [] }

-- With an entry of a later version of the program.
abbrev pub payload : VaultPayload
payload = record {
  vault_id = 1;
  revision = 5;
  records = api ∷ [];
  idle_timeout_seconds = 600;
  unknown = (7, 9 ∷ []) ∷ [];
}

pub payload-IsPayload : IsPayload as_is bytewise payload
unfolding from_parts parse_secret_name is_secret_name has_duplicate parse_field_name is_field_bytes
    new_payload has_clash is_canonical_unknown_value canonicalize_item
payload-IsPayload = record {
  identifier = omega arith;
  revision = omega arith;
  seconds = omega arith;
  few_records = omega arith;
  records = (
    record {
      made = refl;
      identifier = omega arith;
      some_fields = omega arith;
      few_fields = omega arith;
      fields = ((refl, omega arith), tt);
    },
    tt,
  );
  apart = refl;
  few_unknown = omega arith;
  unknown = (
    record {
      key_above = omega arith;
      key_fits = omega arith;
      whole = λ rest. refl;
      canonical = refl;
    },
    tt,
  );
  ascending = (omega arith, tt);
}
