-- ===== src/Redact/Utf8.antt =====
-- `std::str::from_utf8` of the standard library, and the `Utf8Escaper` of crates/ladon-core/src/redact.rs
-- that uses it.
use ladon.Prelude.{
  ℕ, zero, suc, Bool, ◌&&◌, ◌||◌, List, [], ◌∷◌, ◌++◌, ltb, leb, ◌==◌, nat_eq, if◌then◌else◌, take,
  drop, length, ◌+◌, ◌/◌, ◌%◌,
}

abbrev pub Bytes : Type 0
Bytes = List ℕ

-- What stands at the front of the bytes: a character of that many bytes; bytes that begin no character
-- (`error_len`); or the beginning of a character that is cut off.
pub data Front : Type 0 where
  finished : Front
  character : ℕ → Front
  invalid : ℕ → Front
  incomplete : Front

abbrev pub between : ℕ → ℕ → ℕ → Bool
between low high b = leb low b && leb b high

abbrev pub is_continuation : ℕ → Bool
is_continuation b = between 128 191 b

abbrev pub begins_four : ℕ → ℕ → Bool
begins_four a b =
    (a == 240 && between 144 191 b)
    || (between 241 243 a && is_continuation b)
    || (a == 244 && between 128 143 b)

abbrev pub begins_three : ℕ → ℕ → Bool
begins_three a b =
    (a == 224 && between 160 191 b)
    || (between 225 236 a && is_continuation b)
    || (a == 237 && between 128 159 b)
    || (between 238 239 a && is_continuation b)

abbrev pub fourth_byte : Bytes → Front
fourth_byte [] = incomplete
fourth_byte (d ∷ _) = if is_continuation d then character 4 else invalid 3

abbrev pub third_of_four : Bytes → Front
third_of_four [] = incomplete
third_of_four (c ∷ bs) = if is_continuation c then fourth_byte bs else invalid 2

abbrev pub second_of_four : ℕ → Bytes → Front
second_of_four a [] = incomplete
second_of_four a (b ∷ bs) = if begins_four a b then third_of_four bs else invalid 1

abbrev pub third_of_three : Bytes → Front
third_of_three [] = incomplete
third_of_three (c ∷ _) = if is_continuation c then character 3 else invalid 2

abbrev pub second_of_three : ℕ → Bytes → Front
second_of_three a [] = incomplete
second_of_three a (b ∷ bs) = if begins_three a b then third_of_three bs else invalid 1

abbrev pub second_of_two : Bytes → Front
second_of_two [] = incomplete
second_of_two (b ∷ _) = if is_continuation b then character 2 else invalid 1

unfoldable pub front : Bytes → Front
front [] = finished
front (a ∷ bs) =
    if ltb a 128
    then character 1
    else if between 194 223 a
    then second_of_two bs
    else if between 224 239 a
    then second_of_three a bs
    else if between 240 244 a
    then second_of_four a bs
    else invalid 1

abbrev pub prefix_at : Bytes → (ℕ → List Bytes × Bytes) → Front → List Bytes × Bytes
prefix_at bytes next (character n) = let (cs, rest) = next n in (take n bytes ∷ cs, rest)
prefix_at bytes next _ = ([], bytes)

-- The characters at the front (up to `valid_up_to`), and what follows them. There are at most as many
-- characters as bytes.
unfoldable pub valid_prefix : ℕ → Bytes → List Bytes × Bytes
unfolding front
valid_prefix zero bytes = ([], bytes)
valid_prefix (suc f) bytes = prefix_at bytes (λ n. valid_prefix f (drop n bytes)) (front bytes)

unfoldable pub from_utf8 : Bytes → List Bytes × Bytes
unfolding valid_prefix
from_utf8 bytes = valid_prefix (length bytes) bytes

-- The digit of `{:x}`.
unfoldable pub hex_digit : ℕ → ℕ
hex_digit n = if ltb n 10 then b'0' + n else 87 + n

-- `\x{byte:02x}`.
unfoldable pub escape : ℕ → List Bytes
unfolding hex_digit
escape b = (b'\\' ∷ []) ∷ (b'x' ∷ []) ∷ (hex_digit (b / 16) ∷ []) ∷ (hex_digit (b % 16) ∷ []) ∷ []

unfoldable pub escapes : Bytes → List Bytes
unfolding escape
escapes [] = []
escapes (b ∷ bs) = escape b ++ escapes bs

abbrev pub escape_at : List Bytes → Bytes → (ℕ → List Bytes × Bytes) → Front → List Bytes × Bytes
escape_at valid rest next (invalid n) =
    let (out, pending) = next n in (valid ++ (escapes (take n rest) ++ out), pending)
escape_at valid rest next finished = (valid, [])
escape_at valid rest next _ = (valid, rest)

-- The loop of `Utf8Escaper::push`: the characters that it passes to `push_str`, in order, and what is
-- left pending. Every round takes a byte at least, so that the fuel of the number of bytes is enough.
unfoldable pub escape_loop : ℕ → Bytes → List Bytes × Bytes
unfolding from_utf8 front escapes
escape_loop zero buffer = ([], buffer)
escape_loop (suc f) buffer =
    let (valid, rest) = from_utf8 buffer in
    escape_at valid rest (λ n. escape_loop f (drop n rest)) (front rest)
