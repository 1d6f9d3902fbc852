-- ===== src/Prelude/Utf8.antt =====
-- `char::encode_utf8`: a character is its scalar value.
use Prim.Native.Nat.{ℕ, ◌+◌, ◌-◌, ◌/◌, ◌%◌}
use Prim.Native.Char.{code}
use Prim.Native.String.{String}
use mathlib.Core.List.{List, [], ◌∷◌, ◌++◌}
use ladon.Prelude.Tests.{ltb, leb, if◌then◌else◌}
use ladon.Prelude.Lists.{length}

abbrev continuation : ℕ → ℕ
continuation n = 128 + n % 64

unfoldable pub encode_utf8 : ℕ → List ℕ
encode_utf8 c =
    if ltb c 128
    then c ∷ []
    else if ltb c 2048
    then (192 + c / 64) ∷ continuation c ∷ []
    else if ltb c 65536
    then (224 + c / 4096) ∷ continuation (c / 64) ∷ continuation c ∷ []
    else (240 + c / 262144) ∷ continuation (c / 4096) ∷ continuation (c / 64) ∷ continuation c ∷ []

-- The bytes of a text.
unfoldable pub bytes : List ℕ → List ℕ
unfolding encode_utf8
bytes [] = []
bytes (c ∷ cs) = encode_utf8 c ++ bytes cs

-- `str::len`.
abbrev pub byte_len : List ℕ → ℕ
byte_len s = length (bytes s)

-- The characters from the front of a text that fit in `room` bytes.
unfoldable pub take_chars : ℕ → List ℕ → List ℕ
unfolding encode_utf8
take_chars room [] = []
take_chars room (c ∷ cs) =
    let rest = take_chars (room - length (encode_utf8 c)) cs in
    if leb (length (encode_utf8 c)) room then c ∷ rest else []

-- The scalar values of a literal.
abbrev pub codes : String → List ℕ
codes String.[] = []
codes (String.◌∷◌ c s) = code c ∷ codes s
