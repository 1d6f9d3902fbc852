-- ===== src/Codec/Canonical.antt =====
-- `is_canonical_unknown_value` (crates/ladon-core/src/codec.rs): an entry that the code does not know must
-- be encoded in the one canonical way.
use ladon.Prelude.{
  ℕ, zero, suc, ◌/◌, Bool, true, false, ◌&&◌, ◌||◌, Option, none, some, [], ◌∷◌, ◌++◌, ltb, leb,
  ◌==◌, nat_eq, list_eq, length,
}
use ladon.Prelude.Result.{Result, ok, err, invalid_vault_payload, ok_or, ensure}
use ladon.Prelude.Method.{Method, ◌>>=◌, ◌>>◌, lift, return, read}
use ladon.Redact.Utf8.{Bytes}
use ladon.Codec.{Cbor, DataType}

abbrev pub decoded {ℓ} : {A : Type ℓ} → Bytes → Option (A × Bytes) → Bytes × Result A
decoded before none = (before, err invalid_vault_payload)
decoded before (some (value, rest)) = (rest, ok value)

-- A call of the decoder, its error mapped.
abbrev pub decode {ℓ} : {A : Type ℓ} → (Bytes → Option (A × Bytes)) → Method Bytes A
decode get before = decoded before (get before)

-- The lexicographic order of bytes: less.
unfoldable pub bytes_less : Bytes → Bytes → Bool
bytes_less [] [] = false
bytes_less [] (y ∷ ys) = true
bytes_less (x ∷ xs) [] = false
bytes_less (x ∷ xs) (y ∷ ys) = ltb x y || (x == y && bytes_less xs ys)

-- `canonical_key_order(left, right) == Less`.
unfoldable pub key_less : Bytes → Bytes → Bool
unfolding bytes_less
key_less left right =
    ltb (length left) (length right) || (length left == length right && bytes_less left right)

abbrev pub follows : Option Bytes → Bytes → Bool
follows none current = true
follows (some previous) current = key_less previous current

-- The items of an array, one after the other, canonically.
unfoldable pub canonicalize_array : Method Bytes Bytes → ℕ → Method Bytes Bytes
canonicalize_array item zero = return []
canonicalize_array item (suc n) = do
  first ← item
  rest ← canonicalize_array item n
  return (first ++ rest)

-- The entries of a map, the keys in ascending order.
unfoldable pub canonicalize_map : Method Bytes Bytes → ℕ → Option Bytes → Method Bytes Bytes
unfolding key_less
canonicalize_map item zero previous = return []
canonicalize_map item (suc n) previous = do
  key ← item
  lift (ensure (follows previous key) invalid_vault_payload)
  value ← item
  rest ← canonicalize_map item n (some key)
  return (key ++ (value ++ rest))

-- A scalar is decoded, and its value encoded.
abbrev pub again {ℓ} :
    {A : Type ℓ} → (Bytes → Option (A × Bytes)) → (A → Bytes) → Method Bytes Bytes
again get put = do value ← decode get; return (put value)

module _ (cbor : Cbor) where
  -- The `match data_type`.
  abbrev pub canonicalize_data : Method Bytes Bytes → DataType → Method Bytes Bytes
  canonicalize_data item DataType.bool = again cbor.get_bool cbor.put_bool
  canonicalize_data item DataType.null = again cbor.get_null (λ u. cbor.put_null)
  canonicalize_data item DataType.undefined = again cbor.get_undefined (λ u. cbor.put_undefined)
  canonicalize_data item DataType.u8 = again cbor.get_u8 cbor.put_u8
  canonicalize_data item DataType.u16 = again cbor.get_u16 cbor.put_u16
  canonicalize_data item DataType.u32 = again cbor.get_u32 cbor.put_u32
  canonicalize_data item DataType.u64 = again cbor.get_u64 cbor.put_u64
  canonicalize_data item DataType.i8 = again cbor.get_i8 cbor.put_i8
  canonicalize_data item DataType.i16 = again cbor.get_i16 cbor.put_i16
  canonicalize_data item DataType.i32 = again cbor.get_i32 cbor.put_i32
  canonicalize_data item DataType.i64 = again cbor.get_i64 cbor.put_i64
  canonicalize_data item DataType.int = again cbor.get_int cbor.put_int
  canonicalize_data item DataType.simple = again cbor.get_simple cbor.put_simple
  canonicalize_data item DataType.bytes = again cbor.get_bytes cbor.put_bytes
  canonicalize_data item DataType.string = again cbor.get_str cbor.put_str
  canonicalize_data item DataType.tag = do
    tag ← decode cbor.get_tag
    inner ← item
    return (cbor.put_tag tag ++ inner)
  canonicalize_data item DataType.array = do
    definite ← decode cbor.get_array
    length' ← lift (ok_or definite invalid_vault_payload)
    left ← read
    lift (ensure (leb length' (length left)) invalid_vault_payload)
    items ← canonicalize_array item length'
    return (cbor.put_array length' ++ items)
  canonicalize_data item DataType.map = do
    definite ← decode cbor.get_map
    length' ← lift (ok_or definite invalid_vault_payload)
    left ← read
    lift (ensure (leb length' (length left / 2)) invalid_vault_payload)
    entries ← canonicalize_map item length' none
    return (cbor.put_map length' ++ entries)
  canonicalize_data item DataType.f16 = lift (err invalid_vault_payload)
  canonicalize_data item DataType.f32 = lift (err invalid_vault_payload)
  canonicalize_data item DataType.f64 = lift (err invalid_vault_payload)
  canonicalize_data item DataType.bytes_indef = lift (err invalid_vault_payload)
  canonicalize_data item DataType.string_indef = lift (err invalid_vault_payload)
  canonicalize_data item DataType.array_indef = lift (err invalid_vault_payload)
  canonicalize_data item DataType.map_indef = lift (err invalid_vault_payload)
  canonicalize_data item DataType.break = lift (err invalid_vault_payload)
  canonicalize_data item (DataType.unknown n) = lift (err invalid_vault_payload)

  -- The canonical form of the next item. The first argument is what is left of the depth of 16.
  unfoldable pub canonicalize_item : ℕ → Method Bytes Bytes
  unfolding canonicalize_array canonicalize_map
  canonicalize_item zero = lift (err invalid_vault_payload)
  canonicalize_item (suc depth) = do
    left ← read
    data_type ← lift (ok_or (cbor.datatype left) invalid_vault_payload)
    canonicalize_data (canonicalize_item depth) data_type

  abbrev pub is_same : Bytes → Bytes × Result Bytes → Bool
  is_same input ([], ok canonical) = canonical == input
  is_same input (b ∷ bs, ok canonical) = false
  is_same input (_, err e) = false

  unfoldable pub is_canonical_unknown_value : Bytes → Bool
  unfolding canonicalize_item
  is_canonical_unknown_value input = is_same input (canonicalize_item 16 input)
