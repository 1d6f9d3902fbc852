-- ===== src/Protocol/Json.antt =====
-- `validate_json_document` (crates/ladon-core/src/protocol.rs): the nesting of JSON is bounded, and no object
-- has a key twice.
use ladon.Prelude.{
  ℕ, ◌+◌, ◌≡◌, ◌≤◌, Bool, true, not, ◌&&◌, List, [], ◌∷◌, ltb, leb, ◌<◌, inl, inr, Bool-cases,
  contains, list_eq, arith,
}
use Prim.Native.Nat.{max}
use ladon.Model.{Text, has_duplicate}

abbrev pub max_json_depth : ℕ
max_json_depth = 16

-- A document as the deserializer hands it to the visitor, with every entry of an object. A number is a `u64`, or
-- a negative `i64` (`negative n` is -n - 1), or an `f64`, here its bits.
mutual
  pub data Json : Type 0 where
    null : Json
    boolean : Bool → Json
    unsigned negative floating : ℕ → Json
    string : Text → Json
    arr : Items → Json
    obj : Entries → Json

  pub data Items : Type 0 where
    nil : Items
    cons : Json → Items → Items

  pub data Entries : Type 0 where
    end : Entries
    entry : Text → Json → Entries → Entries

-- CheckedVisitor, at a depth.
unfoldable mutual
  pub visit : ℕ → Json → Bool
  visit depth null = true
  visit depth (boolean b) = true
  visit depth (unsigned n) = true
  visit depth (negative n) = true
  visit depth (floating n) = true
  visit depth (string text) = true
  visit depth (arr items) = ltb depth max_json_depth && visit_seq depth items
  visit depth (obj entries) = ltb depth max_json_depth && visit_map depth [] entries

  pub visit_seq : ℕ → Items → Bool
  visit_seq depth nil = true
  visit_seq depth (cons item items) = visit (depth + 1) item && visit_seq depth items

  pub visit_map : ℕ → List Text → Entries → Bool
  visit_map depth keys end = true
  visit_map depth keys (entry key value entries) =
      not (contains keys key) && (visit (depth + 1) value && visit_map depth (key ∷ keys) entries)

-- The keys of an object, in order.
abbrev pub keys_of : Entries → List Text
keys_of end = []
keys_of (entry key value entries) = key ∷ keys_of entries

-- How deep arrays and objects are nested.
unfoldable mutual
  pub nesting : Json → ℕ
  nesting null = 0
  nesting (boolean b) = 0
  nesting (unsigned n) = 0
  nesting (negative n) = 0
  nesting (floating n) = 0
  nesting (string text) = 0
  nesting (arr items) = 1 + nesting_items items
  nesting (obj entries) = 1 + nesting_entries entries

  pub nesting_items : Items → ℕ
  nesting_items nil = 0
  nesting_items (cons item items) = max (nesting item) (nesting_items items)

  pub nesting_entries : Entries → ℕ
  nesting_entries end = 0
  nesting_entries (entry key value entries) = max (nesting value) (nesting_entries entries)

-- No object has a key twice.
unfoldable mutual
  pub has_plain_keys : Json → Bool
  has_plain_keys null = true
  has_plain_keys (boolean b) = true
  has_plain_keys (unsigned n) = true
  has_plain_keys (negative n) = true
  has_plain_keys (floating n) = true
  has_plain_keys (string text) = true
  has_plain_keys (arr items) = have_plain_keys items
  has_plain_keys (obj entries) = not (has_duplicate [] (keys_of entries)) && hold_plain_keys entries

  pub have_plain_keys : Items → Bool
  have_plain_keys nil = true
  have_plain_keys (cons item items) = has_plain_keys item && have_plain_keys items

  pub hold_plain_keys : Entries → Bool
  hold_plain_keys end = true
  hold_plain_keys (entry key value entries) = has_plain_keys value && hold_plain_keys entries

mutual
  unfolding visit nesting has_plain_keys has_duplicate

  visit_at :
      (depth : ℕ) (json : Json)
      → depth ≤ 16
      → visit depth json ≡ (leb (depth + nesting json) 16 && has_plain_keys json)
  visit_at depth null h = ground arith
  visit_at depth (boolean b) h = ground arith
  visit_at depth (unsigned n) h = ground arith
  visit_at depth (negative n) h = ground arith
  visit_at depth (floating n) h = ground arith
  visit_at depth (string text) h = ground arith
  visit_at depth (arr items) h = elim (Bool-cases (ltb depth 16)) [
    | inl more ↦ let inside = visit_seq_at depth items (ground arith) in ground arith
    | inr full ↦ ground arith
  ]
  visit_at depth (obj entries) h = elim (Bool-cases (ltb depth 16)) [
    | inl more ↦ let inside = visit_map_at depth [] entries (ground arith) in ground arith
    | inr full ↦ ground arith
  ]

  visit_seq_at :
      (depth : ℕ) (items : Items)
      → depth < 16
      → visit_seq depth items
        ≡ (leb (depth + (1 + nesting_items items)) 16 && have_plain_keys items)
  visit_seq_at depth nil h = ground arith
  visit_seq_at depth (cons item items) h =
      let first = visit_at (depth + 1) item (omega arith) in
      let rest = visit_seq_at depth items h in ground arith

  visit_map_at :
      (depth : ℕ) (keys : List Text) (entries : Entries)
      → depth < 16
      → visit_map depth keys entries ≡ (
          leb (depth + (1 + nesting_entries entries)) 16
          && (not (has_duplicate keys (keys_of entries)) && hold_plain_keys entries))
  visit_map_at depth keys end h = ground arith
  visit_map_at depth keys (entry key value entries) h =
      let first = visit_at (depth + 1) value (omega arith) in
      let rest = visit_map_at depth (key ∷ keys) entries h in ground arith

-- A document is accepted exactly if arrays and objects are nested at most 16 deep and no object has a key
-- twice.
pub visit_lem : (json : Json) → visit 0 json ≡ (leb (nesting json) 16 && has_plain_keys json)
visit_lem json = let at = visit_at 0 json (omega arith) in ground arith
