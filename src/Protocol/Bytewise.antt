-- ===== src/Protocol/Bytewise.antt =====
-- A writer and reader of documents as plain numbers: for concrete inputs.
use ladon.Prelude.{
  ℕ, zero, suc, ◌+◌, ◌≡◌, ◌≤◌, refl, true, false, ◌∙◌, ap, Option, none, some, [], ◌∷◌, ◌++◌,
  length, if◌then◌else◌, ◌==◌, nat_eq, arith,
}
use ladon.Codec.Bytewise.{get_many, get_many-put_many}
use mathlib.Core.Option.{some-injective}
use ladon.Redact.Utf8.{Bytes}
use ladon.Protocol.Json.{Json, Items, nil, cons, Entries, end, entry}

unfoldable mutual
  pub put_json : Json → Bytes → Bytes
  put_json Json.null rest = 0 ∷ rest
  put_json (Json.boolean true) rest = 1 ∷ rest
  put_json (Json.boolean false) rest = 2 ∷ rest
  put_json (Json.unsigned n) rest = 3 ∷ n ∷ rest
  put_json (Json.negative n) rest = 4 ∷ n ∷ rest
  put_json (Json.floating n) rest = 5 ∷ n ∷ rest
  put_json (Json.string t) rest = 6 ∷ length t ∷ t ++ rest
  put_json (Json.arr items) rest = 7 ∷ put_items items rest
  put_json (Json.obj entries) rest = 8 ∷ put_entries entries rest

  pub put_items : Items → Bytes → Bytes
  put_items nil rest = 0 ∷ rest
  put_items (cons item items) rest = 1 ∷ put_json item (put_items items rest)

  pub put_entries : Entries → Bytes → Bytes
  put_entries end rest = 0 ∷ rest
  put_entries (entry key value entries) rest =
      1 ∷ length key ∷ key ++ put_json value (put_entries entries rest)

-- How many pieces there are.
unfoldable mutual
  pub pieces : Json → ℕ
  pieces (Json.arr items) = suc (pieces_of items)
  pieces (Json.obj entries) = suc (pieces_in entries)
  pieces json = 1

  pub pieces_of : Items → ℕ
  pieces_of nil = 1
  pieces_of (cons item items) = suc (pieces item + pieces_of items)

  pub pieces_in : Entries → ℕ
  pieces_in end = 1
  pieces_in (entry key value entries) = suc (pieces value + pieces_in entries)

abbrev then_get {ℓ κ} :
    {A : Type ℓ} {B : Type κ}
    → Option (A × Bytes)
    → (A → Bytes → Option (B × Bytes))
    → Option (B × Bytes)
then_get none next = none
then_get (some (a, rest)) next = next a rest

abbrev get_number : (ℕ → Json) → Bytes → Option (Json × Bytes)
get_number make [] = none
get_number make (n ∷ rest) = some (make n, rest)

abbrev get_tagged :
    (Bytes → Option (Items × Bytes))
    → (Bytes → Option (Entries × Bytes))
    → ℕ
    → Bytes
    → Option (Json × Bytes)
get_tagged items entries tag rest =
    if tag == 0
    then some (Json.null, rest)
    else if tag == 1
    then some (Json.boolean true, rest)
    else if tag == 2
    then some (Json.boolean false, rest)
    else if tag == 3
    then get_number (λ n. Json.unsigned n) rest
    else if tag == 4
    then get_number (λ n. Json.negative n) rest
    else if tag == 5
    then get_number (λ n. Json.floating n) rest
    else if tag == 6
    then then_get (get_many rest) (λ t r. some (Json.string t, r))
    else if tag == 7
    then then_get (items rest) (λ is r. some (Json.arr is, r))
    else then_get (entries rest) (λ es r. some (Json.obj es, r))

abbrev get_cons :
    (Bytes → Option (Json × Bytes))
    → (Bytes → Option (Items × Bytes))
    → ℕ
    → Bytes
    → Option (Items × Bytes)
get_cons item items tag rest =
    if tag == 0
    then some (nil, rest)
    else then_get (item rest) (λ i r. then_get (items r) (λ is r'. some (cons i is, r')))

abbrev get_entry :
    (Bytes → Option (Json × Bytes))
    → (Bytes → Option (Entries × Bytes))
    → ℕ
    → Bytes
    → Option (Entries × Bytes)
get_entry value entries tag rest =
    if tag == 0
    then some (end, rest)
    else then_get (get_many rest) (λ k r.
      then_get (value r) (λ v r'. then_get (entries r') (λ es r''. some (entry k v es, r''))))

-- The first argument is more than the pieces.
unfoldable mutual
  pub get_json : ℕ → Bytes → Option (Json × Bytes)
  get_json zero input = none
  get_json (suc n) [] = none
  get_json (suc n) (tag ∷ rest) = get_tagged (get_items n) (get_entries n) tag rest

  pub get_items : ℕ → Bytes → Option (Items × Bytes)
  get_items zero input = none
  get_items (suc n) [] = none
  get_items (suc n) (tag ∷ rest) = get_cons (get_json n) (get_items n) tag rest

  pub get_entries : ℕ → Bytes → Option (Entries × Bytes)
  get_entries zero input = none
  get_entries (suc n) [] = none
  get_entries (suc n) (tag ∷ rest) = get_entry (get_json n) (get_entries n) tag rest

then_got {ℓ κ} :
    {A : Type ℓ} {B : Type κ} (got : Option (A × Bytes)) (next : A → Bytes → Option (B × Bytes))
    (a : A) (rest : Bytes)
    → got ≡ some (a, rest)
    → then_get got next ≡ next a rest
then_got got next a rest h = ap (λ o. then_get o next) h

no_pieces : (json : Json) → 1 ≤ pieces json
unfolding pieces
no_pieces Json.null = omega arith
no_pieces (Json.boolean b) = omega arith
no_pieces (Json.unsigned n) = omega arith
no_pieces (Json.negative n) = omega arith
no_pieces (Json.floating n) = omega arith
no_pieces (Json.string t) = omega arith
no_pieces (Json.arr items) = omega arith
no_pieces (Json.obj entries) = omega arith

mutual
  unfolding get_json put_json pieces

  json_got :
      (n : ℕ) (json : Json) (rest : Bytes)
      → pieces json ≤ n
      → get_json n (put_json json rest) ≡ some (json, rest)
  json_got zero json rest h = absurd (omega (arith, no_pieces json))
  json_got (suc n) Json.null rest h = refl
  json_got (suc n) (Json.boolean true) rest h = refl
  json_got (suc n) (Json.boolean false) rest h = refl
  json_got (suc n) (Json.unsigned k) rest h = refl
  json_got (suc n) (Json.negative k) rest h = refl
  json_got (suc n) (Json.floating k) rest h = refl
  json_got (suc n) (Json.string t) rest h =
      then_got (get_many (length t ∷ t ++ rest)) (λ t' r. some (Json.string t', r)) t rest
        (get_many-put_many t rest)
  json_got (suc n) (Json.arr items) rest h =
      then_got (get_items n (put_items items rest)) (λ is r. some (Json.arr is, r)) items rest
        (items_got n items rest (omega arith))
  json_got (suc n) (Json.obj entries) rest h =
      then_got (get_entries n (put_entries entries rest)) (λ es r. some (Json.obj es, r)) entries
        rest (entries_got n entries rest (omega arith))

  items_got :
      (n : ℕ) (items : Items) (rest : Bytes)
      → pieces_of items ≤ n
      → get_items n (put_items items rest) ≡ some (items, rest)
  items_got zero nil rest h = absurd (omega arith)
  items_got zero (cons item items) rest h = absurd (omega arith)
  items_got (suc n) nil rest h = refl
  items_got (suc n) (cons item items) rest h =
      then_got (get_json n (put_json item (put_items items rest)))
        (λ i r. then_get (get_items n r) (λ is r'. some (cons i is, r'))) item
        (put_items items rest) (json_got n item (put_items items rest) (omega arith))
      ∙ then_got (get_items n (put_items items rest)) (λ is r. some (cons item is, r)) items rest
          (items_got n items rest (omega arith))

  entries_got :
      (n : ℕ) (entries : Entries) (rest : Bytes)
      → pieces_in entries ≤ n
      → get_entries n (put_entries entries rest) ≡ some (entries, rest)
  entries_got zero end rest h = absurd (omega arith)
  entries_got zero (entry key value entries) rest h = absurd (omega arith)
  entries_got (suc n) end rest h = refl
  entries_got (suc n) (entry key value entries) rest h =
      let more = put_entries entries rest in
      then_got (get_many (length key ∷ key ++ put_json value more))
        (λ k r.
          then_get (get_json n r)
            (λ v r'. then_get (get_entries n r') (λ es r''. some (entry k v es, r''))))
        key (put_json value more) (get_many-put_many key (put_json value more))
      ∙ then_got (get_json n (put_json value more))
          (λ v r. then_get (get_entries n r) (λ es r'. some (entry key v es, r'))) value more
          (json_got n value more (omega arith))
      ∙ then_got (get_entries n more) (λ es r. some (entry key value es, r)) entries rest
          (entries_got n entries rest (omega arith))

-- The number of the pieces comes first.
unfoldable pub write_document : Json → Option Bytes
unfolding put_json pieces
write_document json = some (pieces json ∷ put_json json [])

abbrev whole : Option (Json × Bytes) → Option Json
whole none = none
whole (some (json, [])) = some json
whole (some (json, b ∷ bs)) = none

unfoldable pub read_document : Bytes → Option Json
unfolding get_json
read_document [] = none
read_document (n ∷ rest) = whole (get_json n rest)

pub read_document-write_document :
    (json : Json) (written : Bytes)
    → write_document json ≡ some written
    → read_document written ≡ some json
unfolding write_document read_document
read_document-write_document json written h =
    let same = some-injective _ _ h in
    rw (← same) (ap whole (json_got (pieces json) json [] (omega arith)))
