-- ===== src/Redact/Hidden.antt =====
-- No secret is in a text that the redactor gives out (crates/ladon-core/src/redact.rs).
use ladon.Prelude.{
  ℕ, ◌≡◌, refl, Bool, true, false, ◌||◌, Option, none, some, List, [], ◌∷◌, ◌++◌, ◌==◌, nat_eq,
  list_eq, contains, if◌then◌else◌, drop, arith, Bool-cases, Option-cases, inl, inr, ap, ◌∙◌, sym,
  is_empty,
}
use ladon.Prelude.Result.{ok}
use ladon.Redact.Utf8.{Bytes}
use ladon.Redact.Patterns.{
  Externals, add_pattern, add_json, add_all, add_text, add_secret, add_secrets, insert_by_length,
  sort_by_length, contains_pattern, binary_forms, text_forms,
}
use ladon.Redact.Stream.{
  StreamingRedactor, RedactedOutput, fresh, new, process, push, push_all, finish, output,
}
use ladon.Redact.Reference.{is_prefix}
use ladon.Redact.Search.{IsSearch}

contains-snoc :
    (ps : List Bytes) (p q : Bytes) → contains (ps ++ (p ∷ [])) q ≡ (contains ps q || p == q)
contains-snoc [] p q = ground arith
contains-snoc (x ∷ ps) p q = ground (arith, contains-snoc ps p q)

-- A pattern that is added is there, and so are those before.
added : (ps : List Bytes) (p : Bytes) → is_empty p ≡ false → contains (add_pattern ps p) p ≡ true
unfolding add_pattern
added ps p h = ground (arith, contains-snoc ps p p, list_eq.eq_iff p p)

stays :
    (ps : List Bytes) (p q : Bytes) → contains ps q ≡ true → contains (add_pattern ps p) q ≡ true
unfolding add_pattern
stays ps p q h = ground (arith, contains-snoc ps p q)

stays_all :
    (ps forms : List Bytes) (q : Bytes)
    → contains ps q ≡ true
    → contains (add_all ps forms) q ≡ true
unfolding add_all
stays_all ps [] q h = h
stays_all ps (p ∷ forms) q h = stays_all (add_pattern ps p) forms q (stays ps p q h)

added_all :
    (ps forms : List Bytes) (q : Bytes)
    → contains forms q ≡ true
    → is_empty q ≡ false
    → contains (add_all ps forms) q ≡ true
unfolding add_all
added_all ps [] q h k = cc
added_all ps (p ∷ forms) q h k = elim (Bool-cases (p == q)) [
  | inl e ↦
      stays_all (add_pattern ps p) forms q
        (let same = (list_eq.eq_iff p q).0 e in ground (arith, added ps p))
  | inr e ↦ added_all (add_pattern ps p) forms q (ground arith) k
]

stays_json :
    (ps : List Bytes) (json : Option Bytes) (q : Bytes)
    → contains ps q ≡ true
    → contains (add_json ps json) q ≡ true
stays_json ps none q h = h
stays_json ps (some json) q h = stays ps _ q h

stays_text :
    (ext : Externals) (ps : List Bytes) (value q : Bytes)
    → contains ps q ≡ true
    → contains (add_text ext ps value) q ≡ true
unfolding add_text
stays_text ext ps value q h = ground (
  arith,
  stays_all (add_json ps (ext.to_json value)) (text_forms value) q
      (stays_json ps (ext.to_json value) q h),
)

stays_secret :
    (ext : Externals) (ps : List Bytes) (value q : Bytes)
    → contains ps q ≡ true
    → contains (add_secret ext ps value) q ≡ true
unfolding add_secret
stays_secret ext ps value q h =
    let all = add_all ps (binary_forms ext value) in
    ground (arith, stays_text ext all value q (stays_all ps (binary_forms ext value) q h))

stays_secrets :
    (ext : Externals) (ps secrets : List Bytes) (q : Bytes)
    → contains ps q ≡ true
    → contains (add_secrets ext ps secrets) q ≡ true
unfolding add_secrets
stays_secrets ext ps [] q h = h
stays_secrets ext ps (value ∷ rest) q h =
    stays_secrets ext (add_secret ext ps value) rest q (stays_secret ext ps value q h)

secret_added :
    (ext : Externals) (ps : List Bytes) (value q : Bytes)
    → contains (binary_forms ext value) q ≡ true
    → is_empty q ≡ false
    → is_empty value ≡ false
    → contains (add_secret ext ps value) q ≡ true
unfolding add_secret
secret_added ext ps value q h k n =
    let all = add_all ps (binary_forms ext value) in
    ground (arith, stays_text ext all value q (added_all ps (binary_forms ext value) q h k))

secrets_added :
    (ext : Externals) (ps secrets : List Bytes) (value q : Bytes)
    → contains secrets value ≡ true
    → contains (binary_forms ext value) q ≡ true
    → is_empty q ≡ false
    → is_empty value ≡ false
    → contains (add_secrets ext ps secrets) q ≡ true
unfolding add_secrets
secrets_added ext ps [] value q m h k n = cc
secrets_added ext ps (other ∷ rest) value q m h k n = elim (Bool-cases (other == value)) [
  | inl e ↦
      let same = (list_eq.eq_iff other value).0 e in
      stays_secrets ext (add_secret ext ps other) rest q
        (rw same (secret_added ext ps value q h k n))
  | inr e ↦ secrets_added ext (add_secret ext ps other) rest value q (ground arith) h k n
]

contains-insert :
    (p : Bytes) (ps : List Bytes) (q : Bytes)
    → contains (insert_by_length p ps) q ≡ (p == q || contains ps q)
unfolding insert_by_length
contains-insert p [] q = refl
contains-insert p (x ∷ ps) q = ground (arith, contains-insert p ps q)

contains-sort : (ps : List Bytes) (q : Bytes) → contains (sort_by_length ps) q ≡ contains ps q
unfolding sort_by_length
contains-sort [] q = refl
contains-sort (p ∷ ps) q =
    ground (arith, contains-insert p (sort_by_length ps) q, contains-sort ps q)

-- A text that the last check lets through has no pattern anywhere.
absent :
    (ext : Externals) (ps : List Bytes) (text p : Bytes) (j : ℕ)
    → IsSearch ext.find
    → contains_pattern ext text ps ≡ false
    → contains ps p ≡ true
    → is_prefix p (drop j text) ≡ false
unfolding contains_pattern
absent ext [] text p j search h m = cc
absent ext (q ∷ ps) text p j search h m = elim (Bool-cases (q == p)) [
  | inl e ↦
      let same = (list_eq.eq_iff q p).0 e in
      elim (Option-cases (ext.find text q)) [
        | inl gone ↦ rw (← same) (search.nowhere text q j gone)
        | inr (i, found) ↦ absurd (ground arith)
      ]
  | inr e ↦ absent ext ps text p j search (ground arith) (ground arith)
]

push_patterns :
    (ext : Externals) (r : StreamingRedactor) (chunk : Bytes)
    → (push ext r chunk).patterns ≡ r.patterns
unfolding push process
push_patterns ext r chunk = ground arith

push_all_patterns :
    (ext : Externals) (r : StreamingRedactor) (chunks : List Bytes)
    → (push_all ext r chunks).patterns ≡ r.patterns
unfolding push_all
push_all_patterns ext r [] = refl
push_all_patterns ext r (chunk ∷ rest) =
    push_all_patterns ext (push ext r chunk) rest ∙ push_patterns ext r chunk

given_out :
    (ext : Externals) (ps : List Bytes) (count : ℕ) (captured : Option (Bytes × Bool × ℕ))
    (out : RedactedOutput)
    → output ext ps count captured ≡ some out
    → out.suppressed ≡ false
    → contains_pattern ext out.text ps ≡ false
given_out ext ps count none out h shown = cc
given_out ext ps count (some (text, truncated, omitted)) out h shown = ground arith

clear_output :
    (hidden : Bool) (x out : RedactedOutput) (y : Option RedactedOutput)
    → (if hidden then some x else y) ≡ some out
    → x.suppressed ≡ true
    → out.suppressed ≡ false
    → y ≡ some out
clear_output false x out y h k shown = h
clear_output true x out y h k shown = absurd (ground arith)

finish-checked :
    (ext : Externals) (r : StreamingRedactor) (out : RedactedOutput)
    → finish ext r ≡ some out
    → out.suppressed ≡ false
    → contains_pattern ext out.text r.patterns ≡ false
unfolding finish process
finish-checked ext r out h shown =
    given_out ext r.patterns _ _ out (clear_output r.suppressed _ out _ h refl shown) shown

-- A text that is given out has no secret in it: for a secret that is not empty, neither its bytes nor
-- their hexadecimal or base64 forms stand anywhere in a text that is not suppressed.
pub finish-hides :
    (ext : Externals) (secrets : List Bytes) (limit : ℕ) (start : StreamingRedactor)
    (chunks : List Bytes) (out : RedactedOutput) (value form : Bytes) (j : ℕ)
    → IsSearch ext.find
    → new ext secrets limit ≡ ok start
    → finish ext (push_all ext start chunks) ≡ some out
    → out.suppressed ≡ false
    → contains secrets value ≡ true
    → is_empty value ≡ false
    → contains (binary_forms ext value) form ≡ true
    → is_empty form ≡ false
    → is_prefix form (drop j out.text) ≡ false
unfolding new
finish-hides ext secrets limit start chunks out value form j search made finished shown m n f k =
    let ps = sort_by_length (add_secrets ext [] secrets) in
    let same : fresh ext secrets ps limit ≡ start = ground arith in
    let known : contains start.patterns form ≡ true =
      ap (λ r. contains r.patterns form) (sym same)
      ∙ contains-sort (add_secrets ext [] secrets) form
      ∙ secrets_added ext [] secrets value form m f k n in
    let r = push_all ext start chunks in
    let kept = push_all_patterns ext start chunks in
    let checked = finish-checked ext r out finished shown in
    absent ext start.patterns out.text form j search
      (ap (contains_pattern ext out.text) (sym kept) ∙ checked) known
