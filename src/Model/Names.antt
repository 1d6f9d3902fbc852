-- ===== src/Model/Names.antt =====
-- References to secrets read back as they are shown (crates/ladon-core/src/model.rs).
use ladon.Prelude.{◌≡◌, refl, true, false, none, some, [], ◌∷◌, ◌++◌, arith, nat_eq}
use ladon.Prelude.Result.{ok}
use ladon.Model.{
  Text, Externals, SecretRef, strip_prefix, starts_with, is_secret_name, parse_secret_name,
  parse_secret_id, parse_secret_ref, display_ref, id_prefix,
}

strip_prefix-append : (p s : Text) → strip_prefix p (p ++ s) ≡ some s
unfolding strip_prefix
strip_prefix-append [] s = refl
strip_prefix-append (c ∷ p) s = ground (arith, strip_prefix-append p s)

strip_prefix_other : (p s : Text) → starts_with p s ≡ false → strip_prefix p s ≡ none
unfolding strip_prefix starts_with
strip_prefix_other [] s h = cc
strip_prefix_other (c ∷ p) [] h = refl
strip_prefix_other (c ∷ p) (d ∷ s) h = ground (arith, strip_prefix_other p s)

-- A normalised name that passes the checks, or an identifier whose shown form can be read.
abbrev pub IsRef : Externals → SecretRef → Type 0
IsRef ext (SecretRef.name label) = (is_secret_name label ≡ true) × (ext.nfc label ≡ label)
IsRef ext (SecretRef.id key) = ext.parse_uuid (ext.format_uuid key) ≡ some key

name_prefix : (label : Text) → is_secret_name label ≡ true → starts_with id_prefix label ≡ false
unfolding is_secret_name
name_prefix label h = ground arith

-- A reference that is shown and read again is the same reference: no name is taken for an identifier.
pub parse-display :
    (ext : Externals) (r : SecretRef)
    → IsRef ext r
    → parse_secret_ref ext (display_ref ext r) ≡ ok r
unfolding parse_secret_ref display_ref parse_secret_name parse_secret_id
parse-display ext (SecretRef.name label) v =
    rw (strip_prefix_other id_prefix label (name_prefix label v.0)) (ground arith)
parse-display ext (SecretRef.id key) v =
    rw (strip_prefix-append id_prefix (ext.format_uuid key)) (ground arith)
