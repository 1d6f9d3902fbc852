-- ===== src/Runner/Targets.antt =====
-- What is known of the bindings that `validate_run_request` accepts (crates/ladon-core/src/runner.rs).
use ladon.Prelude.{
  ℕ, suc, ◌+◌, ◌≡◌, ◌≤◌, refl, Bool, true, false, not, Option, none, some, List, [], ◌∷◌, nat_eq,
  list_eq, contains, all, All, if◌then◌else◌, length, is_empty, arith, ap, subst,
}
use ladon.Prelude.Result.{ok, ok_or, bind_ok, ensure_ok}
use ladon.Prelude.Utf8.{bytes, byte_len}
use ladon.Model.{Text, Externals, is_ascii_alphanumeric, parse_field_name, parse_secret_ref}
use ladon.Model.Unique.{Unique, Disjoint, Disjoint-uncons}
use ladon.Runner.{
  BindingTarget, SecretBindingRequest, ValidatedBindingTarget, ValidatedSecretBinding,
}
use ladon.Runner.Validate.{
  validate_environment_name, validate_suggested_filename, is_valid_filename, is_valid_extension,
  extension, suggested_extension, validate_target, validate_bindings,
}

abbrev pub IsEnvironmentName : Text → Type 0
IsEnvironmentName name =
    (is_empty name ≡ false)
    × (byte_len name ≤ 256)
    × (contains name 0 ≡ false)
    × (contains name b'=' ≡ false)

-- A dot and up to 16 letters or digits.
abbrev pub IsExtension : Option Text → Type 0
IsExtension none = Unit
IsExtension (some []) = ⊥
IsExtension (some (c ∷ suffix)) =
    (c ≡ b'.')
    × (is_empty suffix ≡ false)
    × (byte_len suffix ≤ 16)
    × (all is_ascii_alphanumeric (bytes suffix) ≡ true)

abbrev pub IsTarget : ValidatedBindingTarget → Type 0
IsTarget (ValidatedBindingTarget.environment name) = IsEnvironmentName name
IsTarget ValidatedBindingTarget.standard_input = Unit
IsTarget (ValidatedBindingTarget.temporary_file_environment name suffix) =
    IsEnvironmentName name × IsExtension suffix

abbrev pub target_names : ValidatedBindingTarget → List Text → List Text
target_names (ValidatedBindingTarget.environment name) names = name ∷ names
target_names ValidatedBindingTarget.standard_input names = names
target_names (ValidatedBindingTarget.temporary_file_environment name _) names = name ∷ names

-- The variables that the bindings set.
abbrev pub environment_names : List ValidatedSecretBinding → List Text
environment_names [] = []
environment_names (b ∷ bs) = target_names b.target (environment_names bs)

abbrev pub target_inputs : ValidatedBindingTarget → ℕ
target_inputs ValidatedBindingTarget.standard_input = 1
target_inputs _ = 0

-- The bindings that go to the standard input.
abbrev pub standard_inputs : List ValidatedSecretBinding → ℕ
standard_inputs [] = 0
standard_inputs (b ∷ bs) = target_inputs b.target + standard_inputs bs

environment_name_lem :
    (name : Text) (names names' : List Text)
    → validate_environment_name name names ≡ ok names'
    → IsEnvironmentName name × (contains names name ≡ false) × (names' ≡ name ∷ names)
unfolding validate_environment_name
environment_name_lem name names names' h = ground (arith)

extension_fits :
    (t : Text)
    → is_valid_extension t ≡ true
    → (is_empty t ≡ false) × (byte_len t ≤ 16) × (all is_ascii_alphanumeric (bytes t) ≡ true)
unfolding is_valid_extension
extension_fits t h = ground arith

suggested_extension_lem :
    (suggested suffix : Option Text)
    → suggested_extension suggested ≡ ok suffix
    → IsExtension suffix
unfolding suggested_extension validate_suggested_filename is_valid_extension
suggested_extension_lem none suffix h =
    let same : none ≡ suffix = ground arith in subst IsExtension same tt
suggested_extension_lem (some filename) suffix h =
    let (s, v, h2) = bind_ok (validate_suggested_filename filename) _ suffix h in
    let (good, h3) = ensure_ok (is_valid_filename filename) _ _ s v in
    let (t, e, h4) = bind_ok (ok_or (extension filename) _) _ s h3 in
    let (fits, h5) = ensure_ok (is_valid_extension t) _ _ s h4 in
    let same : some (b'.' ∷ t) ≡ suffix = ground arith in
    let (some_char, short, plain) = extension_fits t fits in
    subst IsExtension same (refl, some_char, short, plain)

abbrev Steps : List Text → Bool → ValidatedBindingTarget → List Text → Bool → Type 0
Steps names has target names' has' =
    IsTarget target
    × Disjoint names (target_names target [])
    × (names' ≡ target_names target names)
    × (target_inputs target + (if has then 1 else 0) ≡ (if has' then 1 else 0))

abbrev StepsTo : List Text → Bool → ValidatedBindingTarget × List Text × Bool → Type 0
StepsTo names has (target, names', has') = Steps names has target names' has'

target_lem :
    (names names' : List Text) (has has' : Bool) (target : BindingTarget)
    (target' : ValidatedBindingTarget)
    → validate_target names has target ≡ ok (target', names', has')
    → Steps names has target' names' has'
unfolding validate_target
target_lem names names' has has' (BindingTarget.environment name) target' h =
    let (ns, v, h2) = bind_ok (validate_environment_name name names) _ (target', names', has') h in
    let (valid, fresh, same) = environment_name_lem name names ns v in
    let stepped : (ValidatedBindingTarget.environment name, ns, has) ≡ (target', names', has') =
      ground arith in
    subst (StepsTo names has) stepped (valid, (fresh, tt), same, omega arith)
target_lem names names' has has' BindingTarget.standard_input target' h =
    let (first, h2) = ensure_ok (not has) _ _ (target', names', has') h in
    let stepped : (ValidatedBindingTarget.standard_input, names, true) ≡ (target', names', has') =
      ground arith in
    subst (StepsTo names has) stepped (tt, tt, refl, ground arith)
target_lem names names' has has' (BindingTarget.temporary_file_environment name suggested) target'
      h =
    let (ns, v, h2) = bind_ok (validate_environment_name name names) _ (target', names', has') h in
    let (valid, fresh, same) = environment_name_lem name names ns v in
    let (suffix, s, h3) = bind_ok (suggested_extension suggested) _ (target', names', has') h2 in
    let stepped : (ValidatedBindingTarget.temporary_file_environment name suffix, ns, has)
        ≡ (target', names', has') =
      ground arith in
    subst (StepsTo names has) stepped
      ((valid, suggested_extension_lem suggested suffix s), (fresh, tt), same, omega arith)

-- What a list of validated bindings keeps, after names that are taken and perhaps a standard input.
abbrev pub Bindings : List Text → Bool → List ValidatedSecretBinding → Type 0
Bindings names has bs =
    All (λ b. IsTarget b.target) bs
    × Unique (environment_names bs)
    × Disjoint names (environment_names bs)
    × (standard_inputs bs + (if has then 1 else 0) ≤ 1)

add_name :
    (name : Text) (names names' rest : List Text)
    → names' ≡ name ∷ names
    → contains names name ≡ false
    → Unique rest
    → Disjoint names' rest
    → Unique (name ∷ rest) × Disjoint names (name ∷ rest)
add_name name names names' rest same fresh u d =
    let (absent, d') = Disjoint-uncons name names rest (subst (λ n. Disjoint n rest) same d) in
    ((absent, u), (fresh, d'))

target_cons :
    (names names' : List Text) (has has' : Bool) (target : ValidatedBindingTarget)
    (rest : List Text) (n : ℕ)
    → Steps names has target names' has'
    → Unique rest
    → Disjoint names' rest
    → n + (if has' then 1 else 0) ≤ 1
    → Unique (target_names target rest)
      × Disjoint names (target_names target rest)
      × (target_inputs target + n + (if has then 1 else 0) ≤ 1)
target_cons names names' has has' (ValidatedBindingTarget.environment name) rest n
      (valid, fresh, same, count) u d h =
    let (u', d') = add_name name names names' rest same fresh.0 u d in (u', d', omega arith)
target_cons names names' has has' ValidatedBindingTarget.standard_input rest n
      (valid, fresh, same, count) u d h =
    (u, subst (λ k. Disjoint k rest) same d, omega arith)
target_cons names names' has has' (ValidatedBindingTarget.temporary_file_environment name suffix)
      rest n (valid, fresh, same, count) u d h =
    let (u', d') = add_name name names names' rest same fresh.0 u d in (u', d', omega arith)

pub validate_bindings_lem :
    (ext : Externals) (names : List Text) (has : Bool) (bs : List SecretBindingRequest)
    (vs : List ValidatedSecretBinding)
    → validate_bindings ext names has bs ≡ ok vs
    → Bindings names has vs × (length vs ≡ length bs)
unfolding validate_bindings
validate_bindings_lem ext names has [] vs h =
    let same : [] ≡ vs = ground arith in
    subst (λ v. Bindings names has v × (length v ≡ 0)) same ((tt, tt, tt, ground arith), refl)
validate_bindings_lem ext names has (b ∷ bs) vs h =
    let (r, e1, h1) = bind_ok (parse_secret_ref ext b.secret_ref) _ vs h in
    let (f, e2, h2) = bind_ok (parse_field_name b.field) _ vs h1 in
    let ((target, names', has'), e3, h3) = bind_ok (validate_target names has b.target) _ vs h2 in
    let (rest, e4, h4) = bind_ok (validate_bindings ext names' has' bs) _ vs h3 in
    let steps = target_lem names names' has has' b.target target e3 in
    let ((valid, u, d, inputs), same_length) = validate_bindings_lem ext names' has' bs rest e4 in
    let (u', d', inputs') =
      target_cons names names' has has' target (environment_names rest) (standard_inputs rest) steps
        u d inputs in
    let same : record { secret_ref = r; field = f; target = target } ∷ rest ≡ vs = ground arith in
    subst (λ v. Bindings names has v × (length v ≡ suc (length bs))) same
      (((steps.0, valid), u', d', inputs'), ap suc same_length)
