-- ===== src/Runner/Prepared.antt =====
-- What `resolve` lets through (crates/ladon-core/src/runner.rs).
use ladon.Prelude.{
  ℕ, ◌+◌, ◌≡◌, ◌≤◌, refl, Bool, true, false, not, ◌&&◌, Option, none, some, List, [], ◌∷◌, leb,
  ◌==◌, nat_eq, list_eq, if◌then◌else◌, length, arith, Bool-cases, inl, inr, ◌∙◌,
}
use ladon.Prelude.Result.{Result, ok, err, ◌>>=◌}
use ladon.Runner.{
  max_injected_bytes, ValidatedSecretBinding, ValidatedRunRequest, ResolvedSecretBinding,
  PreparedBinding, PreparedRun,
}
use ladon.Runner.Resolve.{
  is_in_command, names_secret, suits_target, resolve_binding, resolve_bindings, resolve,
}

abbrev pub to_option {ℓ} : {A : Type ℓ} → Result A → Option A
to_option (ok a) = some a
to_option (err e) = none

to_option_bind {ℓ κ} :
    {A : Type ℓ} {B : Type κ} (m : Result A) (next : A → Result B) (test : Bool) (a : A)
    → to_option m ≡ (if test then some a else none)
    → to_option (m >>= next) ≡ (if test then to_option (next a) else none)
to_option_bind (err e) next true a h = cc
to_option_bind (err e) next false a h = refl
to_option_bind (ok b) next true a h = cc
to_option_bind (ok b) next false a h = cc

abbrev pub total_bytes : List ResolvedSecretBinding → ℕ
total_bytes [] = 0
total_bytes (r ∷ rs) = length r.value + total_bytes rs

module _ (request : ValidatedRunRequest) where
  -- A value may be given for a binding.
  abbrev pub suits : ValidatedSecretBinding → ResolvedSecretBinding → Bool
  suits b r =
      b.field == r.field
      && names_secret b.secret_ref r.secret_id
      && suits_target b.target r.value
      && not (is_in_command request r.value)

  abbrev pub all_suit : List ValidatedSecretBinding → List ResolvedSecretBinding → Bool
  all_suit [] _ = true
  all_suit (b ∷ bs) [] = true
  all_suit (b ∷ bs) (r ∷ rs) = suits b r && all_suit bs rs

  abbrev pub prepare : ValidatedSecretBinding → ResolvedSecretBinding → PreparedBinding
  prepare b r = record {
    secret_id = r.secret_id;
    field = b.field;
    target = b.target;
    value = r.value;
  }

  abbrev pub prepare_all :
      List ValidatedSecretBinding → List ResolvedSecretBinding → List PreparedBinding
  prepare_all [] _ = []
  prepare_all (b ∷ bs) [] = []
  prepare_all (b ∷ bs) (r ∷ rs) = prepare b r ∷ prepare_all bs rs

  abbrev pub prepared : List ResolvedSecretBinding → PreparedRun
  prepared rs = record {
    executable = request.executable;
    arguments = request.arguments;
    working_directory = request.working_directory;
    bindings = prepare_all request.bindings rs;
    timeout = request.timeout;
    output_limit_bytes = request.output_limit_bytes;
  }

  -- Every value suits its binding, and they are not too long together.
  abbrev pub is_resolvable : List ResolvedSecretBinding → Bool
  is_resolvable rs =
      length rs == length request.bindings
      && all_suit request.bindings rs
      && leb (total_bytes rs) max_injected_bytes

  resolve_binding_lem :
      (injected : ℕ) (b : ValidatedSecretBinding) (r : ResolvedSecretBinding)
      → to_option (resolve_binding request injected b r) ≡ (
          if suits b r && leb (injected + length r.value) max_injected_bytes
          then some (injected + length r.value, prepare b r)
          else none)
  unfolding resolve_binding
  resolve_binding_lem injected b r = ground (arith, list_eq.eq_iff b.field r.field)

  resolve_bindings_lem :
      (injected : ℕ) (bs : List ValidatedSecretBinding) (rs : List ResolvedSecretBinding)
      → length rs ≡ length bs
      → injected ≤ max_injected_bytes
      → to_option (resolve_bindings request injected bs rs) ≡ (
          if all_suit bs rs && leb (injected + total_bytes rs) max_injected_bytes
          then some (prepare_all bs rs)
          else none)
  unfolding resolve_bindings
  resolve_bindings_lem injected [] [] e h = ground arith
  resolve_bindings_lem injected [] (r ∷ rs) e h = absurd (omega arith)
  resolve_bindings_lem injected (b ∷ bs) [] e h = absurd (omega arith)
  resolve_bindings_lem injected (b ∷ bs) (r ∷ rs) e h =
      let first = resolve_binding_lem injected b r in
      let fits = suits b r && leb (injected + length r.value) max_injected_bytes in
      elim (Bool-cases fits) [
        | inl good ↦
            let n = injected + length r.value in
            let later =
              to_option_bind (resolve_bindings request n bs rs)
                (λ others. ok (prepare b r ∷ others)) _ _
                (resolve_bindings_lem n bs rs (omega arith) (ground arith)) in
            to_option_bind _ _ fits _ first ∙ rw good (later ∙ ground arith)
        | inr bad ↦ to_option_bind _ _ fits _ first ∙ rw bad (ground arith)
      ]

  -- `resolve` gives the run that pairs the bindings with the values, in order, exactly if there are as
  -- many values as bindings, every value suits its binding (its field, its identifier if the request names
  -- one, text without NUL for an environment variable, and not in the command), and the values have at
  -- most 1 MiB together. Otherwise it fails.
  pub resolve_lem :
      (rs : List ResolvedSecretBinding)
      → to_option (resolve request rs) ≡ (if is_resolvable rs then some (prepared rs) else none)
  unfolding resolve
  resolve_lem rs = elim (Bool-cases (length rs == length request.bindings)) [
    | inl same ↦ rw same (
        to_option_bind _ _ _ _
          (resolve_bindings_lem 0 request.bindings rs (ground arith) (omega arith))
        ∙ ground arith)
    | inr differ ↦ rw differ refl
  ]
