-- ===== src/Runner/Valid.antt =====
-- What is known of a request that `validate_run_request` accepts (crates/ladon-core/src/runner.rs).
use ladon.Prelude.{
  ℕ, ◌+◌, ◌≡◌, ◌≤◌, ◌<◌, refl, true, false, not, ◌&&◌, Option, none, some, List, [], ◌∷◌, leb, ◌==◌,
  nat_eq, list_eq, contains, any, All, length, arith, Option-cases, inl, inr, ap, subst, leb→le,
  ◌∙◌,
}
use ladon.Prelude.Result.{ok, ok_or, bind_ok, ensure_ok, ok_injective, LadonError}
use ladon.Prelude.Time.{checked_add, from_millis}
use ladon.Prelude.Utf8.{byte_len}
use ladon.Model.{Text, Externals}
use ladon.Model.Unique.{Unique}
use ladon.Runner.{
  RunCaller, maximum_timeout, RunRequest, ValidatedSecretBinding, ValidatedRunRequest,
}
use ladon.Runner.Validate.{
  is_absolute, is_valid_path, argument_bytes, validate_bindings, validate_run_request,
}
use ladon.Runner.Targets.{IsTarget, environment_names, standard_inputs, validate_bindings_lem}

abbrev pub argument_total : List Text → ℕ
argument_total [] = 0
argument_total (a ∷ rest) = byte_len a + argument_total rest

argument_bytes_lem :
    (total : ℕ) (texts : List Text) (n : ℕ)
    → argument_bytes total texts ≡ some n
    → n ≡ total + argument_total texts
unfolding argument_bytes
argument_bytes_lem total [] n h = ground arith
argument_bytes_lem total (a ∷ rest) n h = elim (Option-cases (checked_add total (byte_len a))) [
  | inl e ↦ absurd (ground arith)
  | inr (sum, e) ↦ let later = argument_bytes_lem sum rest n in ground arith
]

abbrev pub IsPath : Text → Type 0
IsPath path = (is_absolute path ≡ true) × (contains path 0 ≡ false) × (byte_len path ≤ 32768)

is_valid_path-IsPath : (path : Text) → is_valid_path path ≡ true → IsPath path
unfolding is_valid_path
is_valid_path-IsPath path h = ground arith

pub record IsValid (request : RunRequest) (caller : RunCaller) (v : ValidatedRunRequest)
    : Type 0 where
  pub same :
      (v.executable ≡ request.executable)
      × (v.arguments ≡ request.arguments)
      × (v.working_directory ≡ request.working_directory)
      × (v.timeout ≡ from_millis request.timeout_ms)
      × (v.output_limit_bytes ≡ request.output_limit_bytes)
      × (length v.bindings ≡ length request.bindings)
  pub paths : IsPath v.executable × IsPath v.working_directory
  pub arguments :
      (length v.arguments ≤ 256)
      × (argument_total v.arguments ≤ 262144)
      × (any (λ argument. contains argument 0) v.arguments ≡ false)
  pub time : (0 < v.timeout) × (v.timeout ≤ maximum_timeout caller)
  pub limit : (128 ≤ v.output_limit_bytes) × (v.output_limit_bytes ≤ 2097152)
  pub few : length v.bindings ≤ 16
  pub targets : All (λ b. IsTarget b.target) v.bindings
  pub names : Unique (environment_names v.bindings)
  pub inputs : standard_inputs v.bindings ≤ 1

abbrev validated : RunRequest → List ValidatedSecretBinding → ValidatedRunRequest
validated request bindings = record {
  executable = request.executable;
  arguments = request.arguments;
  working_directory = request.working_directory;
  bindings = bindings;
  timeout = from_millis request.timeout_ms;
  output_limit_bytes = request.output_limit_bytes;
}

arguments_fit :
    (texts : List Text) (total : ℕ)
    → argument_bytes 0 texts ≡ some total
    → (leb (length texts) 256
        && leb total 262144
        && not (any (λ argument. contains argument 0) texts))
      ≡ true
    → (length texts ≤ 256)
      × (argument_total texts ≤ 262144)
      × (any (λ argument. contains argument 0) texts ≡ false)
arguments_fit texts total sum h = let same = argument_bytes_lem 0 texts total sum in ground arith

at_most_one : (n : ℕ) → n + 0 ≤ 1 → n ≤ 1
at_most_one n h = omega arith

in_time :
    (timeout longest : ℕ)
    → (not (timeout == 0) && leb timeout longest) ≡ true
    → (0 < timeout) × (timeout ≤ longest)
in_time timeout longest h = ground arith

within : (low n high : ℕ) → (leb low n && leb n high) ≡ true → (low ≤ n) × (n ≤ high)
within low n high h = ground arith

some_of_ok_or {ℓ} :
    {A : Type ℓ} (o : Option A) (e : LadonError) (a : A) → ok_or o e ≡ ok a → o ≡ some a
some_of_ok_or none e a h = cc
some_of_ok_or (some b) e a h = ground arith

-- A request that is accepted keeps its command, its timeout and its limit, and is within all bounds:
-- absolute paths of at most 32 KiB, 256 arguments of 256 KiB together, no NUL, the caller's longest
-- timeout, an output of 128 bytes to 2 MiB, and 16 bindings, of which one at most feeds the standard input,
-- no two set the same variable, and every variable and file extension has a proper name.
pub validate_run_request-IsValid :
    (ext : Externals) (request : RunRequest) (caller : RunCaller) (v : ValidatedRunRequest)
    → validate_run_request ext request caller ≡ ok v
    → IsValid request caller v
unfolding validate_run_request
validate_run_request-IsValid ext request caller v h =
    let (path, h1) = ensure_ok (is_valid_path request.executable) _ _ v h in
    let (directory, h2) = ensure_ok (is_valid_path request.working_directory) _ _ v h1 in
    let (total, sum, h3) = bind_ok (ok_or (argument_bytes 0 request.arguments) _) _ v h2 in
    let (texts, h4) =
      ensure_ok
        (leb (length request.arguments) 256
          && leb total 262144
          && not (any (λ argument. contains argument 0) request.arguments))
        _ _ v h3 in
    let (few, h5) = ensure_ok (leb (length request.bindings) 16) _ _ v h4 in
    let timeout = from_millis request.timeout_ms in
    let (time, h6) =
      ensure_ok (not (timeout == 0) && leb timeout (maximum_timeout caller)) _ _ v h5 in
    let (limit, h7) =
      ensure_ok (leb 128 request.output_limit_bytes && leb request.output_limit_bytes 2097152) _ _ v
        h6 in
    let (bindings, made, h8) = bind_ok (validate_bindings ext [] false request.bindings) _ v h7 in
    let ((valid, names, apart, inputs), same_length) =
      validate_bindings_lem ext [] false request.bindings bindings made in
    subst (IsValid request caller) (ok_injective (validated request bindings) v h8) record {
      same = (refl, refl, refl, refl, refl, same_length);
      paths = (
        is_valid_path-IsPath request.executable path,
        is_valid_path-IsPath request.working_directory directory,
      );
      arguments = arguments_fit request.arguments total (some_of_ok_or _ _ total sum) texts;
      time = in_time timeout (maximum_timeout caller) time;
      limit = within 128 request.output_limit_bytes 2097152 limit;
      few = leb→le (length bindings) 16 (ap (λ n. leb n 16) same_length ∙ few);
      targets = valid;
      names = names;
      inputs = at_most_one (standard_inputs bindings) inputs;
    }
