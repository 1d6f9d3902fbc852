-- ===== src/Runner/Validate.antt =====
-- `validate_run_request` (crates/ladon-core/src/runner.rs).
use ladon.Prelude.{
  ℕ, Bool, true, false, not, ◌&&◌, ◌||◌, Option, none, some, List, [], ◌∷◌, leb, ◌==◌, nat_eq,
  list_eq, contains, any, all, if◌then◌else◌, drop, length, is_empty,
}
use ladon.Prelude.Result.{
  Result, ok, ◌>>=◌, ◌>>◌, ensure, ok_or, invalid_executable_path, invalid_working_directory,
  invalid_request, too_many_bindings, invalid_timeout, invalid_output_limit, invalid_binding,
}
use ladon.Prelude.Time.{checked_add, from_millis}
use ladon.Prelude.Utf8.{bytes, byte_len}
use ladon.Model.{
  Text, Externals, starts_with, parse_secret_ref, parse_field_name, is_ascii_alphanumeric,
}
use ladon.Redact.Stream.{min_output_limit_bytes, max_output_limit_bytes}
use ladon.Runner.{
  max_bindings, max_arguments, max_argument_bytes, max_path_bytes, RunCaller, maximum_timeout,
  BindingTarget, SecretBindingRequest, RunRequest, ValidatedBindingTarget, ValidatedSecretBinding,
  ValidatedRunRequest,
}

-- `Path::is_absolute`.
unfoldable pub is_absolute : Text → Bool
unfolding starts_with
is_absolute path = starts_with (b'/' ∷ []) path

unfoldable pub is_valid_path : Text → Bool
unfolding is_absolute bytes
is_valid_path path = is_absolute path && not (contains path 0) && leb (byte_len path) max_path_bytes

-- The sum of the lengths, by `try_fold`.
unfoldable pub argument_bytes : ℕ → List Text → Option ℕ
unfolding bytes
argument_bytes total [] = some total
argument_bytes total (argument ∷ rest) = elim (checked_add total (byte_len argument)) [
  | none ↦ none
  | some sum ↦ argument_bytes sum rest
]

unfoldable pub validate_environment_name : Text → List Text → Result (List Text)
unfolding bytes
validate_environment_name name names = do
  ensure
      (not (is_empty name)
        && leb (byte_len name) 256
        && not (contains name 0)
        && not (contains name b'='))
      invalid_binding
  ensure (not (contains names name)) invalid_binding
  ok (name ∷ names)

-- What follows the last dot, if there is a dot.
unfoldable pub after_last_dot : Text → Option Text
after_last_dot [] = none
after_last_dot (c ∷ cs) = elim (after_last_dot cs) [
  | some suffix ↦ some suffix
  | none ↦ if c == b'.' then some cs else none
]

-- `Path::extension` of a name without separators: a dot at its front begins no extension.
unfoldable pub extension : Text → Option Text
unfolding after_last_dot
extension filename = after_last_dot (drop 1 filename)

unfoldable pub ends_with_char : List ℕ → Text → Bool
ends_with_char cs [] = false
ends_with_char cs (c ∷ []) = contains cs c
ends_with_char cs (c ∷ d ∷ rest) = ends_with_char cs (d ∷ rest)

unfoldable pub is_filename_byte : ℕ → Bool
unfolding is_ascii_alphanumeric
is_filename_byte b = is_ascii_alphanumeric b || contains (b'.' ∷ b'_' ∷ b'-' ∷ []) b

unfoldable pub is_valid_filename : Text → Bool
unfolding bytes ends_with_char starts_with is_filename_byte
is_valid_filename filename =
    not (is_empty filename)
    && leb (byte_len filename) 128
    && not (filename == b'.' ∷ [])
    && not (filename == b'.' ∷ b'.' ∷ [])
    && not (starts_with (b'.' ∷ []) filename)
    && not (ends_with_char (b'.' ∷ b' ' ∷ []) filename)
    && all is_filename_byte (bytes filename)

unfoldable pub is_valid_extension : Text → Bool
unfolding bytes is_ascii_alphanumeric
is_valid_extension suffix =
    not (is_empty suffix) && leb (byte_len suffix) 16 && all is_ascii_alphanumeric (bytes suffix)

unfoldable pub validate_suggested_filename : Text → Result Text
unfolding is_valid_filename extension is_valid_extension
validate_suggested_filename filename = do
  ensure (is_valid_filename filename) invalid_binding
  suffix ← ok_or (extension filename) invalid_binding
  ensure (is_valid_extension suffix) invalid_binding
  ok (b'.' ∷ suffix)

-- `suggested_filename.map(…).transpose()`.
unfoldable pub suggested_extension : Option Text → Result (Option Text)
unfolding validate_suggested_filename
suggested_extension none = ok none
suggested_extension (some filename) = do
  suffix ← validate_suggested_filename filename
  ok (some suffix)

-- The target, with the names and the flag for the bindings that follow.
unfoldable pub validate_target :
    List Text → Bool → BindingTarget → Result (ValidatedBindingTarget × List Text × Bool)
unfolding validate_environment_name suggested_extension
validate_target names has_standard_input (BindingTarget.environment name) = do
  names' ← validate_environment_name name names
  ok (ValidatedBindingTarget.environment name, names', has_standard_input)
validate_target names has_standard_input BindingTarget.standard_input = do
  ensure (not has_standard_input) invalid_binding
  ok (ValidatedBindingTarget.standard_input, names, true)
validate_target names has_standard_input (BindingTarget.temporary_file_environment name suggested) =
    do
      names' ← validate_environment_name name names
      suffix ← suggested_extension suggested
      ok (ValidatedBindingTarget.temporary_file_environment name suffix, names', has_standard_input)

unfoldable pub validate_bindings :
    Externals → List Text → Bool → List SecretBindingRequest → Result (List ValidatedSecretBinding)
unfolding validate_target
validate_bindings ext names has_standard_input [] = ok []
validate_bindings ext names has_standard_input (binding ∷ rest) = do
  secret_ref ← parse_secret_ref ext binding.secret_ref
  field ← parse_field_name binding.field
  (target, names', has_standard_input') ← validate_target names has_standard_input binding.target
  validated ← validate_bindings ext names' has_standard_input' rest
  ok (record { secret_ref = secret_ref; field = field; target = target } ∷ validated)

unfoldable pub validate_run_request :
    Externals → RunRequest → RunCaller → Result ValidatedRunRequest
unfolding is_valid_path argument_bytes validate_bindings
validate_run_request ext request caller = do
  ensure (is_valid_path request.executable) invalid_executable_path
  ensure (is_valid_path request.working_directory) invalid_working_directory
  total ← ok_or (argument_bytes 0 request.arguments) invalid_request
  ensure
      (leb (length request.arguments) max_arguments
        && leb total max_argument_bytes
        && not (any (λ argument. contains argument 0) request.arguments))
      invalid_request
  ensure (leb (length request.bindings) max_bindings) too_many_bindings
  let timeout = from_millis request.timeout_ms
  ensure (not (timeout == 0) && leb timeout (maximum_timeout caller)) invalid_timeout
  ensure
      (leb min_output_limit_bytes request.output_limit_bytes
        && leb request.output_limit_bytes max_output_limit_bytes)
      invalid_output_limit
  bindings ← validate_bindings ext [] false request.bindings
  ok record {
    executable = request.executable;
    arguments = request.arguments;
    working_directory = request.working_directory;
    bindings = bindings;
    timeout = timeout;
    output_limit_bytes = request.output_limit_bytes;
  }
