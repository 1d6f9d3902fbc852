-- ===== src/Runner/Resolve.antt =====
-- `ValidatedRunRequest::resolve` (crates/ladon-core/src/runner.rs).
use ladon.Prelude.{
  ℕ, Bool, true, false, not, ◌&&◌, ◌||◌, List, [], ◌∷◌, leb, ◌==◌, nat_eq, list_eq, contains, any,
  length, is_empty,
}
use ladon.Prelude.Result.{
  Result, ok, ◌>>=◌, ◌>>◌, ensure, ok_or, injected_data_too_large, invalid_binding,
  secret_in_command,
}
use ladon.Prelude.Time.{checked_add}
use ladon.Prelude.Utf8.{bytes}
use ladon.Model.{Text, Externals, SecretRef, parse_secret_id, parse_field_name}
use ladon.Redact.Utf8.{Bytes, from_utf8}
use ladon.Redact.Reference.{is_prefix}
use ladon.Runner.{
  max_injected_bytes, ValidatedBindingTarget, ValidatedSecretBinding, ValidatedRunRequest,
  ResolvedSecretBinding, PreparedBinding, PreparedRun,
}

-- `windows(needle.len()).any(|window| window == needle)`, for a needle that is not empty.
unfoldable pub has_window : Bytes → Bytes → Bool
unfolding is_prefix
has_window needle [] = false
has_window needle (b ∷ bs) = is_prefix needle (b ∷ bs) || has_window needle bs

unfoldable pub contains_bytes : Text → Bytes → Bool
unfolding has_window bytes
contains_bytes haystack needle = not (is_empty needle) && has_window needle (bytes haystack)

unfoldable pub is_in_command : ValidatedRunRequest → Bytes → Bool
unfolding contains_bytes
is_in_command request value =
    contains_bytes request.executable value
    || contains_bytes request.working_directory value
    || any (λ argument. contains_bytes argument value) request.arguments

abbrev pub names_secret : SecretRef → ℕ → Bool
names_secret (SecretRef.name _) secret_id = true
names_secret (SecretRef.id expected) secret_id = expected == secret_id

unfoldable pub suits_target : ValidatedBindingTarget → Bytes → Bool
unfolding from_utf8
suits_target (ValidatedBindingTarget.environment _) value =
    is_empty (from_utf8 value).1 && not (contains value 0)
suits_target _ value = true

-- The body of the loop: the bytes that are injected so far, and the binding.
unfoldable pub resolve_binding :
    ValidatedRunRequest
    → ℕ
    → ValidatedSecretBinding
    → ResolvedSecretBinding
    → Result (ℕ × PreparedBinding)
unfolding is_in_command suits_target
resolve_binding request injected binding resolved = do
  ensure (binding.field == resolved.field) invalid_binding
  ensure (names_secret binding.secret_ref resolved.secret_id) invalid_binding
  injected' ← ok_or (checked_add injected (length resolved.value)) injected_data_too_large
  ensure (leb injected' max_injected_bytes) injected_data_too_large
  ensure (suits_target binding.target resolved.value) invalid_binding
  ensure (not (is_in_command request resolved.value)) secret_in_command
  ok (
    injected',
    record {
      secret_id = resolved.secret_id;
      field = resolved.field;
      target = binding.target;
      value = resolved.value;
    },
  )

unfoldable pub resolve_bindings :
    ValidatedRunRequest
    → ℕ
    → List ValidatedSecretBinding
    → List ResolvedSecretBinding
    → Result (List PreparedBinding)
unfolding resolve_binding
resolve_bindings request injected [] _ = ok []
resolve_bindings request injected (binding ∷ bindings) [] = ok []
resolve_bindings request injected (binding ∷ bindings) (resolved ∷ rest) = do
  (injected', prepared) ← resolve_binding request injected binding resolved
  others ← resolve_bindings request injected' bindings rest
  ok (prepared ∷ others)

unfoldable pub resolve : ValidatedRunRequest → List ResolvedSecretBinding → Result PreparedRun
unfolding resolve_bindings
resolve request resolved = do
  ensure (length resolved == length request.bindings) invalid_binding
  prepared ← resolve_bindings request 0 request.bindings resolved
  ok record {
    executable = request.executable;
    arguments = request.arguments;
    working_directory = request.working_directory;
    bindings = prepared;
    timeout = request.timeout;
    output_limit_bytes = request.output_limit_bytes;
  }

-- `ResolvedSecretBinding::new`.
unfoldable pub new : Externals → Text → Text → Bytes → Result ResolvedSecretBinding
new ext secret_id field value = do
  id ← parse_secret_id ext secret_id
  name ← parse_field_name field
  ok record { secret_id = id; field = name; value = value }
