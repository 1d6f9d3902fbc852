-- ===== src/Runner/Examples.antt =====
-- A request, from its check to the run (crates/ladon-core/src/runner.rs).
use ladon.Prelude.{◌≡◌, refl, false, none, some, List, [], ◌∷◌, drop, if◌then◌else◌}
use ladon.Prelude.Result.{ok}
use ladon.Prelude.Time.{nanos_per_second}
use ladon.Prelude.Utf8.{codes, bytes}
use ladon.Model.{
  Externals, SecretRef, strip_prefix, is_secret_name, parse_secret_ref, parse_field_name,
  parse_secret_name, is_field_bytes,
}
use ladon.Redact.Reference.{is_prefix}
use ladon.Runner.{
  RunCaller, BindingTarget, RunRequest, ValidatedBindingTarget, ValidatedRunRequest,
  ResolvedSecretBinding, PreparedBinding,
}
use ladon.Runner.Validate.{validate_run_request}
use ladon.Runner.Resolve.{resolve}
use ladon.Runner.Valid.{IsValid, validate_run_request-IsValid}
use ladon.Runner.Prepared.{to_option, prepared, is_resolvable, resolve_lem}
use ladon.Runner.Hidden.{resolve-hides}

abbrev externals : Externals
externals = record { nfc = λ t. t; parse_uuid = λ t. none; format_uuid = λ n. [] }

abbrev request : RunRequest
request = record {
  executable = codes "/bin/sh";
  arguments = codes "-c" ∷ codes "make" ∷ [];
  working_directory = codes "/tmp";
  bindings =
      record {
        secret_ref = codes "api";
        field = codes "token";
        target = BindingTarget.environment (codes "TOKEN");
      }
      ∷ record {
        secret_ref = codes "tls";
        field = codes "key";
        target = BindingTarget.temporary_file_environment (codes "KEY") (some (codes "a.pem"));
      }
      ∷ [];
  timeout_ms = 1000;
  output_limit_bytes = 1024;
}

abbrev validated : ValidatedRunRequest
validated = record {
  executable = codes "/bin/sh";
  arguments = codes "-c" ∷ codes "make" ∷ [];
  working_directory = codes "/tmp";
  bindings =
      record {
        secret_ref = SecretRef.name (codes "api");
        field = codes "token";
        target = ValidatedBindingTarget.environment (codes "TOKEN");
      }
      ∷ record {
        secret_ref = SecretRef.name (codes "tls");
        field = codes "key";
        target =
            ValidatedBindingTarget.temporary_file_environment (codes "KEY") (some (codes ".pem"));
      }
      ∷ [];
  timeout = nanos_per_second;
  output_limit_bytes = 1024;
}

request_accepted : validate_run_request externals request RunCaller.mcp ≡ ok validated
unfolding validate_run_request parse_secret_ref strip_prefix parse_secret_name is_secret_name
    parse_field_name is_field_bytes
request_accepted = refl

validate_run_request-IsValid_example : IsValid request RunCaller.mcp validated
validate_run_request-IsValid_example =
    validate_run_request-IsValid externals request RunCaller.mcp validated request_accepted

abbrev values : List ResolvedSecretBinding
values =
    record { secret_id = 1; field = codes "token"; value = codes "abcd" }
    ∷ record { secret_id = 2; field = codes "key"; value = codes "xyz" }
    ∷ []

resolve_lem_example :
    to_option (resolve validated values)
    ≡ (if is_resolvable validated values then some (prepared validated values) else none)
resolve_lem_example = resolve_lem validated values

values_resolved : resolve validated values ≡ ok (prepared validated values)
unfolding resolve
values_resolved = refl

abbrev token : PreparedBinding
token = record {
  secret_id = 1;
  field = codes "token";
  target = ValidatedBindingTarget.environment (codes "TOKEN");
  value = codes "abcd";
}

resolve-hides_example : is_prefix (codes "abcd") (drop 1 (bytes (codes "make"))) ≡ false
resolve-hides_example =
    resolve-hides validated values (prepared validated values) 0 token (codes "make") 1
      values_resolved refl refl refl
