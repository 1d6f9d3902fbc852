-- ===== src/Runner.antt =====
-- crates/ladon-core/src/runner.rs: what an agent may ask to run, and how the values of secrets are put in
-- the places that it names. Paths are read as on Unix: the separator is `/`, and the names of environment
-- variables are compared as they stand.
pub mod Validate
pub mod Resolve
pub mod Targets
pub mod Valid
pub mod Prepared
pub mod Hidden
mod Examples
use ladon.Prelude.{
  ℕ, suc, ◌*◌, Bool, true, false, not, ◌&&◌, ◌||◌, Option, none, some, List, [], ◌∷◌, leb, ◌==◌,
  nat_eq, list_eq, if◌then◌else◌, take, length, is_empty,
}
use ladon.Prelude.Time.{nanos_per_second}
use ladon.Prelude.Utf8.{codes}
use ladon.Model.{Text, SecretRef}
use ladon.Redact.Utf8.{Bytes}

abbrev pub max_bindings : ℕ
max_bindings = 16

abbrev pub max_injected_bytes : ℕ
max_injected_bytes = 1048576

abbrev pub max_arguments : ℕ
max_arguments = 256

abbrev pub max_argument_bytes : ℕ
max_argument_bytes = 262144

abbrev pub max_path_bytes : ℕ
max_path_bytes = 32768

pub data RunCaller : Type 0 where
  mcp cli : RunCaller

abbrev pub maximum_timeout : RunCaller → ℕ
maximum_timeout RunCaller.mcp = 900 * nanos_per_second
maximum_timeout RunCaller.cli = 7200 * nanos_per_second

pub data BindingTarget : Type 0 where
  environment : Text → BindingTarget
  standard_input : BindingTarget
  temporary_file_environment : Text → Option Text → BindingTarget

pub record SecretBindingRequest : Type 0 where
  pub secret_ref : Text
  pub field : Text
  pub target : BindingTarget

pub record RunRequest : Type 0 where
  pub executable : Text
  pub arguments : List Text
  pub working_directory : Text
  pub bindings : List SecretBindingRequest
  pub timeout_ms : ℕ
  pub output_limit_bytes : ℕ

-- The target of a file has the extension of the name that was suggested.
pub data ValidatedBindingTarget : Type 0 where
  environment : Text → ValidatedBindingTarget
  standard_input : ValidatedBindingTarget
  temporary_file_environment : Text → Option Text → ValidatedBindingTarget

pub record ValidatedSecretBinding : Type 0 where
  pub secret_ref : SecretRef
  pub field : Text
  pub target : ValidatedBindingTarget

pub record ValidatedRunRequest : Type 0 where
  pub executable : Text
  pub arguments : List Text
  pub working_directory : Text
  pub bindings : List ValidatedSecretBinding
  pub timeout : ℕ
  pub output_limit_bytes : ℕ

pub record ResolvedSecretBinding : Type 0 where
  pub secret_id : ℕ
  pub field : Text
  pub value : Bytes

pub record PreparedBinding : Type 0 where
  pub secret_id : ℕ
  pub field : Text
  pub target : ValidatedBindingTarget
  pub value : Bytes

pub record PreparedRun : Type 0 where
  pub executable : Text
  pub arguments : List Text
  pub working_directory : Text
  pub bindings : List PreparedBinding
  pub timeout : ℕ
  pub output_limit_bytes : ℕ
