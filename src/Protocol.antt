-- ===== src/Protocol.antt =====
-- crates/ladon-core/src/protocol.rs: the frames between an agent and the broker. serde and serde_json are the
-- parameter `Serde`.
pub mod Json
pub mod Documents
pub mod Responses
pub mod Answers
pub mod Written
pub mod Frames
pub mod Payloads
pub mod RoundTrip
mod Bytewise
mod Examples
use ladon.Prelude.{
  ℕ, Bool, true, false, not, ◌&&◌, ◌||◌, Option, none, some, List, [], ◌∷◌, any, contains, is_empty,
  is_none, leb, ◌==◌, nat_eq, if◌then◌else◌, length,
}
use ladon.Prelude.Result.{
  Result, ok, err, ◌>>=◌, ◌>>◌, ensure, ok_or, LadonError, invalid_request,
  unsupported_protocol_version,
}
use ladon.Model.{Text}
use ladon.Prelude.Integers.{ℤ}
use ladon.Prelude.Utf8.{byte_len, bytes}
use ladon.Redact.Utf8.{Bytes}
use ladon.Runner.{SecretBindingRequest, max_arguments, max_argument_bytes, max_path_bytes}
use ladon.Runner.Validate.{argument_bytes}

abbrev pub max_frame_bytes : ℕ
max_frame_bytes = 4194304

abbrev pub protocol_version : ℕ
protocol_version = 2

abbrev pub max_client_label_bytes : ℕ
max_client_label_bytes = 64

pub data RpcMethod : Type 0 where
  session_open status list lock : RpcMethod
  run : Text → List Text → Text → List SecretBindingRequest → ℕ → ℕ → RpcMethod

pub record RpcRequest : Type 0 where
  pub version : ℕ
  pub request_id : ℕ
  pub client_session_id : ℕ
  pub client_label : Text
  pub method : RpcMethod

pub record SecretFieldSummary : Type 0 where
  pub name : Text
  pub text : Bool

pub record SecretSummary : Type 0 where
  pub id : ℕ
  pub name : Text
  pub fields : List SecretFieldSummary

pub data RpcResult : Type 0 where
  session_opened locked : RpcResult
  status : Text → Option ℕ → RpcResult
  list : List SecretSummary → RpcResult
  run : Option ℤ → Text → Text → Text → ℕ → ℕ → Bool → Bool → RpcResult

pub record RpcErrorBody : Type 0 where
  pub code : Text
  pub message : Text

pub data RpcOutcome : Type 0 where
  success : RpcResult → RpcOutcome
  failure : RpcErrorBody → RpcOutcome

pub record RpcResponse : Type 0 where
  pub version : ℕ
  pub request_id : ℕ
  pub outcome : RpcOutcome

abbrev pub success_response : ℕ → RpcResult → RpcResponse
success_response request_id result = record {
  version = protocol_version;
  request_id = request_id;
  outcome = RpcOutcome.success result;
}

abbrev pub is_invalid_path : Text → Bool
is_invalid_path path =
    is_empty path || (not (leb (byte_len path) max_path_bytes) || contains path 0)

abbrev pub exceeds : Option ℕ → ℕ → Bool
exceeds none maximum = true
exceeds (some total) maximum = not (leb total maximum)

-- `invalid` of `validate_request`.
unfoldable pub is_invalid_method : RpcMethod → Bool
unfolding bytes argument_bytes
is_invalid_method
      (RpcMethod.run executable arguments working_directory bindings timeout_ms
        output_limit_bytes) =
    is_invalid_path executable
    || (is_invalid_path working_directory
        || (not (leb (length arguments) max_arguments)
            || (any (λ argument. contains argument 0) arguments
                || exceeds (argument_bytes 0 arguments) max_argument_bytes)))
is_invalid_method method = false

unfoldable pub validate_request : RpcRequest → Result (Unit {0})
unfolding is_invalid_method bytes
validate_request request = do
  ensure (request.version == protocol_version) unsupported_protocol_version
  ensure
      (not (
        is_empty request.client_label
        || (not (leb (byte_len request.client_label) max_client_label_bytes)
            || contains request.client_label 0)))
      invalid_request
  ensure (not (is_invalid_method request.method)) invalid_request
