-- ===== src/Protocol/Frames.antt =====
-- A frame is the length of a document in four bytes and the document, and requests and responses are documents
-- (crates/ladon-core/src/protocol.rs).
use ladon.Prelude.{
  ℕ, ◌+◌, ◌*◌, ◌/◌, ◌%◌, not, Option, none, some, [], ◌∷◌, ◌++◌, is_empty, leb, ◌==◌, nat_eq,
  length, drop,
}
use ladon.Prelude.Result.{
  Result, ok, err, ◌>>=◌, ◌>>◌, ensure, ok_or, invalid_request, invalid_frame, frame_too_large,
  unsupported_protocol_version,
}
use ladon.Redact.Utf8.{Bytes}
use ladon.Protocol.{RpcRequest, RpcResponse, max_frame_bytes, protocol_version, validate_request}
use ladon.Protocol.Json.{Json, visit}
use ladon.Protocol.Responses.{response_to_json, response_from_json}
use ladon.Protocol.Documents.{request_to_json, request_from_json}
use ladon.Model.{Externals}

-- `u32::to_be_bytes`, `u32::from_be_bytes`.
abbrev pub to_be_bytes : ℕ → Bytes
to_be_bytes n = n / 16777216 % 256 ∷ n / 65536 % 256 ∷ n / 256 % 256 ∷ n % 256 ∷ []

abbrev pub from_be_bytes : ℕ → ℕ → ℕ → ℕ → ℕ
from_be_bytes a b c d = a * 16777216 + (b * 65536 + (c * 256 + d))

-- `encode_frame`, of the document that is written for the value; none if there is none.
unfoldable pub encode_frame : Option Bytes → Result Bytes
encode_frame written = do
  json ← ok_or written invalid_request
  ensure (not (is_empty json)) invalid_frame
  ensure (leb (length json) max_frame_bytes) frame_too_large
  ensure (leb (length json) 4294967295) frame_too_large
  ok (to_be_bytes (length json) ++ json)

-- `frame.get(..4)`.
abbrev pub declared_length : Bytes → Option ℕ
declared_length (a ∷ b ∷ c ∷ d ∷ rest) = some (from_be_bytes a b c d)
declared_length frame = none

unfoldable pub checked_frame_payload : Bytes → Result Bytes
checked_frame_payload frame = do
  declared ← ok_or (declared_length frame) invalid_frame
  ensure (not (declared == 0)) invalid_frame
  ensure (leb declared max_frame_bytes) frame_too_large
  ensure (length frame == 4 + declared) invalid_frame
  ok (drop 4 frame)

-- What serde_json does, and what the derived readers do beyond the form that is written.
pub record Serde : Type 0 where
  -- A whole document, nothing behind it, and how it is written.
  pub read_json : Bytes → Option Json
  pub write_json : Json → Option Bytes
  -- The derived readers also accept documents that nothing derived writes, such as an array of the fields of a
  -- struct.
  pub read_other_request : Json → Option RpcRequest
  pub read_other_response : Json → Option RpcResponse

abbrev pub or_else {ℓ} : {A : Type ℓ} → Result A → Option A → Result A
or_else (ok a) other = ok a
or_else (err e) other = ok_or other e

module _ (ext : Externals) (serde : Serde) where
  open serde use {read_json, write_json, read_other_request, read_other_response}

  unfoldable pub validate_json_document : Bytes → Result (Unit {0})
  unfolding visit
  validate_json_document input = do
    document ← ok_or (read_json input) invalid_request
    ensure (visit 0 document) invalid_request

  unfoldable pub encode_request_frame : RpcRequest → Result Bytes
  unfolding encode_frame request_to_json
  encode_request_frame request = encode_frame (write_json (request_to_json ext request))

  unfoldable pub encode_response_frame : RpcResponse → Result Bytes
  unfolding encode_frame response_to_json
  encode_response_frame response = encode_frame (write_json (response_to_json ext response))

  unfoldable pub decode_response_frame : Bytes → Result RpcResponse
  unfolding checked_frame_payload validate_json_document response_from_json
  decode_response_frame frame = do
    json ← checked_frame_payload frame
    validate_json_document json
    document ← ok_or (read_json json) invalid_request
    response ← or_else (response_from_json ext document) (read_other_response document)
    ensure (response.version == protocol_version) unsupported_protocol_version
    ok response

  unfoldable pub decode_request_frame : Bytes → Result RpcRequest
  unfolding checked_frame_payload validate_json_document request_from_json validate_request
  decode_request_frame frame = do
    json ← checked_frame_payload frame
    validate_json_document json
    document ← ok_or (read_json json) invalid_request
    request ← or_else (request_from_json ext document) (read_other_request document)
    validate_request request
    ok request
