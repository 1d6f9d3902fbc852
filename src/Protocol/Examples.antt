-- ===== src/Protocol/Examples.antt =====
-- The frames at concrete inputs.
use ladon.Prelude.{
  ℕ, ◌≡◌, ◌↔◌, refl, true, false, ◌&&◌, Option, none, some, [], ◌∷◌, leb, list_eq, arith,
}
use ladon.Prelude.Result.{Result, ok, err}
use ladon.Prelude.Utf8.{bytes, codes}
use ladon.Model.{Text, Externals}
use ladon.Redact.Utf8.{Bytes}
use ladon.Protocol.{
  RpcRequest, RpcMethod, RpcResponse, RpcResult, RpcOutcome, success_response, is_invalid_method,
  validate_request,
}
use ladon.Protocol.Json.{Json, Items, Entries, visit, nesting, has_plain_keys, visit_lem}
use ladon.Protocol.Frames.{
  Serde, encode_frame, checked_frame_payload, encode_request_frame, decode_request_frame,
}
use ladon.Protocol.Payloads.{checked_frame_payload-encode_frame}
use ladon.Protocol.Documents.{
  target_to_json, binding_to_json, bindings_to_json, texts_to_json, method_to_json, request_to_json,
}
use ladon.Protocol.Responses.{response_to_json, response_from_json}
use ladon.Protocol.Answers.{response_from_json-response_to_json}
use ladon.Prelude.Integers.{negsuc}
use ladon.Protocol.Bytewise.{
  put_json, pieces, write_document, read_document, read_document-write_document,
}
use ladon.Runner.{environment, temporary_file_environment}
use ladon.Runner.Validate.{argument_bytes}
use ladon.Protocol.RoundTrip.{IsSerde, decode-encode_request_frame}

abbrev no_request : Json → Option RpcRequest
no_request json = none

abbrev no_response : Json → Option RpcResponse
no_response json = none

abbrev plain : Serde
plain = record {
  read_json = read_document;
  write_json = write_document;
  read_other_request = no_request;
  read_other_response = no_response;
}

plain-IsSerde : IsSerde plain
plain-IsSerde = record {
  document = λ json written fits shallow h. read_document-write_document json written h;
}

abbrev one_of : Text → Option ℕ
one_of [] = none
one_of (n ∷ rest) = some n

abbrev short_ids : Externals
short_ids = record { nfc = λ t. t; parse_uuid = one_of; format_uuid = λ k. k ∷ [] }

-- A program that gets a secret in a variable and another in a file.
abbrev run_request : RpcRequest
run_request = record {
  version = 2;
  request_id = 7;
  client_session_id = 9;
  client_label = codes "a";
  method =
      RpcMethod.run (codes "/bin/x") (codes "-v" ∷ []) (codes "/")
        (record {
          secret_ref = codes "api";
          field = codes "token";
          target = environment (codes "TOKEN");
        }
          ∷ record {
            secret_ref = codes "key";
            field = codes "pem";
            target = temporary_file_environment (codes "KEY") (some (codes "k.pem"));
          }
          ∷ [])
        1000 4096;
}

run_request_valid : validate_request run_request ≡ ok tt
unfolding validate_request is_invalid_method bytes argument_bytes
run_request_valid = refl

abbrev frame_of : Result Bytes → Bytes
frame_of (ok frame) = frame
frame_of (err e) = []

run_encoded :
    encode_request_frame short_ids plain run_request
    ≡ ok (frame_of (encode_request_frame short_ids plain run_request))
unfolding encode_request_frame encode_frame write_document request_to_json method_to_json
    bindings_to_json binding_to_json target_to_json texts_to_json put_json pieces
run_encoded = refl

decode-encode_request_frame_example :
    decode_request_frame short_ids plain
      (frame_of (encode_request_frame short_ids plain run_request))
    ≡ ok run_request
decode-encode_request_frame_example =
    decode-encode_request_frame short_ids plain plain-IsSerde run_request
      (frame_of (encode_request_frame short_ids plain run_request)) (refl, refl, refl, refl)
      run_request_valid run_encoded

abbrev lock_frame : Bytes
lock_frame = 0 ∷ 0 ∷ 0 ∷ 4 ∷ 2 ∷ 7 ∷ 9 ∷ b'a' ∷ []

checked_frame_payload-encode_frame_example :
    (encode_frame (some (2 ∷ 7 ∷ 9 ∷ b'a' ∷ [])) ≡ ok lock_frame)
    ↔ (checked_frame_payload lock_frame ≡ ok (2 ∷ 7 ∷ 9 ∷ b'a' ∷ []))
checked_frame_payload-encode_frame_example =
    checked_frame_payload-encode_frame lock_frame (2 ∷ 7 ∷ 9 ∷ b'a' ∷ []) (
      omega arith,
      (
        omega arith,
        (
          omega arith,
          (omega arith, (omega arith, (omega arith, (omega arith, (omega arith, tt))))),
        ),
      ),
    )

-- An object with a key twice, in an array.
abbrev twice : Json
twice = Json.arr (
    Items.cons
      (Json.obj
        (Entries.entry (b'k' ∷ []) Json.null (Entries.entry (b'k' ∷ []) Json.null Entries.end)))
      Items.nil)

twice_refused : visit 0 twice ≡ false
unfolding visit
twice_refused = refl

visit_lem_example : visit 0 twice ≡ (leb (nesting twice) 16 && has_plain_keys twice)
visit_lem_example = visit_lem twice

-- A program that was ended by a signal: the exit code is -9.
abbrev ended : RpcResponse
ended =
    success_response 7
      (RpcResult.run (some (negsuc 8)) (codes "signal") [] (codes "killed") 12 0 false true)

ended_read : response_from_json short_ids (response_to_json short_ids ended) ≡ ok ended
ended_read = response_from_json-response_to_json short_ids ended refl refl refl

-- A failure is not read as a result.
refused :
    response_from_json short_ids (
      response_to_json short_ids (record ended {
        outcome = RpcOutcome.failure (record { code = codes "busy"; message = codes "b" });
      }))
    ≡ ok (record ended {
      outcome = RpcOutcome.failure (record { code = codes "busy"; message = codes "b" });
    })
refused = response_from_json-response_to_json short_ids _ refl refl tt
