-- ===== src/Protocol/Responses.antt =====
-- The documents of responses (crates/ladon-core/src/protocol.rs): what `Serialize` and `Deserialize`, derived with the
-- attributes `flatten`, `untagged`, `tag`, `rename_all` and `default`, make of the types. A document is read as
-- objects with these keys.
use ladon.Prelude.{
  ℕ, Bool, false, Option, none, some, List, [], ◌∷◌, ltb, ◌==◌, nat_eq, list_eq, if◌then◌else◌,
}
use ladon.Prelude.Integers.{ℤ, pos, negsuc}
use ladon.Prelude.Result.{Result, ok, err, ◌>>=◌, ◌>>◌, ensure, ok_or, invalid_request}
use ladon.Prelude.Utf8.{codes}
use ladon.Model.{Text, Externals}
use ladon.Protocol.{
  SecretFieldSummary, SecretSummary, RpcResult, RpcErrorBody, RpcOutcome, RpcResponse,
}
use ladon.Protocol.Json.{Json, Items, nil, cons, Entries, end, entry}
use ladon.Protocol.Documents.{lookup, required, as_number, as_entries, as_items, required_text}

abbrev pub field_to_json : SecretFieldSummary → Json
field_to_json f =
    Json.obj
      (entry (codes "name") (Json.string f.name) (entry (codes "text") (Json.boolean f.text) end))

abbrev pub fields_to_json : List SecretFieldSummary → Items
fields_to_json [] = nil
fields_to_json (f ∷ fs) = cons (field_to_json f) (fields_to_json fs)

abbrev pub summary_to_json : Externals → SecretSummary → Json
summary_to_json ext s = Json.obj (
    entry (codes "id") (Json.string (ext.format_uuid s.id)) (
      entry (codes "name") (Json.string s.name)
        (entry (codes "fields") (Json.arr (fields_to_json s.fields)) end)))

abbrev pub summaries_to_json : Externals → List SecretSummary → Items
summaries_to_json ext [] = nil
summaries_to_json ext (s ∷ ss) = cons (summary_to_json ext s) (summaries_to_json ext ss)

abbrev pub remaining_to_json : Option ℕ → Json
remaining_to_json none = Json.null
remaining_to_json (some n) = Json.unsigned n

abbrev pub code_to_json : Option ℤ → Json
code_to_json none = Json.null
code_to_json (some (pos n)) = Json.unsigned n
code_to_json (some (negsuc n)) = Json.negative n

unfoldable pub result_to_json : Externals → RpcResult → Json
result_to_json ext RpcResult.session_opened =
    Json.obj (entry (codes "type") (Json.string (codes "session_opened")) end)
result_to_json ext (RpcResult.status state idle_remaining_ms) = Json.obj (
    entry (codes "type") (Json.string (codes "status")) (
      entry (codes "state") (Json.string state)
        (entry (codes "idle_remaining_ms") (remaining_to_json idle_remaining_ms) end)))
result_to_json ext (RpcResult.list secrets) = Json.obj (
    entry (codes "type") (Json.string (codes "list"))
      (entry (codes "secrets") (Json.arr (summaries_to_json ext secrets)) end))
result_to_json ext RpcResult.locked =
    Json.obj (entry (codes "type") (Json.string (codes "locked")) end)
result_to_json ext
      (RpcResult.run exit_code termination stdout stderr duration_ms redaction_count
        output_truncated temp_cleanup_warning) =
    Json.obj (
      entry (codes "type") (Json.string (codes "run")) (
        entry (codes "exit_code") (code_to_json exit_code) (
          entry (codes "termination") (Json.string termination) (
            entry (codes "stdout") (Json.string stdout) (
              entry (codes "stderr") (Json.string stderr) (
                entry (codes "duration_ms") (Json.unsigned duration_ms) (
                  entry (codes "redaction_count") (Json.unsigned redaction_count) (
                    entry (codes "output_truncated") (Json.boolean output_truncated) (
                      entry (codes "temp_cleanup_warning") (Json.boolean temp_cleanup_warning)
                        end)))))))))

abbrev pub outcome_to_json : Externals → RpcOutcome → Entries
outcome_to_json ext (RpcOutcome.success result) =
    entry (codes "result") (result_to_json ext result) end
outcome_to_json ext (RpcOutcome.failure error) =
    entry (codes "error")
      (Json.obj (
        entry (codes "code") (Json.string error.code)
          (entry (codes "message") (Json.string error.message) end)))
      end

unfoldable pub response_to_json : Externals → RpcResponse → Json
unfolding result_to_json
response_to_json ext r = Json.obj (
    entry (codes "version") (Json.unsigned r.version) (
      entry (codes "request_id") (Json.string (ext.format_uuid r.request_id))
        (outcome_to_json ext r.outcome)))

abbrev pub as_boolean : Json → Result Bool
as_boolean (Json.boolean b) = ok b
as_boolean json = err invalid_request

abbrev pub field_from_json : Json → Result SecretFieldSummary
field_from_json json = do
  entries ← as_entries json
  name ← required_text (codes "name") entries
  text ← required (codes "text") entries >>= as_boolean
  ok (record { name = name; text = text })

abbrev pub fields_from_json : Items → Result (List SecretFieldSummary)
fields_from_json nil = ok []
fields_from_json (cons item items) = do
  f ← field_from_json item
  fs ← fields_from_json items
  ok (f ∷ fs)

unfoldable pub summary_from_json : Externals → Json → Result SecretSummary
summary_from_json ext json = do
  entries ← as_entries json
  text ← required_text (codes "id") entries
  id ← ok_or (ext.parse_uuid text) invalid_request
  name ← required_text (codes "name") entries
  items ← required (codes "fields") entries >>= as_items
  fields ← fields_from_json items
  ok (record { id = id; name = name; fields = fields })

unfoldable pub summaries_from_json : Externals → Items → Result (List SecretSummary)
unfolding summary_from_json
summaries_from_json ext nil = ok []
summaries_from_json ext (cons item items) = do
  s ← summary_from_json ext item
  ss ← summaries_from_json ext items
  ok (s ∷ ss)

-- An `Option<u64>` and an `Option<i32>`: a key may be missing.
abbrev pub remaining_from_json : Option Json → Result (Option ℕ)
remaining_from_json none = ok none
remaining_from_json (some Json.null) = ok none
remaining_from_json (some (Json.unsigned n)) = ok (some n)
remaining_from_json (some json) = err invalid_request

abbrev pub code_from_json : Option Json → Result (Option ℤ)
code_from_json none = ok none
code_from_json (some Json.null) = ok none
code_from_json (some (Json.unsigned n)) =
    if ltb n 2147483648 then ok (some (pos n)) else err invalid_request
code_from_json (some (Json.negative n)) =
    if ltb n 2147483648 then ok (some (negsuc n)) else err invalid_request
code_from_json (some json) = err invalid_request

-- A `bool` with `default`.
abbrev pub warning_from_json : Option Json → Result Bool
warning_from_json none = ok false
warning_from_json (some json) = as_boolean json

unfoldable pub run_result_from_json : Entries → Result RpcResult
run_result_from_json entries = do
  exit_code ← code_from_json (lookup (codes "exit_code") entries)
  termination ← required_text (codes "termination") entries
  stdout ← required_text (codes "stdout") entries
  stderr ← required_text (codes "stderr") entries
  duration_ms ← required (codes "duration_ms") entries >>= as_number
  redaction_count ← required (codes "redaction_count") entries >>= as_number
  output_truncated ← required (codes "output_truncated") entries >>= as_boolean
  warning ← warning_from_json (lookup (codes "temp_cleanup_warning") entries)
  ok (
      RpcResult.run exit_code termination stdout stderr duration_ms redaction_count output_truncated
        warning)

abbrev pub result_of : Externals → Text → Entries → Result RpcResult
result_of ext kind entries =
    if kind == codes "session_opened"
    then ok RpcResult.session_opened
    else if kind == codes "status"
    then (do
      state ← required_text (codes "state") entries
      remaining ← remaining_from_json (lookup (codes "idle_remaining_ms") entries)
      ok (RpcResult.status state remaining))
    else if kind == codes "list"
    then (do
      items ← required (codes "secrets") entries >>= as_items
      secrets ← summaries_from_json ext items
      ok (RpcResult.list secrets))
    else if kind == codes "locked"
    then ok RpcResult.locked
    else if kind == codes "run"
    then run_result_from_json entries
    else err invalid_request

unfoldable pub result_from_json : Externals → Json → Result RpcResult
unfolding summaries_from_json run_result_from_json
result_from_json ext json = do
  entries ← as_entries json
  kind ← required_text (codes "type") entries
  result_of ext kind entries

abbrev pub error_from_json : Json → Result RpcErrorBody
error_from_json json = do
  entries ← as_entries json
  code ← required_text (codes "code") entries
  message ← required_text (codes "message") entries
  ok (record { code = code; message = message })

-- The first variant that can be read.
abbrev pub success_or : Result RpcResult → Result RpcErrorBody → Result RpcOutcome
success_or (ok result) error = ok (RpcOutcome.success result)
success_or (err e) (ok error) = ok (RpcOutcome.failure error)
success_or (err e) (err e') = err invalid_request

unfoldable pub response_from_json : Externals → Json → Result RpcResponse
unfolding result_from_json
response_from_json ext json = do
  entries ← as_entries json
  version ← required (codes "version") entries >>= as_number
  ensure (ltb version 65536) invalid_request
  text ← required_text (codes "request_id") entries
  request_id ← ok_or (ext.parse_uuid text) invalid_request
  outcome ←
      success_or (required (codes "result") entries >>= result_from_json ext)
        (required (codes "error") entries >>= error_from_json)
  ok (record { version = version; request_id = request_id; outcome = outcome })
