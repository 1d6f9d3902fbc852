-- ===== src/Protocol/Documents.antt =====
-- The documents of requests (crates/ladon-core/src/protocol.rs): what `Serialize` and `Deserialize`, derived with the
-- attributes `flatten`, `tag`, `content`, `rename_all`, `default` and `skip_serializing_if`, make of the types.
-- A document is read as objects with these keys.
use ladon.Prelude.{ℕ, Option, none, some, List, [], ◌∷◌, ltb, ◌==◌, nat_eq, list_eq, if◌then◌else◌}
use ladon.Prelude.Result.{Result, ok, err, ◌>>=◌, ◌>>◌, ensure, ok_or, invalid_request}
use ladon.Prelude.Utf8.{codes}
use ladon.Model.{Text, Externals}
use ladon.Runner.{
  BindingTarget, environment, standard_input, temporary_file_environment, SecretBindingRequest,
}
use ladon.Protocol.{RpcRequest, RpcMethod}
use ladon.Protocol.Json.{Json, Items, nil, cons, Entries, end, entry}

unfoldable pub target_to_json : BindingTarget → Json
target_to_json (environment name) = Json.obj (
    entry (codes "kind") (Json.string (codes "environment"))
      (entry (codes "name") (Json.string name) end))
target_to_json standard_input =
    Json.obj (entry (codes "kind") (Json.string (codes "standard_input")) end)
target_to_json (temporary_file_environment name none) = Json.obj (
    entry (codes "kind") (Json.string (codes "temporary_file_environment"))
      (entry (codes "name") (Json.string name) end))
target_to_json (temporary_file_environment name (some suggested)) = Json.obj (
    entry (codes "kind") (Json.string (codes "temporary_file_environment")) (
      entry (codes "name") (Json.string name)
        (entry (codes "suggested_filename") (Json.string suggested) end)))

unfoldable pub binding_to_json : SecretBindingRequest → Json
unfolding target_to_json
binding_to_json b = Json.obj (
    entry (codes "secret_ref") (Json.string b.secret_ref) (
      entry (codes "field") (Json.string b.field)
        (entry (codes "target") (target_to_json b.target) end)))

unfoldable pub bindings_to_json : List SecretBindingRequest → Items
unfolding binding_to_json
bindings_to_json [] = nil
bindings_to_json (b ∷ bs) = cons (binding_to_json b) (bindings_to_json bs)

unfoldable pub texts_to_json : List Text → Items
texts_to_json [] = nil
texts_to_json (t ∷ ts) = cons (Json.string t) (texts_to_json ts)

-- The entries of a method, which are among those of its request.
unfoldable pub method_to_json : RpcMethod → Entries
unfolding bindings_to_json texts_to_json
method_to_json RpcMethod.session_open =
    entry (codes "method") (Json.string (codes "session_open")) end
method_to_json RpcMethod.status = entry (codes "method") (Json.string (codes "status")) end
method_to_json RpcMethod.list = entry (codes "method") (Json.string (codes "list")) end
method_to_json RpcMethod.lock = entry (codes "method") (Json.string (codes "lock")) end
method_to_json
      (RpcMethod.run executable arguments working_directory bindings timeout_ms
        output_limit_bytes) =
    entry (codes "method") (Json.string (codes "run")) (
      entry (codes "params")
        (Json.obj (
          entry (codes "executable") (Json.string executable) (
            entry (codes "arguments") (Json.arr (texts_to_json arguments)) (
              entry (codes "working_directory") (Json.string working_directory) (
                entry (codes "bindings") (Json.arr (bindings_to_json bindings)) (
                  entry (codes "timeout_ms") (Json.unsigned timeout_ms) (
                    entry (codes "output_limit_bytes") (Json.unsigned output_limit_bytes) end)))))))
        end)

unfoldable pub request_to_json : Externals → RpcRequest → Json
unfolding method_to_json
request_to_json ext r = Json.obj (
    entry (codes "version") (Json.unsigned r.version) (
      entry (codes "request_id") (Json.string (ext.format_uuid r.request_id)) (
        entry (codes "client_session_id") (Json.string (ext.format_uuid r.client_session_id))
          (entry (codes "client_label") (Json.string r.client_label) (method_to_json r.method)))))

abbrev pub lookup : Text → Entries → Option Json
lookup key end = none
lookup key (entry k value rest) = if k == key then some value else lookup key rest

abbrev pub required : Text → Entries → Result Json
required key entries = ok_or (lookup key entries) invalid_request

abbrev pub as_text : Json → Result Text
as_text (Json.string t) = ok t
as_text json = err invalid_request

abbrev pub as_number : Json → Result ℕ
as_number (Json.unsigned n) = ok n
as_number json = err invalid_request

abbrev pub as_entries : Json → Result Entries
as_entries (Json.obj entries) = ok entries
as_entries json = err invalid_request

abbrev pub as_items : Json → Result Items
as_items (Json.arr items) = ok items
as_items json = err invalid_request

abbrev pub required_text : Text → Entries → Result Text
required_text key entries = required key entries >>= as_text

-- An `Option<String>` with `default`.
abbrev pub optional_text : Option Json → Result (Option Text)
optional_text none = ok none
optional_text (some Json.null) = ok none
optional_text (some (Json.string t)) = ok (some t)
optional_text (some json) = err invalid_request

unfoldable pub target_of : Text → Entries → Result BindingTarget
target_of kind entries =
    let named = required_text (codes "name") entries in
    if kind == codes "environment"
    then (named >>= (λ name. ok (environment name)))
    else if kind == codes "standard_input"
    then ok standard_input
    else if kind == codes "temporary_file_environment"
    then (do
      name ← named
      suggested ← optional_text (lookup (codes "suggested_filename") entries)
      ok (temporary_file_environment name suggested))
    else err invalid_request

unfoldable pub target_from_json : Json → Result BindingTarget
unfolding target_of
target_from_json json = do
  entries ← as_entries json
  kind ← required_text (codes "kind") entries
  target_of kind entries

unfoldable pub binding_from_json : Json → Result SecretBindingRequest
unfolding target_from_json
binding_from_json json = do
  entries ← as_entries json
  secret_ref ← required_text (codes "secret_ref") entries
  field ← required_text (codes "field") entries
  document ← required (codes "target") entries
  target ← target_from_json document
  ok (record { secret_ref = secret_ref; field = field; target = target })

unfoldable pub bindings_from_json : Items → Result (List SecretBindingRequest)
unfolding binding_from_json
bindings_from_json nil = ok []
bindings_from_json (cons item items) = do
  b ← binding_from_json item
  bs ← bindings_from_json items
  ok (b ∷ bs)

unfoldable pub texts_from_json : Items → Result (List Text)
texts_from_json nil = ok []
texts_from_json (cons item items) = do t ← as_text item; ts ← texts_from_json items; ok (t ∷ ts)

unfoldable pub run_from_json : Entries → Result RpcMethod
unfolding bindings_from_json texts_from_json
run_from_json params = do
  executable ← required_text (codes "executable") params
  argument_list ← required (codes "arguments") params
  argument_items ← as_items argument_list
  arguments ← texts_from_json argument_items
  working_directory ← required_text (codes "working_directory") params
  binding_list ← required (codes "bindings") params
  binding_items ← as_items binding_list
  bindings ← bindings_from_json binding_items
  timeout_ms ← required (codes "timeout_ms") params >>= as_number
  output_limit_bytes ← required (codes "output_limit_bytes") params >>= as_number
  ok (RpcMethod.run executable arguments working_directory bindings timeout_ms output_limit_bytes)

-- A method without content: no params, or null.
abbrev pub without_content : RpcMethod → Option Json → Result RpcMethod
without_content method none = ok method
without_content method (some Json.null) = ok method
without_content method (some json) = err invalid_request

unfoldable pub method_from_json : Entries → Result RpcMethod
unfolding run_from_json
method_from_json entries = do
  method ← required_text (codes "method") entries
  let content = lookup (codes "params") entries in
      if method == codes "session_open"
      then without_content RpcMethod.session_open content
      else if method == codes "status"
      then without_content RpcMethod.status content
      else if method == codes "list"
      then without_content RpcMethod.list content
      else if method == codes "lock"
      then without_content RpcMethod.lock content
      else if method == codes "run"
      then (ok_or content invalid_request >>= (λ json. as_entries json >>= run_from_json))
      else err invalid_request

unfoldable pub request_from_json : Externals → Json → Result RpcRequest
unfolding method_from_json
request_from_json ext json = do
  entries ← as_entries json
  version ← required (codes "version") entries >>= as_number
  ensure (ltb version 65536) invalid_request
  request_text ← required_text (codes "request_id") entries
  request_id ← ok_or (ext.parse_uuid request_text) invalid_request
  client_text ← required_text (codes "client_session_id") entries
  client_session_id ← ok_or (ext.parse_uuid client_text) invalid_request
  client_label ← required_text (codes "client_label") entries
  method ← method_from_json entries
  ok (record {
    version = version;
    request_id = request_id;
    client_session_id = client_session_id;
    client_label = client_label;
    method = method;
  })
