-- ===== src/Protocol/Written.antt =====
-- The documents that are written for requests are read again, and are checked documents
-- (crates/ladon-core/src/protocol.rs).
use ladon.Prelude.{
  ◌≡◌, ◌≤◌, refl, ap, Bool, true, false, ◌&&◌, none, some, List, [], ◌∷◌, ltb, nat_eq, list_eq,
  arith, ◌∙◌,
}
use ladon.Prelude.Result.{then_ok, ok, ok_or, ensure, invalid_request}
use ladon.Prelude.Utf8.{codes}
use ladon.Model.{Text, Externals, has_duplicate}
use ladon.Runner.{
  BindingTarget, environment, standard_input, temporary_file_environment, SecretBindingRequest,
}
use ladon.Protocol.{RpcRequest, RpcMethod}
use ladon.Protocol.Json.{
  Json, Items, nil, cons, Entries, end, entry, nesting, nesting_items, has_plain_keys,
  have_plain_keys,
}
use ladon.Protocol.Documents.{
  target_to_json, binding_to_json, bindings_to_json, texts_to_json, method_to_json, request_to_json,
  target_of, target_from_json, binding_from_json, bindings_from_json, texts_from_json,
  run_from_json, method_from_json, request_from_json,
}

-- Every number is a `u64` or an `i64`, and none is an `f64`.
unfoldable mutual
  pub has_machine_numbers : Json → Bool
  has_machine_numbers Json.null = true
  has_machine_numbers (Json.boolean b) = true
  has_machine_numbers (Json.unsigned n) = ltb n 18446744073709551616
  has_machine_numbers (Json.negative n) = ltb n 9223372036854775808
  has_machine_numbers (Json.floating n) = false
  has_machine_numbers (Json.string t) = true
  has_machine_numbers (Json.arr items) = have_machine_numbers items
  has_machine_numbers (Json.obj entries) = hold_machine_numbers entries

  pub have_machine_numbers : Items → Bool
  have_machine_numbers nil = true
  have_machine_numbers (cons item items) = has_machine_numbers item && have_machine_numbers items

  pub hold_machine_numbers : Entries → Bool
  hold_machine_numbers end = true
  hold_machine_numbers (entry key value entries) =
      has_machine_numbers value && hold_machine_numbers entries

-- The numbers of a method are `u64`s and `usize`s.
abbrev pub is_machine_method : RpcMethod → Bool
is_machine_method
      (RpcMethod.run executable arguments working_directory bindings timeout_ms
        output_limit_bytes) =
    ltb timeout_ms 18446744073709551616 && ltb output_limit_bytes 18446744073709551616
is_machine_method method = true

-- The version is a `u16`, and the identifiers read as they are printed.
abbrev pub IsRequest : Externals → RpcRequest → Type 0
IsRequest ext r =
    (ltb r.version 65536 ≡ true)
    × (is_machine_method r.method ≡ true)
    × (ext.parse_uuid (ext.format_uuid r.request_id) ≡ some r.request_id)
    × (ext.parse_uuid (ext.format_uuid r.client_session_id) ≡ some r.client_session_id)

texts_read : (ts : List Text) → texts_from_json (texts_to_json ts) ≡ ok ts
unfolding texts_from_json texts_to_json
texts_read [] = refl
texts_read (t ∷ ts) = then_ok (texts_from_json (texts_to_json ts)) _ ts (texts_read ts)

target_read : (t : BindingTarget) → target_from_json (target_to_json t) ≡ ok t
unfolding target_from_json target_to_json target_of
target_read (environment name) = refl
target_read standard_input = refl
target_read (temporary_file_environment name none) = refl
target_read (temporary_file_environment name (some suggested)) = refl

binding_read : (b : SecretBindingRequest) → binding_from_json (binding_to_json b) ≡ ok b
unfolding binding_from_json binding_to_json
binding_read b =
    then_ok (target_from_json (target_to_json b.target)) _ b.target (target_read b.target)

bindings_read : (bs : List SecretBindingRequest) → bindings_from_json (bindings_to_json bs) ≡ ok bs
unfolding bindings_from_json bindings_to_json
bindings_read [] = refl
bindings_read (b ∷ bs) =
    then_ok (binding_from_json (binding_to_json b)) _ b (binding_read b)
    ∙ then_ok (bindings_from_json (bindings_to_json bs)) _ bs (bindings_read bs)

method_read : (m : RpcMethod) → method_from_json (method_to_json m) ≡ ok m
unfolding method_from_json method_to_json run_from_json
method_read RpcMethod.session_open = refl
method_read RpcMethod.status = refl
method_read RpcMethod.list = refl
method_read RpcMethod.lock = refl
method_read (RpcMethod.run e arguments d bindings t o) =
    then_ok (texts_from_json (texts_to_json arguments)) _ arguments (texts_read arguments)
    ∙ then_ok (bindings_from_json (bindings_to_json bindings)) _ bindings (bindings_read bindings)

-- The entries of the request before those of its method hide none of them.
behind : (ext : Externals) (r : RpcRequest) (rest : Entries) → Entries
behind ext r rest = entry (codes "version") (Json.unsigned r.version) (
    entry (codes "request_id") (Json.string (ext.format_uuid r.request_id)) (
      entry (codes "client_session_id") (Json.string (ext.format_uuid r.client_session_id))
        (entry (codes "client_label") (Json.string r.client_label) rest)))

method_behind :
    (ext : Externals) (r : RpcRequest) (m : RpcMethod)
    → method_from_json (behind ext r (method_to_json m)) ≡ ok m
unfolding method_from_json behind
method_behind ext r m = method_read m

-- The document of a request is read as the request.
pub request_from_json-request_to_json :
    (ext : Externals) (r : RpcRequest)
    → IsRequest ext r
    → request_from_json ext (request_to_json ext r) ≡ ok r
unfolding request_from_json request_to_json behind
request_from_json-request_to_json ext r (small, _, request_id, client_id) =
    then_ok (ensure (ltb r.version 65536) invalid_request) _ tt
      (ap (λ b. ensure b invalid_request) small)
    ∙ then_ok (ok_or (ext.parse_uuid (ext.format_uuid r.request_id)) invalid_request) _ r.request_id
        (ap (λ o. ok_or o invalid_request) request_id)
    ∙ then_ok (ok_or (ext.parse_uuid (ext.format_uuid r.client_session_id)) invalid_request) _
        r.client_session_id (ap (λ o. ok_or o invalid_request) client_id)
    ∙ then_ok (method_from_json (behind ext r (method_to_json r.method))) _ r.method
        (method_behind ext r r.method)

target_shape :
    (t : BindingTarget)
    → (nesting (target_to_json t) ≡ 1)
      × (has_plain_keys (target_to_json t) ≡ true)
      × (has_machine_numbers (target_to_json t) ≡ true)
unfolding target_to_json nesting has_plain_keys has_duplicate has_machine_numbers
target_shape (environment name) = (refl, refl, refl)
target_shape standard_input = (refl, refl, refl)
target_shape (temporary_file_environment name none) = (refl, refl, refl)
target_shape (temporary_file_environment name (some suggested)) = (refl, refl, refl)

texts_shape :
    (ts : List Text)
    → (nesting_items (texts_to_json ts) ≡ 0)
      × (have_plain_keys (texts_to_json ts) ≡ true)
      × (have_machine_numbers (texts_to_json ts) ≡ true)
unfolding texts_to_json nesting has_plain_keys has_machine_numbers
texts_shape [] = (refl, refl, refl)
texts_shape (t ∷ ts) = ground (arith, texts_shape ts)

binding_shape :
    (b : SecretBindingRequest)
    → (nesting (binding_to_json b) ≡ 2)
      × (has_plain_keys (binding_to_json b) ≡ true)
      × (has_machine_numbers (binding_to_json b) ≡ true)
unfolding binding_to_json nesting has_plain_keys has_duplicate has_machine_numbers
binding_shape b = ground (arith, target_shape b.target)

bindings_shape :
    (bs : List SecretBindingRequest)
    → (nesting_items (bindings_to_json bs) ≤ 2)
      × (have_plain_keys (bindings_to_json bs) ≡ true)
      × (have_machine_numbers (bindings_to_json bs) ≡ true)
unfolding bindings_to_json nesting has_plain_keys has_machine_numbers
bindings_shape [] = (omega arith, refl, refl)
bindings_shape (b ∷ bs) = ground (arith, binding_shape b, bindings_shape bs)

abbrev IsPlain : Json → Type 0
IsPlain json = (nesting json ≤ 5) × (has_plain_keys json ≡ true) × (has_machine_numbers json ≡ true)

request_shape :
    (ext : Externals) (r : RpcRequest) (m : RpcMethod)
    → is_machine_method m ≡ true
    → ltb r.version 65536 ≡ true
    → IsPlain (request_to_json ext (record r { method = m }))
unfolding request_to_json method_to_json nesting has_plain_keys has_duplicate has_machine_numbers
request_shape ext r RpcMethod.session_open fits small = ground arith
request_shape ext r RpcMethod.status fits small = ground arith
request_shape ext r RpcMethod.list fits small = ground arith
request_shape ext r RpcMethod.lock fits small = ground arith
request_shape ext r (RpcMethod.run e arguments d bindings t o) fits small =
    ground (arith, texts_shape arguments, bindings_shape bindings)

-- The document of a request is nested at most 5 deep, has no key twice and holds numbers of the machine.
pub request_to_json-IsPlain :
    (ext : Externals) (r : RpcRequest)
    → is_machine_method r.method ≡ true
    → ltb r.version 65536 ≡ true
    → (nesting (request_to_json ext r) ≤ 5)
      × (has_plain_keys (request_to_json ext r) ≡ true)
      × (has_machine_numbers (request_to_json ext r) ≡ true)
request_to_json-IsPlain ext r fits small = request_shape ext r r.method fits small
