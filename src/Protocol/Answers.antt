-- ===== src/Protocol/Answers.antt =====
-- The documents that are written for responses are read again (crates/ladon-core/src/protocol.rs).
use ladon.Prelude.{
  ℕ, ◌≡◌, refl, ap, ◌∙◌, Bool, true, Option, none, some, List, [], ◌∷◌, ltb, nat_eq, list_eq,
  if◌then◌else◌, All,
}
use ladon.Prelude.Integers.{ℤ, pos, negsuc}
use ladon.Prelude.Result.{ok, err, ensure, ok_or, invalid_request, then_ok}
use ladon.Model.{Externals}
use ladon.Protocol.{SecretFieldSummary, SecretSummary, RpcResult, RpcOutcome, RpcResponse}
use ladon.Protocol.Responses.{
  fields_to_json, fields_from_json, summary_to_json, summaries_to_json, summary_from_json,
  summaries_from_json, code_to_json, code_from_json, result_to_json, result_from_json,
  run_result_from_json, response_to_json, response_from_json, success_or,
}

-- An identifier that reads as it is printed.
abbrev pub IsReadable : Externals → ℕ → Type 0
IsReadable ext id = ext.parse_uuid (ext.format_uuid id) ≡ some id

-- The exit code is an `i32`.
abbrev pub is_machine_code : Option ℤ → Bool
is_machine_code none = true
is_machine_code (some (pos n)) = ltb n 2147483648
is_machine_code (some (negsuc n)) = ltb n 2147483648

abbrev pub IsResult : Externals → RpcResult → Type 0
IsResult ext (RpcResult.list secrets) = All (λ s. IsReadable ext s.id) secrets
IsResult ext
      (RpcResult.run exit_code termination stdout stderr duration_ms redaction_count
        output_truncated temp_cleanup_warning) =
    is_machine_code exit_code ≡ true
IsResult ext result = Unit

abbrev pub IsOutcome : Externals → RpcOutcome → Type 0
IsOutcome ext (RpcOutcome.success result) = IsResult ext result
IsOutcome ext (RpcOutcome.failure error) = Unit

fields_read : (fs : List SecretFieldSummary) → fields_from_json (fields_to_json fs) ≡ ok fs
fields_read [] = refl
fields_read (f ∷ fs) = then_ok (fields_from_json (fields_to_json fs)) _ fs (fields_read fs)

summary_read :
    (ext : Externals) (s : SecretSummary)
    → IsReadable ext s.id
    → summary_from_json ext (summary_to_json ext s) ≡ ok s
unfolding summary_from_json
summary_read ext s h =
    then_ok (ok_or (ext.parse_uuid (ext.format_uuid s.id)) invalid_request) _ s.id
      (ap (λ o. ok_or o invalid_request) h)
    ∙ then_ok (fields_from_json (fields_to_json s.fields)) _ s.fields (fields_read s.fields)

summaries_read :
    (ext : Externals) (ss : List SecretSummary)
    → All (λ s. IsReadable ext s.id) ss
    → summaries_from_json ext (summaries_to_json ext ss) ≡ ok ss
unfolding summaries_from_json
summaries_read ext [] h = refl
summaries_read ext (s ∷ ss) (h, hs) =
    then_ok (summary_from_json ext (summary_to_json ext s)) _ s (summary_read ext s h)
    ∙ then_ok (summaries_from_json ext (summaries_to_json ext ss)) _ ss (summaries_read ext ss hs)

code_read :
    (code : Option ℤ)
    → is_machine_code code ≡ true
    → code_from_json (some (code_to_json code)) ≡ ok code
code_read none h = refl
code_read (some (pos n)) h = ap (λ b. if b then ok (some (pos n)) else err invalid_request) h
code_read (some (negsuc n)) h = ap (λ b. if b then ok (some (negsuc n)) else err invalid_request) h

result_read :
    (ext : Externals) (r : RpcResult)
    → IsResult ext r
    → result_from_json ext (result_to_json ext r) ≡ ok r
unfolding result_from_json result_to_json run_result_from_json
result_read ext RpcResult.session_opened h = refl
result_read ext (RpcResult.status state none) h = refl
result_read ext (RpcResult.status state (some n)) h = refl
result_read ext (RpcResult.list secrets) h =
    then_ok (summaries_from_json ext (summaries_to_json ext secrets)) _ secrets
      (summaries_read ext secrets h)
result_read ext RpcResult.locked h = refl
result_read ext (RpcResult.run code t out e d n o w) h =
    then_ok (code_from_json (some (code_to_json code))) _ code (code_read code h)

heads_read :
    (ext : Externals) (r : RpcResponse) (o : RpcOutcome)
    → ltb r.version 65536 ≡ true
    → IsReadable ext r.request_id
    → IsOutcome ext o
    → response_from_json ext (response_to_json ext (record r { outcome = o }))
      ≡ ok (record r { outcome = o })
unfolding response_from_json response_to_json
heads_read ext r (RpcOutcome.success result) small id h =
    then_ok (ensure (ltb r.version 65536) invalid_request) _ tt
      (ap (λ b. ensure b invalid_request) small)
    ∙ then_ok (ok_or (ext.parse_uuid (ext.format_uuid r.request_id)) invalid_request) _ r.request_id
        (ap (λ o. ok_or o invalid_request) id)
    ∙ then_ok (success_or (result_from_json ext (result_to_json ext result)) (err invalid_request))
        _ (RpcOutcome.success result)
        (ap (λ q. success_or q (err invalid_request)) (result_read ext result h))
heads_read ext r (RpcOutcome.failure error) small id h =
    then_ok (ensure (ltb r.version 65536) invalid_request) _ tt
      (ap (λ b. ensure b invalid_request) small)
    ∙ then_ok (ok_or (ext.parse_uuid (ext.format_uuid r.request_id)) invalid_request) _ r.request_id
        (ap (λ o. ok_or o invalid_request) id)

-- The document of a response is read as the response.
pub response_from_json-response_to_json :
    (ext : Externals) (r : RpcResponse)
    → ltb r.version 65536 ≡ true
    → IsReadable ext r.request_id
    → IsOutcome ext r.outcome
    → response_from_json ext (response_to_json ext r) ≡ ok r
response_from_json-response_to_json ext r small id h = heads_read ext r r.outcome small id h
