-- ===== src/Protocol/RoundTrip.antt =====
-- What is encoded as a frame is decoded again (crates/ladon-core/src/protocol.rs).
use ladon.Prelude.{◌≡◌, ◌≤◌, refl, true, Option, none, some, nat_eq, arith, ap, ◌∙◌}
use ladon.Prelude.Result.{
  then_ok, ok_or_ok, ok, ensure, ok_or, bind_ok, ok_injective, invalid_request,
}
use ladon.Redact.Utf8.{Bytes}
use ladon.Protocol.{RpcRequest, validate_request}
use ladon.Model.{Externals}
use ladon.Protocol.Documents.{request_to_json, request_from_json}
use ladon.Protocol.Written.{
  IsRequest, has_machine_numbers, request_from_json-request_to_json, request_to_json-IsPlain,
}
use ladon.Protocol.Json.{Json, visit, nesting, has_plain_keys, visit_lem}
use ladon.Protocol.Frames.{
  Serde, or_else, encode_frame, checked_frame_payload, validate_json_document, encode_request_frame,
  decode_request_frame,
}
use ladon.Protocol.Payloads.{encode_frame_ok, checked_frame_payload_lem}

-- A document that serde_json writes it reads, if every number in it is an integer of 64 bits and it is not nested
-- deeper than serde_json reads.
pub record IsSerde (serde : Serde) : Type 0 where
  pub document :
      (json : Json) (written : Bytes)
      → has_machine_numbers json ≡ true
      → nesting json ≤ 127
      → serde.write_json json ≡ some written
      → serde.read_json written ≡ some json

module _ (ext : Externals) (serde : Serde) where
  validate_json_document_lem :
      (json : Bytes) (document : Json)
      → serde.read_json json ≡ some document
      → nesting document ≤ 16
      → has_plain_keys document ≡ true
      → validate_json_document ext serde json ≡ ok tt
  unfolding validate_json_document
  validate_json_document_lem json document parsed shallow plain =
      let accepted = visit_lem document in
      let yes : visit 0 document ≡ true = ground arith in
      then_ok (ok_or (serde.read_json json) invalid_request) _ document
        (ap (λ o. ok_or o invalid_request) parsed)
      ∙ ap (λ b. ensure b invalid_request) yes

  -- The document of a frame, and what is known of it.
  framed :
      (written : Option Bytes) (frame : Bytes)
      → encode_frame written ≡ ok frame
      → (json : Bytes) × (written ≡ some json) × (checked_frame_payload frame ≡ ok json)
  unfolding encode_frame
  framed none frame h = absurd cc
  framed (some json) frame h =
      let (full, small, is) = encode_frame_ok json frame h in
      (json, refl, ap checked_frame_payload is ∙ checked_frame_payload_lem json full small)

  -- A request that `validate_request` accepts, encoded as a frame, is decoded again: if its numbers are those of
  -- the machine and its identifiers read as they are printed, and if serde_json reads the document that it writes.
  pub decode-encode_request_frame :
      IsSerde serde
      → (r : RpcRequest) (frame : Bytes) → IsRequest ext r
      → validate_request r ≡ ok tt
      → encode_request_frame ext serde r ≡ ok frame
      → decode_request_frame ext serde frame ≡ ok r
  unfolding encode_request_frame decode_request_frame
  decode-encode_request_frame laws r frame machine valid encoded =
      let document = request_to_json ext r in
      let (json, written, payload) = framed (serde.write_json document) frame encoded in
      let (small, fits, _, _) = machine in
      let (shallow, plain, numbers) = request_to_json-IsPlain ext r fits small in
      let parsed = laws.document document json numbers (omega arith) written in
      then_ok (checked_frame_payload frame) _ json payload
      ∙ then_ok (validate_json_document ext serde json) _ tt
          (validate_json_document_lem json document parsed (omega arith) plain)
      ∙ then_ok (ok_or (serde.read_json json) invalid_request) _ document
          (ap (λ o. ok_or o invalid_request) parsed)
      ∙ then_ok (or_else (request_from_json ext document) (serde.read_other_request document)) _ r (
          ap (λ q. or_else q (serde.read_other_request document))
            (request_from_json-request_to_json ext r machine))
      ∙ then_ok (validate_request r) (λ _. ok r) tt valid

  accepted_document :
      (json : Bytes)
      → validate_json_document ext serde json ≡ ok tt
      → (document : Json) × (serde.read_json json ≡ some document)
        × (nesting document ≤ 16)
        × (has_plain_keys document ≡ true)
  unfolding validate_json_document
  accepted_document json h =
      let (document, parsed, checked) =
        bind_ok (ok_or (serde.read_json json) invalid_request) _ tt h in
      let accepted = visit_lem document in
      (
        document,
        ok_or_ok (serde.read_json json) invalid_request document parsed,
        ground arith,
        ground arith,
      )

  -- A frame that is decoded as a request holds a document that is nested at most 16 deep and in which no object
  -- has a key twice, and the request is one that `validate_request` accepts.
  pub decode_request_frame-IsChecked :
      (frame : Bytes) (r : RpcRequest)
      → decode_request_frame ext serde frame ≡ ok r
      → (json : Bytes) × (document : Json) × (checked_frame_payload frame ≡ ok json)
        × (serde.read_json json ≡ some document)
        × (nesting document ≤ 16)
        × (has_plain_keys document ≡ true)
        × (validate_request r ≡ ok tt)
  unfolding decode_request_frame
  decode_request_frame-IsChecked frame r h =
      let (json, payload, h1) = bind_ok (checked_frame_payload frame) _ r h in
      let (_, plain, h2) = bind_ok (validate_json_document ext serde json) _ r h1 in
      let (read, _, h3) = bind_ok (ok_or (serde.read_json json) invalid_request) _ r h2 in
      let (request, found, h4) =
        bind_ok (or_else (request_from_json ext read) (serde.read_other_request read)) _ r h3 in
      let (v, valid, h5) = bind_ok (validate_request request) _ r h4 in
      let (document, parsed, shallow, unique) = accepted_document json plain in
      let same : request ≡ r = ok_injective request r h5 in
      (json, document, payload, parsed, shallow, unique, rw (← same) valid)
