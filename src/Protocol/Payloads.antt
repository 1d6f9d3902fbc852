-- ===== src/Protocol/Payloads.antt =====
-- Which frames are read, and what from them (crates/ladon-core/src/protocol.rs).
use ladon.Prelude.{
  ℕ, suc, ◌+◌, ◌/◌, ◌%◌, ◌≡◌, ◌↔◌, ◌≤◌, ◌<◌, refl, not, some, [], ◌∷◌, ◌++◌, leb, ◌==◌, nat_eq,
  length, All, arith, ap, sym, ◌∙◌,
}
use ladon.Prelude.Result.{ok, ensure_ok, ok_injective, invalid_frame, frame_too_large}
use ladon.Redact.Utf8.{Bytes}
use ladon.Protocol.{max_frame_bytes}
use ladon.Protocol.Frames.{to_be_bytes, from_be_bytes, encode_frame, checked_frame_payload}

from_be_bytes-to_be_bytes :
    (n : ℕ)
    → n < 4294967296
    → from_be_bytes (n / 16777216 % 256) (n / 65536 % 256) (n / 256 % 256) (n % 256) ≡ n
from_be_bytes-to_be_bytes n h = omega arith

to_be_bytes-from_be_bytes :
    (a b c d : ℕ)
    → a < 256
    → b < 256
    → c < 256
    → d < 256
    → to_be_bytes (from_be_bytes a b c d) ≡ a ∷ b ∷ c ∷ d ∷ []
to_be_bytes-from_be_bytes a b c d ha hb hc hd =
    let n = from_be_bytes a b c d in
    let first : n / 16777216 % 256 ≡ a = omega arith in
    let second : n / 65536 % 256 ≡ b = omega arith in
    let third : n / 256 % 256 ≡ c = omega arith in
    let fourth : n % 256 ≡ d = omega arith in rw (first, second, third, fourth) refl

pub encode_frame_ok :
    (json frame : Bytes)
    → encode_frame (some json) ≡ ok frame
    → (0 < length json)
      × (length json ≤ max_frame_bytes)
      × (frame ≡ to_be_bytes (length json) ++ json)
unfolding encode_frame
encode_frame_ok [] frame h = absurd cc
encode_frame_ok (x ∷ json) frame h =
    let (small, h1) =
      ensure_ok (leb (suc (length json)) max_frame_bytes) frame_too_large _ frame h in
    let (fits, h2) = ensure_ok (leb (suc (length json)) 4294967295) frame_too_large _ frame h1 in
    (omega arith, ground arith, sym (ok_injective _ frame h2))

pub checked_frame_payload_lem :
    (json : Bytes)
    → 0 < length json
    → length json ≤ max_frame_bytes
    → checked_frame_payload (to_be_bytes (length json) ++ json) ≡ ok json
unfolding checked_frame_payload
checked_frame_payload_lem json h k =
    let n = from_be_bytes-to_be_bytes (length json) (omega arith) in rw n (ground arith)

encode_frame_lem :
    (json : Bytes)
    → 0 < length json
    → length json ≤ max_frame_bytes
    → encode_frame (some json) ≡ ok (to_be_bytes (length json) ++ json)
unfolding encode_frame
encode_frame_lem [] h k = absurd (omega arith)
encode_frame_lem (x ∷ json) h k = ground arith

payload_frame :
    (frame json : Bytes)
    → All (λ b. b < 256) frame
    → checked_frame_payload frame ≡ ok json
    → encode_frame (some json) ≡ ok frame
unfolding checked_frame_payload encode_frame
payload_frame [] json octets h = absurd cc
payload_frame (a ∷ []) json octets h = absurd cc
payload_frame (a ∷ b ∷ []) json octets h = absurd cc
payload_frame (a ∷ b ∷ c ∷ []) json octets h = absurd cc
payload_frame (a ∷ b ∷ c ∷ d ∷ rest) json octets h =
    let (ha, octets1) = octets in
    let (hb, octets2) = octets1 in
    let (hc, octets3) = octets2 in
    let (hd, octets4) = octets3 in
    let n = from_be_bytes a b c d in
    let (some_bytes, h1) = ensure_ok (not (n == 0)) invalid_frame _ json h in
    let (small, h2) = ensure_ok (leb n max_frame_bytes) frame_too_large _ json h1 in
    let (whole, h3) = ensure_ok (length (a ∷ b ∷ c ∷ d ∷ rest) == 4 + n) invalid_frame _ json h2 in
    let same : rest ≡ json = ok_injective rest json h3 in
    let len : length rest ≡ n = ground arith in
    let len' : length json ≡ n = ap length (sym same) ∙ len in
    encode_frame_lem json (ground arith) (ground arith)
    ∙ ap ok (
        ap (λ k. to_be_bytes k ++ json) len'
        ∙ ap (λ p. p ++ json) (to_be_bytes-from_be_bytes a b c d ha hb hc hd)
        ∙ ap (λ r. a ∷ b ∷ c ∷ d ∷ r) (sym same))

-- A document is what a frame of bytes holds exactly if the frame is what it is encoded into: the length agrees
-- with the document, which is not empty and has at most 4,194,304 bytes.
pub checked_frame_payload-encode_frame :
    (frame json : Bytes)
    → All (λ b. b < 256) frame
    → (encode_frame (some json) ≡ ok frame) ↔ (checked_frame_payload frame ≡ ok json)
checked_frame_payload-encode_frame frame json octets = (
  λ h.
      let (some_bytes, small, is) = encode_frame_ok json frame h in
      ap checked_frame_payload is ∙ checked_frame_payload_lem json some_bytes small,
  payload_frame frame json octets,
)
