-- ===== src/Crypto/Sealed.antt =====
-- The parts of a file are read where they were written (crates/ladon-core/src/crypto.rs).
use mathlib.Core.List.{append_assoc, append-nil}
use ladon.Prelude.{
  ℕ, ◌+◌, ◌≡◌, ◌≤◌, ◌<◌, refl, Bool, true, some, [], ◌++◌, leb, ◌==◌, nat_eq, list_eq, length,
  length-append, take, drop, arith, ap, sym, ◌∙◌,
}
use ladon.Prelude.Utf8.{codes}
use ladon.Prelude.Result.{LadonError, ok, ensure, then_ok, invalid_vault_file}
use ladon.Model.{Text}
use ladon.Redact.Utf8.{Bytes}
use ladon.Codec.{Cbor}
use ladon.Codec.Laws.{IsCbor, then_step}
use ladon.Codec.RoundTrip.{read_back}
use ladon.Crypto
use ladon.Crypto.{
  magic, KdfHeader, KeyMaterial, UnlockedVault, Primitives, header_bytes, encode_header, dek_domain,
  payload_domain,
}
use ladon.Crypto.Header.{
  decoded, decode, expect_key, has_valid_bounds, read_header, accepted, is_encoding, decode_header,
}
use ladon.Crypto.File.{slice, to_be, read_number, ParsedFile, parts_of, parse_file, prefix_of}
use ladon.Crypto.Slices.{take_front, drop_front, slice_middle, read_number_lem}

module _ (cbor : Cbor) (laws : IsCbor cbor) where
  expect_key_lem :
      (key : Text) (rest : Bytes) → expect_key cbor key (cbor.put_str key ++ rest) ≡ (rest, ok tt)
  unfolding expect_key
  expect_key_lem key rest =
      then_step (decode cbor.get_str) _ _ rest key (ap (decoded _) (laws.str key rest))
      ∙ ap (λ b. (rest, ensure b invalid_vault_file)) ((list_eq.eq_iff key key).1 refl)

  header_regroup :
      (h : KdfHeader)
      → header_bytes cbor h
        ≡ cbor.put_map 5
          ++ (cbor.put_str (codes "kdf")
              ++ (cbor.put_str (codes "argon2id")
                  ++ (cbor.put_str (codes "salt")
                      ++ (cbor.put_bytes h.salt
                          ++ (cbor.put_str (codes "passes")
                              ++ (cbor.put_u32 h.passes
                                  ++ (cbor.put_str (codes "memory_kib")
                                      ++ (cbor.put_u32 h.memory_kib
                                          ++ (cbor.put_str (codes "parallelism")
                                              ++ (cbor.put_u32 h.parallelism ++ []))))))))))
  header_regroup h = rw (append-nil (cbor.put_u32 h.parallelism)) refl

  read_header_lem :
      (h : KdfHeader)
      → h.memory_kib < 4294967296
      → h.passes < 4294967296
      → h.parallelism < 4294967296
      → read_header cbor (header_bytes cbor h) ≡ ([], ok h)
  unfolding read_header
  read_header_lem h m p l =
      ap (read_header cbor) (header_regroup h)
      ∙ then_step (decode cbor.get_map) _ _ _ (some 5) (ap (decoded _) (laws.map 5 _ (omega arith)))
      ∙ then_step (expect_key cbor (codes "kdf")) _ _ _ tt (expect_key_lem (codes "kdf") _)
      ∙ then_step (expect_key cbor (codes "argon2id")) _ _ _ tt
          (expect_key_lem (codes "argon2id") _)
      ∙ then_step (expect_key cbor (codes "salt")) _ _ _ tt (expect_key_lem (codes "salt") _)
      ∙ then_step (decode cbor.get_bytes) _ _ _ h.salt (ap (decoded _) (laws.bytes h.salt _))
      ∙ then_step (expect_key cbor (codes "passes")) _ _ _ tt (expect_key_lem (codes "passes") _)
      ∙ then_step (decode cbor.get_u32) _ _ _ h.passes (ap (decoded _) (laws.u32 h.passes _ p))
      ∙ then_step (expect_key cbor (codes "memory_kib")) _ _ _ tt
          (expect_key_lem (codes "memory_kib") _)
      ∙ then_step (decode cbor.get_u32) _ _ _ h.memory_kib
          (ap (decoded _) (laws.u32 h.memory_kib _ m))
      ∙ then_step (expect_key cbor (codes "parallelism")) _ _ _ tt
          (expect_key_lem (codes "parallelism") _)
      ∙ then_step (decode cbor.get_u32) _ _ [] h.parallelism
          (ap (decoded _) (laws.u32 h.parallelism [] l))

  -- A header within the bounds is decoded from its encoding.
  pub decode_header-encode_header :
      (h : KdfHeader) (bytes : Bytes)
      → has_valid_bounds h ≡ true
      → encode_header cbor h ≡ ok bytes
      → (length bytes ≤ 4096) × (decode_header cbor bytes ≡ ok h)
  unfolding encode_header decode_header
  decode_header-encode_header h bytes bounds encoded =
      let (small, same) =
        read_back (leb (length (header_bytes cbor h)) 4096) _ (header_bytes cbor h) bytes encoded in
      let small' : leb (length bytes) 4096 ≡ true = rw (← same) small in
      let parsed : read_header cbor bytes ≡ ([], ok h) =
        rw (← same) (read_header_lem h (ground arith) (ground arith) (ground arith)) in
      let again : is_encoding bytes (encode_header cbor h) ≡ true =
        ap (is_encoding bytes) encoded ∙ (list_eq.eq_iff bytes bytes).1 refl in
      (ground arith, rw small' (ap (accepted cbor bytes) parsed ∙ rw (bounds, again) refl))

pub passes : (b : Bool) (e : LadonError) → b ≡ true → ensure b e ≡ ok tt
passes b e h = ap (λ t. ensure t e) h

leb-true : (m n : ℕ) → m ≤ n → leb m n ≡ true
leb-true m n h = ground arith

module _ (cbor : Cbor) (hb nonce wrapped number payload_nonce encrypted : Bytes) (n : ℕ)
    (header : KdfHeader) (decodes : decode_header cbor hb ≡ ok header) (short : length hb ≤ 4096)
    (nonce_length : length nonce ≡ 24) (wrapped_length : length wrapped ≡ 48)
    (is_number : number ≡ to_be 8 n []) (payload_nonce_length : length payload_nonce ≡ 24)
    (encrypted_length : length encrypted ≡ n + 16) (fits : n ≤ 67108864) where
  abbrev pub through_dek : Bytes
  through_dek = prefix_of hb ++ (nonce ++ wrapped)

  -- The file of these parts.
  abbrev pub file : Bytes
  file = (through_dek ++ number) ++ (payload_nonce ++ encrypted)

  number_length : length number ≡ 8
  number_length = ap length is_number

  length-through_dek : 14 + length hb + 72 ≡ length through_dek
  length-through_dek =
      let c = length-append (prefix_of hb) (nonce ++ wrapped) in
      let d = length-append nonce wrapped in omega arith

  length-output : 14 + length hb + 72 + 8 ≡ length (through_dek ++ number)
  length-output =
      let b = length-append through_dek number in
      let c = length-through_dek in let f = number_length in omega arith

  length-file : length file ≡ length hb + n + 134
  length-file =
      length-append (through_dek ++ number) (payload_nonce ++ encrypted)
      ∙ omega (arith, length-output, length-append payload_nonce encrypted)

  unfoldable pub parsed : ParsedFile
  parsed = record {
    header = header;
    prefix_before_dek = prefix_of hb;
    dek_nonce = nonce;
    wrapped_dek = wrapped;
    prefix_through_dek_tag = through_dek;
    prefix_through_payload_len = through_dek ++ number;
    payload_nonce = payload_nonce;
    encrypted_payload = encrypted;
  }

  -- The file, with the parts behind each other.
  from_hb : file ≡ prefix_of hb ++ (nonce ++ (wrapped ++ (number ++ (payload_nonce ++ encrypted))))
  from_hb = simp append_assoc

  after_nonce :
      file ≡ (prefix_of hb ++ nonce) ++ (wrapped ++ (number ++ (payload_nonce ++ encrypted)))
  after_nonce = simp append_assoc

  after_dek : file ≡ through_dek ++ (number ++ (payload_nonce ++ encrypted))
  after_dek = simp append_assoc

  after_all : file ≡ ((through_dek ++ number) ++ payload_nonce) ++ encrypted
  after_all = simp append_assoc

  parts_of-file :
      parts_of file header (14 + length hb) (14 + length hb + 72) (14 + length hb + 72 + 8) ≡ parsed
  unfolding parsed
  parts_of-file i = record {
    header = header;
    prefix_before_dek =
        (ap (take (14 + length hb)) from_hb
            ∙ take_front (14 + length hb) (prefix_of hb)
                (nonce ++ (wrapped ++ (number ++ (payload_nonce ++ encrypted)))) (omega arith))
          i;
    dek_nonce =
        (ap (slice (14 + length hb) (14 + length hb + 24)) from_hb
            ∙ slice_middle (14 + length hb) (14 + length hb + 24) (prefix_of hb) nonce
                (wrapped ++ (number ++ (payload_nonce ++ encrypted))) (omega arith) (omega arith))
          i;
    wrapped_dek =
        (ap (slice (14 + length hb + 24) (14 + length hb + 72)) after_nonce
            ∙ slice_middle (14 + length hb + 24) (14 + length hb + 72) (prefix_of hb ++ nonce)
                wrapped (number ++ (payload_nonce ++ encrypted))
                (sym (length-append (prefix_of hb) nonce ∙ omega arith)) (omega arith))
          i;
    prefix_through_dek_tag =
        (ap (take (14 + length hb + 72)) after_dek
            ∙ take_front (14 + length hb + 72) through_dek (number ++ (payload_nonce ++ encrypted))
                length-through_dek)
          i;
    prefix_through_payload_len =
        take_front (14 + length hb + 72 + 8) (through_dek ++ number) (payload_nonce ++ encrypted)
          length-output i;
    payload_nonce =
        slice_middle (14 + length hb + 72 + 8) (14 + length hb + 72 + 8 + 24)
          (through_dek ++ number) payload_nonce encrypted length-output (omega arith) i;
    encrypted_payload =
        (ap (drop (14 + length hb + 72 + 8 + 24)) after_all
            ∙ drop_front (14 + length hb + 72 + 8 + 24) ((through_dek ++ number) ++ payload_nonce)
                encrypted
                (sym (
                  length-append (through_dek ++ number) payload_nonce
                  ∙ omega (arith, length-output))))
          i;
  }

  -- What `parse_file` checks.
  total : 14 + length hb + 72 + 8 + 24 + n + 16 ≡ length file
  total = omega (arith, length-file)

  abbrev after_hb : Bytes
  after_hb = nonce ++ (wrapped ++ (number ++ (payload_nonce ++ encrypted)))

  header_slice : slice 14 (14 + length hb) file ≡ hb
  header_slice =
      ap (slice 14 (14 + length hb)) from_hb
      ∙ slice_middle 14 (14 + length hb)
          (magic ++ (to_be 2 Crypto.version [] ++ to_be 4 (length hb) [])) hb after_hb refl refl

  version_read : read_number 2 file 8 ≡ ok 1
  version_read =
      ap (λ f. read_number 2 f 8) from_hb
      ∙ read_number_lem 2 1 8 magic (to_be 4 (length hb) [] ++ (hb ++ after_hb)) (omega arith) refl

  header_length_read : read_number 4 file 10 ≡ ok (length hb)
  header_length_read =
      ap (λ f. read_number 4 f 10) from_hb
      ∙ read_number_lem 4 (length hb) 10 (magic ++ to_be 2 Crypto.version []) (hb ++ after_hb)
          (omega arith) refl

  payload_length_read : read_number 8 file (14 + length hb + 72) ≡ ok n
  payload_length_read =
      ap (λ f. read_number 8 f (14 + length hb + 72)) after_dek
      ∙ ap
          (λ m.
            read_number 8 (through_dek ++ (m ++ (payload_nonce ++ encrypted)))
              (14 + length hb + 72))
          is_number
      ∙ read_number_lem 8 n (14 + length hb + 72) through_dek (payload_nonce ++ encrypted)
          (omega arith) length-through_dek

  pub parse_file_lem : parse_file cbor file ≡ ok parsed
  unfolding parse_file
  parse_file_lem =
      then_ok (ensure (leb (14 + 72 + 48) (length file)) invalid_vault_file) _ tt
        (passes _ invalid_vault_file (leb-true _ _ (omega (arith, length-file))))
      ∙ then_ok (read_number 2 file 8) _ 1 version_read
      ∙ then_ok (read_number 4 file 10) _ (length hb) header_length_read
      ∙ then_ok (ensure (leb (length hb) 4096) invalid_vault_file) _ tt
          (passes _ invalid_vault_file (leb-true _ _ short))
      ∙ then_ok (ensure (leb (14 + length hb + 72 + 8) (length file)) invalid_vault_file) _ tt
          (passes _ invalid_vault_file (leb-true _ _ (omega (arith, length-file))))
      ∙ then_ok (decode_header cbor (slice 14 (14 + length hb) file)) _ header
          (ap (decode_header cbor) header_slice ∙ decodes)
      ∙ then_ok (read_number 8 file (14 + length hb + 72)) _ n payload_length_read
      ∙ then_ok (ensure (leb n 67108864) invalid_vault_file) _ tt
          (passes _ invalid_vault_file (leb-true _ _ fits))
      ∙ then_ok (ensure (14 + length hb + 72 + 8 + 24 + n + 16 == length file) invalid_vault_file) _
          tt (passes _ invalid_vault_file ((nat_eq.eq_iff _ _).1 total))
      ∙ ap ok parts_of-file
