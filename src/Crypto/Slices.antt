-- ===== src/Crypto/Slices.antt =====
-- Numbers and slices of a file (crates/ladon-core/src/crypto.rs).
use mathlib.Core.List.{append-nil}
use ladon.Prelude.{
  ℕ, zero, suc, ◌+◌, ◌-◌, ◌*◌, ◌/◌, ◌%◌, ◌≡◌, ◌<◌, refl, true, [], ◌∷◌, ◌++◌, leb, length,
  length-append, take, take-append, drop, arith, ap, ◌∙◌,
}
use ladon.Prelude.Result.{ok}
use ladon.Redact.Utf8.{Bytes}
use ladon.Crypto.File.{slice, to_be, from_be, read_number}

-- How many numbers there are of `n` bytes.
abbrev pub range : ℕ → ℕ
range zero = 1
range (suc n) = range n * 256

from_be-to_be_before :
    (n k : ℕ) (rest : Bytes) → k < range n → from_be 0 (to_be n k rest) ≡ from_be k rest
from_be-to_be_before zero k rest h = ap (λ t. from_be t rest) (omega arith)
from_be-to_be_before (suc n) k rest h =
    from_be-to_be_before n (k / 256) (k % 256 ∷ rest) (omega arith)
    ∙ ap (λ t. from_be t rest) (omega arith)

pub length-to_be : (n k : ℕ) (rest : Bytes) → length (to_be n k rest) ≡ n + length rest
length-to_be zero k rest = omega arith
length-to_be (suc n) k rest = length-to_be n (k / 256) (k % 256 ∷ rest) ∙ omega arith

pub take_front : (n : ℕ) (xs ys : Bytes) → n ≡ length xs → take n (xs ++ ys) ≡ xs
take_front n xs ys h =
    ap (λ i. take i (xs ++ ys)) (omega (arith, h)) ∙ take-append 0 xs ys ∙ append-nil xs

drop-length : (xs ys : Bytes) → drop (length xs) (xs ++ ys) ≡ ys
drop-length [] ys = refl
drop-length (x ∷ xs) ys = drop-length xs ys

pub drop_front : (n : ℕ) (xs ys : Bytes) → n ≡ length xs → drop n (xs ++ ys) ≡ ys
drop_front n xs ys h = ap (λ i. drop i (xs ++ ys)) h ∙ drop-length xs ys

pub slice_middle :
    (a b : ℕ) (xs ys zs : Bytes)
    → a ≡ length xs
    → b ≡ a + length ys
    → slice a b (xs ++ (ys ++ zs)) ≡ ys
slice_middle a b xs ys zs h k =
    ap (take (b - a)) (drop_front a xs (ys ++ zs) h) ∙ take_front (b - a) ys zs (omega arith)

pub read_number_lem :
    (n k offset : ℕ) (xs zs : Bytes)
    → k < range n
    → offset ≡ length xs
    → read_number n (xs ++ (to_be n k [] ++ zs)) offset ≡ ok k
unfolding read_number
read_number_lem n k offset xs zs h at =
    let number = length-to_be n k [] in
    let whole = length-append xs (to_be n k [] ++ zs) in
    let rest = length-append (to_be n k []) zs in
    let inside : leb (offset + n) (length (xs ++ (to_be n k [] ++ zs))) ≡ true = ground arith in
    rw inside (
      ap ok (
        ap (from_be 0) (slice_middle offset (offset + n) xs (to_be n k []) zs at (omega arith))
        ∙ from_be-to_be_before n k [] h))
