-- ===== src/Redact/Capture.antt =====
-- `BoundedCapture` (crates/ladon-core/src/redact.rs): the beginning and the end of an output that may be
-- long.
use ladon.Prelude.{
  ℕ, zero, suc, ◌+◌, ◌-◌, ◌/◌, ◌%◌, Bool, true, false, not, ◌&&◌, Option, none, some, List, [], ◌∷◌,
  ◌++◌, ltb, leb, ◌==◌, nat_eq, if◌then◌else◌, drop, length,
}
use ladon.Prelude.Time.{saturating_add}
use ladon.Redact.Utf8.{Bytes}
use ladon.Prelude.Utf8.{codes}

pub record BoundedCapture : Type 0 where
  pub limit : ℕ
  pub head_capacity : ℕ
  pub tail_capacity : ℕ
  pub head : Bytes
  pub tail : Bytes
  pub tail_started : Bool
  pub total_bytes : ℕ

unfoldable pub new : ℕ → BoundedCapture
new limit = record {
  limit = limit;
  head_capacity = limit / 2;
  tail_capacity = limit - limit / 2;
  head = [];
  tail = [];
  tail_started = false;
  total_bytes = 0;
}

-- The number of bytes of the character that begins with this byte.
unfoldable pub width : ℕ → ℕ
width first =
    if ltb first 128
    then 1
    else if leb 192 first && leb first 223
    then 2
    else if leb 224 first && leb first 239
    then 3
    else 4

unfoldable pub pop_front_character : Bytes → Bytes
unfolding width
pop_front_character [] = []
pop_front_character (first ∷ rest) = drop (width first) (first ∷ rest)

-- `while tail.len() > tail_capacity`; every round takes a byte at least.
unfoldable pub shorten : ℕ → ℕ → Bytes → Bytes
unfolding pop_front_character
shorten zero capacity tail = tail
shorten (suc f) capacity tail =
    let rest = shorten f capacity (pop_front_character tail) in
    if ltb capacity (length tail) then rest else tail

unfoldable pub push_character : BoundedCapture → Bytes → BoundedCapture
unfolding shorten
push_character s bytes =
    let total = saturating_add s.total_bytes (length bytes) in
    let tail = s.tail ++ bytes in
    if not s.tail_started && leb (length s.head + length bytes) s.head_capacity
    then record s { total_bytes = total; head = s.head ++ bytes }
    else record s {
      total_bytes = total;
      tail_started = true;
      tail = shorten (length tail) s.tail_capacity tail;
    }

unfoldable pub push_str : BoundedCapture → List Bytes → BoundedCapture
unfolding push_character
push_str s [] = s
push_str s (c ∷ cs) = push_str (push_character s c) cs

-- `{}` of a `u64`, which has at most twenty digits.
unfoldable pub digits : ℕ → ℕ → Bytes
digits zero n = []
digits (suc f) n =
    let rest = digits f (n / 10) in
    if ltb n 10 then (b'0' + n) ∷ [] else rest ++ ((b'0' + n % 10) ∷ [])

unfoldable pub omission : ℕ → Bytes
unfolding digits
omission omitted =
    (10 ∷ codes "...[") ++ digits 20 omitted ++ codes " bytes omitted]..." ++ (10 ∷ [])

-- The loop of `finish`; `none` if it does not end within the fuel.
unfoldable pub fit : ℕ → ℕ → ℕ → Bytes → Bytes → Option (Bytes × Bool × ℕ)
unfolding omission pop_front_character
fit zero limit total head tail = none
fit (suc f) limit total head tail =
    let omitted = total - (length head + length tail) in
    let marker = omission omitted in
    let rest = fit f limit total head (pop_front_character tail) in
    if leb (length head + length marker + length tail) limit
    then some (head ++ marker ++ tail, true, omitted)
    else rest

-- The bytes are whole characters, which `String::from_utf8_lossy` leaves as they are.
unfoldable pub finish : BoundedCapture → Option (Bytes × Bool × ℕ)
unfolding fit
finish s =
    let captured = length s.head + length s.tail in
    let truncated = fit (suc (length s.tail)) s.limit s.total_bytes s.head s.tail in
    if leb s.total_bytes s.limit && (captured == s.total_bytes)
    then some (s.head ++ s.tail, false, 0)
    else truncated
