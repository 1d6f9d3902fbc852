-- ===== src/Prelude/Time.antt =====
-- Durations, wall-clock times and saturating 64-bit arithmetic of the standard library.
-- A `Duration` is a number of nanoseconds, a `SystemTime` the number of nanoseconds since the
-- earliest time that the platform represents.
use Prim.Native.Nat.{ℕ, ◌+◌, ◌-◌, ◌*◌, ◌/◌, min}
use mathlib.Core.Option.{Option, none, some}
use ladon.Prelude.Tests.{leb, if◌then◌else◌}

abbrev pub u64_max : ℕ
u64_max = 18446744073709551615

abbrev pub saturating_add : ℕ → ℕ → ℕ
saturating_add a b = min (a + b) u64_max

-- `saturating_sub` stops at 0, as `-` does.
abbrev pub saturating_sub : ℕ → ℕ → ℕ
saturating_sub a b = a - b

-- `u64::checked_add`.
abbrev pub checked_add : ℕ → ℕ → Option ℕ
checked_add a b = if leb (a + b) u64_max then some (a + b) else none

abbrev pub nanos_per_milli : ℕ
nanos_per_milli = 1000000

abbrev pub nanos_per_second : ℕ
nanos_per_second = 1000000000

-- `Duration::MAX`: 2^64 - 1 seconds and 999999999 nanoseconds.
abbrev pub duration_max : ℕ
duration_max = 18446744073709551615999999999

abbrev pub from_millis : ℕ → ℕ
from_millis ms = ms * nanos_per_milli

abbrev pub as_millis : ℕ → ℕ
as_millis d = d / nanos_per_milli

abbrev pub from_secs : ℕ → ℕ
from_secs s = s * nanos_per_second

-- `deadline.duration_since(now)`: an error if `now` is later.
abbrev pub duration_since : ℕ → ℕ → Option ℕ
duration_since deadline now = if leb now deadline then some (deadline - now) else none

-- `duration_since(…).unwrap_or(Duration::ZERO)`.
abbrev pub until_or_zero : ℕ → ℕ → ℕ
until_or_zero deadline now = deadline - now

-- A `SystemTime` counts its seconds in 64 bits.
abbrev pub system_time_max : ℕ
system_time_max = 18446744073709551615999999999

-- `SystemTime::checked_add`.
abbrev pub time_checked_add : ℕ → ℕ → Option ℕ
time_checked_add t d = if leb (t + d) system_time_max then some (t + d) else none
