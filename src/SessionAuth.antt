-- ===== src/SessionAuth.antt =====
-- crates/ladon-app/src/session_auth.rs: the PIN of a session, and how many wrong ones it stands. The hash
-- of a PIN is Argon2's, which is of another package, and so are random bytes: the first is the parameter
-- `Externals`, the salt is an argument.
pub mod Attempts
mod Examples
use ladon.Prelude.{
  ℕ, ◌+◌, ◌-◌, ◌≡◌, Bool, true, false, not, ◌&&◌, ◌||◌, Option, none, some, List, [], ◌∷◌, ltb, leb,
  ◌==◌, nat_eq, list_eq, if◌then◌else◌, length, all, min,
}
use ladon.Prelude.Result.{
  Result, ok, err, ◌>>=◌, ◌>>◌, ensure, ok_or, LadonError, invalid_pin, crypto_unavailable,
  approval_authentication_failed,
}
use ladon.Redact.Utf8.{Bytes}

pub record Externals : Type 0 where
  -- `Argon2::hash_password_into`, of a PIN and a salt.
  pub hash_password : Bytes → Bytes → Option Bytes

abbrev pub max_failed_pin_attempts : ℕ
max_failed_pin_attempts = 5

pub record SessionPin : Type 0 where
  pub salt : Bytes
  pub hash : Bytes

unfoldable pub is_ascii_digit : ℕ → Bool
is_ascii_digit b = leb b'0' b && leb b b'9'

unfoldable pub valid_pin : Bytes → Bool
unfolding is_ascii_digit
valid_pin pin = leb 4 (length pin) && leb (length pin) 12 && all is_ascii_digit pin

unfoldable pub derive : Externals → Bytes → Bytes → Result Bytes
derive ext pin salt = ok_or (ext.hash_password pin salt) crypto_unavailable

unfoldable pub new : Externals → Bytes → Bytes → Option Bytes → Result SessionPin
unfolding valid_pin derive
new ext pin confirmation random = do
  ensure (pin == confirmation && valid_pin pin) invalid_pin
  salt ← ok_or random crypto_unavailable
  hash ← derive ext pin salt
  ok record { salt = salt; hash = hash }

unfoldable pub verify : Externals → SessionPin → Bytes → Result (Unit {0})
unfolding derive
verify ext s pin = do
  candidate ← derive ext pin s.salt
  ensure (candidate == s.hash) approval_authentication_failed

pub data PinVerification : Type 0 where
  accepted : PinVerification
  rejected : ℕ → PinVerification
  lock_vault : PinVerification

pub record SessionConfirmation : Type 0 where
  pub pin : Option SessionPin
  pub failed_pin_attempts : ℕ

abbrev pub touch_id_only : SessionConfirmation
touch_id_only = record { pin = none; failed_pin_attempts = 0 }

abbrev pub with_pin : SessionPin → SessionConfirmation
with_pin pin = record { pin = some pin; failed_pin_attempts = 0 }

-- The counter is a `u8`.
abbrev pub count_failure : ℕ → ℕ
count_failure n = min (n + 1) 255

unfoldable pub wrong_pin : SessionConfirmation → SessionConfirmation × Result PinVerification
wrong_pin s =
    let failed = count_failure s.failed_pin_attempts in
    (
      record s { failed_pin_attempts = failed },
      if leb max_failed_pin_attempts failed
          then ok lock_vault
          else ok (rejected (max_failed_pin_attempts - failed)),
    )

-- The three outcomes of `pin.verify`.
abbrev pub verified :
    SessionConfirmation → Result (Unit {0}) → SessionConfirmation × Result PinVerification
verified s (ok _) = (record s { failed_pin_attempts = 0 }, ok accepted)
verified s (err approval_authentication_failed) = wrong_pin s
verified s (err error) = (s, err error)

abbrev pub verify_against :
    Externals
    → SessionConfirmation
    → Bytes
    → Option SessionPin
    → SessionConfirmation × Result PinVerification
verify_against ext s candidate none = (s, ok (rejected 0))
verify_against ext s candidate (some pin) = verified s (verify ext pin candidate)

unfoldable pub verify_pin :
    Externals → Bytes → SessionConfirmation → SessionConfirmation × Result PinVerification
unfolding verify wrong_pin
verify_pin ext candidate s = verify_against ext s candidate s.pin

unfoldable pub record_touch_id_success : SessionConfirmation → SessionConfirmation
record_touch_id_success s = record s { failed_pin_attempts = 0 }
