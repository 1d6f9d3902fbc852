-- ===== src/SessionAuth/Attempts.antt =====
-- How many wrong PINs a session stands (crates/ladon-app/src/session_auth.rs).
use ladon.Prelude.{
  ℕ, suc, ◌-◌, ◌≡◌, refl, true, ◌&&◌, Option, none, some, List, [], ◌∷◌, leb, ◌==◌, nat_eq, list_eq,
  if◌then◌else◌, min, arith, ap, sym, subst, ◌∙◌, Bool-cases, inl, inr,
}
use ladon.Prelude.Result.{
  Result, ok, err, ensure, ok_or, crypto_unavailable, approval_authentication_failed, bind_ok,
  ensure_ok, ok_injective, ◌>>=◌,
}
use ladon.Redact.Utf8.{Bytes}
use ladon.SessionAuth.{
  Externals, SessionPin, SessionConfirmation, PinVerification, accepted, rejected, lock_vault,
  with_pin, valid_pin, derive, new, verify, verify_pin, verified, verify_against, wrong_pin,
  record_touch_id_success,
}

-- What happens to a session.
pub data Event : Type 0 where
  pin : Bytes → Event
  touch_id : Event

-- How a candidate compares with the PIN.
pub data Check : Type 0 where
  right wrong unavailable : Check

abbrev pub compared : Bytes → Option Bytes → Check
compared hash none = unavailable
compared hash (some candidate) = if candidate == hash then right else wrong

module _ (ext : Externals) (s : SessionPin) where
  abbrev pub check : Bytes → Check
  check candidate = compared s.hash (ext.hash_password candidate s.salt)

  abbrev pub handle : Event → SessionConfirmation → SessionConfirmation
  handle (pin candidate) c = (verify_pin ext candidate c).0
  handle touch_id c = record_touch_id_success c

  -- The session after events, of which the first is the latest.
  unfoldable pub run : List Event → SessionConfirmation
  unfolding verify_pin record_touch_id_success
  run [] = with_pin s
  run (e ∷ older) = handle e (run older)

  abbrev pub count : Check → ℕ → ℕ
  count right n = 0
  count wrong n = suc n
  count unavailable n = n

  -- The wrong PINs since the last success.
  abbrev pub failures : List Event → ℕ
  failures [] = 0
  failures (touch_id ∷ older) = 0
  failures (pin candidate ∷ older) = count (check candidate) (failures older)

  abbrev pub answer : Check → ℕ → Result PinVerification
  answer right n = ok accepted
  answer wrong n = if leb 4 n then ok lock_vault else ok (rejected (4 - n))
  answer unavailable n = err crypto_unavailable

  -- What a try of a PIN leaves and answers, after `n` failures.
  abbrev Tried : ℕ → Check → SessionConfirmation × Result PinVerification → Type 0
  Tried n outcome (c, a) =
      (c.pin ≡ some s)
      × (c.failed_pin_attempts ≡ min (count outcome n) 255)
      × (a ≡ answer outcome n)

  verified_lem :
      (c : SessionConfirmation) (n : ℕ) (derived : Option Bytes)
      → c.pin ≡ some s
      → c.failed_pin_attempts ≡ min n 255
      → Tried n (compared s.hash derived) (
          verified c (
            ok_or derived crypto_unavailable >>= λ candidate.
            ensure (candidate == s.hash) approval_authentication_failed))
  unfolding wrong_pin
  verified_lem c n none p f = (p, f, refl)
  verified_lem c n (some k) p f = elim (Bool-cases (k == s.hash)) [
    | inl same ↦ rw same (p, omega arith, refl)
    | inr differs ↦ rw differs (p, ground arith, ground arith)
  ]

  verify_with :
      (candidate : Bytes) (c : SessionConfirmation) (n : ℕ)
      → c.pin ≡ some s
      → c.failed_pin_attempts ≡ min n 255
      → Tried n (check candidate) (verify_pin ext candidate c)
  unfolding verify_pin verify derive
  verify_with candidate c n p f =
      subst (λ o. Tried n (check candidate) (verify_against ext c candidate o)) (sym p)
        (verified_lem c n (ext.hash_password candidate s.salt) p f)

  run_lem :
      (older : List Event)
      → ((run older).pin ≡ some s) × ((run older).failed_pin_attempts ≡ min (failures older) 255)
  unfolding run
  run_lem [] = (refl, refl)
  run_lem (touch_id ∷ older) = ((run_lem older).0, refl)
  run_lem (pin candidate ∷ older) =
      let (p, f) = run_lem older in
      let (p', f', _) = verify_with candidate (run older) (failures older) p f in (p', f')

  -- Whatever PINs were tried and whenever Touch ID succeeded, the answer to the next PIN: a right one is
  -- accepted; a wrong one locks the vault if at least four wrong ones came since the last success, and is
  -- rejected with the number of attempts that are left otherwise; if the hash fails, neither.
  pub verify_pin-run :
      (older : List Event) (candidate : Bytes)
      → (verify_pin ext candidate (run older)).1 ≡ answer (check candidate) (failures older)
  verify_pin-run older candidate =
      let (p, f) = run_lem older in
      let (_, _, a) = verify_with candidate (run older) (failures older) p f in a

-- A PIN that is set is a confirmed one of 4 to 12 digits, and it is the one that is accepted.
verify-new :
    (ext : Externals) (pin_text confirmation : Bytes) (random : Option Bytes) (s : SessionPin)
    → new ext pin_text confirmation random ≡ ok s
    → (verify ext s pin_text ≡ ok tt) × (pin_text ≡ confirmation) × (valid_pin pin_text ≡ true)
unfolding new verify derive
verify-new ext pin_text confirmation random s h =
    let (good, h1) = ensure_ok (pin_text == confirmation && valid_pin pin_text) _ _ s h in
    let (salt, _, h2) = bind_ok (ok_or random _) _ s h1 in
    let (hash, hashed, h3) = bind_ok (ok_or (ext.hash_password pin_text salt) _) _ s h2 in
    let same : record { salt = salt; hash = hash } ≡ s = ok_injective _ s h3 in
    (
      subst (λ r. verify ext r pin_text ≡ ok tt) same
          (ap (λ r. r >>= λ candidate. ensure (candidate == hash) approval_authentication_failed)
              hashed
            ∙ ap (λ test. ensure test approval_authentication_failed)
                ((list_eq.eq_iff hash hash).1 refl)),
      (list_eq.eq_iff pin_text confirmation).0 (ground arith),
      ground arith,
    )
