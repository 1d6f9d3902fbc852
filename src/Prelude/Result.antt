-- ===== src/Prelude/Result.antt =====
-- `Result<_, LadonError>` (crates/ladon-core/src/error.rs), and its monad.
use mathlib.Core.Path.{◌≡◌, refl, ap}
use mathlib.Core.Logic.{◌⊎◌, inl, inr}
use mathlib.Core.Bool.{Bool, true, false}
use mathlib.Core.Option.{Option, none, some}

pub data LadonError : Type 0 where
  invalid_secret_ref invalid_field_name field_too_large duplicate_field empty_record : LadonError
  too_many_fields vault_payload_too_large invalid_vault_payload invalid_vault_file : LadonError
  unsupported_vault_version vault_authentication_failed crypto_unavailable : LadonError
  duplicate_secret_name secret_not_found field_not_found revision_overflow : LadonError
  storage_failure vault_unavailable vault_locked invalid_frame ipc_disconnected : LadonError
  ipc_timeout invalid_response frame_too_large invalid_request : LadonError
  unsupported_protocol_version invalid_output_limit invalid_executable_path : LadonError
  invalid_working_directory invalid_binding too_many_bindings invalid_timeout : LadonError
  injected_data_too_large secret_in_command busy process_failure already_running : LadonError
  unsafe_endpoint endpoint_unavailable invalid_peer invalid_passphrase invalid_pin : LadonError
  approval_authentication_failed approval_denied approval_timeout : LadonError
  approval_cancelled touch_id_unavailable integration_failure : LadonError

pub data Result {ℓ} (T : Type ℓ) : Type ℓ where
  err : LadonError → Result T
  ok : T → Result T

-- The `?` operator.
infixl 5 ◌>>=◌ ◌>>◌
abbrev pub ◌>>=◌ {ℓ κ} : {T : Type ℓ} {U : Type κ} → Result T → (T → Result U) → Result U
err e >>= next = err e
ok t >>= next = next t

abbrev pub ◌>>◌ {ℓ} : {U : Type ℓ} → Result (Unit {0}) → Result U → Result U
first >> next = first >>= λ _. next

-- `if !test { return Err(e) }`.
abbrev pub ensure : Bool → LadonError → Result (Unit {0})
ensure false e = err e
ensure true e = ok tt

-- `Option::ok_or`.
abbrev pub ok_or {ℓ} : {T : Type ℓ} → Option T → LadonError → Result T
ok_or none e = err e
ok_or (some t) e = ok t

pub Result-cases {ℓ} :
    {T : Type ℓ} (r : Result T) → ((t : T) × (r ≡ ok t)) ⊎ ((e : LadonError) × (r ≡ err e))
Result-cases (ok t) = inl (t, refl)
Result-cases (err e) = inr (e, refl)

-- A chain that succeeds has a first step that does.
pub bind_ok {ℓ κ} :
    {T : Type ℓ} {U : Type κ} (r : Result T) (next : T → Result U) (u : U)
    → r >>= next ≡ ok u
    → (t : T) × (r ≡ ok t) × (next t ≡ ok u)
bind_ok (ok t) next u h = (t, refl, h)
bind_ok (err e) next u h = cc

pub ensure_ok {ℓ} :
    {U : Type ℓ} (test : Bool) (e : LadonError) (r : Result U) (u : U)
    → ensure test e >> r ≡ ok u
    → (test ≡ true) × (r ≡ ok u)
ensure_ok true e r u h = (refl, h)
ensure_ok false e r u h = cc

pub ok_injective {ℓ} : {T : Type ℓ} (t u : T) → ◌≡◌ {A = Result T} (ok t) (ok u) → t ≡ u
ok_injective t u h = cc

-- A chain whose first step succeeds.
pub then_ok {ℓ κ} :
    {T : Type ℓ} {U : Type κ} (r : Result T) (next : T → Result U) (t : T)
    → r ≡ ok t
    → (r >>= next) ≡ next t
then_ok r next t h = ap (λ r'. r' >>= next) h

pub ok_or_ok {ℓ} :
    {T : Type ℓ} (o : Option T) (e : LadonError) (t : T) → ok_or o e ≡ ok t → o ≡ some t
ok_or_ok (some x) e t h = cc
ok_or_ok none e t h = cc
