-- ===== src/Prelude/Method.antt =====
-- A method of an object with state `S`: it returns the state as it leaves it, also where it fails.
use ladon.Prelude.Result.{Result, ok, err}

abbrev pub Method {ℓ κ} : Type ℓ → Type κ → Type (ℓ ⊔ κ)
Method S T = S → S × Result T

abbrev pub after {ℓ κ μ} :
    {S : Type ℓ} {T : Type κ} {U : Type μ} → S × Result T → (T → Method S U) → S × Result U
after (s, ok t) next = next t s
after (s, err e) next = (s, err e)

infixl 5 ◌>>=◌ ◌>>◌
abbrev pub ◌>>=◌ {ℓ κ μ} :
    {S : Type ℓ} {T : Type κ} {U : Type μ} → Method S T → (T → Method S U) → Method S U
◌>>=◌ m next s = after (m s) next

abbrev pub ◌>>◌ {ℓ μ} : {S : Type ℓ} {U : Type μ} → Method S (Unit {0}) → Method S U → Method S U
first >> next = first >>= λ _. next

-- A step that does not touch the state.
abbrev pub lift {ℓ κ} : {S : Type ℓ} {T : Type κ} → Result T → Method S T
lift r s = (s, r)

abbrev pub return {ℓ κ} : {S : Type ℓ} {T : Type κ} → T → Method S T
return t s = (s, ok t)

abbrev pub read {ℓ} : {S : Type ℓ} → Method S S
read s = (s, ok s)

abbrev pub modify {ℓ} : {S : Type ℓ} → (S → S) → Method S (Unit {0})
modify f s = (f s, ok tt)

-- A step that always succeeds, with a result.
abbrev pub perform {ℓ κ} : {S : Type ℓ} {T : Type κ} → (S → S × T) → Method S T
perform f s = let (s', t) = f s in (s', ok t)
