-- ===== src/Runner/Hidden.antt =====
-- No value of a secret is in the command line of a prepared run (crates/ladon-core/src/runner.rs).
use ladon.Prelude.{
  ℕ, zero, suc, ◌≡◌, refl, Bool, true, false, none, some, List, [], ◌∷◌, ◌==◌, list_eq, contains,
  any, if◌then◌else◌, is_empty, drop, arith, Bool-cases, inl, inr, get_elem?, ap, sym, ◌∙◌,
}
use ladon.Prelude.Result.{ok}
use ladon.Prelude.Utf8.{bytes}
use ladon.Model.{Text}
use ladon.Redact.Utf8.{Bytes}
use ladon.Redact.Reference.{is_prefix}
use ladon.Runner.{
  ValidatedSecretBinding, ValidatedRunRequest, ResolvedSecretBinding, PreparedBinding, PreparedRun,
}
use ladon.Runner.Resolve.{has_window, contains_bytes, is_in_command, resolve}
use ladon.Runner.Prepared.{
  to_option, all_suit, prepare, prepare_all, prepared, is_resolvable, resolve_lem,
}

-- What the operating system shows of a run.
abbrev pub command_texts : PreparedRun → List Text
command_texts run = run.executable ∷ run.working_directory ∷ run.arguments

no_window :
    (value bs : Bytes) (j : ℕ)
    → has_window value bs ≡ false
    → is_empty value ≡ false
    → is_prefix value (drop j bs) ≡ false
unfolding has_window is_prefix
no_window [] bs j h n = cc
no_window (v ∷ vs) [] zero h n = refl
no_window (v ∷ vs) [] (suc j) h n = refl
no_window (v ∷ vs) (b ∷ bs) zero h n = ground arith
no_window (v ∷ vs) (b ∷ bs) (suc j) h n = no_window (v ∷ vs) bs j (ground arith) n

member_passes :
    (texts : List Text) (text : Text) (p : Text → Bool)
    → any p texts ≡ false
    → contains texts text ≡ true
    → p text ≡ false
member_passes [] text p h m = cc
member_passes (t ∷ ts) text p h m = elim (Bool-cases (t == text)) [
  | inl e ↦ ap p (sym ((list_eq.eq_iff t text).0 e)) ∙ ground arith
  | inr e ↦ member_passes ts text p (ground arith) (ground arith)
]

not_in_text :
    (text : Text) (value : Bytes) (j : ℕ)
    → contains_bytes text value ≡ false
    → is_empty value ≡ false
    → is_prefix value (drop j (bytes text)) ≡ false
unfolding contains_bytes
not_in_text text value j h n = no_window value (bytes text) j (ground arith) n

module _ (request : ValidatedRunRequest) where
  in_no_text :
      (value : Bytes) (text : Text)
      → is_in_command request value ≡ false
      → contains (request.executable ∷ request.working_directory ∷ request.arguments) text ≡ true
      → contains_bytes text value ≡ false
  unfolding is_in_command
  in_no_text value text h m =
      member_passes (request.executable ∷ request.working_directory ∷ request.arguments) text
        (λ t. contains_bytes t value) (ground arith) m

  suitable_value :
      (bs : List ValidatedSecretBinding) (rs : List ResolvedSecretBinding) (i : ℕ)
      (p : PreparedBinding)
      → all_suit request bs rs ≡ true
      → get_elem? (prepare_all request bs rs) i ≡ some p
      → is_in_command request p.value ≡ false
  suitable_value [] rs i p h e = cc
  suitable_value (b ∷ bs) [] i p h e = cc
  suitable_value (b ∷ bs) (r ∷ rs) zero p h e =
      let same : prepare request b r ≡ p = ground arith in
      ap (λ q. is_in_command request q.value) (sym same) ∙ ground arith
  suitable_value (b ∷ bs) (r ∷ rs) (suc i) p h e = suitable_value bs rs i p (ground arith) e

resolvable :
    (test : Bool) (whole run : PreparedRun)
    → some run ≡ (if test then some whole else none)
    → (test ≡ true) × (whole ≡ run)
resolvable true whole run h = (refl, ground arith)
resolvable false whole run h = cc

-- No value that a prepared run injects, unless it is empty, stands anywhere in the executable's path, the
-- working directory or an argument of that run.
pub resolve-hides :
    (request : ValidatedRunRequest) (rs : List ResolvedSecretBinding) (run : PreparedRun) (i : ℕ)
    (p : PreparedBinding) (text : Text) (j : ℕ)
    → resolve request rs ≡ ok run
    → get_elem? run.bindings i ≡ some p
    → is_empty p.value ≡ false
    → contains (command_texts run) text ≡ true
    → is_prefix p.value (drop j (bytes text)) ≡ false
resolve-hides request rs run i p text j made here nonempty shown =
    let (good, same) =
      resolvable (is_resolvable request rs) (prepared request rs) run
        (ap to_option (sym made) ∙ resolve_lem request rs) in
    let absent =
      suitable_value request request.bindings rs i p (ground arith)
        (ap (λ r. get_elem? r.bindings i) same ∙ here) in
    not_in_text text p.value j
      (in_no_text request p.value text absent
        (ap (λ r. contains (command_texts r) text) same ∙ shown))
      nonempty
