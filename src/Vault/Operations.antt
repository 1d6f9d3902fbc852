-- ===== src/Vault/Operations.antt =====
-- Any sequence of operations of a session (crates/ladon-core/src/vault.rs).
use ladon.Prelude.{ℕ, ◌+◌, ◌<◌, ◌≡◌, ◌⊎◌, inl, refl, List, [], ◌∷◌, arith, nat_eq, list_eq}
use ladon.Model.{Text, Externals, SecretField, SecretRef}
use ladon.Vault.{
  VaultPayload, VaultSession, PreparedRecordReplacement, increment_revision, add, rename,
  replace_fields, delete, apply_record_replacement, with_record, with_field, record_activity,
}

-- The operations of a session, with their arguments.
pub data Operation : Type 0 where
  adds : ℕ → Text → List SecretField → Operation
  renames : SecretRef → Text → Operation
  replaces : SecretRef → List SecretField → Operation
  deletes reads_record : SecretRef → Operation
  reads_field : SecretRef → Text → Operation
  applies : PreparedRecordReplacement → Operation
  notes_activity : Operation

unfoldable pub step : Externals → VaultSession → Operation → VaultSession
unfolding add rename replace_fields delete apply_record_replacement with_record with_field
    record_activity increment_revision
step ext s (adds i l fs) = (add ext i l fs s).0
step ext s (renames ref l) = (rename ext ref l s).0
step ext s (replaces ref fs) = (replace_fields ext ref fs s).0
step ext s (deletes ref) = (delete ref s).0
step ext s (applies p) = (apply_record_replacement p s).0
step ext s (reads_record ref) = (with_record ref (λ r. r) s).0
step ext s (reads_field ref name) = (with_field ref name (λ bytes. bytes) s).0
step ext s notes_activity = record_activity s

unfoldable pub run : Externals → VaultSession → List Operation → VaultSession
run ext s [] = s
run ext s (o ∷ os) = run ext (step ext s o) os

-- An operation leaves the payload as it was, or takes the next revision.
abbrev pub Advances : VaultPayload → VaultPayload → Type 0
Advances p q = (q ≡ p) ⊎ (q.revision ≡ p.revision + 1)

pub step-Advances :
    (ext : Externals) (s : VaultSession) (o : Operation) → Advances s.payload (step ext s o).payload
unfolding step
step-Advances ext s o = ground arith

pub run-Advances :
    (ext : Externals) (s : VaultSession) (os : List Operation)
    → ((run ext s os).payload ≡ s.payload) ⊎ (s.payload.revision < (run ext s os).payload.revision)
unfolding run
run-Advances ext s [] = inl refl
run-Advances ext s (o ∷ os) =
    ground (arith, step-Advances ext s o, run-Advances ext (step ext s o) os)
