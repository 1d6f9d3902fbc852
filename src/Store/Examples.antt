-- ===== src/Store/Examples.antt =====
-- A commit whose last rename fails (crates/ladon-core/src/store.rs).
use ladon.Prelude.{ℕ, ◌≡◌, refl, none, some, List, [], ◌∷◌, ◌==◌, list_eq, if◌then◌else◌}
use ladon.Prelude.Utf8.{codes}
use ladon.Store
use ladon.Store.{
  Disk, Outcome, succeeds, fails, VaultStore, after_crash, pick, write_candidate, verify_candidate,
  atomic_replace, sync_parent, replace_copies, commit_encrypted,
}
use ladon.Store.Safe.{IsSafe}
use ladon.Model.{Text}
use ladon.Redact.Utf8.{Bytes}
use ladon.Store.Commit.{committing, commit_encrypted-IsSafe, commit_encrypted_durable}

abbrev store : VaultStore
store = record { primary = codes "vault"; backup = codes "vault.bak" }

new-store : Store.new (codes "vault") ≡ store
unfolding Store.new
new-store = refl

abbrev old : Disk
old q = if q == codes "vault" then some (1 ∷ []) else none

-- The tenth call is the sync of the directory, the eleventh the second rename.
abbrev outcomes : List Outcome
outcomes =
    succeeds
    ∷ succeeds
    ∷ succeeds
    ∷ succeeds
    ∷ succeeds
    ∷ succeeds
    ∷ succeeds
    ∷ succeeds
    ∷ succeeds
    ∷ succeeds
    ∷ fails 0
    ∷ []

-- After the stop the older of the two files that stood at a path is found, and of a file that was not synced
-- nothing.
abbrev older : Text → ℕ
older q = 1

abbrev nothing : Text → Bytes
nothing q = []

-- The machine stops when the second rename has failed, before the candidates are removed.
commit_encrypted-IsSafe_example :
    let w = (committing store (codes "a") (codes "b") (2 ∷ []) old outcomes).0 in
    IsSafe store (2 ∷ []) old (after_crash older nothing (pick 2 w.directory w.seen))
commit_encrypted-IsSafe_example =
    commit_encrypted-IsSafe store (codes "a") (codes "b") (2 ∷ []) old outcomes 2 older nothing
      (refl, refl, refl, refl, refl, refl, refl, refl, refl)

-- The backup is new then, and the primary copy is the old one.
backup_new :
    let w = (committing store (codes "a") (codes "b") (2 ∷ []) old outcomes).0 in
    let disk = after_crash older nothing (pick 2 w.directory w.seen) in
    (disk store.primary ≡ some (1 ∷ [])) × (disk store.backup ≡ some (2 ∷ []))
unfolding commit_encrypted replace_copies write_candidate verify_candidate atomic_replace
    sync_parent
backup_new = (refl, refl)

commit_encrypted_durable_example :
    let disk =
      after_crash older nothing
        (committing store (codes "a") (codes "b") (2 ∷ []) old []).0.directory in
    (disk store.primary ≡ some (2 ∷ [])) × (disk store.backup ≡ some (2 ∷ []))
unfolding commit_encrypted replace_copies write_candidate verify_candidate atomic_replace
    sync_parent
commit_encrypted_durable_example =
    commit_encrypted_durable store (codes "a") (codes "b") (2 ∷ []) old [] older nothing
      (refl, refl, refl, refl, refl, refl, refl, refl, refl) refl
