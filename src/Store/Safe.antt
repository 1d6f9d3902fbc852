-- ===== src/Store/Safe.antt =====
-- What the disk may be while a commit runs and after the machine stopped (crates/ladon-core/src/store.rs).
use ladon.Prelude.{
  ℕ, zero, suc, ◌≡◌, refl, Bool, false, Option, none, some, List, [], ◌∷◌, ◌==◌, list_eq, ◌⊎◌, inl,
  inr, All,
}
use ladon.Model.{Text}
use ladon.Redact.Utf8.{Bytes}
use ladon.Store.{
  Disk, Directory, Entry, File, put, pick, recover, durable, on_disk, settled_entry, VaultStore,
}

pub put-same :
    (path : Text) (entry : Entry) (directory : Directory) → put path entry directory path ≡ entry
put-same path entry directory = rw ((list_eq.eq_iff path path).1 refl) refl

pub put-other :
    (path q : Text) (entry : Entry) (directory : Directory)
    → (q == path) ≡ false
    → put path entry directory q ≡ directory q
put-other path q entry directory h = rw h refl

-- What the two copies may be, given what they were before the commit: as before; or the backup is new; or
-- both are. In each case every copy is a whole file.
abbrev pub IsGood : Bytes → Option Bytes → Option Bytes → Option Bytes → Option Bytes → Type 0
IsGood new old_primary old_backup primary backup =
    ((primary ≡ old_primary) × (backup ≡ old_backup))
    ⊎ ((primary ≡ old_primary) × (backup ≡ some new))
    ⊎ ((primary ≡ some new) × (backup ≡ some new))

abbrev pub IsSafe : VaultStore → Bytes → Disk → Disk → Type 0
IsSafe store new old disk =
    IsGood new (old store.primary) (old store.backup) (disk store.primary) (disk store.backup)

-- The four paths are different.
abbrev pub Distinct : VaultStore → Text → Text → Type 0
Distinct store first second =
    ((store.primary == store.backup) ≡ false)
    × ((store.primary == first) ≡ false)
    × ((store.backup == first) ≡ false)
    × ((store.primary == second) ≡ false)
    × ((store.backup == second) ≡ false)
    × ((second == first) ≡ false)
    × ((second == store.backup) ≡ false)
    × ((store.backup == store.primary) ≡ false)
    × ((first == second) ≡ false)

-- The directory's entry while its change to the new file is not synced.
abbrev pub changed_entry : Bytes → Option Bytes → Entry
changed_entry new old = record { file = some (durable new); earlier = on_disk old ∷ [] }

pub recover-settled_entry :
    (which : ℕ) (torn : Bytes) (content : Option Bytes)
    → recover which torn (settled_entry content) ≡ content
recover-settled_entry zero torn none = refl
recover-settled_entry zero torn (some b) = refl
recover-settled_entry (suc n) torn none = refl
recover-settled_entry (suc n) torn (some b) = refl

pub recover-changed_entry :
    (which : ℕ) (torn new : Bytes) (old : Option Bytes)
    → (recover which torn (changed_entry new old) ≡ some new)
      ⊎ (recover which torn (changed_entry new old) ≡ old)
recover-changed_entry zero torn new old = inl refl
recover-changed_entry (suc n) torn new old = inr (recover-settled_entry n torn old)

pub pick-All {ℓ} :
    {A : Type ℓ} (P : A → Type 0) (n : ℕ) (x : A) (xs : List A) → P x → All P xs → P (pick n x xs)
pick-All P zero x xs p ps = p
pick-All P (suc n) x [] p ps = p
pick-All P (suc n) x (y ∷ ys) p ps = pick-All P n y ys ps.0 ps.1

abbrev pub is_synced_file : Option File → Bool
is_synced_file none = false
is_synced_file (some file) = file.is_synced
