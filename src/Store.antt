-- ===== src/Store.antt =====
-- crates/ladon-core/src/store.rs: the two copies of the vault's file, how they are replaced and how they are
-- opened. The directory is a map from paths to files, with what of it is not on the disk yet; whether a call
-- of the operating system succeeds is an argument, the list of the outcomes of the calls. The names of the
-- candidates, which have a random part, are arguments, and so is the opening of a file's bytes, which is of
-- crypto.rs. The mode of new files is left out, and the variants for Windows.
pub mod Safe
pub mod Leads
pub mod Candidates
pub mod Commit
mod Examples
use ladon.Prelude.{
  ℕ, zero, suc, ◌≡◌, Bool, true, false, ◌&&◌, Option, none, some, List, [], ◌∷◌, ltb, leb, ◌==◌,
  nat_eq, list_eq, if◌then◌else◌, take, length, is_none, keep_if, ◌++◌,
}
use ladon.Prelude.Result.{Result, ok, err, LadonError, storage_failure, vault_unavailable}
use ladon.Prelude.Method.{Method, ◌>>=◌, ◌>>◌, modify}
use ladon.Prelude.Utf8.{codes}
use ladon.Model.{Text}
use ladon.Redact.Utf8.{Bytes}

-- What can be read at each path.
abbrev pub Disk : Type 0
Disk = Text → Option Bytes

-- A file: what it holds, and whether that is on the disk.
pub record File : Type 0 where
  pub bytes : Bytes
  pub is_synced : Bool

-- What a directory has at a path: the file that stands there, and those, the latest first, that stood there
-- since the directory was synced.
pub record Entry : Type 0 where
  pub file : Option File
  pub earlier : List (Option File)

abbrev pub Directory : Type 0
Directory = Text → Entry

abbrev pub put : Text → Entry → Directory → Directory
put path entry directory q = if q == path then entry else directory q

-- Another file, or none, at the path.
abbrev pub link : Text → Option File → Directory → Directory
link path file directory =
    put path (record { file = file; earlier = (directory path).file ∷ (directory path).earlier })
      directory

-- The file at the path is changed.
abbrev pub change : Text → Option File → Directory → Directory
change path file directory =
    put path (record { file = file; earlier = (directory path).earlier }) directory

abbrev pub pick {ℓ} : {A : Type ℓ} → ℕ → A → List A → A
pick zero x xs = x
pick (suc n) x [] = x
pick (suc n) x (y ∷ ys) = pick n y ys

abbrev pub read_file : Bytes → Option File → Option Bytes
read_file torn none = none
read_file torn (some file) = some (if file.is_synced then file.bytes else torn)

-- What is found at a path after the machine stopped: the file that stands there or one that stood there since
-- the directory was synced, whichever it is; and where the file was not synced, any bytes.
abbrev pub recover : ℕ → Bytes → Entry → Option Bytes
recover which torn entry = read_file torn (pick which entry.file entry.earlier)

abbrev pub after_crash : (Text → ℕ) → (Text → Bytes) → Directory → Disk
after_crash which torn directory q = recover (which q) (torn q) (directory q)

abbrev pub durable : Bytes → File
durable bytes = record { bytes = bytes; is_synced = true }

abbrev pub on_disk : Option Bytes → Option File
on_disk none = none
on_disk (some bytes) = some (durable bytes)

abbrev pub settled_entry : Option Bytes → Entry
settled_entry content = record { file = on_disk content; earlier = [] }

-- A directory in which everything is synced.
abbrev pub settled : Disk → Directory
settled disk q = settled_entry (disk q)

-- A call succeeds, or fails after that many bytes; or a write reports success but stores other bytes.
pub data Outcome : Type 0 where
  succeeds : Outcome
  fails : ℕ → Outcome
  corrupts : Bytes → Outcome

-- The directory, every directory that there was before, the latest first, and the outcomes of the calls to
-- come.
pub record World : Type 0 where
  pub directory : Directory
  pub seen : List Directory
  pub outcomes : List Outcome

pub record VaultStore : Type 0 where
  pub primary : Text
  pub backup : Text

unfoldable pub new : Text → VaultStore
new primary = record { primary = primary; backup = primary ++ codes ".bak" }

-- A call that cannot be made as asked, such as the opening of a missing file, fails as well.
abbrev pub next_outcome : List Outcome → Outcome × List Outcome
next_outcome [] = (succeeds, [])
next_outcome (o ∷ rest) = (o, rest)

abbrev pub call : (Outcome → Directory → Directory × Bool) → Method World (Unit {0})
call effect w =
    let (outcome, rest) = next_outcome w.outcomes in
    let (directory, good) = effect outcome w.directory in
    (
      record { directory = directory; seen = w.directory ∷ w.seen; outcomes = rest },
      if good then ok tt else err storage_failure,
    )

abbrev pub written : Bytes → Option File
written bytes = some (record { bytes = bytes; is_synced = false })

-- `OpenOptions::open` with `create_new`.
abbrev pub create_new : Text → Outcome → Directory → Directory × Bool
create_new path succeeds d =
    let free = is_none (d path).file in (if free then link path (written []) d else d, free)
create_new path _ d = (d, false)

abbrev pub write_all : Text → Bytes → Outcome → Directory → Directory × Bool
write_all path bytes succeeds d = (change path (written bytes) d, true)
write_all path bytes (fails n) d = (change path (written (take n bytes)) d, false)
write_all path bytes (corrupts other) d = (change path (written other) d, true)

abbrev pub synced : Option File → Option File
synced none = none
synced (some file) = some (record file { is_synced = true })

-- `File::sync_all` of the file at the path.
abbrev pub sync_all : Text → Outcome → Directory → Directory × Bool
sync_all path succeeds d = (change path (synced (d path).file) d, true)
sync_all path _ d = (d, false)

abbrev pub flushed : Entry → Entry
flushed entry = record { file = entry.file; earlier = [] }

-- `File::sync_all` of the directory.
abbrev pub sync_directory : Outcome → Directory → Directory × Bool
sync_directory succeeds d = ((λ q. flushed (d q)), true)
sync_directory _ d = (d, false)

abbrev pub is_content : Option File → Bytes → Bool
is_content none expected = false
is_content (some file) expected = file.bytes == expected

abbrev pub read_back : Text → Bytes → Outcome → Directory → Directory × Bool
read_back path expected succeeds d = (d, is_content (d path).file expected)
read_back path expected _ d = (d, false)

abbrev pub moved : Text → Text → Option File → Directory → Directory × Bool
moved candidate destination none d = (d, false)
moved candidate destination (some file) d =
    (link candidate none (link destination (some file) d), true)

abbrev pub rename : Text → Text → Outcome → Directory → Directory × Bool
rename candidate destination succeeds d = moved candidate destination (d candidate).file d
rename candidate destination _ d = (d, false)

abbrev pub remove_file : Text → Outcome → Directory → Directory × Bool
remove_file path succeeds d = (link path none d, true)
remove_file path _ d = (d, false)

unfoldable pub write_candidate : Text → Bytes → Method World (Unit {0})
write_candidate path encrypted =
    call (create_new path) >> (call (write_all path encrypted) >> call (sync_all path))

unfoldable pub verify_candidate : Text → Bytes → Method World (Unit {0})
verify_candidate path expected = call (read_back path expected)

unfoldable pub atomic_replace : Text → Text → Method World (Unit {0})
atomic_replace candidate destination = call (rename candidate destination)

unfoldable pub sync_parent : Method World (Unit {0})
sync_parent = call sync_directory

-- The closure of `commit_encrypted`.
unfoldable pub replace_copies : VaultStore → Text → Text → Bytes → Method World (Unit {0})
unfolding write_candidate verify_candidate atomic_replace sync_parent
replace_copies store first second encrypted =
    write_candidate first encrypted
    >> (write_candidate second encrypted
        >> (verify_candidate first encrypted
            >> (verify_candidate second encrypted
                >> (atomic_replace first store.backup
                    >> (sync_parent >> (atomic_replace second store.primary >> sync_parent))))))

-- The results of the removals are ignored.
abbrev pub discard : Text → Text → World × Result (Unit {0}) → World × Result (Unit {0})
discard first second (w, ok t) = (w, ok t)
discard first second (w, err e) =
    ((call (remove_file second) (call (remove_file first) w).0).0, err e)

unfoldable pub commit_encrypted : VaultStore → Text → Text → Bytes → Method World (Unit {0})
unfolding replace_copies
commit_encrypted store first second encrypted w =
    discard first second (replace_copies store first second encrypted w)

-- What of an open vault the choice between the copies reads.
pub record UnlockedVault : Type 0 where
  pub vault_id : ℕ
  pub revision : ℕ
  pub content : Bytes

pub data VaultOpen : Type 0 where
  primary : UnlockedVault → Option UnlockedVault → VaultOpen
  restore_required : UnlockedVault → VaultOpen

abbrev pub opened : (Bytes → Option UnlockedVault) → ℕ → Option Bytes → Option UnlockedVault
opened unlock max_bytes none = none
opened unlock max_bytes (some bytes) = if ltb max_bytes (length bytes) then none else unlock bytes

-- `unlock` is `unlock_vault` with the passphrase.
unfoldable pub open_copy : (Bytes → Option UnlockedVault) → ℕ → Disk → Text → Option UnlockedVault
open_copy unlock max_bytes disk path = opened unlock max_bytes (disk path)

abbrev pub choose : Option UnlockedVault → Option UnlockedVault → Result VaultOpen
choose (some vault) (some backup) = ok (
    primary vault (
      if backup.vault_id == vault.vault_id && ltb vault.revision backup.revision
      then some backup
      else none))
choose (some vault) none = ok (primary vault none)
choose none (some backup) = ok (restore_required backup)
choose none none = err vault_unavailable

-- `open`.
unfoldable pub open_store :
    (Bytes → Option UnlockedVault) → ℕ → VaultStore → Disk → Result VaultOpen
unfolding open_copy
open_store unlock max_bytes store disk =
    choose (open_copy unlock max_bytes disk store.primary)
      (open_copy unlock max_bytes disk store.backup)
