-- ===== src/Store/Commit.antt =====
-- What a crash during a commit can leave (crates/ladon-core/src/store.rs).
use ladon.Prelude.{
  ℕ, ◌≡◌, refl, false, Option, none, some, List, [], ◌∷◌, ◌==◌, list_eq, inl, inr, ap, ◌∙◌,
}
use ladon.Prelude.Result.{Result, ok, err}
use ladon.Model.{Text}
use ladon.Redact.Utf8.{Bytes}
use ladon.Store.{
  Disk, Directory, Entry, File, put, link, pick, recover, after_crash, durable, settled,
  settled_entry, Outcome, succeeds, fails, corrupts, World, VaultStore, call, flushed, moved,
  rename, remove_file, write_candidate, atomic_replace, replace_copies, discard, commit_encrypted,
}
use ladon.Store.Safe.{
  put-same, put-other, IsGood, IsSafe, Distinct, changed_entry, recover-settled_entry,
  recover-changed_entry, pick-All, is_synced_file,
}
use ladon.Store.Candidates.{
  IsReady, IsWhole, Kept, write_candidate-Leads, verify-Leads, sync_parent-Leads,
}
use ladon.Store.Leads.{Leads, Post, CallPost, call-Leads, then_lem, Post-seen}

module _ (store : VaultStore) (first second : Text) (new : Bytes) (old : Disk)
    (apart : Distinct store first second) where
  -- Whatever is found at the two paths after a stop is good.
  abbrev SafeEntries : Entry → Entry → Type 0
  SafeEntries p b =
      (i j : ℕ) (s t : Bytes)
      → IsGood new (old store.primary) (old store.backup) (recover i s p) (recover j t b)

  abbrev Safe : Directory → Type 0
  Safe d = SafeEntries (d store.primary) (d store.backup)

  abbrev Before : Directory → Type 0
  Before d =
      (d store.primary ≡ settled_entry (old store.primary))
      × (d store.backup ≡ settled_entry (old store.backup))

  -- The backup is replaced; the directory is not synced, or it is.
  abbrev Swapped : Directory → Type 0
  Swapped d =
      (d store.primary ≡ settled_entry (old store.primary))
      × (d store.backup ≡ changed_entry new (old store.backup))
      × IsWhole new second d

  abbrev Half : Directory → Type 0
  Half d =
      (d store.primary ≡ settled_entry (old store.primary))
      × (d store.backup ≡ settled_entry (some new))
      × IsWhole new second d

  -- The primary copy is replaced; the directory is not synced, or it is.
  abbrev Replaced : Directory → Type 0
  Replaced d =
      (d store.primary ≡ changed_entry new (old store.primary))
      × (d store.backup ≡ settled_entry (some new))

  abbrev Done : Directory → Type 0
  Done d =
      (d store.primary ≡ settled_entry (some new)) × (d store.backup ≡ settled_entry (some new))

  same_entries : (p p' b b' : Entry) → p' ≡ p → b' ≡ b → SafeEntries p b → SafeEntries p' b'
  same_entries p p' b b' e f safe = rw (e, f) safe

  Before-Safe : (d : Directory) → Before d → Safe d
  Before-Safe d (p, b) = same_entries _ _ _ _ p b (λ i j s t.
      inl (
        recover-settled_entry i s (old store.primary),
        recover-settled_entry j t (old store.backup),
      ))

  Swapped-Safe : (d : Directory) → Swapped d → Safe d
  Swapped-Safe d (p, b, _) = same_entries _ _ _ _ p b (λ i j s t.
      let primary = recover-settled_entry i s (old store.primary) in
      elim (recover-changed_entry j t new (old store.backup)) [
        | inl e ↦ inr (inl (primary, e))
        | inr e ↦ inl (primary, e)
      ])

  Half-Safe : (d : Directory) → Half d → Safe d
  Half-Safe d (p, b, _) = same_entries _ _ _ _ p b (λ i j s t.
      inr
        (inl (recover-settled_entry i s (old store.primary), recover-settled_entry j t (some new))))

  Replaced-Safe : (d : Directory) → Replaced d → Safe d
  Replaced-Safe d (p, b) = same_entries _ _ _ _ p b (λ i j s t.
      let backup = recover-settled_entry j t (some new) in
      elim (recover-changed_entry i s new (old store.primary)) [
        | inl e ↦ inr (inr (e, backup))
        | inr e ↦ inr (inl (e, backup))
      ])

  Done-Safe : (d : Directory) → Done d → Safe d
  Done-Safe d (p, b) = same_entries _ _ _ _ p b (λ i j s t.
      inr (inr (recover-settled_entry i s (some new), recover-settled_entry j t (some new))))

  keep-Before :
      (path : Text) (entry : Entry) (d : Directory)
      → (store.primary == path) ≡ false
      → (store.backup == path) ≡ false
      → Before d
      → Before (put path entry d)
  keep-Before path entry d np nb (p, b) =
      (put-other path store.primary entry d np ∙ p, put-other path store.backup entry d nb ∙ b)

  keep-Safe :
      (path : Text) (entry : Entry) (d : Directory)
      → (store.primary == path) ≡ false
      → (store.backup == path) ≡ false
      → Safe d
      → Safe (put path entry d)
  keep-Safe path entry d np nb =
      same_entries _ _ _ _ (put-other path store.primary entry d np)
        (put-other path store.backup entry d nb)

  abbrev Written : Directory → Type 0
  Written d = (Before d × IsReady first d) × IsReady second d

  abbrev Verified : Directory → Type 0
  Verified d = (Written d × IsWhole new first d) × IsWhole new second d

  -- The first candidate becomes the backup.
  replace_backup : Leads Safe Verified (atomic_replace first store.backup) Swapped
  unfolding atomic_replace
  replace_backup = call-Leads Safe Verified Swapped (rename first store.backup) step
    where
      change_backup :
          (d : Directory) (file : Option File)
          → file ≡ some (durable new)
          → Verified d
          → CallPost Safe Swapped (moved first store.backup file d)
      change_backup d none e v = cc
      change_backup d (some f) e (((((p, b), _), _), _), s) =
          let (pb, pf, bf, ps, bs, sf, sb, bp, fs) = apart in
          let entry : Entry = record {
            file = some f;
            earlier = (d store.backup).file ∷ (d store.backup).earlier;
          } in
          let d1 = put store.backup entry d in
          let primary =
            put-other first store.primary _ d1 pf
            ∙ put-other store.backup store.primary entry d pb
            ∙ p in
          let backup =
            put-other first store.backup _ d1 bf
            ∙ put-same store.backup entry d
            ∙ (λ i. record { file = e i; earlier = (b i).file ∷ (b i).earlier }) in
          let other = put-other first second _ d1 sf ∙ put-other store.backup second entry d sb in
          let swapped : Swapped (link first none d1) =
            (primary, backup, ap (λ x. x.file) other ∙ s) in
          (Swapped-Safe (link first none d1) swapped, swapped)

      step :
          (o : Outcome) (d : Directory)
          → Safe d
          → Verified d
          → CallPost Safe Swapped (rename first store.backup o d)
      step succeeds d safe v = change_backup d (d first).file v.0.1 v
      step (fails n) d safe v = safe
      step (corrupts other) d safe v = safe

  -- The second candidate becomes the primary copy.
  replace_primary : Leads Safe Half (atomic_replace second store.primary) Replaced
  unfolding atomic_replace
  replace_primary = call-Leads Safe Half Replaced (rename second store.primary) step
    where
      change_primary :
          (d : Directory) (file : Option File)
          → file ≡ some (durable new)
          → Half d
          → CallPost Safe Replaced (moved second store.primary file d)
      change_primary d none e half = cc
      change_primary d (some f) e (p, b, s) =
          let (pb, pf, bf, ps, bs, sf, sb, bp, fs) = apart in
          let entry : Entry = record {
            file = some f;
            earlier = (d store.primary).file ∷ (d store.primary).earlier;
          } in
          let d1 = put store.primary entry d in
          let primary =
            put-other second store.primary _ d1 ps
            ∙ put-same store.primary entry d
            ∙ (λ i. record { file = e i; earlier = (p i).file ∷ (p i).earlier }) in
          let backup =
            put-other second store.backup _ d1 bs
            ∙ put-other store.primary store.backup entry d bp
            ∙ b in
          (Replaced-Safe (link second none d1) (primary, backup), (primary, backup))

      step :
          (o : Outcome) (d : Directory)
          → Safe d
          → Half d
          → CallPost Safe Replaced (rename second store.primary o d)
      step succeeds d safe half = change_primary d (d second).file half.2 half
      step (fails n) d safe half = safe
      step (corrupts other) d safe half = safe

  Half-flushed : (d : Directory) → Swapped d → Half (λ q. flushed (d q))
  Half-flushed d (p, b, s) = (ap flushed p, ap flushed b, s)

  Done-flushed : (d : Directory) → Replaced d → Done (λ q. flushed (d q))
  Done-flushed d (p, b) = (ap flushed p, ap flushed b)

  write_first : Leads Safe Before (write_candidate first new) (Kept first Before)
  write_first =
      let (pb, pf, bf, ps, bs, sf, sb, bp, fs) = apart in
      write_candidate-Leads Safe new first Before (λ entry d. keep-Before first entry d pf bf)
        Before-Safe

  write_second : Leads Safe (Kept first Before) (write_candidate second new) Written
  write_second =
      let (pb, pf, bf, ps, bs, sf, sb, bp, fs) = apart in
      write_candidate-Leads Safe new second (Kept first Before)
        (λ entry d k. (
          keep-Before second entry d ps bs k.0,
          ap (λ e. is_synced_file e.file) (put-other second first entry d fs) ∙ k.1,
        ))
        (λ d k. Before-Safe d k.0)

  replace_copies-Leads : Leads Safe Before (replace_copies store first second new) Done
  unfolding replace_copies
  replace_copies-Leads = then_lem Safe Before (Kept first Before) Done _ _ write_first (
      then_lem Safe (Kept first Before) Written Done _ _ write_second (
        then_lem Safe Written (λ d. Written d × IsWhole new first d) Done _ _
          (verify-Leads Safe new first Written (λ d w. w.0.1))
          (then_lem Safe (λ d. Written d × IsWhole new first d) Verified Done _ _
            (verify-Leads Safe new second (λ d. Written d × IsWhole new first d) (λ d w. w.0.1))
            (then_lem Safe Verified Swapped Done _ _ replace_backup (
              then_lem Safe Swapped Half Done _ _
                (sync_parent-Leads Safe new Swapped Half Half-flushed Half-Safe)
                (then_lem Safe Half Replaced Done _ _ replace_primary
                  (sync_parent-Leads Safe new Replaced Done Done-flushed Done-Safe)))))))

  remove-Leads :
      (path : Text)
      → (store.primary == path) ≡ false
      → (store.backup == path) ≡ false
      → Leads Safe Safe (call (remove_file path)) Safe
  remove-Leads path np nb = call-Leads Safe Safe Safe (remove_file path) step
    where
      step :
          (o : Outcome) (d : Directory)
          → Safe d
          → Safe d
          → CallPost Safe Safe (remove_file path o d)
      step succeeds d safe _ = let s = keep-Safe path _ d np nb safe in (s, s)
      step (fails n) d safe _ = safe
      step (corrupts other) d safe _ = safe

  discard-Post :
      (r : World × Result (Unit {0})) → Post Safe Done r → Post Safe Done (discard first second r)
  discard-Post (w, ok t) post = post
  discard-Post (w, err e) (seen, safe) =
      let (pb, pf, bf, ps, bs, sf, sb, bp, fs) = apart in
      let (seen', safe') =
        Post-seen Safe Safe (call (remove_file first) w)
          (remove-Leads first pf bf w seen safe safe) in
      Post-seen Safe Safe (call (remove_file second) (call (remove_file first) w).0)
        (remove-Leads second ps bs (call (remove_file first) w).0 seen' safe' safe')

  commit_encrypted-Post :
      (outcomes : List Outcome)
      → Post Safe Done (
          commit_encrypted store first second new
            (record { directory = settled old; seen = []; outcomes = outcomes }))
  unfolding commit_encrypted
  commit_encrypted-Post outcomes =
      let start : World = record { directory = settled old; seen = []; outcomes = outcomes } in
      let before : Before (settled old) = (refl, refl) in
      discard-Post (replace_copies store first second new start)
        (replace_copies-Leads start tt (Before-Safe (settled old) before) before)

abbrev pub committing :
    VaultStore → Text → Text → Bytes → Disk → List Outcome → World × Result (Unit {0})
committing store first second new old outcomes =
    commit_encrypted store first second new
      (record { directory = settled old; seen = []; outcomes = outcomes })

-- A commit with four different paths on a disk on which everything is synced. Whichever calls of the operating
-- system fail, after however many bytes of a write, and whatever a write stores: if the machine stops at any
-- moment, what is found of the files and names that were not synced is a whole file at both paths: the old
-- ones, or the new one as the backup, or the new one as both.
pub commit_encrypted-IsSafe :
    (store : VaultStore) (first second : Text) (new : Bytes) (old : Disk) (outcomes : List Outcome)
    (moment : ℕ) (which : Text → ℕ) (torn : Text → Bytes)
    → Distinct store first second
    → let w = (committing store first second new old outcomes).0 in
      IsSafe store new old (after_crash which torn (pick moment w.directory w.seen))
commit_encrypted-IsSafe store first second new old outcomes moment which torn apart =
    let safe : Directory → Type 0 = Safe store first second new old apart in
    let (w, r) = committing store first second new old outcomes in
    let (seen, now) =
      Post-seen safe (Done store first second new old apart) (w, r)
        (commit_encrypted-Post store first second new old apart outcomes) in
    pick-All safe moment w.directory w.seen now seen (which store.primary) (which store.backup)
      (torn store.primary) (torn store.backup)

-- A commit with four different paths on a disk on which everything is synced, if it reports success, is durable:
-- whatever a stop of the machine makes of files and names that are not synced, both copies are the new file.
pub commit_encrypted_durable :
    (store : VaultStore) (first second : Text) (new : Bytes) (old : Disk) (outcomes : List Outcome)
    (which : Text → ℕ) (torn : Text → Bytes)
    → Distinct store first second
    → (committing store first second new old outcomes).1 ≡ ok tt
    → let disk =
        after_crash which torn (committing store first second new old outcomes).0.directory in
      (disk store.primary ≡ some new) × (disk store.backup ≡ some new)
commit_encrypted_durable store first second new old outcomes which torn apart done =
    finished (committing store first second new old outcomes) done
      (commit_encrypted-Post store first second new old apart outcomes)
  where
    finished :
        (r : World × Result (Unit {0}))
        → r.1 ≡ ok tt
        → Post (Safe store first second new old apart) (Done store first second new old apart) r
        → (after_crash which torn r.0.directory store.primary ≡ some new)
          × (after_crash which torn r.0.directory store.backup ≡ some new)
    finished (w, ok t) h (seen, safe, (p, b)) = (
      ap (recover (which store.primary) (torn store.primary)) p
          ∙ recover-settled_entry (which store.primary) (torn store.primary) (some new),
      ap (recover (which store.backup) (torn store.backup)) b
          ∙ recover-settled_entry (which store.backup) (torn store.backup) (some new),
    )
    finished (w, err e) h post = cc
