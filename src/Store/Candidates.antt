-- ===== src/Store/Candidates.antt =====
-- How a candidate is written and verified, and the sync of the directory (crates/ladon-core/src/store.rs).
use ladon.Prelude.{
  ◌≡◌, refl, Bool, true, false, Option, none, some, [], list_eq, if◌then◌else◌, ap, ◌∙◌, is_none,
}
use ladon.Model.{Text}
use ladon.Redact.Utf8.{Bytes}
use ladon.Store.{
  Directory, Entry, File, put, link, change, durable, Outcome, succeeds, fails, corrupts, call,
  written, create_new, write_all, synced, sync_all, flushed, sync_directory, is_content, read_back,
  write_candidate, verify_candidate, sync_parent,
}
use ladon.Store.Safe.{put-same, is_synced_file}
use ladon.Store.Leads.{Leads, CallPost, call-Leads, then_lem}

abbrev pub IsReady : Text → Directory → Type 0
IsReady path d = is_synced_file (d path).file ≡ true

abbrev pub IsWhole : Bytes → Text → Directory → Type 0
IsWhole new path d = (d path).file ≡ some (durable new)

abbrev IsThere : Text → Directory → Type 0
IsThere path d = is_none (d path).file ≡ false

abbrev Made : Text → (Directory → Type 0) → Directory → Type 0
Made path P d = P d × IsThere path d

abbrev pub Kept : Text → (Directory → Type 0) → Directory → Type 0
Kept path P d = P d × IsReady path d

put_file : (path : Text) (entry : Entry) (d : Directory) → (put path entry d path).file ≡ entry.file
put_file path entry d = ap (λ e. e.file) (put-same path entry d)

module _ (Safe : Directory → Type 0) (new : Bytes) where
  -- A candidate's file is made, written and synced, which keeps what holds of the other paths.
  pub write_candidate-Leads :
      (path : Text) (P : Directory → Type 0)
      → ((entry : Entry) (d : Directory) → P d → P (put path entry d))
      → ((d : Directory) → P d → Safe d)
      → Leads Safe P (write_candidate path new) (Kept path P)
  unfolding write_candidate
  write_candidate-Leads path P keep safe_at =
      then_lem Safe P P (Kept path P) (call (create_new path)) _
        (call-Leads Safe P P (create_new path) create)
        (then_lem Safe P (Made path P) (Kept path P) (call (write_all path new))
          (call (sync_all path)) (call-Leads Safe P (Made path P) (write_all path new) write)
          (call-Leads Safe (Made path P) (Kept path P) (sync_all path) flush))
    where
      created :
          (d : Directory) (free : Bool)
          → P d
          → CallPost Safe P (if free then link path (written []) d else d, free)
      created d true p = let p' = keep _ d p in (safe_at _ p', p')
      created d false p = safe_at d p

      create : (o : Outcome) (d : Directory) → Safe d → P d → CallPost Safe P (create_new path o d)
      create succeeds d safe p = created d (is_none (d path).file) p
      create (fails n) d safe p = safe
      create (corrupts other) d safe p = safe

      stored :
          (bytes : Bytes) (d : Directory)
          → P d
          → CallPost Safe (Made path P) (change path (written bytes) d, true)
      stored bytes d p = let p' = keep _ d p in (safe_at _ p', (p', ap is_none (put_file path _ d)))

      write :
          (o : Outcome) (d : Directory)
          → Safe d
          → P d
          → CallPost Safe (Made path P) (write_all path new o d)
      write succeeds d safe p = stored new d p
      write (fails n) d safe p = safe_at _ (keep _ d p)
      write (corrupts other) d safe p = stored other d p

      ready : (file : Option File) → is_none file ≡ false → is_synced_file (synced file) ≡ true
      ready none h = cc
      ready (some file) h = refl

      flush :
          (o : Outcome) (d : Directory)
          → Safe d
          → Made path P d
          → CallPost Safe (Kept path P) (sync_all path o d)
      flush succeeds d safe (p, there) =
          let p' = keep _ d p in
          (safe_at _ p', (p', ap is_synced_file (put_file path _ d) ∙ ready (d path).file there))
      flush (fails n) d safe r = safe
      flush (corrupts other) d safe r = safe

  whole :
      (file : Option File)
      → is_synced_file file ≡ true
      → is_content file new ≡ true
      → file ≡ some (durable new)
  whole none synced h = cc
  whole (some file) synced h =
      let same = (list_eq.eq_iff file.bytes new).0 h in
      λ i. some (record { bytes = same i; is_synced = synced i })

  pub verify-Leads :
      (path : Text) (P : Directory → Type 0)
      → ((d : Directory) → P d → IsReady path d)
      → Leads Safe P (verify_candidate path new) (λ d. P d × IsWhole new path d)
  unfolding verify_candidate
  verify-Leads path P ready =
      call-Leads Safe P (λ d. P d × IsWhole new path d) (read_back path new) step
    where
      found :
          (d : Directory) (good : Bool)
          → is_content (d path).file new ≡ good
          → Safe d
          → P d
          → CallPost Safe (λ d. P d × IsWhole new path d) (d, good)
      found d true e safe p = (safe, (p, whole (d path).file (ready d p) e))
      found d false e safe p = safe

      step :
          (o : Outcome) (d : Directory)
          → Safe d
          → P d
          → CallPost Safe (λ d. P d × IsWhole new path d) (read_back path new o d)
      step succeeds d safe p = found d _ refl safe p
      step (fails n) d safe p = safe
      step (corrupts other) d safe p = safe

  -- A sync of the directory.
  pub sync_parent-Leads :
      (P Q : Directory → Type 0)
      → ((d : Directory) → P d → Q (λ q. flushed (d q)))
      → ((d : Directory) → Q d → Safe d)
      → Leads Safe P sync_parent Q
  unfolding sync_parent
  sync_parent-Leads P Q flush safe_at = call-Leads Safe P Q sync_directory step
    where
      step : (o : Outcome) (d : Directory) → Safe d → P d → CallPost Safe Q (sync_directory o d)
      step succeeds d safe p = let q = flush d p in (safe_at _ q, q)
      step (fails n) d safe p = safe
      step (corrupts other) d safe p = safe
