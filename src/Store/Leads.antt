-- ===== src/Store/Leads.antt =====
-- Methods on the file system (crates/ladon-core/src/store.rs) by the directories that they lead from and to, and
-- through.
use ladon.Prelude.{Bool, true, false, List, ◌∷◌, if◌then◌else◌, All}
use ladon.Prelude.Result.{Result, ok, err, LadonError}
use ladon.Prelude.Method.{Method, after, ◌>>◌}
use ladon.Store.{Directory, Outcome, World, call, next_outcome}

module _ (Safe : Directory → Type 0) where
  abbrev pub Post : (Directory → Type 0) → World × Result (Unit {0}) → Type 0
  Post Q (w, ok _) = All Safe w.seen × Safe w.directory × Q w.directory
  Post Q (w, err _) = All Safe w.seen × Safe w.directory

  -- A method that leads from `P` to `Q`, and through safe directories only.
  abbrev pub Leads : (Directory → Type 0) → Method World (Unit {0}) → (Directory → Type 0) → Type 0
  Leads P m Q = (w : World) → All Safe w.seen → Safe w.directory → P w.directory → Post Q (m w)

  abbrev pub CallPost : (Directory → Type 0) → Directory × Bool → Type 0
  CallPost Q (d, true) = Safe d × Q d
  CallPost Q (d, false) = Safe d

  call_result :
      (Q : Directory → Type 0) (w : World) (rest : List Outcome) (result : Directory × Bool)
      → All Safe w.seen
      → Safe w.directory
      → CallPost Q result
      → Post Q (
        record { directory = result.0; seen = w.directory ∷ w.seen; outcomes = rest },
        if result.1 then ok tt else err LadonError.storage_failure,
      )
  call_result Q w rest (d, true) seen safe (safe', q) = ((safe, seen), safe', q)
  call_result Q w rest (d, false) seen safe safe' = ((safe, seen), safe')

  pub call-Leads :
      (P Q : Directory → Type 0) (effect : Outcome → Directory → Directory × Bool)
      → ((o : Outcome) (d : Directory) → Safe d → P d → CallPost Q (effect o d))
      → Leads P (call effect) Q
  call-Leads P Q effect step w seen safe p =
      call_result Q w (next_outcome w.outcomes).1 (effect (next_outcome w.outcomes).0 w.directory)
        seen safe (step (next_outcome w.outcomes).0 w.directory safe p)

  after-Leads :
      (Q R : Directory → Type 0) (n : Method World (Unit {0})) (r : World × Result (Unit {0}))
      → Post Q r
      → Leads Q n R
      → Post R (after r (λ _. n))
  after-Leads Q R n (w, ok t) (seen, safe, q) leads = leads w seen safe q
  after-Leads Q R n (w, err e) post leads = post

  pub then_lem :
      (P Q R : Directory → Type 0) (m n : Method World (Unit {0}))
      → Leads P m Q
      → Leads Q n R
      → Leads P (m >> n) R
  then_lem P Q R m n leads later w seen safe p = after-Leads Q R n (m w) (leads w seen safe p) later

  pub Post-seen :
      (Q : Directory → Type 0) (r : World × Result (Unit {0}))
      → Post Q r
      → All Safe r.0.seen × Safe r.0.directory
  Post-seen Q (w, ok t) (seen, safe, q) = (seen, safe)
  Post-seen Q (w, err e) post = post
