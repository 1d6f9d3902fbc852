-- ===== src/Approval/View.antt =====
-- The coordinator's state as what each client may use (crates/ladon-app/src/approval.rs), and what the
-- purge of disconnected clients does to it.
use ladon.Prelude.{
  ℕ, ◌≡◌, refl, Bool, true, false, not, ◌&&◌, Option, none, some, ◌∙◌, List, [], ◌∷◌, arith, nat_eq,
  pair_eq, contains, all, is_some, is_empty, if◌then◌else◌, keep_if, Bool-cases, inl, inr,
}
use ladon.Prelude.Map.{
  Map, Distinct, get, get-remove, remove-Distinct, get-retain, retain-Distinct, get_absent,
}
use ladon.Grants.{
  GrantStore, GrantDeadline, is_live, is_unattended, purge_expired, missing, missing_unattended,
  has_unattended,
}
use ladon.Grants
use ladon.Grants.View.{holds, missing_lem, revocations_lem}
use ladon.Approval.State.{
  ApprovalState, ApprovalDecision, PendingState, decide_if, is_of_client, disconnect,
  disconnect_all, disconnected, purge_disconnected_clients,
}

abbrev pub IsValid : ApprovalState → Type 0
IsValid s = Distinct s.grants.deadlines × Distinct s.client_sessions

-- The client has a grant for the secret.
abbrev pub can_use : ApprovalState → ℕ → ℕ → Bool
can_use s client secret = is_some (holds s.grants client secret)

abbrev pub can_use_unattended : ApprovalState → ℕ → ℕ → Bool
can_use_unattended s client secret = is_some (keep_if is_unattended (holds s.grants client secret))

keep_if_twice {ℓ} :
    {A : Type ℓ} (p : A → Bool) (o : Option A) → keep_if p (keep_if p o) ≡ keep_if p o
keep_if_twice p o = ground arith

pub holds-purge_expired :
    (g : GrantStore) (client secret : ℕ)
    → Distinct g.deadlines
    → holds (purge_expired g) client secret ≡ holds g client secret
unfolding holds purge_expired
holds-purge_expired g client secret v =
    rw (get-retain _ (client, secret) g.deadlines v)
      (keep_if_twice (is_live g.clock) (get (client, secret) g.deadlines))

passes_all :
    (p : ℕ → Bool) (xs : List ℕ) → ((x : ℕ) → contains xs x ≡ true → p x ≡ true) → all p xs ≡ true
passes_all p [] h = refl
passes_all p (x ∷ xs) h =
    let first = h x (ground (arith, nat_eq.eq_iff x x)) in
    let rest = passes_all p xs (λ y c. h y (ground arith)) in ground arith

pub all-contains :
    (p : ℕ → Bool) (xs : List ℕ) (x : ℕ) → all p xs ≡ true → contains xs x ≡ true → p x ≡ true
all-contains p [] x h c = cc
all-contains p (y ∷ xs) x h c = ground (arith, nat_eq.eq_iff y x, all-contains p xs x)

-- `xs` are those of `ys` that fail the test.
none_fails :
    (p : ℕ → Bool) (xs ys : List ℕ)
    → ((x : ℕ) → contains xs x ≡ (contains ys x && not (p x)))
    → is_empty xs ≡ all p ys
none_fails p [] ys h = let passed = passes_all p ys (λ x c. ground (arith, h x)) in ground arith
none_fails p (x ∷ xs) ys h = elim (Bool-cases (all p ys)) [
  | inl e ↦ absurd (ground (arith, nat_eq.eq_iff x x, h x, all-contains p ys x))
  | inr e ↦ ground arith
]

pub is_empty-missing :
    (g : GrantStore) (client : ℕ) (ids : List ℕ)
    → Distinct g.deadlines
    → (is_empty (missing g client ids).1 ≡ all (λ x. is_some (holds g client x)) ids)
      × (is_empty (missing_unattended g client ids).1
          ≡ all (λ x. is_some (keep_if is_unattended (holds g client x))) ids)
is_empty-missing g client ids v = (
  none_fails _ (missing g client ids).1 ids (λ x. ground (arith, missing_lem g client ids x v)),
  none_fails _ (missing_unattended g client ids).1 ids
      (λ x. ground (arith, missing_lem g client ids x v)),
)

disconnect-IsValid : (s : ApprovalState) (client : ℕ) → IsValid s → IsValid (disconnect s client)
unfolding disconnect Grants.revoke_client
disconnect-IsValid s client v =
    (retain-Distinct _ s.grants.deadlines v.0, remove-Distinct client s.client_sessions v.1)

disconnect_all-IsValid :
    (s : ApprovalState) (clients : List ℕ) → IsValid s → IsValid (disconnect_all s clients)
unfolding disconnect_all
disconnect_all-IsValid s [] v = v
disconnect_all-IsValid s (client ∷ rest) v =
    disconnect_all-IsValid (disconnect s client) rest (disconnect-IsValid s client v)

pub purge-IsValid : (s : ApprovalState) → IsValid s → IsValid (purge_disconnected_clients s)
unfolding purge_disconnected_clients
purge-IsValid s v = disconnect_all-IsValid s (disconnected s.cancelled s.client_sessions) v

-- What no disconnection changes.
abbrev pub SameAccess : ApprovalState → ApprovalState → Type 0
SameAccess s t =
    (t.app_access ≡ s.app_access)
    × (t.lock_epoch ≡ s.lock_epoch)
    × (t.revision ≡ s.revision)
    × (t.vault_session_id ≡ s.vault_session_id)

disconnect_all-SameAccess :
    (s : ApprovalState) (clients : List ℕ) → SameAccess s (disconnect_all s clients)
unfolding disconnect_all disconnect
disconnect_all-SameAccess s [] = (refl, refl, refl, refl)
disconnect_all-SameAccess s (client ∷ rest) = disconnect_all-SameAccess (disconnect s client) rest

pub purge-SameAccess : (s : ApprovalState) → SameAccess s (purge_disconnected_clients s)
unfolding purge_disconnected_clients
purge-SameAccess s = disconnect_all-SameAccess s (disconnected s.cancelled s.client_sessions)

get-disconnect_all :
    (s : ApprovalState) (clients : List ℕ) (c x : ℕ)
    → IsValid s
    → (get c (disconnect_all s clients).client_sessions
        ≡ (if contains clients c then none else get c s.client_sessions))
      × (holds (disconnect_all s clients).grants c x
          ≡ (if contains clients c then none else holds s.grants c x))
unfolding disconnect_all disconnect
get-disconnect_all s [] c x v = (refl, refl)
get-disconnect_all s (client ∷ rest) c x v =
    let (sessions, grants) =
      get-disconnect_all (disconnect s client) rest c x (disconnect-IsValid s client v) in
    let (_, revoked, _, _, _, _) = revocations_lem s.grants client x c x v.0 in
    (
      ground (arith, sessions, get-remove client c s.client_sessions v.1, nat_eq.eq_iff client c),
      ground (arith, grants, revoked, nat_eq.eq_iff client c, nat_eq.eq_iff c client),
    )

contains-disconnected :
    (cancelled : ℕ → Bool) (m : Map ℕ ℕ) (c : ℕ)
    → Distinct m
    → contains (disconnected cancelled m) c ≡ is_some (keep_if cancelled (get c m))
unfolding disconnected get
contains-disconnected cancelled [] c v = refl
contains-disconnected cancelled ((i, token) ∷ m) c v =
    ground (arith, contains-disconnected cancelled m c v.1, get_absent i m v.0, nat_eq.eq_iff i c)

abbrev pub is_disconnected : ApprovalState → ℕ → Bool
is_disconnected s client = is_some (keep_if s.cancelled (get client s.client_sessions))

cancel_twice :
    (clients : List ℕ) (client : ℕ) (pending : Option PendingState)
    → decide_if
        (λ p. contains clients p.request.client_session_id)
        ApprovalDecision.cancel
        (decide_if (is_of_client client) ApprovalDecision.cancel pending)
      ≡ decide_if
          (λ p. contains (client ∷ clients) p.request.client_session_id)
          ApprovalDecision.cancel
          pending
cancel_twice clients client none = refl
cancel_twice clients client (some p) = ground (
  arith,
  nat_eq.eq_iff client p.request.client_session_id,
  nat_eq.eq_iff p.request.client_session_id client,
)

pending-disconnect_all :
    (s : ApprovalState) (clients : List ℕ)
    → (disconnect_all s clients).pending
      ≡ decide_if
          (λ p. contains clients p.request.client_session_id)
          ApprovalDecision.cancel
          s.pending
unfolding disconnect_all disconnect
pending-disconnect_all s [] = kept s.pending
  where
    kept :
        (pending : Option PendingState)
        → pending ≡ decide_if (λ p. false) ApprovalDecision.cancel pending
    kept none = refl
    kept (some p) = refl
pending-disconnect_all s (client ∷ rest) =
    pending-disconnect_all (disconnect s client) rest ∙ cancel_twice rest client s.pending

pending-purge :
    (s : ApprovalState)
    → Distinct s.client_sessions
    → (pending : Option PendingState)
    → decide_if
        (λ p. contains (disconnected s.cancelled s.client_sessions) p.request.client_session_id)
        ApprovalDecision.cancel
        pending
      ≡ decide_if
          (λ p. is_disconnected s p.request.client_session_id)
          ApprovalDecision.cancel
          pending
pending-purge s v none = refl
pending-purge s v (some p) =
    rw (contains-disconnected s.cancelled s.client_sessions p.request.client_session_id v) refl

-- What the purge of disconnected clients does: a client whose connection was cancelled is no longer
-- tracked and may use no secret, and its pending request is cancelled; every other client keeps its
-- connection, its grants and its pending request.
pub purge_lem :
    (s : ApprovalState) (client secret : ℕ)
    → IsValid s
    → (get client (purge_disconnected_clients s).client_sessions
        ≡ (if is_disconnected s client then none else get client s.client_sessions))
      × (holds (purge_disconnected_clients s).grants client secret
          ≡ (if is_disconnected s client then none else holds s.grants client secret))
      × ((purge_disconnected_clients s).pending
          ≡ decide_if
              (λ p. is_disconnected s p.request.client_session_id)
              ApprovalDecision.cancel
              s.pending)
unfolding purge_disconnected_clients
purge_lem s client secret v =
    let gone = disconnected s.cancelled s.client_sessions in
    let (sessions, grants) = get-disconnect_all s gone client secret v in
    let is_gone = contains-disconnected s.cancelled s.client_sessions client v.1 in
    (
      rw (← is_gone) sessions,
      rw (← is_gone) grants,
      pending-disconnect_all s gone ∙ pending-purge s v.1 s.pending,
    )
