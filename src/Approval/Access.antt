-- ===== src/Approval/Access.antt =====
-- Who may use a secret (crates/ladon-app/src/approval.rs): what has to hold for `with_valid_grant` to run
-- an operation, and for `authorize` to return a ticket.
use ladon.Prelude.{
  ℕ, ◌≡◌, refl, Bool, true, ◌&&◌, ◌||◌, some, List, [], ◌∷◌, arith, nat_eq, pair_eq, ◌⊎◌, contains,
  all, is_some, is_empty, if◌then◌else◌, keep_if, Bool-cases, inl, inr,
}
use ladon.Prelude.Result.{Result, ok, err, approval_cancelled}
use ladon.Prelude.Map.{Distinct, contains_key}
use ladon.Grants.{GrantStore, is_unattended, missing, missing_unattended, purge_expired}
use ladon.Grants
use ladon.Grants.View.{holds, purge_expired-IsValid}
use ladon.Approval.State.{
  GrantTicket, ApprovalState, is_app_active, purge_disconnected_clients, client_has_unattended,
}
use ladon.Approval.Authorize.{same_vault, unattended_access, with_valid_grant}
use ladon.Approval.View.{
  IsValid, can_use, can_use_unattended, holds-purge_expired, all-contains, is_empty-missing,
  purge-IsValid,
}

-- The client is connected, has some unattended grant, and has one for each of the secrets.
abbrev pub unattended_allows : ApprovalState → ℕ → List ℕ → Bool
unattended_allows s client ids =
    contains_key client s.client_sessions
    && (Grants.has_unattended s.grants client).1
    && all (can_use_unattended s client) ids

pub all_ext : (p q : ℕ → Bool) (xs : List ℕ) → ((x : ℕ) → p x ≡ q x) → all p xs ≡ all q xs
all_ext p q [] h = refl
all_ext p q (x ∷ xs) h = ground (arith, h x, all_ext p q xs h)

pub unattended_access_lem :
    (s : ApprovalState) (client : ℕ) (ids : List ℕ)
    → Distinct s.grants.deadlines
    → ((unattended_access s client ids).1 ≡ unattended_allows s client ids)
unfolding unattended_access client_has_unattended Grants.has_unattended
unattended_access_lem s client ids v =
    let g = purge_expired s.grants in
    let w = purge_expired-IsValid s.grants v in
    let e =
      all_ext (λ x. is_some (keep_if is_unattended (holds g client x)))
        (can_use_unattended s client) ids (λ x. rw (holds-purge_expired s.grants client x v)) in
    ground (arith, is_empty-missing g client ids w, e)

can_use-all :
    (s : ApprovalState) (client : ℕ) (ids : List ℕ)
    → Distinct s.grants.deadlines
    → (all (λ x. is_some (holds (purge_expired s.grants) client x)) ids
        ≡ all (can_use s client) ids)
can_use-all s client ids v =
    all_ext _ (can_use s client) ids (λ x. rw (holds-purge_expired s.grants client x v))

twice_purged :
    (s : ApprovalState) (client : ℕ) (ids : List ℕ)
    → Distinct s.grants.deadlines
    → (all (λ x. is_some (holds (purge_expired (purge_expired s.grants)) client x)) ids
        ≡ all (can_use s client) ids)
twice_purged s client ids v = all_ext _ (can_use s client) ids (λ x. rw (
  holds-purge_expired (purge_expired s.grants) client x (purge_expired-IsValid s.grants v),
  holds-purge_expired s.grants client x v,
))

-- The secrets that the client may use are the same after `unattended_access` asked for them.
asked_lem :
    (s : ApprovalState) (client : ℕ) (ids : List ℕ)
    → Distinct s.grants.deadlines
    → let t = (unattended_access s client ids).0 in
      (is_empty (missing t.grants client ids).1 ≡ all (can_use s client) ids)
      × (t.vault_session_id ≡ s.vault_session_id)
unfolding unattended_access client_has_unattended Grants.has_unattended Grants.missing_unattended
asked_lem s client ids v =
    let g = s.grants in
    let v' = purge_expired-IsValid g v in
    let v'' = purge_expired-IsValid (purge_expired g) v' in
    (
      ground (
        arith,
        is_empty-missing g client ids v,
        is_empty-missing (purge_expired g) client ids v',
        is_empty-missing (purge_expired (purge_expired g)) client ids v'',
        can_use-all s client ids v,
        twice_purged s client ids v,
      ),
      ground arith,
    )

-- The condition of `with_valid_grant`: the vault is the one that the ticket is for, every secret of the
-- ticket is granted to its client, and the app is active or the client's unattended grants cover them.
abbrev pub permitted : ApprovalState → GrantTicket → Bool
permitted s ticket =
    (is_app_active s || unattended_allows s ticket.client_session_id ticket.secret_ids)
    && same_vault s.vault_session_id ticket.vault_session_id
    && all (can_use s ticket.client_session_id) ticket.secret_ids

-- `with_valid_grant` runs its operation exactly if, once the disconnected clients are gone, the vault is
-- the one that the ticket is for, every secret of the ticket is granted to the ticket's client now, and
-- the app is active or the client is connected and has unattended grants for all of them. Otherwise it
-- reports that the approval was cancelled.
pub with_valid_grant_lem {ℓ} :
    {T : Type ℓ} (s : ApprovalState) (ticket : GrantTicket) (operation : Result T)
    → IsValid s
    → (with_valid_grant s ticket operation).1 ≡ (
        if permitted (purge_disconnected_clients s) ticket
        then operation
        else err approval_cancelled)
unfolding with_valid_grant
with_valid_grant_lem s ticket operation v =
    let p = purge_disconnected_clients s in
    let w = purge-IsValid s v in
    ground (
      arith,
      unattended_access_lem p ticket.client_session_id ticket.secret_ids w.0,
      asked_lem p ticket.client_session_id ticket.secret_ids w.0,
      is_empty-missing p.grants ticket.client_session_id ticket.secret_ids w.0,
    )

-- What an operation that needs secrets rests on: if it ran, and succeeded, then each secret of its ticket
-- is granted to its client, and where the app is locked it is granted unattended to a client that is
-- still connected.
pub operation_granted {ℓ} :
    {T : Type ℓ} (s : ApprovalState) (ticket : GrantTicket) (operation : Result T) (t : T)
    (secret : ℕ)
    → IsValid s
    → (with_valid_grant s ticket operation).1 ≡ ok t
    → contains ticket.secret_ids secret ≡ true
    → let p = purge_disconnected_clients s in
      (can_use p ticket.client_session_id secret ≡ true)
      × (p.vault_session_id ≡ some ticket.vault_session_id)
      × ((is_app_active p ≡ true)
          ⊎ ((can_use_unattended p ticket.client_session_id secret ≡ true)
              × (contains_key ticket.client_session_id p.client_sessions ≡ true)))
operation_granted s ticket operation t secret v ran asked =
    let p = purge_disconnected_clients s in
    let client = ticket.client_session_id in
    let e = with_valid_grant_lem s ticket operation v in
    let all_granted = all-contains (can_use p client) ticket.secret_ids secret in
    let all_unattended = all-contains (can_use_unattended p client) ticket.secret_ids secret in
    (
      ground (arith, e, all_granted),
      ground (arith, e),
      elim (Bool-cases (is_app_active p)) [
        | inl active ↦ inl active
        | inr locked ↦ inr (ground (arith, e, all_unattended), ground (arith, e))
      ],
    )
