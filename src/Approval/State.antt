-- ===== src/Approval/State.antt =====
-- The state behind the coordinator's mutex, and the functions on it (crates/ladon-app/src/approval.rs).
-- Sessions, requests, vault sessions and cancellation tokens are known by their identifiers. The tokens
-- are shared with other threads: `cancelled` is the store in which they are cancelled. A poisoned mutex
-- and the wake-ups of the condition variable are left out.
use ladon.Prelude.{
  ℕ, Bool, true, false, not, ◌&&◌, ◌||◌, Option, none, some, List, [], ◌∷◌, map, ◌==◌, nat_eq, any,
  if◌then◌else◌, ltb, leb, take, keep,
}
use ladon.Prelude.Map.{Map, contains_key, remove, retain}
use ladon.Grants.{GrantStore, GrantEntry, Clock}
use ladon.Grants
use ladon.Model.{Text}

abbrev pub max_tracked_sessions : ℕ
max_tracked_sessions = 32

pub record ApprovalSecret : Type 0 where
  pub id : ℕ
  pub name : Text
  pub fields : List Text

pub record PendingApproval : Type 0 where
  pub id : ℕ
  pub vault_session_id : ℕ
  pub client_session_id : ℕ
  pub client_label : Text
  pub secrets : List ApprovalSecret
  pub executable : Text
  pub arguments : List Text
  pub working_directory : Text

pub data AppAccessState : Type 0 where
  active : AppAccessState
  locking : ℕ → AppAccessState
  locked : ℕ → AppAccessState

pub data ApprovalDecision : Type 0 where
  approve : Option ℕ → ApprovalDecision
  approve_until : ℕ → ApprovalDecision
  approve_session : ApprovalDecision
  granted : ApprovalDecision
  deny : ApprovalDecision
  cancel : ApprovalDecision

pub record PendingState : Type 0 where
  pub request : PendingApproval
  pub requested_secret_ids : List ℕ
  pub decision : Option ApprovalDecision

pub record SessionDetails : Type 0 where
  pub client_session_id : ℕ
  pub connection_id : ℕ
  pub reported_name : Text
  pub user_name : Text
  pub note : Text
  pub working_directory : Text
  pub last_action : Text
  pub connected_at : ℕ
  pub last_activity : ℕ

pub record UnattendedContext : Type 0 where
  pub client : ℕ
  pub vault : ℕ
  pub revision : ℕ
  pub epoch : ℕ
  pub connection_id : ℕ
  pub session_label : Text

pub record GrantTicket : Type 0 where
  pub vault_session_id : ℕ
  pub client_session_id : ℕ
  pub secret_ids : List ℕ

pub record ActiveGrantSnapshot : Type 0 where
  pub client_session_id : ℕ
  pub client_label : Text
  pub secret_id : ℕ
  pub remaining : ℕ
  pub expires_with_session : Bool
  pub unattended : Bool
  pub expires_at : Option ℕ

pub record ApprovalState : Type 0 where
  pub grants : GrantStore
  pub vault_session_id : Option ℕ
  pub pending : Option PendingState
  pub client_labels : Map ℕ Text
  pub client_sessions : Map ℕ ℕ
  pub sessions_closed : Bool
  pub app_access : AppAccessState
  pub lock_epoch : ℕ
  pub revision : ℕ
  pub sessions : Map ℕ SessionDetails
  pub cancelled : ℕ → Bool

unfoldable pub new : Clock → ℕ → (ℕ → Bool) → ApprovalState
new clock grant_lifetime cancelled = record {
  grants = Grants.new clock grant_lifetime;
  vault_session_id = none;
  pending = none;
  client_labels = [];
  client_sessions = [];
  sessions_closed = false;
  app_access = AppAccessState.active;
  lock_epoch = 0;
  revision = 0;
  sessions = [];
  cancelled = cancelled;
}

abbrev pub secret_ids : PendingApproval → List ℕ
secret_ids request = map (λ s. s.id) request.secrets

abbrev pub access_is_active : AppAccessState → Bool
access_is_active AppAccessState.active = true
access_is_active _ = false

unfoldable pub is_app_active : ApprovalState → Bool
is_app_active s = access_is_active s.app_access

-- `pending.decision = Some(decision)`, where the request passes the test.
abbrev pub decide_if :
    (PendingState → Bool) → ApprovalDecision → Option PendingState → Option PendingState
decide_if test d none = none
decide_if test d (some p) = if test p then some (record p { decision = some d }) else some p

abbrev pub is_of_client : ℕ → PendingState → Bool
is_of_client client p = p.request.client_session_id == client

unfoldable pub cancel_pending : ApprovalState → ApprovalState
cancel_pending s = record s { pending = decide_if (λ p. true) ApprovalDecision.cancel s.pending }

abbrev pub is_client_of : ℕ → GrantEntry → Bool
is_client_of client grant = grant.client_session_id == client

unfoldable pub prune_client_labels : ApprovalState → ApprovalState
prune_client_labels s =
    let (grants, entries) = Grants.active s.grants in
    record s {
      grants = grants;
      client_labels = retain (λ client _. any (is_client_of client) entries) s.client_labels;
    }

unfoldable pub clear_pending : ApprovalState → ℕ → ApprovalState
clear_pending s approval_id = elim s.pending [
  | none ↦ s
  | some p ↦
      if p.request.id == approval_id then prune_client_labels (record s { pending = none }) else s
]

abbrev decision_of : Option PendingState → ℕ → Option ApprovalDecision
decision_of none approval_id = none
decision_of (some p) approval_id = if p.request.id == approval_id then p.decision else none

unfoldable pub decision_for : ApprovalState → ℕ → Option ApprovalDecision
decision_for s approval_id = decision_of s.pending approval_id

-- The body of the loop over the disconnected clients.
unfoldable pub disconnect : ApprovalState → ℕ → ApprovalState
disconnect s client = record s {
  client_sessions = remove client s.client_sessions;
  grants = Grants.revoke_client s.grants client;
  client_labels = remove client s.client_labels;
  sessions = remove client s.sessions;
  pending = decide_if (is_of_client client) ApprovalDecision.cancel s.pending;
}

unfoldable pub disconnect_all : ApprovalState → List ℕ → ApprovalState
disconnect_all s [] = s
disconnect_all s (client ∷ rest) = disconnect_all (disconnect s client) rest

unfoldable pub disconnected : (ℕ → Bool) → Map ℕ ℕ → List ℕ
disconnected cancelled [] = []
disconnected cancelled ((client, token) ∷ rest) =
    let others = disconnected cancelled rest in if cancelled token then client ∷ others else others

unfoldable pub purge_disconnected_clients : ApprovalState → ApprovalState
purge_disconnected_clients s = disconnect_all s (disconnected s.cancelled s.client_sessions)

-- `&&` does not ask the store of grants unless the client is connected.
unfoldable pub client_has_unattended : ApprovalState → ℕ → ApprovalState × Bool
client_has_unattended s client =
    if contains_key client s.client_sessions
    then (let (grants, has) = Grants.has_unattended s.grants client in
        (record s { grants = grants }, has))
    else (s, false)

-- `char::is_control`.
unfoldable pub is_control : ℕ → Bool
is_control c = ltb c 32 || (leb 127 c && ltb c 160)

unfoldable pub bounded_metadata : Text → ℕ → Text
bounded_metadata value limit = take limit (keep (λ c. not (is_control c)) value)
