-- ===== src/Approval/Sessions.antt =====
-- The tracked sessions of clients (crates/ladon-app/src/approval.rs): registration, annotation, what is
-- shown of them and of their grants.
use ladon.Prelude.{
  ℕ, Bool, true, false, not, ◌&&◌, ◌||◌, Option, none, some, List, [], ◌∷◌, map, ◌==◌, nat_eq,
  contains, any, is_none, is_empty, if◌then◌else◌, length, leb, ltb,
}
use ladon.Prelude.Result.{busy, vault_locked, approval_cancelled, invalid_request, ensure, ok_or}
use ladon.Prelude.Method.{◌>>=◌, ◌>>◌, lift, return, read, modify, perform}
use ladon.Prelude.Map.{Map, get, insert, retain, contains_key}
use ladon.Grants.{GrantEntry}
use ladon.Grants
use ladon.Model.{Text}
use ladon.Prelude.Utf8.{codes}
use ladon.Approval.State.{
  max_tracked_sessions, AppAccessState, PendingApproval, PendingState, SessionDetails,
  ActiveGrantSnapshot, ApprovalState, is_app_active, is_client_of, is_of_client, is_control,
  prune_client_labels, purge_disconnected_clients, bounded_metadata,
}
use ladon.Approval.Control.{M}

-- `connection_id` is the random identifier that is drawn for the connection.
unfoldable pub new_session : ℕ → ℕ → ℕ → SessionDetails
new_session client connection_id now = record {
  client_session_id = client;
  connection_id = connection_id;
  reported_name = codes "MCP client";
  user_name = [];
  note = [];
  working_directory = [];
  last_action = codes "Connected";
  connected_at = now;
  last_activity = now;
}

abbrev pub can_register : ApprovalState → ℕ → Bool
can_register s client = not (
    s.sessions_closed
    || contains_key client s.client_sessions
    || leb max_tracked_sessions (length s.client_sessions))

-- `token` is the token by which the connection's end is seen.
unfoldable pub register_client_session : ℕ → ℕ → ℕ → M (Unit {0})
unfolding new_session
register_client_session client connection_id token = do
  modify purge_disconnected_clients
  s ← read
  lift (ensure (can_register s client) busy)
  modify (λ s. record s { grants = Grants.revoke_client s.grants client })
  modify (λ s. record s {
    sessions = insert client (new_session client connection_id s.grants.clock.wall_time) s.sessions;
  })
  modify (λ s. record s { client_sessions = insert client token s.client_sessions })

unfoldable pub client_session_connected : ℕ → M Bool
client_session_connected client = do
  modify purge_disconnected_clients
  s ← read
  return (contains_key client s.client_sessions)

abbrev is_token_of : Map ℕ ℕ → ℕ → Bool
is_token_of clients token = any (λ entry. entry.1 == token) clients

unfoldable pub close_client_sessions : M (Unit {0})
close_client_sessions = do
  modify (λ s. record s { sessions_closed = true })
  modify (λ s. record s {
    cancelled = (λ token. s.cancelled token || is_token_of s.client_sessions token);
  })
  modify purge_disconnected_clients

abbrev undecided_request : Option PendingState → Option PendingApproval
undecided_request none = none
undecided_request (some p) = if is_none p.decision then some p.request else none

unfoldable pub pending : M (Option PendingApproval)
pending = do modify purge_disconnected_clients; s ← read; return (undecided_request s.pending)

-- `if let Some(session) = sessions.get_mut(client)`, and what it changes.
abbrev update_session :
    ℕ → (SessionDetails → SessionDetails) → Map ℕ SessionDetails → Map ℕ SessionDetails
update_session client change sessions = elim (get client sessions) [
  | none ↦ sessions
  | some session ↦ insert client (change session) sessions
]

abbrev has_undecided : ℕ → Option PendingState → Bool
has_undecided client none = false
has_undecided client (some p) = is_none p.decision && is_of_client client p

abbrev pub relabel : ℕ → Text → Option PendingState → Option PendingState
relabel client label none = none
relabel client label (some p) =
    if is_of_client client p
    then some (record p { request = record p.request { client_label = label } })
    else some p

abbrev pub relabel_client : ℕ → Text → ApprovalState → ApprovalState
relabel_client client label s = record s {
  pending = relabel client label s.pending;
  client_labels = insert client label s.client_labels;
}

unfoldable pub observe_client : ℕ → Text → M (Unit {0})
observe_client client label = do
  modify purge_disconnected_clients
  modify (λ s. record s {
    sessions =
        update_session client
          (λ session. record session {
            reported_name = bounded_metadata label 128;
            last_activity = s.grants.clock.wall_time;
          })
          s.sessions;
  })
  entries ← perform (λ s.
      let (grants, entries) = Grants.active s.grants in (record s { grants = grants }, entries))
  s ← read
  modify (
      if any (is_client_of client) entries || has_undecided client s.pending
      then relabel_client client label
      else (λ s. s))
  modify prune_client_labels

abbrev label_or_default : Option Text → Text
label_or_default none = codes "MCP client"
label_or_default (some label) = label

unfoldable pub snapshot : Map ℕ Text → GrantEntry → ActiveGrantSnapshot
snapshot labels grant = record {
  client_session_id = grant.client_session_id;
  client_label = label_or_default (get grant.client_session_id labels);
  secret_id = grant.secret_id;
  remaining = grant.remaining;
  expires_with_session = grant.expires_with_session;
  unattended = grant.unattended;
  expires_at = grant.expires_at;
}

unfoldable pub active_grants : M (List ActiveGrantSnapshot)
unfolding snapshot
active_grants = do
  modify purge_disconnected_clients
  entries ← perform (λ s.
      let (grants, entries) = Grants.active s.grants in (record s { grants = grants }, entries))
  modify (λ s. record s {
    client_labels = retain (λ client _. any (is_client_of client) entries) s.client_labels;
  })
  s ← read
  return (map (snapshot s.client_labels) entries)

unfoldable pub app_access_state : M AppAccessState
app_access_state = do s ← read; return s.app_access

-- The order of the pairs of the time of connection and the client's identifier.
abbrev connected_before : SessionDetails → SessionDetails → Bool
connected_before a b =
    ltb a.connected_at b.connected_at
    || ((a.connected_at == b.connected_at) && leb a.client_session_id b.client_session_id)

unfoldable insert_sorted : SessionDetails → List SessionDetails → List SessionDetails
insert_sorted s [] = s ∷ []
insert_sorted s (t ∷ ts) =
    let rest = insert_sorted s ts in if connected_before s t then s ∷ t ∷ ts else t ∷ rest

-- `sort_by_key`.
unfoldable sort_sessions : List SessionDetails → List SessionDetails
unfolding insert_sorted
sort_sessions [] = []
sort_sessions (s ∷ ss) = insert_sorted s (sort_sessions ss)

unfoldable pub sessions : M (List SessionDetails)
unfolding sort_sessions
sessions = do
  modify purge_disconnected_clients
  s ← read
  return (sort_sessions (map (λ entry. entry.1) s.sessions))

-- `char::is_whitespace`.
unfoldable is_whitespace : ℕ → Bool
is_whitespace c =
    (leb 9 c && leb c 13)
    || (leb 8192 c && leb c 8202)
    || contains (32 ∷ 133 ∷ 160 ∷ 5760 ∷ 8232 ∷ 8233 ∷ 8239 ∷ 8287 ∷ 12288 ∷ []) c

unfoldable trim_start : Text → Text
trim_start [] = []
trim_start (c ∷ text) = let rest = trim_start text in if is_whitespace c then rest else c ∷ text

unfoldable trim_end : Text → Text
trim_end [] = []
trim_end (c ∷ text) =
    let rest = trim_end text in if is_empty rest && is_whitespace c then [] else c ∷ rest

-- `str::trim`.
unfoldable pub trim : Text → Text
unfolding trim_start trim_end is_whitespace
trim text = trim_end (trim_start text)

abbrev valid_annotation : Text → Text → Bool
valid_annotation name note = not (
    ltb 64 (length name)
    || ltb 512 (length note)
    || any is_control name
    || any (λ c. is_control c && not (c == 10)) note)

abbrev is_other_connection : Option ℕ → SessionDetails → Bool
is_other_connection none session = false
is_other_connection (some expected) session = not (expected == session.connection_id)

unfoldable pub set_session_annotation_checked : ℕ → Option ℕ → Text → Text → M (Unit {0})
set_session_annotation_checked client connection_id name note = do
  lift (ensure (valid_annotation name note) invalid_request)
  modify purge_disconnected_clients
  s ← read
  lift (ensure (is_app_active s) vault_locked)
  session ← lift (ok_or (get client s.sessions) invalid_request)
  lift (ensure (not (is_other_connection connection_id session)) approval_cancelled)
  modify (λ s. record s {
    sessions =
        insert client (record session { user_name = trim name; note = trim note }) s.sessions;
  })

unfoldable pub set_session_annotation : ℕ → Text → Text → M (Unit {0})
set_session_annotation client name note = set_session_annotation_checked client none name note

unfoldable pub set_session_annotation_for_connection : ℕ → ℕ → Text → Text → M (Unit {0})
set_session_annotation_for_connection client connection_id name note =
    set_session_annotation_checked client (some connection_id) name note

unfoldable pub observe_run : ℕ → Text → Text → M (Unit {0})
observe_run client project action = modify (λ s. record s {
  sessions =
      update_session client
        (λ session. record session {
          working_directory = bounded_metadata project 512;
          last_action = bounded_metadata action 128;
          last_activity = s.grants.clock.wall_time;
        })
        s.sessions;
})
