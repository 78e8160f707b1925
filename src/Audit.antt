-- ===== src/Audit.antt =====
-- apps/audit/models.py and the writer of shared/events.py: the append-only audit trail with its
-- hash chain, and the outbox rows that are written beside it in the same transaction.
pub mod Chain
use nbes_backend.Base.{
  ℕ, ◌+◌, String, Bool, Option, none, some, List, [], ◌∷◌, str_eq, if◌then◌else◌, any, Result, ok,
  err,
}
use nbes_backend.Python.{text, Dict, Fault, value_error}
use nbes_backend.Env.{Env, Payload}
use nbes_backend.Events.{OutboxEvent, Local, outbox_row}

-- A row of `AuditEvent`.
pub record AuditEvent : Type 0 where
  pub payload : Payload
  pub ip_address : Option String
  pub request_id : Option ℕ
  pub chain_hash : String

-- Both tables, newest row first; `fresh` counts the identifiers drawn by `uuid4`.
pub record Trail : Type 0 where
  pub events : List AuditEvent
  pub outbox : List OutboxEvent
  pub fresh : ℕ
  pub clock : ℕ
  pub local : Local

-- `_STATE_CHANGE_ACTIONS`
abbrev pub state_change_actions : List String
state_change_actions =
    "USER_UPDATED" ∷ "USER_DEACTIVATED" ∷ "ROLE_ASSIGNED" ∷ "ROLE_REVOKED"
    ∷ "ROLE_PERMISSIONS_UPDATED" ∷ "ROLE_ASSIGNMENT_APPROVED" ∷ "ROLE_ASSIGNMENT_REJECTED"
    ∷ "DASHBOARD_PANEL_UPDATED" ∷ "BULK_IMPORT" ∷ "PROFILE_UPDATED" ∷ []

unfoldable pub is_state_change : String → Bool
is_state_change action = any (str_eq action) state_change_actions

-- The arguments of `AuditEvent.record`.
pub record Entry : Type 0 where
  pub actor_id : Option ℕ
  pub action : String
  pub entity_type : String
  pub entity_id : String
  pub old_state : Option Dict
  pub new_state : Option Dict
  pub request_id : Option ℕ
  pub ip_address : Option String

-- 64 zeros
abbrev pub genesis : String
genesis = "0000000000000000000000000000000000000000000000000000000000000000"

abbrev pub head_hash : List AuditEvent → String
head_hash [] = genesis
head_hash (e ∷ _) = e.chain_hash

-- `publish`
unfoldable pub publish : String → Dict → Option String → Trail → Trail
unfolding outbox_row
publish name payload topic t = record t {
  outbox = outbox_row t.local t.fresh t.clock name payload topic ∷ t.outbox;
  fresh = t.fresh + 1;
}

unfoldable pub payload_of : Entry → ℕ → ℕ → Payload
payload_of e id now = record {
  event_id = id;
  actor_id = e.actor_id;
  action = e.action;
  entity_type = e.entity_type;
  entity_id = e.entity_id;
  old_state = e.old_state;
  new_state = e.new_state;
  created_at = now;
}

module _ (env : Env) where
  -- `AuditEvent._record_atomic`
  unfoldable pub record_atomic : Entry → Trail → Trail
  record_atomic e t =
      let payload = payload_of e t.fresh t.clock in
      let hash = env.seal (head_hash t.events) payload in
      let event : AuditEvent = record {
        payload = payload;
        ip_address = e.ip_address;
        request_id = e.request_id;
        chain_hash = hash;
      } in
      publish "AuditEventRecorded"
        (("event_id", text (env.str_uuid t.fresh)) ∷ ("chain_hash", text hash) ∷ [])
        (some "nbes.audit") (record t { events = event ∷ t.events; fresh = t.fresh + 1 })

  -- `AuditEvent.record`: a state-change action without `old_state` is refused.
  unfoldable pub record_event : Entry → Trail → Result Fault Trail
  unfolding is_state_change
  record_event e t = elim e.old_state [
    | none ↦ if is_state_change e.action then err value_error else ok (record_atomic e t)
    | some _ ↦ ok (record_atomic e t)
  ]
