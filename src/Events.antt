-- ===== src/Events.antt =====
-- shared/events.py: the transactional outbox. `infer_topic` maps an event name to its topic.
use nbes_backend.Base.{ℕ, String, Bool, false, Option, none, some, List, [], ◌∷◌, if◌then◌else◌}
use nbes_backend.Python.{Dict}
use text.Mathlib.Text.{starts_with}

-- `prefix_map`, in its order
abbrev prefix_map : List (String × String)
prefix_map =
    ("Item", "nbes.itembank")
    ∷ ("Paper", "nbes.itembank")
    ∷ ("Vault", "nbes.itembank")
    ∷ ("Member", "nbes.committee")
    ∷ ("Meeting", "nbes.committee")
    ∷ ("Minutes", "nbes.committee")
    ∷ ("Conflict", "nbes.committee")
    ∷ ("Action", "nbes.committee")
    ∷ ("Sitting", "nbes.sitting")
    ∷ ("Manifest", "nbes.sitting")
    ∷ ("Candidate", "nbes.registration")
    ∷ ("Eligibility", "nbes.registration")
    ∷ ("Registration", "nbes.registration")
    ∷ ("Index", "nbes.registration")
    ∷ ("Slip", "nbes.registration")
    ∷ ("Script", "nbes.marking")
    ∷ ("AI", "nbes.marking")
    ∷ ("Borderline", "nbes.marking")
    ∷ ("Moderation", "nbes.marking")
    ∷ ("Reconciliation", "nbes.marking")
    ∷ ("Hash", "nbes.marking")
    ∷ ("FinalMark", "nbes.marking")
    ∷ ("Results", "nbes.results")
    ∷ ("Board", "nbes.results")
    ∷ ("Publication", "nbes.results")
    ∷ ("Remark", "nbes.results")
    ∷ ("Attempt", "nbes.resit")
    ∷ ("Resit", "nbes.resit")
    ∷ ("Exception", "nbes.resit")
    ∷ ("Cert", "nbes.cert_trigger")
    ∷ ("Pass", "nbes.cert_trigger")
    ∷ ("SLA", "nbes.sla")
    ∷ ("Audit", "nbes.audit")
    ∷ []

topic_from : List (String × String) → String → String
topic_from [] event_name = "nbes.general"
topic_from ((prefix, topic) ∷ rest) event_name =
    if starts_with event_name prefix then topic else topic_from rest event_name

unfoldable pub infer_topic : String → String
unfolding topic_from
infer_topic = topic_from prefix_map

-- A row of `OutboxEvent`.
pub record OutboxEvent : Type 0 where
  pub correlation_id : ℕ
  pub request_id : Option ℕ
  pub traceparent : Option String
  pub tracestate : Option String
  pub topic : String
  pub event_name : String
  pub payload : Dict
  pub published : Bool
  pub created_at : ℕ

-- The thread-local values that AuditMiddleware sets for a request.
pub record Local : Type 0 where
  pub request_id : Option ℕ
  pub traceparent : Option String
  pub tracestate : Option String

-- The row that `publish` writes, at the time and under the identifier given.
unfoldable pub outbox_row : Local → ℕ → ℕ → String → Dict → Option String → OutboxEvent
unfolding infer_topic
outbox_row l id now event_name payload topic = record {
  correlation_id = id;
  request_id = l.request_id;
  traceparent = l.traceparent;
  tracestate = l.tracestate;
  topic = elim topic [ none ↦ infer_topic event_name | some t ↦ t ];
  event_name = event_name;
  payload = payload;
  published = false;
  created_at = now;
}
