-- ===== src/SittingApp/Monitor.antt =====
-- tasks.py: `monitor_t30_lock`, which locks every approved cycle that has come within thirty days.
use Prim.Native.String.{◌++◌ as concat}
use nbes_backend.Base.{
  ℕ, ◌+◌, String, Bool, false, not, ◌&&◌, Option, none, some, List, [], ◌∷◌, leb, ok, err,
  if◌then◌else◌,
}
use nbes_backend.Python.{Value, text, date, isoformat, Fault}
use nbes_backend.Env.{Env}
use nbes_backend.Audit.{Trail, Entry, record_event}
use nbes_backend.SittingApp.Model.{Sitting, SubjectPaper, SittingLockEvent, SittingLock, auto_lock}
use nbes_backend.SittingApp.World.{World, Caller, Code, Message, Outcome, validation, crash}
use nbes_backend.SittingApp.Validate.{is_none}
use nbes_backend.SittingApp.Lifecycle.{is_configured, lock_sitting}

-- T30_LOCK_OFFSET_DAYS
abbrev pub lock_offset_days : ℕ
lock_offset_days = 30

-- One cycle of the tables that the task works on: all but the trail, which the cycles share.
pub record Cell : Type 0 where
  pub row : Sitting
  pub papers : List SubjectPaper
  pub lock_events : List SittingLockEvent
  pub lock_record : Option SittingLock

abbrev pub with_trail : Cell → Trail → World
with_trail c t = record {
  row = c.row;
  papers = c.papers;
  lock_events = c.lock_events;
  lock_record = c.lock_record;
  is_deleted = false;
  trail = t;
}

abbrev pub cell_of : World → Cell
cell_of w = record {
  row = w.row;
  papers = w.papers;
  lock_events = w.lock_events;
  lock_record = w.lock_record;
}

-- `actor_id=None`, without a request
abbrev pub nobody : Caller
nobody = record { actor_id = none; request_id = none; ip_address = none }

-- `sitting_date <= cutoff`
abbrev pub is_by : ℕ → Value → Bool
is_by cutoff (date d) = leb d cutoff
is_by cutoff _ = false

-- The filters of `candidates`.
unfoldable pub is_candidate : ℕ → Sitting → Bool
is_candidate cutoff s =
    is_configured s.status && (not (is_none s.approved_at) && is_by cutoff s.sitting_date)

-- The code of a SittingValidationError as the text it is.
unfoldable pub code_text : Code → String
code_text Code.out_of_policy_pass_standard = "OUT_OF_POLICY_PASS_STANDARD"
code_text Code.inconsistent_marks_allocation = "INCONSISTENT_MARKS_ALLOCATION"
code_text Code.inconsistent_compensation_rule = "INCONSISTENT_COMPENSATION_RULE"
code_text Code.sitting_not_ready = "SITTING_NOT_READY"
code_text Code.configuration_locked = "CONFIGURATION_LOCKED"
code_text Code.subject_count_mismatch = "SUBJECT_COUNT_MISMATCH"
code_text Code.invalid_transition = "INVALID_TRANSITION"
code_text Code.not_nbec_approved = "NOT_APPROVED"
code_text Code.not_locked = "NOT_LOCKED"
code_text Code.missing_justification = "MISSING_JUSTIFICATION"
code_text Code.unknown_field = "UNKNOWN_FIELD"
code_text Code.critical_field_requires_resolution = "CRITICAL_FIELD_REQUIRES_RESOLUTION"
code_text Code.missing_resolution_ref = "MISSING_RESOLUTION_REF"
code_text Code.not_found = "NOT_FOUND"

-- What a run notes of one cycle: nothing of one that is no candidate.
pub data Verdict : Type 0 where
  untouched : Verdict
  locked_now : String → Verdict
  skipped : String → String → Message → Verdict
  failed : String → Fault → Verdict

-- `show_message` gives the text of a message.
module _ (env : Env) (show_message : Message → String) (today : ℕ) where
  abbrev justification_of : String → String
  justification_of day =
      concat "Automatic T-30 lock — sitting_date "
        (concat day (concat " is within 30 days of " (concat (env.iso_date today) ".")))

  -- The audit row of a refused lock.
  unfoldable pub record_skip : Sitting → Code → Message → Trail → Trail
  unfolding record_event code_text
  record_skip s code message t =
      let entry : Entry = record {
        actor_id = none;
        action = "SITTING_T30_LOCK_SKIPPED";
        entity_type = "sitting";
        entity_id = s.ref;
        old_state = none;
        new_state =
            some (("code", text (code_text code)) ∷ ("message", text (show_message message)) ∷ []);
        request_id = none;
        ip_address = none;
      } in
      elim (record_event env entry t) [ ok t' ↦ t' | err _ ↦ t ]

  -- What follows the call of `lock_sitting`: `locked.append`, or one of the handlers.
  unfoldable pub settle : Cell → Trail → Outcome (Sitting × World) → Verdict × Cell × Trail
  settle c t (ok (s', w)) = (locked_now s'.ref, cell_of w, w.trail)
  settle c t (err (validation code message _)) =
      (skipped c.row.ref (code_text code) message, c, record_skip c.row code message t)
  settle c t (err (crash f)) = (failed c.row.ref f, c, t)

  -- The body of `try`, with its handlers, for one candidate.
  unfoldable pub try_lock : Cell → Trail → Verdict × Cell × Trail
  unfolding settle
  try_lock c t = elim (isoformat env.iso_date c.row.sitting_date) [
    | err f ↦ (failed c.row.ref f, c, t)
    | ok day ↦
        settle c t
          (lock_sitting env nobody c.row auto_lock (justification_of day) false (with_trail c t))
  ]

  unfoldable pub monitor_one : Cell → Trail → Verdict × Cell × Trail
  monitor_one c t =
      if is_candidate (today + lock_offset_days) c.row then try_lock c t else (untouched, c, t)

  -- The loop, over the cycles in the order of their dates.
  unfoldable pub monitor_t30_lock : List Cell → Trail → List Verdict × List Cell × Trail
  monitor_t30_lock [] t = ([], [], t)
  monitor_t30_lock (c ∷ cs) t =
      let (v, c', t1) = monitor_one c t in
      let (vs, cs', t2) = monitor_t30_lock cs t1 in (v ∷ vs, c' ∷ cs', t2)
