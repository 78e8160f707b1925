-- ===== src/SittingApp/Snapshot.antt =====
-- `get_sitting_snapshot` and `_build_live_snapshot` of services.py: what the later
-- phases read of a cycle, live before the lock and frozen after it.
use nbes_backend.Base.{String, Option, none, some, List, [], ◌∷◌, map, if◌then◌else◌, ok}
use nbes_backend.Base.Fallible.{◌>>=◌}
use nbes_backend.Python.{Value, null, text, decimal, date, is_null, isoformat, list_of}
use nbes_backend.Env.{Env}
use nbes_backend.SittingApp.Model.{
  Sitting, SubjectPaper, PaperSnapshot, Snapshot, After, whole, amended, Kind, auto_lock,
  resolution_amend, SittingLockEvent, is_locked, status_text,
}
use nbes_backend.SittingApp.World.{World, Outcome, or_crash}

module _ (env : Env) where
  -- `_snapshot_value`
  unfoldable pub snapshot_value : Value → Value
  snapshot_value (decimal d) = text (env.str_value (decimal d))
  snapshot_value (date d) = text (env.iso_date d)
  snapshot_value null = null
  snapshot_value v = v

  -- `_decimal_str`
  unfoldable pub decimal_str : Value → Option String
  decimal_str v = if is_null v then none else some (env.str_value v)

  abbrev optional {ℓ} : {A : Type ℓ} → (A → String) → Option A → Option String
  optional render none = none
  optional render (some a) = some (render a)

  unfoldable pub paper_snapshot : SubjectPaper → PaperSnapshot
  paper_snapshot p = record {
    id = env.str_uuid p.id;
    subject_code = p.subject_code;
    subject_name = p.subject_name;
    mode = p.mode;
    total_marks = p.total_marks;
    pass_mark = env.str_value (decimal p.pass_mark);
    duration_minutes = p.duration_minutes;
    sections = p.sections;
    normalisation_method = p.normalisation_method;
    normalisation_params = p.normalisation_params;
    blueprint_version_id = optional env.str_uuid p.blueprint_version_id;
  }

  -- `_build_live_snapshot`: the dates of the instance must be dates.
  unfoldable pub build_live_snapshot : Sitting → List SubjectPaper → Outcome Snapshot
  build_live_snapshot s papers = do
    start ← or_crash (isoformat env.iso_date s.sitting_date)
    end ← or_crash (isoformat env.iso_date s.sitting_end_date)
    centres ← or_crash (list_of s.centres)
    ok (record {
      ref = s.ref;
      status = status_text s.status;
      sitting_date = start;
      sitting_end_date = end;
      pass_rule = s.pass_rule;
      pass_mark = decimal_str s.pass_mark;
      pass_band = (decimal_str s.pass_band_min, decimal_str s.pass_band_max);
      compensation =
          (decimal_str s.compensated_min_per_paper, decimal_str s.compensated_aggregate_floor);
      normalisation_method = s.normalisation_method;
      centres = centres;
      locked_at = optional env.iso_datetime s.locked_at;
      approved_at = optional env.iso_datetime s.approved_at;
      approved_via_meeting_id = optional env.str_uuid s.approved_via_meeting_id;
      papers = map paper_snapshot papers;
    })

-- The snapshot that one event gives in the loop of `get_sitting_snapshot`, by its kind: a chair
-- amendment gives none, nor does an `after_snapshot` without a "snapshot" under a resolution. A
-- whole snapshot and a dict of changes are told apart by the keys that the code reads.
unfoldable pub event_snapshot : Kind → After → Option Snapshot
event_snapshot auto_lock (whole s) = some s
event_snapshot resolution_amend (amended changes s) = some s
event_snapshot _ _ = none

-- The first event, newest first, that bears a snapshot.
unfoldable pub frozen_snapshot : List SittingLockEvent → Option Snapshot
frozen_snapshot [] = none
frozen_snapshot (e ∷ es) = elim (event_snapshot e.kind e.after_snapshot) [
  | some s ↦ some s
  | none ↦ frozen_snapshot es
]

-- `get_sitting_snapshot` on the tables of an existing cycle
unfoldable pub get_sitting_snapshot : Env → World → Outcome Snapshot
get_sitting_snapshot env w =
    if is_locked w.row
    then elim (frozen_snapshot w.lock_events) [
      | some s ↦ ok s
      | none ↦ build_live_snapshot env w.row w.papers
    ]
    else build_live_snapshot env w.row w.papers
