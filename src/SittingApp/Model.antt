-- ===== src/SittingApp/Model.antt =====
-- models.py: the rows of the app. Fields that a request may set through
-- `setattr` hold whatever value the request carried until the row is saved.
use nbes_backend.Base.{ℕ, String, Bool, true, false, Option, List, ℤ}
use nbes_backend.Python.{Value, Dict}

-- `Status`
pub data Status : Type 0 where
  draft configured locked active closed : Status

-- The fields of the cycle that a draft edit or an amendment may name: the sets
-- CRITICAL_SITTING_FIELDS and NON_CRITICAL_SITTING_FIELDS of services.py together.
pub data Field : Type 0 where
  pass_mark pass_rule pass_band_min pass_band_max : Field
  compensated_min_per_paper compensated_aggregate_floor : Field
  sitting_date sitting_end_date normalisation_method centres : Field

pub record Sitting : Type 0 where
  pub ref : String
  pub sitting_date : Value
  pub sitting_end_date : Value
  pub status : Status
  pub pass_mark : Value
  pub pass_band_min : Value
  pub pass_band_max : Value
  pub pass_rule : Value
  pub compensated_min_per_paper : Value
  pub compensated_aggregate_floor : Value
  pub normalisation_method : Value
  pub centres : Value
  pub created_by_id : Option ℕ
  pub locked_at : Option ℕ
  pub approved_at : Option ℕ
  pub approved_via_meeting_id : Option ℕ

-- `is_locked`
unfoldable pub is_locked : Sitting → Bool
is_locked s = elim s.status [
  | draft ↦ false
  | configured ↦ false
  | locked ↦ true
  | active ↦ true
  | closed ↦ true
]

-- `is_amendable`
unfoldable pub is_amendable : Sitting → Bool
is_amendable s = elim s.status [
  | draft ↦ true
  | configured ↦ true
  | locked ↦ false
  | active ↦ false
  | closed ↦ false
]

-- `SubjectPaper`; a section is a JSON object.
pub record SubjectPaper : Type 0 where
  pub id : ℕ
  pub subject_code : String
  pub subject_name : String
  pub mode : String
  pub total_marks : ℕ
  pub pass_mark : ℤ
  pub duration_minutes : ℕ
  pub sections : List Dict
  pub normalisation_method : String
  pub normalisation_params : Dict
  pub blueprint_version_id : Option ℕ

-- One entry of "papers" in a snapshot.
pub record PaperSnapshot : Type 0 where
  pub id : String
  pub subject_code : String
  pub subject_name : String
  pub mode : String
  pub total_marks : ℕ
  pub pass_mark : String
  pub duration_minutes : ℕ
  pub sections : List Dict
  pub normalisation_method : String
  pub normalisation_params : Dict
  pub blueprint_version_id : Option String

-- The dict that `_build_live_snapshot` returns.
pub record Snapshot : Type 0 where
  pub ref : String
  pub status : String
  pub sitting_date : String
  pub sitting_end_date : String
  pub pass_rule : Value
  pub pass_mark : Option String
  pub pass_band : Option String × Option String
  pub compensation : Option String × Option String
  pub normalisation_method : Value
  pub centres : List String
  pub locked_at : Option String
  pub approved_at : Option String
  pub approved_via_meeting_id : Option String
  pub papers : List PaperSnapshot

-- `SittingLockEvent.Kind`
pub data Kind : Type 0 where
  auto_lock chair_amend resolution_amend : Kind

-- The three shapes that `after_snapshot` is given: a whole snapshot, the amended fields, or
-- {"changes": ..., "snapshot": ...}.
pub data After : Type 0 where
  whole : Snapshot → After
  changed : Dict → After
  amended : Dict → Snapshot → After

pub record SittingLockEvent : Type 0 where
  pub id : ℕ
  pub kind : Kind
  pub actor_id : Option ℕ
  pub justification : String
  pub resolution_ref : String
  pub affected_fields : List Field
  pub before_snapshot : Dict
  pub after_snapshot : After
  pub occurred_at : ℕ

pub record SittingLock : Type 0 where
  pub id : ℕ
  pub locked_at : ℕ
  pub locked_by : String
  pub override : Bool
  pub override_reason : String

-- The column's name.
unfoldable pub field_name : Field → String
field_name pass_mark = "pass_mark"
field_name pass_rule = "pass_rule"
field_name pass_band_min = "pass_band_min"
field_name pass_band_max = "pass_band_max"
field_name compensated_min_per_paper = "compensated_min_per_paper"
field_name compensated_aggregate_floor = "compensated_aggregate_floor"
field_name sitting_date = "sitting_date"
field_name sitting_end_date = "sitting_end_date"
field_name normalisation_method = "normalisation_method"
field_name centres = "centres"

-- `field in CRITICAL_SITTING_FIELDS`
unfoldable pub is_critical : Field → Bool
is_critical centres = false
is_critical _ = true

-- `getattr(instance, field)`
unfoldable pub getattr : Sitting → Field → Value
getattr s pass_mark = s.pass_mark
getattr s pass_rule = s.pass_rule
getattr s pass_band_min = s.pass_band_min
getattr s pass_band_max = s.pass_band_max
getattr s compensated_min_per_paper = s.compensated_min_per_paper
getattr s compensated_aggregate_floor = s.compensated_aggregate_floor
getattr s sitting_date = s.sitting_date
getattr s sitting_end_date = s.sitting_end_date
getattr s normalisation_method = s.normalisation_method
getattr s centres = s.centres

-- `setattr(instance, field, value)`
unfoldable pub setattr : Field → Value → Sitting → Sitting
setattr pass_mark v s = record s { pass_mark = v }
setattr pass_rule v s = record s { pass_rule = v }
setattr pass_band_min v s = record s { pass_band_min = v }
setattr pass_band_max v s = record s { pass_band_max = v }
setattr compensated_min_per_paper v s = record s { compensated_min_per_paper = v }
setattr compensated_aggregate_floor v s = record s { compensated_aggregate_floor = v }
setattr sitting_date v s = record s { sitting_date = v }
setattr sitting_end_date v s = record s { sitting_end_date = v }
setattr normalisation_method v s = record s { normalisation_method = v }
setattr centres v s = record s { centres = v }

-- The stored value of each choice.
unfoldable pub status_text : Status → String
status_text draft = "draft"
status_text configured = "configured"
status_text locked = "locked"
status_text active = "active"
status_text closed = "closed"

unfoldable pub kind_text : Kind → String
kind_text auto_lock = "auto_lock"
kind_text chair_amend = "chair_amend"
kind_text resolution_amend = "resolution_amend"
