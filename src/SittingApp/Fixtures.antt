-- ===== src/SittingApp/Fixtures.antt =====
-- A small backend and a cycle that goes through its whole life, for the tests.
use nbes_backend.Base.{List, ok, ◌+ℤ◌, ℕ, String, none, some, true, false, [], ◌∷◌, ◌++◌, pos, err}
use nbes_backend.Python.{
  decimal_lt, decimal_gt, isoformat, get, list_of, null, text, number, decimal, date, listing, Dict,
}
use nbes_backend.Python.Text.{is_space, strip_left, strip_right, strip}
use nbes_backend.Events.{infer_topic, outbox_row}
use nbes_backend.Audit.{is_state_change, publish, payload_of, record_atomic, record_event, Trail}
use nbes_backend.SittingApp.Model.{
  is_locked, field_name, is_critical, getattr, setattr, status_text, kind_text, configured, locked,
  draft, Sitting, SubjectPaper,
}
use nbes_backend.SittingApp.World.{uuid4, publish_event, audit, World, Caller, Outcome}
use nbes_backend.SittingApp.Save.{
  clean_field, clean_fields, save, save_status, save_lock, save_approval,
}
use nbes_backend.SittingApp.Validate.{
  to_decimal, int_of, check_minimum, check_maximum, validate_pass_band, section_marks, sum_marks,
  sum_verdict, validate_paper_sections, validate_compensation, date_lt, collect, paper_reasons,
  papers_reasons, default_check, sitting_reasons, validate_sitting_complete,
}
use nbes_backend.SittingApp.Snapshot.{
  snapshot_value, decimal_str, paper_snapshot, build_live_snapshot, event_snapshot, frozen_snapshot,
  get_sitting_snapshot,
}
use nbes_backend.SittingApp.Lifecycle.{
  names_pass_mark, set_all, snapshot_fields, validate_named_mark, record_creation, create_sitting,
  update_sitting_draft, configure_sitting, approve_sitting, create_lock_event, ensure_lock_record,
  lock_open_sitting, lock_sitting, activate_sitting, close_sitting,
}
use nbes_backend.SittingApp.Papers.{
  apply_data, find_paper, store_paper, delete_paper, reopen, obtain_paper, old_paper_state,
  write_paper, add_or_update_paper, remove_paper,
}
use nbes_backend.SittingApp.Amend.{
  is_short, field_of, known_changes, unknown_names, reject_unknown, classify_changes,
  create_amendment, amend_non_critical, amend_critical_with_resolution,
}
use nbes_backend.SittingApp.Requests.{
  paper_by_id, remove_found, delete_sitting, call, handle, Request, update, put_paper, configure,
  approve, manual_lock, activate, close, amend,
}
use nbes_backend.SittingApp.Serve.{serve_one, serve}
use nbes_backend.Env.{Env}

abbrev pub demo : Env
demo = record {
  parse_decimal = λ s. none;
  parse_int = λ s. none;
  str_value = λ v. "v";
  iso_date = λ d. "d";
  iso_datetime = λ t. "t";
  str_uuid = λ u. "u";
  role_name = λ s. s;
  user_has_sub = true;
  parse_uuid = λ s. none;
  parse_float = λ s. some (pos 200);
  strftime = λ t. "t";
  dumps = λ l. "j";
  str_blueprint = λ b. "b";
  clean = λ f v. some v;
  seal = λ previous payload. previous;
}

abbrev pub chair : Caller
chair = record { actor_id = some 7; request_id = some 1; ip_address = none }

abbrev pub empty_trail : Trail
empty_trail = record {
  events = [];
  outbox = [];
  fresh = 0;
  clock = 100;
  local = record { request_id = some 1; traceparent = none; tracestate = none };
}

abbrev pub may : Sitting
may = record {
  ref = "BAR-2026-05";
  sitting_date = date 50;
  sitting_end_date = date 55;
  status = draft;
  pass_mark = decimal (pos 5000);
  pass_band_min = decimal (pos 4000);
  pass_band_max = decimal (pos 7000);
  pass_rule = text "all_pass";
  compensated_min_per_paper = null;
  compensated_aggregate_floor = null;
  normalisation_method = text "";
  centres = listing [];
  created_by_id = none;
  locked_at = none;
  approved_at = none;
  approved_via_meeting_id = none;
}

abbrev pub given : Outcome World → World
given (ok w) = w
given (err e) = record {
  row = may;
  papers = [];
  lock_events = [];
  lock_record = none;
  is_deleted = false;
  trail = empty_trail;
}

abbrev pub paper : String → Request
paper code = put_paper (record {
  subject_code = code;
  subject_name = none;
  mode = none;
  total_marks = none;
  pass_mark = none;
  duration_minutes = none;
  sections = some ((("marks", number (pos 60)) ∷ []) ∷ (("marks", number (pos 40)) ∷ []) ∷ []);
  normalisation_method = none;
  normalisation_params = none;
  blueprint_version = some (some 3);
})

abbrev pub paper_row : ℕ → String → SubjectPaper
paper_row id code = record {
  id = id;
  subject_code = code;
  subject_name = code;
  mode = "cbt";
  total_marks = 100;
  pass_mark = pos 5000;
  duration_minutes = 180;
  sections = [];
  normalisation_method = "none";
  normalisation_params = [];
  blueprint_version_id = some 3;
}

-- A cycle as its approval leaves it.
abbrev pub ready : World
ready = record {
  row = record may { status = configured; approved_at = some 90; approved_via_meeting_id = some 9 };
  papers =
      paper_row 1 "LAW1"
      ∷ paper_row 2 "LAW2"
      ∷ paper_row 3 "LAW3"
      ∷ paper_row 4 "LAW4"
      ∷ paper_row 5 "LAW5"
      ∷ [];
  lock_events = [];
  lock_record = none;
  is_deleted = false;
  trail = empty_trail;
}

-- A locked one.
abbrev pub held : World
held = record ready {
  row = record may { status = locked; approved_at = some 90; locked_at = some 95 };
}

abbrev pub preparing : List (Caller × Request)
preparing =
    (chair, paper "LAW1")
    ∷ (chair, paper "LAW2")
    ∷ (chair, paper "LAW3")
    ∷ (chair, paper "LAW4")
    ∷ (chair, paper "LAW5")
    ∷ (chair, configure)
    ∷ (chair, approve 9)
    ∷ []

abbrev pub locking : List (Caller × Request)
locking = preparing ++ (chair, manual_lock "") ∷ []

abbrev pub centre_change : Dict
centre_change = ("centres", listing ("C1" ∷ [])) ∷ []

abbrev pub afterwards : List (Caller × Request)
afterwards =
    (chair, amend centre_change "A new centre was added.")
    ∷ (chair, update [])
    ∷ (chair, activate)
    ∷ (chair, amend centre_change "A new centre was added.")
    ∷ (chair, close)
    ∷ []

abbrev pub created : World
created = given (create_sitting demo chair may empty_trail)

-- Everything that a run computes with.
unfoldable pub after : List (Caller × Request) → World
unfolding decimal_lt decimal_gt isoformat get list_of is_space strip_left strip_right strip
    infer_topic outbox_row is_state_change publish payload_of record_atomic record_event is_locked
    field_name is_critical getattr setattr status_text kind_text uuid4 publish_event audit
    clean_field clean_fields save save_status save_lock save_approval to_decimal int_of
    check_minimum check_maximum validate_pass_band section_marks sum_marks sum_verdict
    validate_paper_sections validate_compensation date_lt collect paper_reasons papers_reasons
    default_check sitting_reasons validate_sitting_complete snapshot_value decimal_str
    paper_snapshot build_live_snapshot event_snapshot frozen_snapshot get_sitting_snapshot
    names_pass_mark set_all snapshot_fields validate_named_mark record_creation create_sitting
    update_sitting_draft configure_sitting approve_sitting create_lock_event ensure_lock_record
    lock_open_sitting lock_sitting activate_sitting close_sitting apply_data find_paper store_paper
    delete_paper reopen obtain_paper old_paper_state write_paper add_or_update_paper remove_paper
    is_short field_of known_changes unknown_names reject_unknown classify_changes create_amendment
    amend_non_critical amend_critical_with_resolution paper_by_id remove_found delete_sitting call
    handle serve_one serve ◌+ℤ◌
after requests = serve demo requests (given (create_sitting demo chair may empty_trail))
