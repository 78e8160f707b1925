-- ===== src/SittingApp/TaskTests.antt =====
-- The scheduled tasks and the versions of blueprints on small tables.
use nbes_backend.Base.{◌≡◌, refl, String, some, none, List, [], ◌∷◌, ok, err, select}
use nbes_backend.Audit.{Trail}
use nbes_backend.Audit.Chain.{same}
use nbes_backend.SittingApp.Model.{Snapshot}
use nbes_backend.SittingApp.World.{Message}
use nbes_backend.SittingApp.Ready.{validate_sitting_complete_iff}
use nbes_backend.SittingApp.Snapshot.{build_live_snapshot}
use nbes_backend.SittingApp.Monitor.{
  Cell, cell_of, is_candidate, code_text, record_skip, settle, try_lock, monitor_one,
  monitor_t30_lock, locked_now,
}
use nbes_backend.SittingApp.Deadline.{
  EachMonitored, monitor_t30_lock-EachMonitored, ready_candidate_locks, stamped_row,
}
use nbes_backend.SittingApp.Reminders.{
  is_same_reminder, is_reminder, already_sent, was_sent, record_reminder, send_reminder,
}
use nbes_backend.SittingApp.Reminders.Once.{reminder_once}
use nbes_backend.SittingApp.Blueprint.{
  BlueprintVersion, BlueprintData, Versions, top_version, next_version, publish_blueprint_version,
  publish_blueprint_version-CountDown, is_of, CountDown,
}
use nbes_backend.SittingApp.Fixtures.{demo, chair, empty_trail, may, ready, held, after}

abbrev show_message : Message → String
show_message m = "m"

-- A ready cycle, one that is locked, and one without papers.
abbrev cells : List Cell
cells = cell_of ready ∷ cell_of held ∷ cell_of (record ready { papers = [] }) ∷ []

unfoldable run_monitor : List Cell → List Cell
unfolding after is_candidate code_text record_skip settle try_lock monitor_one monitor_t30_lock
    is_same_reminder is_reminder already_sent record_reminder send_reminder top_version next_version
    publish_blueprint_version
run_monitor cs = (monitor_t30_lock demo show_message 30 cs empty_trail).1

monitor_t30_lock-EachMonitored_example :
    EachMonitored demo 60 cells
      (monitor_t30_lock demo show_message 30 cells empty_trail).0
      (monitor_t30_lock demo show_message 30 cells empty_trail).1
monitor_t30_lock-EachMonitored_example =
    monitor_t30_lock-EachMonitored demo show_message 30 cells empty_trail

-- The snapshot of `ready` as the lock freezes it.
abbrev frozen_now : Snapshot
frozen_now = elim (build_live_snapshot demo (stamped_row 100 ready.row) ready.papers) [
  | ok s ↦ s
  | err e ↦ record {
    ref = "";
    status = "";
    sitting_date = "";
    sitting_end_date = "";
    pass_rule = may.pass_rule;
    pass_mark = none;
    pass_band = (none, none);
    compensation = (none, none);
    normalisation_method = may.pass_rule;
    centres = [];
    locked_at = none;
    approved_at = none;
    approved_via_meeting_id = none;
    papers = [];
  }
]

ready_candidate_locks_example :
    (monitor_one demo show_message 30 (cell_of ready) empty_trail).0 ≡ locked_now "BAR-2026-05"
unfolding run_monitor
ready_candidate_locks_example =
    ready_candidate_locks demo show_message 30 (cell_of ready) empty_trail frozen_now refl
      ((validate_sitting_complete_iff demo ready.row ready.papers).0 refl) refl

-- The trail after a reminder, forty-five days before.
abbrev reminded : Trail
reminded = elim (send_reminder demo (some may) 45 5 empty_trail) [
  | ok (_, t) ↦ t
  | err f ↦ empty_trail
]

reminder_once_example : send_reminder demo (some may) 45 5 reminded ≡ ok (was_sent, reminded)
unfolding run_monitor
reminder_once_example =
    reminder_once demo may 45 5 empty_trail {t' = reminded} may reminded refl same refl refl

abbrev blueprint : BlueprintData
blueprint = record {
  topic_coverage = none;
  cognitive_distribution = none;
  difficulty_distribution = none;
  sections = none;
  total_marks = none;
  tolerance = none;
  description = none;
}

abbrev no_versions : Versions
no_versions = record { versions = []; trail = empty_trail }

-- The first version of a subject.
abbrev first_version : BlueprintVersion
first_version = record {
  id = 0;
  subject_code = "LAW1";
  version_no = 1;
  topic_coverage = [];
  cognitive_distribution = [];
  difficulty_distribution = [];
  sections = [];
  total_marks = 100;
  tolerance = 50;
  description = "";
  published_at = some 100;
  published_by_id = some 7;
}

abbrev one_version : Versions
one_version = elim (publish_blueprint_version demo chair "LAW1" blueprint no_versions) [
  | ok (_, w) ↦ w
  | err f ↦ no_versions
]

publish_blueprint_version-CountDown_example :
    (one_version.versions ≡ first_version ∷ [])
    × ((subject : String) → CountDown (select (is_of subject) one_version.versions))
unfolding run_monitor
publish_blueprint_version-CountDown_example =
    publish_blueprint_version-CountDown demo chair "LAW1" blueprint no_versions first_version
      one_version refl (λ subject. tt)
