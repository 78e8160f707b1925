-- ===== src/Committee/Tests.antt =====
-- A meeting that goes through its whole life, and the theorems about meetings at it.
use nbes_backend.Base.{◌≡◌, refl, true, none, some, List, [], ◌∷◌, ok, err}
use nbes_backend.Events.{infer_topic, outbox_row}
use nbes_backend.Audit.{is_state_change, publish, payload_of, record_atomic, record_event}
use nbes_backend.SittingApp.World.{Caller}
use nbes_backend.SittingApp.Fixtures.{demo, chair, empty_trail}
use nbes_backend.Committee.Model.{
  Meeting, draft, ordinary, minuted, Minutes, status_text, type_text, get_meeting_type_display,
}
use nbes_backend.Committee.World.{Tables, uuid4, publish_event, audit}
use nbes_backend.Committee.Attendance.{fresh_of, distinct, set_size}
use nbes_backend.Committee.Meetings.{
  quorum_met, last_version, save_status, save_signature, sign, create_minutes, record_schedule,
  schedule_meeting, publish_agenda, record_attendance, convene_meeting, adjourn_meeting,
  sign_minutes, issue_addendum,
}
use nbes_backend.Committee.Requests.{
  Request, agenda, attendance, convene, adjourn, sign_off, addendum, sign_found, amend_found,
  handle_meeting, serve_meeting_one, serve_meeting,
}
use nbes_backend.Committee.Contract.{Recorded, handle_meeting-Recorded}
use nbes_backend.Committee.History.{IsProper, meeting-IsProper, minutes_sealed}

abbrev plan_data : Meeting
plan_data = record {
  id = 0;
  reference = "NBEC-1";
  meeting_type = ordinary;
  scheduled_date = 40;
  venue = "";
  status = draft;
  quorum_required = 1;
  attendees = [];
  chair_id = some 7;
  secretariat_id = none;
  convened_at = none;
  adjourned_at = none;
}

abbrev planned : Tables
planned = elim (schedule_meeting demo chair plan_data empty_trail) [
  | ok w ↦ w
  | err e ↦ record {
    meeting = plan_data;
    agendas = [];
    minutes = none;
    addenda = [];
    action_items = [];
    trail = empty_trail;
  }
]

abbrev held_meeting : List (Caller × Request)
held_meeting =
    (chair, agenda [] "")
    ∷ (chair, attendance (7 ∷ 8 ∷ []))
    ∷ (chair, convene)
    ∷ (chair, adjourn)
    ∷ (chair, sign_off "SIG")
    ∷ []

abbrev follow_up : List (Caller × Request)
follow_up =
    (chair, addendum "A correction." "") ∷ (chair, sign_off "again") ∷ (chair, agenda [] "") ∷ []

unfoldable run_meeting : List (Caller × Request) → Tables
unfolding infer_topic outbox_row is_state_change publish payload_of record_atomic record_event
    status_text type_text get_meeting_type_display uuid4 publish_event audit fresh_of distinct
    set_size quorum_met last_version save_status save_signature sign create_minutes record_schedule
    schedule_meeting publish_agenda record_attendance convene_meeting adjourn_meeting sign_minutes
    issue_addendum sign_found amend_found handle_meeting serve_meeting_one serve_meeting
run_meeting requests = serve_meeting demo requests planned

becomes_minuted : (run_meeting held_meeting).meeting.status ≡ minuted
unfolding run_meeting
becomes_minuted = refl

attends_once : (run_meeting held_meeting).meeting.attendees ≡ "u" ∷ []
unfolding run_meeting
attends_once = refl

handle_meeting-Recorded_example :
    Recorded demo chair planned (serve_meeting_one demo (chair, attendance (7 ∷ [])) planned)
unfolding run_meeting
handle_meeting-Recorded_example =
    handle_meeting-Recorded demo chair planned
      {w' = serve_meeting_one demo (chair, attendance (7 ∷ [])) planned} (attendance (7 ∷ [])) refl

meeting-IsProper_example : IsProper (serve_meeting demo held_meeting planned)
unfolding run_meeting
meeting-IsProper_example =
    meeting-IsProper demo chair plan_data empty_trail {w = planned} held_meeting refl

-- Signed minutes.
abbrev sealed_minutes : Minutes
sealed_minutes = record {
  id = 5;
  content = "Minutes";
  approved = true;
  approved_by_id = some 7;
  approved_at = some 60;
  document_ref = "";
  immutable_at = some 60;
  signature_ref = "SIG";
  archive_ref = "";
}

abbrev sealed_tables : Tables
sealed_tables = record planned {
  meeting = record plan_data { status = minuted; convened_at = some 50 };
  minutes = some sealed_minutes;
}

minutes_sealed_example : (serve_meeting demo follow_up sealed_tables).minutes ≡ some sealed_minutes
unfolding run_meeting
minutes_sealed_example = minutes_sealed demo follow_up sealed_tables sealed_minutes refl refl
