-- ===== src/Committee/Meetings.antt =====
-- The meeting services of apps/committee/services.py. A service takes the instances that its view
-- loaded.
use Prim.Native.String.{◌++◌ as concat}
use nbes_backend.Base.{
  ℕ, ◌+◌, String, Bool, true, false, not, Option, none, some, List, [], ◌∷◌, map, length, pos, leb,
  ltb, Result, ok, err, if◌then◌else◌,
}
use nbes_backend.Python.{text, number, Dict, database_error}
use nbes_backend.Env.{Env}
use nbes_backend.Audit.{Trail}
use nbes_backend.Transaction.{give, read, ◌>>=◌, ◌>>◌, change, raise_if}
use nbes_backend.SittingApp.World.{Caller}
use nbes_backend.Committee.Model.{
  Status, draft, agenda_issued, scheduled, convened, adjourned, minuted, Meeting, Agenda, Minutes,
  MinutesAddendum, ActionItem, status_text, type_text, get_meeting_type_display,
}
use nbes_backend.Committee.World.{
  Error, cannot_convene, cannot_adjourn, quorum_not_met, already_signed, unsigned, crash, Tables,
  Action, now, uuid4, publish_event, audit,
}
use nbes_backend.Committee.Attendance.{distinct, set_size}

-- `status in allowed` of `convene_meeting`
abbrev pub is_convenable : Status → Bool
is_convenable draft = true
is_convenable agenda_issued = true
is_convenable scheduled = true
is_convenable _ = false

abbrev pub is_draft : Status → Bool
is_draft draft = true
is_draft _ = false

abbrev pub is_convened : Status → Bool
is_convened convened = true
is_convened _ = false

abbrev pub is_adjourned : Status → Bool
is_adjourned adjourned = true
is_adjourned _ = false

-- `Meeting.quorum_met`
unfoldable pub quorum_met : Meeting → Bool
quorum_met m = leb m.quorum_required (set_size m.attendees)

-- The greatest version, `0` where there is none.
unfoldable pub last_version : List Agenda → ℕ
last_version [] = 0
last_version (a ∷ older) =
    let rest = last_version older in if ltb rest a.version then a.version else rest

-- The value of a column that is not null.
abbrev not_null : Option ℕ → Action ℕ
not_null none w = err (crash database_error)
not_null (some a) w = ok (a, w)

-- `meeting.save(update_fields=["status"])`
unfoldable pub save_status : Meeting → Action (Unit {0})
save_status m w =
    let r = w.meeting in ok (tt, record w { meeting = record r { status = m.status } })

-- The largest value of the version column.
abbrev max_version : ℕ
max_version = 32767

-- `minutes.save(update_fields=[...])` of `Minutes.sign`
unfoldable pub save_signature : Minutes → Action (Unit {0})
save_signature m w = elim w.minutes [
  | none ↦ err (crash database_error)
  | some r ↦ ok (
    tt,
    record w {
      minutes = some (record r {
        approved = m.approved;
        approved_by_id = m.approved_by_id;
        approved_at = m.approved_at;
        immutable_at = m.immutable_at;
        signature_ref = m.signature_ref;
      });
    },
  )
]

-- `Minutes.sign`
unfoldable pub sign : Option ℕ → String → Minutes → Action Minutes
sign chair_id signature_ref m = do
  raise_if m.approved already_signed
  time ← now
  let signed = record m {
    approved = true;
    approved_by_id = chair_id;
    approved_at = some time;
    immutable_at = some time;
    signature_ref = signature_ref;
  }
  save_signature signed
  give signed

-- `.filter(minutes__isnull=True).update(minutes=minutes)`
abbrev pub link : ℕ → ActionItem → ActionItem
link id a = elim a.minutes_id [ none ↦ record a { minutes_id = some id } | some _ ↦ a ]

-- `Minutes.objects.create`, which the one-to-one column refuses where there are minutes already.
unfoldable pub create_minutes : String → Action Minutes
create_minutes content w = elim w.minutes [
  | some _ ↦ err (crash database_error)
  | none ↦
      (do
        id ← uuid4
        let m : Minutes = record {
          id = id;
          content = content;
          approved = false;
          approved_by_id = none;
          approved_at = none;
          document_ref = "";
          immutable_at = none;
          signature_ref = "";
          archive_ref = "";
        }
        change (λ v. record v { minutes = some m })
        give m)
        w
]

module _ (env : Env) (caller : Caller) where
  -- What `schedule_meeting` writes after the row.
  unfoldable pub record_schedule : Meeting → Action (Unit {0})
  record_schedule m = do
    let date = text (env.iso_datetime m.scheduled_date)
    audit env caller "MEETING_SCHEDULED" "meeting" m.id none (
        some (
          ("reference", text m.reference)
          ∷ ("meeting_type", text (type_text m.meeting_type))
          ∷ ("scheduled_date", date)
          ∷ []))
    publish_event "MeetingScheduled" (
        ("meeting_id", text (env.str_uuid m.id))
        ∷ ("reference", text m.reference)
        ∷ ("scheduled_date", date)
        ∷ [])

  -- `data` comes from the create serializer; the columns that it does not name take their defaults.
  unfoldable pub schedule_meeting : Meeting → Trail → Result Error Tables
  schedule_meeting data' trail =
      let m = record data' {
        id = trail.fresh;
        status = draft;
        attendees = [];
        convened_at = none;
        adjourned_at = none;
      } in
      let empty : Tables = record {
        meeting = m;
        agendas = [];
        minutes = none;
        addenda = [];
        action_items = [];
        trail = record trail { fresh = trail.fresh + 1 };
      } in
      elim (record_schedule m empty) [ ok (_, w) ↦ ok w | err e ↦ err e ]

  unfoldable pub publish_agenda : Meeting → List Dict → String → Action Agenda
  publish_agenda m items document_ref = do
    last ← read (λ w. last_version w.agendas)
    raise_if (ltb max_version (last + 1)) (crash database_error)
    actor_id ← not_null caller.actor_id
    id ← uuid4
    time ← now
    let agenda : Agenda = record {
      id = id;
      version = last + 1;
      items = items;
      document_ref = document_ref;
      published_at = time;
      created_by_id = actor_id;
    }
    change (λ w. record w { agendas = agenda ∷ w.agendas })
    if is_draft m.status then save_status (record m { status = agenda_issued }) else give tt
    audit env caller "MEETING_AGENDA_PUBLISHED" "meeting" m.id none (
        some (
          ("agenda_version", number (pos agenda.version))
          ∷ ("item_count", number (pos (length items)))
          ∷ []))
    publish_event "MeetingAgendaPublished" (
        ("meeting_id", text (env.str_uuid m.id))
        ∷ ("agenda_id", text (env.str_uuid agenda.id))
        ∷ ("version", number (pos agenda.version))
        ∷ [])
    give agenda

  unfoldable pub record_attendance : Meeting → List ℕ → Action Meeting
  record_attendance m attendee_ids = do
    let done = record m { attendees = distinct (map env.str_uuid attendee_ids) }
    change
        (λ w. let r = w.meeting in record w { meeting = record r { attendees = done.attendees } })
    audit env caller "MEETING_ATTENDANCE_RECORDED" "meeting" done.id none
        (some (("attendee_count", number (pos (length attendee_ids))) ∷ []))
    give done

  unfoldable pub convene_meeting : Meeting → Action Meeting
  unfolding quorum_met
  convene_meeting m = do
    raise_if (not (is_convenable m.status)) (cannot_convene m.status)
    raise_if (not (quorum_met m)) (quorum_not_met (length m.attendees) m.quorum_required)
    time ← now
    let done = record m { status = convened; convened_at = some time }
    change (λ w.
        let r = w.meeting in
        record w { meeting = record r { status = done.status; convened_at = done.convened_at } })
    audit env caller "MEETING_CONVENED" "meeting" done.id
        (some (("status", text (status_text m.status)) ∷ []))
        (some (("status", text (status_text done.status)) ∷ []))
    publish_event "MeetingConvened" (("meeting_id", text (env.str_uuid done.id)) ∷ [])
    give done

  -- The text of the draft minutes.
  abbrev draft_content : Meeting → String
  draft_content m = concat "Draft minutes of " (
      concat m.reference (
        concat " (" (
          concat (get_meeting_type_display m.meeting_type)
            (concat ") held on " (concat (env.strftime m.scheduled_date) ".")))))

  unfoldable pub adjourn_meeting : Meeting → Action (Meeting × Minutes)
  adjourn_meeting m = do
    raise_if (not (is_convened m.status)) (cannot_adjourn m.status)
    time ← now
    let done = record m { status = adjourned; adjourned_at = some time }
    change (λ w.
        let r = w.meeting in
        record w { meeting = record r { status = done.status; adjourned_at = done.adjourned_at } })
    minutes ← create_minutes (draft_content done)
    audit env caller "MEETING_ADJOURNED" "meeting" done.id (some (("status", text "convened") ∷ []))
        (some (("status", text (status_text done.status)) ∷ []))
    publish_event "MeetingAdjourned" (("meeting_id", text (env.str_uuid done.id)) ∷ [])
    give (done, minutes)

  -- `meeting` is `minutes.meeting`, loaded with the minutes.
  unfoldable pub sign_minutes : Minutes → Meeting → String → Action Minutes
  sign_minutes minutes m signature_ref = do
    raise_if minutes.approved already_signed
    signed ← sign caller.actor_id signature_ref minutes
    if is_adjourned m.status then save_status (record m { status = minuted }) else give tt
    change (λ w. record w { action_items = map (link signed.id) w.action_items })
    audit env caller "MINUTES_SIGNED" "minutes" signed.id none (
        some (
          ("signed_at", text (elim signed.immutable_at [ none ↦ "" | some t ↦ env.iso_datetime t ]))
          ∷ ("signature_ref", text signature_ref)
          ∷ []))
    publish_event "MinutesSigned" (
        ("minutes_id", text (env.str_uuid signed.id))
        ∷ ("meeting_id", text (env.str_uuid m.id))
        ∷ [])
    give signed

  unfoldable pub issue_addendum : Minutes → String → String → Action MinutesAddendum
  issue_addendum minutes content document_ref = do
    raise_if (not minutes.approved) unsigned
    actor_id ← not_null caller.actor_id
    id ← uuid4
    time ← now
    let addendum : MinutesAddendum = record {
      id = id;
      content = content;
      issued_by_id = actor_id;
      issued_at = time;
      document_ref = document_ref;
    }
    change (λ w. record w { addenda = addendum ∷ w.addenda })
    audit env caller "MINUTES_ADDENDUM_ISSUED" "minutes" minutes.id none
        (some (("addendum_id", text (env.str_uuid id)) ∷ []))
    publish_event "MinutesAddendumIssued" (
        ("addendum_id", text (env.str_uuid id))
        ∷ ("minutes_id", text (env.str_uuid minutes.id))
        ∷ [])
    give addendum
