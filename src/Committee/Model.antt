-- ===== src/Committee/Model.antt =====
-- apps/committee/models.py: the rows of a meeting.
use nbes_backend.Base.{ℕ, String, Bool, Option, List}
use nbes_backend.Python.{Dict}

-- `Meeting.Status`
pub data Status : Type 0 where
  draft agenda_issued scheduled convened adjourned minuted : Status

-- `Meeting.MeetingType`
pub data MeetingType : Type 0 where
  ordinary extraordinary closed_meeting : MeetingType

-- Attendees are the texts of identifiers.
pub record Meeting : Type 0 where
  pub id : ℕ
  pub reference : String
  pub meeting_type : MeetingType
  pub scheduled_date : ℕ
  pub venue : String
  pub status : Status
  pub quorum_required : ℕ
  pub attendees : List String
  pub chair_id : Option ℕ
  pub secretariat_id : Option ℕ
  pub convened_at : Option ℕ
  pub adjourned_at : Option ℕ

pub record Agenda : Type 0 where
  pub id : ℕ
  pub version : ℕ
  pub items : List Dict
  pub document_ref : String
  pub published_at : ℕ
  pub created_by_id : ℕ

pub record Minutes : Type 0 where
  pub id : ℕ
  pub content : String
  pub approved : Bool
  pub approved_by_id : Option ℕ
  pub approved_at : Option ℕ
  pub document_ref : String
  pub immutable_at : Option ℕ
  pub signature_ref : String
  pub archive_ref : String

pub record MinutesAddendum : Type 0 where
  pub id : ℕ
  pub content : String
  pub issued_by_id : ℕ
  pub issued_at : ℕ
  pub document_ref : String

-- `minutes_id` is the link that `sign_minutes` sets.
pub record ActionItem : Type 0 where
  pub id : ℕ
  pub minutes_id : Option ℕ
  pub description : String

-- The stored value of each choice, and the label of each type.
unfoldable pub status_text : Status → String
status_text draft = "draft"
status_text agenda_issued = "agenda_issued"
status_text scheduled = "scheduled"
status_text convened = "convened"
status_text adjourned = "adjourned"
status_text minuted = "minuted"

unfoldable pub get_meeting_type_display : MeetingType → String
get_meeting_type_display ordinary = "Ordinary"
get_meeting_type_display extraordinary = "Extraordinary"
get_meeting_type_display closed_meeting = "Closed"

unfoldable pub type_text : MeetingType → String
type_text ordinary = "ordinary"
type_text extraordinary = "extraordinary"
type_text closed_meeting = "closed"
