-- ===== src/ItemBank/Model.antt =====
-- apps/itembank/models.py: the rows of an item. Metadata has the types of its columns, which the
-- serializer of a draft has checked.
use nbes_backend.Base.{ℕ, String, Bool, true, false, Option, List, ℤ}

-- `Item.Status`
pub data Status : Type 0 where
  draft submitted in_review reviewed revised : Status
  moderation_panel approved rejected locked_for_use : Status

-- The metadata columns of an item; marks are in hundredths.
pub record Metadata : Type 0 where
  pub item_type : String
  pub subject : Option String
  pub topic : Option String
  pub cognitive_level : Option String
  pub difficulty : Option String
  pub marks : Option ℤ
  pub time : Option ℤ
  pub source : Option String
  pub blueprint_ref : Option String

pub record Item : Type 0 where
  pub id : ℕ
  pub status : Status
  pub metadata : Metadata
  pub author_id : ℕ
  pub assigned_reviewer_id : Option ℕ
  pub current_version_id : Option ℕ

-- `metadata_snapshot`, with all the keys that the services write.
pub record Snapshot : Type 0 where
  pub subject : Option String
  pub topic : Option String
  pub cognitive_level : Option String
  pub difficulty : Option String
  pub marks : Option String
  pub time : Option ℤ
  pub source : Option String
  pub blueprint_ref : Option String
  pub schema_version : Option ℕ

pub record ItemVersion : Type 0 where
  pub id : ℕ
  pub version_no : ℕ
  pub content : String
  pub metadata_snapshot : Snapshot
  pub asset_refs : List String
  pub saved_by : ℕ

pub record ItemComment : Type 0 where
  pub id : ℕ
  pub item_version_id : ℕ
  pub anchor_path : String
  pub body : String
  pub resolved : Bool
  pub created_by : ℕ

pub record ItemTransition : Type 0 where
  pub from_state : Status
  pub to_state : Status
  pub actor_id : ℕ
  pub justification : String
  pub occurred_at : ℕ

pub record PanelVote : Type 0 where
  pub panellist_id : ℕ
  pub vote : String
  pub justification : String

-- A row of the user table: `keycloak_sub` is the subject that a token carries.
pub record User : Type 0 where
  pub id : ℕ
  pub keycloak_sub : Option ℕ
  -- `str` of the row
  pub shown : String

-- A row of the committee's register, as far as the item bank reads it.
pub record Member : Type 0 where
  pub id : ℕ
  pub keycloak_sub : ℕ
  pub is_active : Bool

-- The stored value of each status.
unfoldable pub status_text : Status → String
status_text draft = "Draft"
status_text submitted = "Submitted"
status_text in_review = "In Review"
status_text reviewed = "Reviewed"
status_text revised = "Revised"
status_text moderation_panel = "Moderation Panel"
status_text approved = "Approved"
status_text rejected = "Rejected"
status_text locked_for_use = "Locked for Use"

-- `item.status in [DRAFT, REVISED]`
unfoldable pub is_editable : Status → Bool
is_editable draft = true
is_editable revised = true
is_editable _ = false
