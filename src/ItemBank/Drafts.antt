-- ===== src/ItemBank/Drafts.antt =====
-- Drafts, submission, versions and suggestions, in apps/itembank/services.py, and the guard
-- `has_mandatory_metadata` of workflow/guards.py.
use nbes_backend.Base.{
  ℕ, ◌+◌, ◌==◌, String, Bool, true, not, ◌&&◌, Option, none, some, List, [], ◌∷◌, ℤ, pos, eqb_ℤ,
  Result, ok, err, str_eq, ltb, if◌then◌else◌,
}
use nbes_backend.Python.{field_error, text, number, decimal, value_error}
use nbes_backend.Python.Text.{codes, strip, is_empty}
use nbes_backend.Env.{Env}
use nbes_backend.Audit.{Trail}
use nbes_backend.Transaction.{read, ◌>>=◌, ◌>>◌, change, raise_if}
use nbes_backend.Committee.Conflicts.{ConflictDeclaration}
use nbes_backend.ItemBank.Model.{
  Status, draft, submitted, moderation_panel, Metadata, Item, Snapshot, ItemVersion, User, Member,
  status_text, is_editable,
}
use nbes_backend.ItemBank.World.{
  Error, does_not_exist, user_not_found, version_not_found, not_editable, cannot_submit,
  cannot_restore, metadata_missing, not_author, crash, Tables, Action, find_user, or_raise, user_of,
  uuid4, save_status, create_transition, subject, audit,
}

-- The validated data of the draft serializer; `none` is a key that is absent.
pub record DraftData : Type 0 where
  pub content : Option String
  pub asset_refs : Option (List String)
  pub item_type : Option String
  pub subject : Option String
  pub topic : Option String
  pub cognitive_level : Option String
  pub difficulty : Option String
  pub marks : Option (Option ℤ)
  pub time : Option (Option ℤ)
  pub source : Option String
  pub blueprint_ref : Option String

abbrev pub given_or {ℓ} : {A : Type ℓ} → Option A → A → A
given_or none d = d
given_or (some a) d = a

abbrev pub text_or : Option String → Option String → Option String
text_or none d = d
text_or (some s) d = some s

-- `for key, value in data.items(): setattr(item, key, value)`
unfoldable pub apply_draft : DraftData → Metadata → Metadata
apply_draft d m = record {
  item_type = given_or d.item_type m.item_type;
  subject = text_or d.subject m.subject;
  topic = text_or d.topic m.topic;
  cognitive_level = text_or d.cognitive_level m.cognitive_level;
  difficulty = text_or d.difficulty m.difficulty;
  marks = given_or d.marks m.marks;
  time = given_or d.time m.time;
  source = text_or d.source m.source;
  blueprint_ref = text_or d.blueprint_ref m.blueprint_ref;
}

-- The columns of a new item that the data does not name.
abbrev pub blank : Metadata
blank = record {
  item_type = "mcq";
  subject = none;
  topic = none;
  cognitive_level = none;
  difficulty = none;
  marks = none;
  time = none;
  source = none;
  blueprint_ref = none;
}

-- `value in (None, "", 0)` after `strip`, the three kinds of column apart.
abbrev pub is_blank_text : Option String → Bool
is_blank_text none = true
is_blank_text (some s) = is_empty (strip (codes s))

abbrev pub is_zero : Option ℤ → Bool
is_zero none = true
is_zero (some n) = eqb_ℤ n (pos 0)

-- `has_mandatory_metadata`
unfoldable pub has_mandatory_metadata : Metadata → Bool
has_mandatory_metadata m =
    not (is_blank_text m.blueprint_ref)
    && (not (is_blank_text m.subject)
        && (not (is_blank_text m.topic)
            && (not (is_blank_text m.difficulty)
                && (not (is_blank_text m.cognitive_level)
                    && (not (is_zero m.marks)
                        && (not (is_zero m.time) && not (is_blank_text m.source)))))))

-- The greatest version number, with its version; `none` where there is none.
unfoldable pub last_version : List ItemVersion → Option ItemVersion
last_version [] = none
last_version (v ∷ vs) = elim (last_version vs) [
  | none ↦ some v
  | some u ↦ if ltb v.version_no u.version_no then some u else some v
]

abbrev pub next_no : Option ItemVersion → ℕ
next_no none = 1
next_no (some v) = v.version_no + 1

-- `item.versions.get(id=version_id)`
unfoldable pub find_version : ℕ → List ItemVersion → Option ItemVersion
find_version id [] = none
find_version id (v ∷ vs) = if v.id == id then some v else find_version id vs

abbrev pub content_of : Option ItemVersion → String
content_of none = ""
content_of (some v) = v.content

abbrev pub refs_of : Option ItemVersion → List String
refs_of none = []
refs_of (some v) = v.asset_refs

-- The columns that a restore takes from a snapshot.
abbrev pub restored : Snapshot → Option ℤ → Metadata → Metadata
restored s marks m = record m {
  subject = s.subject;
  topic = s.topic;
  cognitive_level = s.cognitive_level;
  difficulty = s.difficulty;
  marks = marks;
  time = s.time;
  source = s.source;
  blueprint_ref = s.blueprint_ref;
}

abbrev pub submit_target : Status → Status
submit_target draft = submitted
submit_target _ = moderation_panel

module _ (env : Env) where
  abbrev marks_text : Option ℤ → Option String
  marks_text none = none
  marks_text (some d) = some (env.str_value (decimal d))

  -- `metadata_snapshot`
  abbrev pub snapshot_of : Metadata → Option ℕ → Snapshot
  snapshot_of m schema = record {
    subject = m.subject;
    topic = m.topic;
    cognitive_level = m.cognitive_level;
    difficulty = m.difficulty;
    marks = marks_text m.marks;
    time = m.time;
    source = m.source;
    blueprint_ref = m.blueprint_ref;
    schema_version = schema;
  }

  -- `ItemVersion.objects.create`, and the link of the item to it.
  unfoldable pub add_version : ℕ → String → Snapshot → List String → ℕ → Action (Unit {0})
  add_version version_no content snapshot asset_refs saved_by = do
    id ← uuid4
    let v : ItemVersion = record {
      id = id;
      version_no = version_no;
      content = content;
      metadata_snapshot = snapshot;
      asset_refs = asset_refs;
      saved_by = saved_by;
    }
    change (λ w.
        let i = w.item in
        record w { versions = v ∷ w.versions; item = record i { current_version_id = some id } })

  -- `create_or_update_item_draft` without an item: the tables of the new item. The serializer gives
  -- the content.
  unfoldable pub record_draft : ℕ → DraftData → User → Action (Unit {0})
  record_draft sub d author = do
    id ← read (λ w. w.item.id)
    audit env (subject sub) "ITEM_DRAFT_CREATED" "item" id none
        (some (("status", text (status_text draft)) ∷ []))
    metadata ← read (λ w. w.item.metadata)
    schema ← read (λ w. w.schema)
    add_version 1 (given_or d.content "") (snapshot_of metadata schema) (given_or d.asset_refs [])
        author.id

  unfoldable pub create_item_draft :
      ℕ
      → DraftData
      → List User
      → List Member
      → List ConflictDeclaration
      → Option ℕ
      → Trail
      → Result Error Tables
  unfolding find_user
  create_item_draft sub d users members conflicts schema trail =
      let make = λ (author : User).
        (let i : Item = record {
          id = trail.fresh;
          status = draft;
          metadata = apply_draft d blank;
          author_id = author.id;
          assigned_reviewer_id = none;
          current_version_id = none;
        } in
          let empty : Tables = record {
            item = i;
            versions = [];
            comments = [];
            transitions = [];
            votes = [];
            users = users;
            members = members;
            conflicts = conflicts;
            schema = schema;
            notices = [];
            trail = record trail { fresh = trail.fresh + 1 };
          } in
          empty) in
      let of_author : Option User → Result Error Tables = λ o. elim o [
        | none ↦ err user_not_found
        | some author ↦ elim (record_draft sub d author (make author)) [
          | ok (_, w) ↦ ok w
          | err e ↦ err e
        ]
      ] in
      if env.user_has_sub then of_author (find_user sub users) else err (crash field_error)

  -- The same with an item: an autosave.
  unfoldable pub update_item_draft : ℕ → DraftData → Action (Unit {0})
  update_item_draft sub d = do
    author ← user_of env sub user_not_found
    item ← read (λ w. w.item)
    raise_if (not (item.author_id == author.id)) does_not_exist
    raise_if (not (is_editable item.status)) (not_editable item.status)
    last ← read (λ w. last_version w.versions)
    change (λ w.
        let i = w.item in record w { item = record i { metadata = apply_draft d i.metadata } })
    metadata ← read (λ w. w.item.metadata)
    schema ← read (λ w. w.schema)
    add_version (next_no last) (given_or d.content (content_of last)) (snapshot_of metadata schema)
        (given_or d.asset_refs (refs_of last)) author.id

  abbrev submit_note : Status → String
  submit_note draft = "Item submitted for peer review"
  submit_note _ = "Revised item submitted to moderation panel"

  unfoldable pub submit_item_for_review : ℕ → Action (Unit {0})
  submit_item_for_review sub = do
    author ← user_of env sub user_not_found
    item ← read (λ w. w.item)
    raise_if (not (item.author_id == author.id)) does_not_exist
    raise_if (not (is_editable item.status)) (cannot_submit item.status)
    raise_if (not (has_mandatory_metadata item.metadata)) metadata_missing
    let target = submit_target item.status
    save_status target
    create_transition item.status target author.id (submit_note item.status)
    audit env (subject sub) "ITEM_SUBMITTED" "item" item.id
        (some (("status", text (status_text item.status)) ∷ []))
        (some (("status", text (status_text target)) ∷ []))

  -- `float(marks_val) if marks_val else None`
  unfoldable pub restored_marks : Option String → Result Error (Option ℤ)
  restored_marks none = ok none
  restored_marks (some s) =
      if str_eq s ""
      then ok none
      else elim (env.parse_float s) [ none ↦ err (crash value_error) | some d ↦ ok (some d) ]

  unfoldable pub restore_item_version : ℕ → ℕ → Action (Unit {0})
  unfolding restored_marks
  restore_item_version sub version_id = do
    user ← user_of env sub user_not_found
    item ← read (λ w. w.item)
    raise_if (not (item.author_id == user.id)) not_author
    raise_if (not (is_editable item.status)) (cannot_restore item.status)
    found ← read (λ w. find_version version_id w.versions)
    old ← or_raise version_not_found found
    last ← read (λ w. last_version w.versions)
    add_version (next_no last) old.content old.metadata_snapshot old.asset_refs user.id
    marks ←
        λ w. elim (restored_marks old.metadata_snapshot.marks) [ ok m ↦ ok (m, w) | err e ↦ err e ]
    change (λ w.
        let i = w.item in
        record w { item = record i { metadata = restored old.metadata_snapshot marks i.metadata } })
    audit env (subject sub) "ITEM_VERSION_RESTORED" "item" item.id none (
        some (
          ("restored_to_version", number (pos old.version_no))
          ∷ ("new_version_no", number (pos (next_no last)))
          ∷ []))
