-- ===== src/PaperBank/Construct.antt =====
-- `create_manual_paper`, `submit_paper_for_approval` and `log_vault_reads` of
-- apps/itembank/services.py.
use nbes_backend.Base.{
  ℕ, ◌+◌, ◌==◌, String, Bool, true, false, not, ◌&&◌, Option, none, some, List, [], ◌∷◌, map, any,
  str_eq, length, ℤ, pos, eqb_ℤ, ◌+ℤ◌, Result, ok, err, if◌then◌else◌,
}
use nbes_backend.Python.{Value, null, text, number, boolean, Dict}
use nbes_backend.Python.Text.{is_empty}
use nbes_backend.Env.{Env}
use nbes_backend.Audit.{Trail, Entry, record_event}
use nbes_backend.Transaction.{Call, give, read, ◌>>=◌, ◌>>◌, change}
use nbes_backend.ItemBank.Model.{Status, locked_for_use, Item, User}
use nbes_backend.PaperBank.Checks.{
  Settings, Section, ItemUsage, PaperError, duplicate_items, items_not_available, wrong_total,
  wrong_subject, cooling_down, paper_crash, validate_time_allocation, validate_blueprint,
  validate_sections, item_by_id, is_listed, recent_sittings, is_ref,
}

-- `Paper.Status`
pub data PaperStatus : Type 0 where
  paper_draft constructed ready_for_approval paper_approved paper_rejected : PaperStatus

pub record Variant : Type 0 where
  pub variant_no : ℕ
  pub item_ids : List ℕ
  pub total_marks : ℤ

pub record Paper : Type 0 where
  pub id : ℕ
  pub sitting_ref : String
  pub subject : String
  pub mode : String
  pub total_marks : ℤ
  pub time_limit : ℤ
  pub item_ids : List ℕ
  pub sections : List Section
  pub variants : List Variant
  pub blueprint_ref : String
  pub status : PaperStatus

pub record VaultAccess : Type 0 where
  pub item_id : ℕ
  pub actor_id : ℕ
  pub kind : String
  pub session_id : Option String
  pub ip : Option String

-- What the services read of the request: its session and its address, as texts.
pub record Context : Type 0 where
  pub session_id : Option String
  pub ip : Option String

-- Papers, usages and accesses newest first.
pub record Bank : Type 0 where
  pub items : List Item
  pub usages : List ItemUsage
  pub papers : List Paper
  pub accesses : List VaultAccess
  pub trail : Trail

abbrev pub Action : Type 0 → Type 0
Action = Call Bank PaperError

-- A check on values, within a service.
abbrev pub checked : {A : Type 0} → Result PaperError A → Action A
checked (ok a) b = ok (a, b)
checked (err e) b = err e

pub record ManualData : Type 0 where
  pub item_ids : List ℕ
  pub sitting_ref : String
  pub subject : String
  pub mode : String
  pub total_marks : ℤ
  pub time_limit : ℤ
  pub blueprint_ref : String
  pub sections : List Section

-- `len(set(ids)) != len(ids)`
unfoldable pub has_repeat : List ℕ → Bool
has_repeat [] = false
has_repeat (i ∷ rest) = let more = has_repeat rest in if is_listed i rest then true else more

abbrev pub is_locked_for_use : Status → Bool
is_locked_for_use locked_for_use = true
is_locked_for_use _ = false

-- The items that are locked for use, in the order of the identifiers, where all of them are.
abbrev pub with_item : Option Item → Option (List Item) → Option (List Item)
with_item (some i) (some rest) = if is_locked_for_use i.status then some (i ∷ rest) else none
with_item _ _ = none

unfoldable pub available : List ℕ → List Item → Option (List Item)
unfolding item_by_id
available [] items = some []
available (id ∷ rest) items = with_item (item_by_id id items) (available rest items)

abbrev marks_or_zero : Option ℤ → ℤ
marks_or_zero none = pos 0
marks_or_zero (some m) = m

unfoldable pub sum_of_marks : List Item → ℤ
unfolding ◌+ℤ◌
sum_of_marks [] = pos 0
sum_of_marks (i ∷ rest) = marks_or_zero i.metadata.marks +ℤ sum_of_marks rest

abbrev pub has_subject : String → Item → Bool
has_subject subject i = elim i.metadata.subject [ none ↦ false | some s ↦ str_eq s subject ]

-- `ItemUsage.objects.filter(item_id=item, sitting_ref__in=recent).exists()`
abbrev pub is_used_in : List String → List ItemUsage → Item → Bool
is_used_in recent usages i =
    any (λ (u : ItemUsage). (u.item_id == i.id) && is_ref u.used_in recent) usages

abbrev opt_text : Option String → Value
opt_text none = null
opt_text (some s) = text s

-- `ItemUsage.objects.create(item_id=item, sitting_ref=sitting_ref, count=1)` for each item
unfoldable pub record_usages : String → List Item → Action (Unit {0})
record_usages ref [] = give tt
record_usages ref (i ∷ rest) = do
  change (λ b. record b {
    usages = record { item_id = i.id; used_in = ref; recorded_at = b.trail.clock } ∷ b.usages;
  })
  record_usages ref rest

-- `Paper.objects.create`: a section holds UUIDs, which the JSON column, without an encoder for them,
-- refuses with a TypeError.
unfoldable pub create_paper : Paper → Action ℕ
create_paper p b =
    let t = b.trail in
    if is_empty p.sections
    then ok (
      t.fresh,
      record b {
        papers = record p { id = t.fresh } ∷ b.papers;
        trail = record t { fresh = t.fresh + 1 };
      },
    )
    else err paper_crash

-- The checks of `create_manual_paper`, with the items in the order of the payload.
unfoldable pub checked_items : Settings → ManualData → Bank → Result PaperError (List Item)
unfolding has_repeat available sum_of_marks validate_blueprint validate_sections recent_sittings
checked_items settings d b = elim (has_repeat d.item_ids) [
  | true ↦ err duplicate_items
  | false ↦ elim (available d.item_ids b.items) [
    | none ↦ err items_not_available
    | some items ↦
        if not (eqb_ℤ (sum_of_marks items) d.total_marks)
        then err wrong_total
        else if any (λ (i : Item). not (has_subject d.subject i)) items
        then err wrong_subject
        else elim (validate_time_allocation items d.time_limit) [
          | err e ↦ err e
          | ok _ ↦ elim (validate_blueprint settings items d.blueprint_ref d.total_marks) [
            | err e ↦ err e
            | ok _ ↦ elim (validate_sections settings items d.sections d.blueprint_ref) [
              | err e ↦ err e
              | ok _ ↦
                  if any
                    (is_used_in (recent_sittings settings.cooldown d.sitting_ref b.usages) b.usages)
                    items
                  then err cooling_down
                  else ok items
            ]
          ]
        ]
  ]
]

-- `new_state` of the audit row of a manual paper
abbrev pub paper_state : ManualData → List Item → Dict
paper_state d items =
    ("sitting_ref", text d.sitting_ref)
    ∷ ("item_count", number (pos (length items)))
    ∷ ("blueprint_ref", text d.blueprint_ref)
    ∷ ("has_sections", boolean (not (is_empty d.sections)))
    ∷ []

module _ (env : Env) where
  -- `AuditEvent.record(actor_id=user.keycloak_sub, ...)`
  unfoldable pub audit_paper :
      User → String → String → ℕ → Option Dict → Dict → Option String → Action (Unit {0})
  unfolding record_event
  audit_paper user action entity_type id old_state new_state ip b =
      let entry : Entry = record {
        actor_id = user.keycloak_sub;
        action = action;
        entity_type = entity_type;
        entity_id = env.str_uuid id;
        old_state = old_state;
        new_state = some new_state;
        request_id = none;
        ip_address = ip;
      } in
      elim (record_event env entry b.trail) [
        | ok t ↦ ok (tt, record b { trail = t })
        | err _ ↦ err paper_crash
      ]

  -- The row and the audit event of one item that is read.
  unfoldable pub log_read : User → Context → Item → Action (Unit {0})
  unfolding audit_paper
  log_read user c i = do
    let a : VaultAccess = record {
      item_id = i.id;
      actor_id = user.id;
      kind = "read";
      session_id = c.session_id;
      ip = c.ip;
    }
    change (λ b. record b { accesses = a ∷ b.accesses })
    audit_paper user "VAULT_READ" "item" i.id none
        (("kind", text "read") ∷ ("session_id", opt_text c.session_id) ∷ ("ip", opt_text c.ip) ∷ [])
        c.ip

  unfoldable pub log_vault_reads : User → Context → List Item → Action (Unit {0})
  unfolding log_read
  log_vault_reads user c [] = give tt
  log_vault_reads user c (i ∷ rest) = log_read user c i >> log_vault_reads user c rest

  unfoldable pub create_manual_paper : Settings → User → Context → ManualData → Action (Unit {0})
  unfolding checked_items create_paper record_usages log_vault_reads audit_paper
  create_manual_paper settings user c d = do
    found ← read (checked_items settings d)
    items ← checked found
    paper_id ← create_paper (record {
      id = 0;
      sitting_ref = d.sitting_ref;
      subject = d.subject;
      mode = d.mode;
      total_marks = d.total_marks;
      time_limit = d.time_limit;
      item_ids = map (λ (i : Item). i.id) items;
      sections = d.sections;
      variants = [];
      blueprint_ref = d.blueprint_ref;
      status = constructed;
    })
    record_usages d.sitting_ref items
    log_vault_reads user c items
    audit_paper user "PAPER_CONSTRUCTED" "paper" paper_id none (paper_state d items) none
