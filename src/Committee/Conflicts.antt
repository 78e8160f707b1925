-- ===== src/Committee/Conflicts.antt =====
-- Conflicts of interest in apps/committee/services.py: `declare_coi`, `review_coi` and `check_coi`.
pub mod Bars
mod Tests
use nbes_backend.Base.{
  ℕ, ◌+◌, ◌==◌, String, ◌≡◌, ◌≢◌, refl, Bool, true, false, not, ◌&&◌, Option, none, some, List, [],
  ◌∷◌, map, select, str_eq, arith, Result, ok, err, if◌then◌else◌, eq_iff,
}
use nbes_backend.Python.{text, boolean, Dict, Fault}
use nbes_backend.Env.{Env}
use nbes_backend.Audit.{Trail, Entry, record_event, publish}
use nbes_backend.SittingApp.World.{Caller}

-- `ConflictDeclaration.Status`
pub data CoiStatus : Type 0 where
  pending approved dismissed : CoiStatus

pub record ConflictDeclaration : Type 0 where
  pub id : ℕ
  pub member_id : ℕ
  pub subject_type : String
  pub subject_description : String
  pub nature : String
  pub affected_entity_type : String
  pub affected_entity_id : Option ℕ
  pub status : CoiStatus
  pub effective_from : Option ℕ
  pub review_date : Option ℕ
  pub declared_at : ℕ
  pub reviewed_at : Option ℕ
  pub reviewed_by_id : Option ℕ

-- The table, newest first, with the trail.
pub record Declarations : Type 0 where
  pub conflicts : List ConflictDeclaration
  pub trail : Trail

-- The ValueError of a second review, with the status that it prints, or another exception.
pub data CoiError : Type 0 where
  already_reviewed : CoiStatus → CoiError
  coi_crash : Fault → CoiError

abbrev pub is_pending : CoiStatus → Bool
is_pending pending = true
is_pending _ = false

abbrev pub is_approved : CoiStatus → Bool
is_approved approved = true
is_approved _ = false

unfoldable pub coi_text : CoiStatus → String
coi_text pending = "pending"
coi_text approved = "approved"
coi_text dismissed = "dismissed"

-- `coi.save(update_fields=["status", "reviewed_at", "reviewed_by_id", "review_date"])`
unfoldable pub save_review :
    ConflictDeclaration → List ConflictDeclaration → List ConflictDeclaration
save_review c [] = []
save_review c (d ∷ ds) =
    (if d.id == c.id
      then record d {
        status = c.status;
        reviewed_at = c.reviewed_at;
        reviewed_by_id = c.reviewed_by_id;
        review_date = c.review_date;
      }
      else d)
    ∷ save_review c ds

-- The filters of `check_coi`; an empty type and an absent identifier filter nothing.
unfoldable pub is_active_conflict : ℕ → String → Option ℕ → ConflictDeclaration → Bool
is_active_conflict member_id entity_type entity_id c =
    (c.member_id == member_id)
    && (is_approved c.status
        && ((if str_eq entity_type "" then true else str_eq c.affected_entity_type entity_type)
            && elim entity_id [
              | none ↦ true
              | some e ↦ elim c.affected_entity_id [ none ↦ false | some a ↦ a == e ]
            ]))

abbrev has_any : List ℕ → Bool
has_any [] = false
has_any (_ ∷ _) = true

-- `check_coi`: "has_active_conflict" and "conflict_ids"
unfoldable pub check_coi : ℕ → String → Option ℕ → List ConflictDeclaration → Bool × List ℕ
unfolding is_active_conflict
check_coi member_id entity_type entity_id cs =
    let ids = map (λ c. c.id) (select (is_active_conflict member_id entity_type entity_id) cs) in
    (has_any ids, ids)

module _ (env : Env) (caller : Caller) where
  -- The audit row and the event of a call, on the trail.
  unfoldable pub record_coi :
      String → ℕ → Option Dict → Dict → String → Dict → Trail → Result CoiError Trail
  unfolding record_event
  record_coi action id old_state new_state event payload t =
      let entry : Entry = record {
        actor_id = caller.actor_id;
        action = action;
        entity_type = "conflict_declaration";
        entity_id = env.str_uuid id;
        old_state = old_state;
        new_state = some new_state;
        request_id = caller.request_id;
        ip_address = caller.ip_address;
      } in
      elim (record_event env entry t) [
        | err f ↦ err (coi_crash f)
        | ok t' ↦ ok (publish event payload none t')
      ]

  -- `data` comes from the declare serializer; the other columns take their defaults.
  unfoldable pub declare_coi :
      ConflictDeclaration → Declarations → Result CoiError (ConflictDeclaration × Declarations)
  unfolding record_coi
  declare_coi data' w =
      let t = w.trail in
      let c = record data' {
        id = t.fresh;
        status = pending;
        review_date = none;
        declared_at = t.clock;
        reviewed_at = none;
        reviewed_by_id = none;
      } in
      let member = text (env.str_uuid c.member_id) in
      elim (record_coi "COI_DECLARED" c.id none
        (("member_id", member)
          ∷ ("subject_type", text c.subject_type)
          ∷ ("nature", text c.nature)
          ∷ [])
        "ConflictDeclared"
        (("coi_id", text (env.str_uuid c.id))
          ∷ ("member_id", member)
          ∷ ("subject_type", text c.subject_type)
          ∷ [])
        (record t { fresh = t.fresh + 1 })) [
          | err e ↦ err e
          | ok t' ↦ ok (c, record { conflicts = c ∷ w.conflicts; trail = t' })
        ]

  unfoldable pub review_coi :
      ConflictDeclaration
      → Bool
      → Option ℕ
      → Declarations
      → Result CoiError (ConflictDeclaration × Declarations)
  unfolding record_coi
  review_coi c approve review_date w =
      if not (is_pending c.status)
      then err (already_reviewed c.status)
      else let done = record c {
        status = if approve then approved else dismissed;
        reviewed_at = some w.trail.clock;
        reviewed_by_id = caller.actor_id;
        review_date = elim review_date [ none ↦ c.review_date | some d ↦ some d ];
      } in
        elim (record_coi (if approve then "COI_APPROVED" else "COI_DISMISSED") c.id
          (some (("status", text (coi_text c.status)) ∷ []))
          (("status", text (coi_text done.status)) ∷ []) "ConflictReviewed"
          (("coi_id", text (env.str_uuid c.id)) ∷ ("approved", boolean approve) ∷ []) w.trail) [
            | err e ↦ err e
            | ok t' ↦ ok (done, record { conflicts = save_review done w.conflicts; trail = t' })
          ]
