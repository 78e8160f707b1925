-- ===== src/SittingApp/Amend.antt =====
-- The amendments of a locked cycle, in services.py: by the Chair for fields that
-- are not critical, and under a resolution of the committee for any field.
use nbes_backend.Base.{
  ℕ, String, Bool, not, ◌||◌, Option, none, some, List, [], ◌∷◌, map, str_eq, ltb, select, length,
  if◌then◌else◌, ok, err,
}
use nbes_backend.Python.{Value, text, listing, Dict}
use nbes_backend.Python.Text.{codes, strip, is_empty}
use nbes_backend.Env.{Env}
use nbes_backend.SittingApp.Model.{
  Field, Sitting, Kind, chair_amend, resolution_amend, After, changed, amended, SittingLockEvent,
  is_locked, is_critical, field_name,
}
use nbes_backend.SittingApp.World.{
  use_draft, justification_needed, resolution_needed, unknown_fields, permitted, critical_fields,
  not_locked, missing_justification, unknown_field, critical_field_requires_resolution,
  missing_resolution_ref, validation, Action, Check, pure, lift, gets, ◌>>=◌, ◌>>◌, modify,
  refuse_if, Caller, now, uuid4, publish_event, audit,
}
use nbes_backend.SittingApp.Save.{all_fields, save}
use nbes_backend.SittingApp.Validate.{validate_compensation}
use nbes_backend.SittingApp.Snapshot.{build_live_snapshot}
use nbes_backend.SittingApp.Lifecycle.{Changes, set_all, snapshot_fields, validate_named_mark}

-- `not justification or len(justification.strip()) < least`
unfoldable pub is_short : ℕ → String → Bool
is_short least j = is_empty (codes j) || ltb (length (strip (codes j))) least

-- The member of ALL_AMENDABLE_SITTING_FIELDS with that name.
unfoldable pub field_of : List Field → String → Option Field
unfolding field_name
field_of [] k = none
field_of (f ∷ fs) k = if str_eq (field_name f) k then some f else field_of fs k

-- The known entries of the payload, by field, and the names of the others.
unfoldable pub known_changes : Dict → Changes
known_changes [] = []
known_changes ((k, v) ∷ rest) = elim (field_of all_fields k) [
  | none ↦ known_changes rest
  | some f ↦ (f, v) ∷ known_changes rest
]

unfoldable pub unknown_names : Dict → List String
unknown_names [] = []
unknown_names ((k, v) ∷ rest) = elim (field_of all_fields k) [
  | none ↦ k ∷ unknown_names rest
  | some f ↦ unknown_names rest
]

abbrev raise_unknown : List String → Check
raise_unknown [] = ok tt
raise_unknown (k ∷ ks) = err (validation unknown_field (unknown_fields (k ∷ ks)) (permitted ∷ []))

-- `_reject_unknown_amendment_fields`
unfoldable pub reject_unknown : Dict → Check
reject_unknown changes = raise_unknown (unknown_names changes)

abbrev fields_of : Changes → List Field
fields_of = map (λ c. c.0)

-- `_classify_changes` with CRITICAL_SITTING_FIELDS: the critical fields and the others.
unfoldable pub classify_changes : Changes → List Field × List Field
unfolding is_critical
classify_changes changes =
    (select is_critical (fields_of changes), select (λ f. not (is_critical f)) (fields_of changes))

-- `if critical: raise ...`
abbrev pub raise_critical : List Field → Check
raise_critical [] = ok tt
raise_critical (f ∷ fs) =
    err (validation critical_field_requires_resolution (critical_fields (f ∷ fs)) [])

-- A list of names as JSON.
abbrev names : List Field → Value
names fields = listing (map field_name fields)

module _ (env : Env) (caller : Caller) where
  -- `SittingLockEvent.objects.create` of an amendment; the identifier of the row.
  unfoldable pub create_amendment : Kind → String → String → List Field → Dict → After → Action ℕ
  create_amendment kind justification resolution_ref fields before after = do
    id ← uuid4
    time ← now
    let event : SittingLockEvent = record {
      id = id;
      kind = kind;
      actor_id = caller.actor_id;
      justification = justification;
      resolution_ref = resolution_ref;
      affected_fields = fields;
      before_snapshot = before;
      after_snapshot = after;
      occurred_at = time;
    }
    modify (λ w. record w { lock_events = event ∷ w.lock_events })
    pure id

  unfoldable pub amend_non_critical : Sitting → Dict → String → Action Sitting
  amend_non_critical s changes justification = do
    lift (refuse_if (not (is_locked s)) not_locked use_draft)
    lift (refuse_if (is_short 10 justification) missing_justification (justification_needed 10))
    lift (reject_unknown changes)
    let known = known_changes changes
    let (critical, others) = classify_changes known
    lift (raise_critical critical)
    let before = snapshot_fields env s others
    let done = set_all known s
    save env done
    let after = snapshot_fields env done others
    id ← create_amendment chair_amend justification "" others before (changed after)
    audit env caller "SITTING_AMENDED_CHAIR" "sitting" done.ref (some before) (some after)
    publish_event "SittingAmendedChair" (
        ("ref", text done.ref)
        ∷ ("event_id", text (env.str_uuid id))
        ∷ ("fields", names others)
        ∷ [])
    pure done

  unfoldable pub amend_critical_with_resolution : Sitting → Dict → String → String → Action Sitting
  amend_critical_with_resolution s changes resolution_ref justification = do
    lift (refuse_if (not (is_locked s)) not_locked use_draft)
    lift (refuse_if (is_empty (codes resolution_ref)) missing_resolution_ref resolution_needed)
    lift (refuse_if (is_short 30 justification) missing_justification (justification_needed 30))
    lift (reject_unknown changes)
    let known = known_changes changes
    let affected = fields_of known
    let before = snapshot_fields env s affected
    let done = set_all known s
    lift (validate_named_mark env known done)
    lift (validate_compensation done)
    save env done
    let after = snapshot_fields env done affected
    papers ← gets (λ w. w.papers)
    snapshot ← lift (build_live_snapshot env done papers)
    id ←
        create_amendment resolution_amend justification resolution_ref affected before
          (amended after snapshot)
    audit env caller "SITTING_AMENDED_RESOLUTION" "sitting" done.ref (some before) (some after)
    publish_event "SittingAmendedResolution" (
        ("ref", text done.ref)
        ∷ ("event_id", text (env.str_uuid id))
        ∷ ("fields", names affected)
        ∷ ("resolution_ref", text resolution_ref)
        ∷ [])
    pure done
