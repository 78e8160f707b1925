-- ===== src/SittingApp/Lifecycle.antt =====
-- The cycle lifecycle of services.py. Each function takes the instance that its
-- caller loaded, and returns it as the code leaves it.
use nbes_backend.Base.{
  ℕ, String, Bool, true, false, not, none, some, List, [], ◌∷◌, ◌++◌, map, str_eq, any,
  if◌then◌else◌, ok, err,
}
use nbes_backend.Python.{Value, text, Dict, isoformat}
use nbes_backend.Env.{Env}
use nbes_backend.Audit.{Trail}
use nbes_backend.SittingApp.Model.{
  Status, draft, configured, locked, active, closed, Field, pass_mark, Sitting, Kind, auto_lock,
  whole, SittingLockEvent, SittingLock, Snapshot, is_locked, field_name, getattr, setattr,
  status_text, kind_text,
}
use nbes_backend.SittingApp.World.{
  draft_locked, cannot_configure, must_be_configured, cannot_lock, not_approved, cannot_activate,
  cannot_close, configuration_locked, invalid_transition, not_nbec_approved, World, Action, Outcome,
  Check, pure, lift, gets, or_crash, ◌>>=◌, ◌>>◌, modify, refuse_if, Caller, now, uuid4,
  publish_event, audit,
}
use nbes_backend.SittingApp.Save.{save, save_status, save_lock, save_approval}
use nbes_backend.SittingApp.Validate.{
  to_decimal, validate_pass_band, validate_compensation, validate_sitting_complete, is_none,
}
use nbes_backend.SittingApp.Snapshot.{snapshot_value, build_live_snapshot}

abbrev pub is_configured : Status → Bool
is_configured configured = true
is_configured _ = false

-- `status in {DRAFT, CONFIGURED}`
abbrev pub is_open : Status → Bool
is_open draft = true
is_open configured = true
is_open _ = false

abbrev pub is_exactly_locked : Status → Bool
is_exactly_locked locked = true
is_exactly_locked _ = false

abbrev pub is_active : Status → Bool
is_active active = true
is_active _ = false

-- Changes by field, in the order of the dict.
abbrev pub Changes : Type 0
Changes = List (Field × Value)

abbrev is_pass_mark : Field → Bool
is_pass_mark pass_mark = true
is_pass_mark _ = false

-- `"pass_mark" in data`
unfoldable pub names_pass_mark : Changes → Bool
names_pass_mark data' = any (λ c. is_pass_mark c.0) data'

-- `for field, value in data.items(): setattr(instance, field, value)`
unfoldable pub set_all : Changes → Sitting → Sitting
set_all [] s = s
set_all ((f, v) ∷ rest) s = set_all rest (setattr f v s)

module _ (env : Env) where
  -- `{k: _snapshot_value(getattr(instance, k)) for k in fields}`
  unfoldable pub snapshot_fields : Sitting → List Field → Dict
  snapshot_fields s fields = map (λ f. (field_name f, snapshot_value env (getattr s f))) fields

  -- `if "pass_mark" in data: _validate_pass_band(instance, _to_decimal(instance.pass_mark))`
  unfoldable pub validate_named_mark : Changes → Sitting → Check
  validate_named_mark data' s =
      if names_pass_mark data'
      then elim (to_decimal env s.pass_mark) [ ok d ↦ validate_pass_band s d | err e ↦ err e ]
      else ok tt

-- `if instance.status == CONFIGURED: instance.status = DRAFT`
abbrev pub reopened : Sitting → Sitting
reopened s = if is_configured s.status then record s { status = draft } else s

module _ (env : Env) (caller : Caller) where
  -- What `create_sitting` writes, on the empty tables of the new cycle `s`.
  unfoldable pub record_creation : Sitting → Action (Unit {0})
  record_creation s = do
    save env s
    starts ← lift (or_crash (isoformat env.iso_date s.sitting_date))
    let state = ("ref", text s.ref) ∷ ("sitting_date", text starts) ∷ []
    audit env caller "SITTING_CREATED" "sitting" s.ref none
        (some (state ++ ("pass_rule", s.pass_rule) ∷ []))
    publish_event "SittingCreated" state

  -- The row built from `created_by_id=actor_id, **data`: the other columns take their defaults.
  abbrev pub new_sitting : Sitting → Sitting
  new_sitting data' = record data' {
    status = draft;
    created_by_id = caller.actor_id;
    locked_at = none;
    approved_at = none;
    approved_via_meeting_id = none;
  }

  -- `data` comes from the create serializer.
  unfoldable pub create_sitting : Sitting → Trail → Outcome World
  create_sitting data' trail =
      let empty : World = record {
        row = new_sitting data';
        papers = [];
        lock_events = [];
        lock_record = none;
        is_deleted = false;
        trail = trail;
      } in
      elim (record_creation (new_sitting data') empty) [ ok (_, w) ↦ ok w | err e ↦ err e ]

  unfoldable pub update_sitting_draft : Sitting → Changes → Action Sitting
  update_sitting_draft s data' = do
    lift (refuse_if (is_locked s) configuration_locked draft_locked)
    let fields = map (λ c. c.0) data'
    let old_state = snapshot_fields env s fields
    let edited = set_all data' s
    lift (validate_named_mark env data' edited)
    lift (validate_compensation edited)
    let done = reopened edited
    save env done
    audit env caller "SITTING_DRAFT_UPDATED" "sitting" done.ref (some old_state)
        (some (snapshot_fields env done fields))
    publish_event "SittingDraftUpdated" (("ref", text done.ref) ∷ [])
    pure done

  unfoldable pub configure_sitting : Sitting → Action Sitting
  configure_sitting s = do
    lift (refuse_if (not (is_open s.status)) invalid_transition (cannot_configure s.status))
    papers ← gets (λ w. w.papers)
    lift (validate_sitting_complete env s papers)
    let done = record s { status = configured }
    save_status done
    audit env caller "SITTING_CONFIGURED" "sitting" done.ref
        (some (("status", text (status_text s.status)) ∷ []))
        (some (("status", text (status_text done.status)) ∷ []))
    publish_event "SittingConfigured" (("ref", text done.ref) ∷ [])
    pure done

  unfoldable pub approve_sitting : Sitting → ℕ → Action Sitting
  approve_sitting s meeting_id = do
    lift (refuse_if (not (is_configured s.status)) invalid_transition (must_be_configured s.status))
    time ← now
    let done = record s { approved_at = some time; approved_via_meeting_id = some meeting_id }
    save_approval done
    let meeting = text (env.str_uuid meeting_id)
    audit env caller "SITTING_APPROVED" "sitting" done.ref none
        (some (("approved_at", text (env.iso_datetime time)) ∷ ("meeting_id", meeting) ∷ []))
    publish_event "SittingApproved" (("ref", text done.ref) ∷ ("meeting_id", meeting) ∷ [])
    pure done

  -- `SittingLockEvent.objects.create` in `lock_sitting`
  unfoldable pub create_lock_event : Kind → String → Snapshot → Action (Unit {0})
  create_lock_event kind justification snapshot = do
    id ← uuid4
    time ← now
    let event : SittingLockEvent = record {
      id = id;
      kind = kind;
      actor_id = caller.actor_id;
      justification = justification;
      resolution_ref = "";
      affected_fields = [];
      before_snapshot = [];
      after_snapshot = whole snapshot;
      occurred_at = time;
    }
    modify (λ w. record w { lock_events = event ∷ w.lock_events })

  -- `SittingLock.objects.get_or_create`
  unfoldable pub ensure_lock_record : Bool → String → Action (Unit {0})
  ensure_lock_record override reason = do
    existing ← gets (λ w. w.lock_record)
    if is_none existing
        then (do
          id ← uuid4
          time ← now
          let created : SittingLock = record {
            id = id;
            locked_at = time;
            locked_by = elim caller.actor_id [ none ↦ "system" | some a ↦ env.str_uuid a ];
            override = override;
            override_reason = if override then reason else "";
          }
          modify (λ w. record w { lock_record = some created }))
        else pure tt

  -- `justification or ("Automatic T-30 lock" if kind == AUTO_LOCK else "")`
  abbrev event_justification : Kind → String → String
  event_justification auto_lock j = if str_eq j "" then "Automatic T-30 lock" else j
  event_justification _ j = j

  -- The body of `lock_sitting` for a cycle that is not locked.
  unfoldable pub lock_open_sitting : Sitting → Kind → String → Bool → Action Sitting
  lock_open_sitting s kind justification override = do
    lift (refuse_if (not (is_configured s.status)) invalid_transition (cannot_lock s.status))
    lift (refuse_if (is_none s.approved_at) not_nbec_approved not_approved)
    papers ← gets (λ w. w.papers)
    lift (validate_sitting_complete env s papers)
    time ← now
    let done = record s { status = locked; locked_at = some time }
    save_lock done
    snapshot ← lift (build_live_snapshot env done papers)
    create_lock_event kind (event_justification kind justification) snapshot
    ensure_lock_record override justification
    let at = text (env.iso_datetime time)
    audit env caller "SITTING_LOCKED" "sitting" done.ref none
        (some (("locked_at", at) ∷ ("kind", text (kind_text kind)) ∷ []))
    publish_event "SittingLocked"
        (("ref", text done.ref) ∷ ("locked_at", at) ∷ ("kind", text (kind_text kind)) ∷ [])
    pure done

  unfoldable pub lock_sitting : Sitting → Kind → String → Bool → Action Sitting
  lock_sitting s kind justification override =
      if is_locked s then pure s else lock_open_sitting s kind justification override

  unfoldable pub activate_sitting : Sitting → Action Sitting
  activate_sitting s = do
    lift
        (refuse_if (not (is_exactly_locked s.status)) invalid_transition (cannot_activate s.status))
    let done = record s { status = active }
    save_status done
    audit env caller "SITTING_ACTIVATED" "sitting" done.ref none
        (some (("status", text (status_text done.status)) ∷ []))
    publish_event "SittingActivated" (("ref", text done.ref) ∷ [])
    pure done

  unfoldable pub close_sitting : Sitting → Action Sitting
  close_sitting s = do
    lift (refuse_if (not (is_active s.status)) invalid_transition (cannot_close s.status))
    let done = record s { status = closed }
    save_status done
    audit env caller "SITTING_CLOSED" "sitting" done.ref none
        (some (("status", text (status_text done.status)) ∷ []))
    publish_event "SittingClosed" (("ref", text done.ref) ∷ [])
    pure done
