-- ===== src/SittingApp/World.antt =====
-- The tables of one cycle, and service calls on them: `@transaction.atomic` gives back no state
-- beside an exception, so a call that raises leaves every table as it was.
use nbes_backend.Base.{
  ℕ, ◌+◌, String, Bool, true, false, Option, none, List, [], ℤ, Result, ok, err,
}
use nbes_backend.Python.{Value, Dict, Fault}
use nbes_backend.Env.{Env}
use nbes_backend.Audit.{Trail, Entry, publish, record_event}
use nbes_backend.SittingApp.Model.{
  Status, Field, Sitting, SubjectPaper, SittingLockEvent, SittingLock,
}

-- The texts of the exceptions, with the values that they print.
pub data Message : Type 0 where
  below_minimum above_maximum : ℤ → Value → Message
  malformed_sections missing_blueprint would_exceed : String → Message
  sections_sum_to : String → ℤ → ℕ → Message
  thresholds_needed end_before_start incomplete not_approved : Message
  paper_count : ℕ → Message
  default_pass_mark : Message → Message
  draft_locked delete_locked add_locked remove_locked use_draft missing resolution_needed
        permitted :
      Message
  cannot_configure must_be_configured cannot_lock cannot_activate cannot_close : Status → Message
  justification_needed : ℕ → Message
  unknown_fields : List String → Message
  critical_fields : List Field → Message

pub data Code : Type 0 where
  out_of_policy_pass_standard inconsistent_marks_allocation : Code
  inconsistent_compensation_rule sitting_not_ready configuration_locked : Code
  subject_count_mismatch invalid_transition not_nbec_approved not_locked : Code
  missing_justification unknown_field critical_field_requires_resolution : Code
  missing_resolution_ref not_found : Code

-- SittingValidationError with its code, message and details, or an exception that escapes.
pub data Error : Type 0 where
  validation : Code → Message → List Message → Error
  crash : Fault → Error

-- The tables, newest lock event first (`ordering = ["-occurred_at"]`). Once `is_deleted`, the tables have no
-- row of the cycle, and `row` says what it was.
pub record World : Type 0 where
  pub row : Sitting
  pub papers : List SubjectPaper
  pub lock_events : List SittingLockEvent
  pub lock_record : Option SittingLock
  pub is_deleted : Bool
  pub trail : Trail

abbrev pub Outcome : Type 0 → Type 0
Outcome A = Result Error A

abbrev pub Action : Type 0 → Type 0
Action A = World → Outcome (A × World)

abbrev pub Check : Type 0
Check = Outcome (Unit {0})

module _ {A : Type 0} where
  abbrev pub pure : A → Action A
  pure a w = ok (a, w)

  abbrev pub lift : Outcome A → Action A
  lift (ok a) w = ok (a, w)
  lift (err e) w = err e

  abbrev pub gets : (World → A) → Action A
  gets f w = ok (f w, w)

  -- An exception of the language or of the database.
  abbrev pub or_crash : Result Fault A → Outcome A
  or_crash (ok a) = ok a
  or_crash (err f) = err (crash f)

infixl 5 ◌>>=◌ ◌>>◌
abbrev pub ◌>>=◌ : {A B : Type 0} → Action A → (A → Action B) → Action B
◌>>=◌ m f w = elim (m w) [ ok (a, w') ↦ f a w' | err e ↦ err e ]

abbrev pub ◌>>◌ : {A B : Type 0} → Action A → Action B → Action B
m >> k = m >>= λ _. k

abbrev pub modify : (World → World) → Action (Unit {0})
modify f w = ok (tt, f w)

-- `if test: raise SittingValidationError(code, message)`
abbrev pub refuse_if : Bool → Code → Message → Check
refuse_if true code message = err (validation code message [])
refuse_if false code message = ok tt

-- The arguments that every service call passes through to the audit row.
pub record Caller : Type 0 where
  pub actor_id : Option ℕ
  pub request_id : Option ℕ
  pub ip_address : Option String

-- `timezone.now()`, one reading for a call
abbrev pub now : Action ℕ
now = gets (λ w. w.trail.clock)

-- `uuid.uuid4()`
unfoldable pub uuid4 : Action ℕ
uuid4 w = let t = w.trail in ok (t.fresh, record w { trail = record t { fresh = t.fresh + 1 } })

-- `publish(name, payload)`
unfoldable pub publish_event : String → Dict → Action (Unit {0})
publish_event name payload w = ok (tt, record w { trail = publish name payload none w.trail })

module _ (env : Env) where
  -- `_audit`
  unfoldable pub audit :
      Caller → String → String → String → Option Dict → Option Dict → Action (Unit {0})
  unfolding record_event
  audit caller action entity_type entity_id old_state new_state w =
      let entry : Entry = record {
        actor_id = caller.actor_id;
        action = action;
        entity_type = entity_type;
        entity_id = entity_id;
        old_state = old_state;
        new_state = new_state;
        request_id = caller.request_id;
        ip_address = caller.ip_address;
      } in
      elim (record_event env entry w.trail) [
        | ok t ↦ ok (tt, record w { trail = t })
        | err f ↦ err (crash f)
      ]
