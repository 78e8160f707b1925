-- ===== src/ItemBank/World.antt =====
-- The tables of one item, and what its services share.
use nbes_backend.Base.{
  ℕ, ◌+◌, ◌==◌, String, Bool, true, false, Option, none, some, List, [], ◌∷◌, ok, err,
  if◌then◌else◌,
}
use nbes_backend.Python.{Dict, Fault, field_error}
use nbes_backend.Env.{Env}
use nbes_backend.Audit.{Trail, Entry, record_event}
use nbes_backend.Transaction.{Call}
use nbes_backend.Committee.Conflicts.{ConflictDeclaration}
use nbes_backend.ItemBank.Model.{
  Status, Item, ItemVersion, ItemComment, ItemTransition, PanelVote, User, Member,
}

-- The exceptions of the services, by their messages, with the values that these print.
pub data Error : Type 0 where
  does_not_exist user_not_found version_not_found suggestion_not_found : Error
  not_editable cannot_submit cannot_restore cannot_process : Status → Error
  metadata_missing : Error
  invalid_transition : Status → Status → Error
  assigners_only reviewer_needed author_is_reviewer reviewer_only author_only : Error
  moderator_conflict : Error
  not_author already_resolved : Error
  no_active_version : Error
  not_in_panel : Status → Error
  too_few_words : ℕ → Error
  already_voted : Error
  -- `Cannot assign ...: must be a User instance`, raised by the framework
  not_an_instance : Error
  -- `... is not a valid UUID`, raised by the framework
  invalid_uuid : Error
  crash : Fault → Error

-- What `dispatch_item_status_notification.delay` is called with on commit.
pub record Notice : Type 0 where
  pub author_id : ℕ
  pub new_status : Status
  pub rationales : List String

-- Versions, comments, transitions and votes newest first; `schema` is the active schema's version.
pub record Tables : Type 0 where
  pub item : Item
  pub versions : List ItemVersion
  pub comments : List ItemComment
  pub transitions : List ItemTransition
  pub votes : List PanelVote
  pub users : List User
  pub members : List Member
  pub conflicts : List ConflictDeclaration
  pub schema : Option ℕ
  pub notices : List Notice
  pub trail : Trail

abbrev pub Action : Type 0 → Type 0
Action = Call Tables Error

abbrev pub has_sub : ℕ → Option ℕ → Bool
has_sub sub none = false
has_sub sub (some s) = s == sub

-- What `User.objects.get(keycloak_sub=sub)` finds where the model has the field, which is unique.
unfoldable pub find_user : ℕ → List User → Option User
find_user sub [] = none
find_user sub (u ∷ us) = if has_sub sub u.keycloak_sub then some u else find_user sub us

abbrev pub or_raise : {A : Type 0} → Error → Option A → Action A
or_raise e none w = err e
or_raise e (some a) w = ok (a, w)

-- `User.objects.get(keycloak_sub=sub)` with the exception that the service makes of DoesNotExist;
-- a FieldError passes through.
abbrev pub look_up : Bool → ℕ → Error → Action User
unfolding find_user
look_up true sub e w = or_raise e (find_user sub w.users) w
look_up false sub e w = err (crash field_error)

unfoldable pub user_of : Env → ℕ → Error → Action User
unfolding find_user
user_of env sub e w = look_up env.user_has_sub sub e w

unfoldable pub uuid4 : Action ℕ
uuid4 w = let t = w.trail in ok (t.fresh, record w { trail = record t { fresh = t.fresh + 1 } })

-- `item.status = s; item.save(update_fields=["status"])`
unfoldable pub save_status : Status → Action (Unit {0})
save_status s w = let i = w.item in ok (tt, record w { item = record i { status = s } })

-- `ItemTransition.objects.create`
unfoldable pub create_transition : Status → Status → ℕ → String → Action (Unit {0})
create_transition from_state to_state actor_id justification w =
    let t : ItemTransition = record {
      from_state = from_state;
      to_state = to_state;
      actor_id = actor_id;
      justification = justification;
      occurred_at = w.trail.clock;
    } in
    ok (tt, record w { transitions = t ∷ w.transitions })

-- `transaction.on_commit(dispatch_item_status_notification.delay)`
unfoldable pub notify : Status → List String → Action (Unit {0})
notify status rationales w =
    let n : Notice = record {
      author_id = w.item.author_id;
      new_status = status;
      rationales = rationales;
    } in
    ok (tt, record w { notices = n ∷ w.notices })

-- `actor_id` of an audit row: a subject, or a text.
pub data Actor : Type 0 where
  subject : ℕ → Actor
  named : String → Actor

module _ (env : Env) where
  -- The value of the column `actor_id`, a UUID.
  unfoldable pub actor_column : Actor → Option ℕ
  actor_column (subject s) = some s
  actor_column (named s) = env.parse_uuid s

  -- `AuditEvent.record(actor_id=..., action=..., entity_type=..., entity_id=..., ...)`
  unfoldable pub audit : Actor → String → String → ℕ → Option Dict → Option Dict → Action (Unit {0})
  unfolding actor_column record_event
  audit actor action entity_type entity_id old_state new_state w = elim (actor_column actor) [
    | none ↦ err invalid_uuid
    | some a ↦
        let entry : Entry = record {
          actor_id = some a;
          action = action;
          entity_type = entity_type;
          entity_id = env.str_uuid entity_id;
          old_state = old_state;
          new_state = new_state;
          request_id = none;
          ip_address = none;
        } in
        elim (record_event env entry w.trail) [
          | ok t ↦ ok (tt, record w { trail = t })
          | err f ↦ err (crash f)
        ]
  ]
