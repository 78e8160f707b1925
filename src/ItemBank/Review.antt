-- ===== src/ItemBank/Review.antt =====
-- Annotations and the peer review of an item: `comments` of apps/itembank/views.py, and
-- `process_suggestion_decision`, `transition_item` and `_assert_no_reviewer_conflict` of
-- apps/itembank/services.py, with `get_nbes_role_names` of shared/rbac.py.
use Prim.Native.String.{◌++◌ as concat}
use nbes_backend.Base.{
  ℕ, ◌==◌, String, Bool, true, false, not, ◌&&◌, ◌||◌, Option, none, some, List, [], ◌∷◌, any,
  str_eq, if◌then◌else◌,
}
use nbes_backend.Python.{Value, boolean, text, database_error}
use nbes_backend.Env.{Env}
use nbes_backend.Transaction.{give, read, ◌>>=◌, ◌>>◌, change, raise_if}
use nbes_backend.Committee.Conflicts.{ConflictDeclaration, is_approved}
use nbes_backend.ItemBank.Model.{
  Status, submitted, in_review, reviewed, revised, Item, ItemVersion, ItemComment, User, Member,
  status_text,
}
use nbes_backend.ItemBank.World.{
  does_not_exist, user_not_found, suggestion_not_found, cannot_process, invalid_transition,
  assigners_only, reviewer_needed, author_is_reviewer, reviewer_only, author_only,
  moderator_conflict, not_author, already_resolved, no_active_version, invalid_uuid, crash, Tables,
  Action, has_sub, or_raise, user_of, uuid4, save_status, create_transition, notify, subject, audit,
}
use nbes_backend.ItemBank.Drafts.{find_version}

-- What the services read of a token: `none` for a claim that is absent or no list.
pub record Auth : Type 0 where
  pub sub : ℕ
  pub resource_roles : Option (List Value)
  pub realm_roles : Option (List Value)

-- `[r for r in roles if isinstance(r, str)]`
unfoldable pub only_texts : List Value → List String
only_texts [] = []
only_texts (text s ∷ rest) = s ∷ only_texts rest
only_texts (_ ∷ rest) = only_texts rest

abbrev realm_names : Option (List Value) → List String
realm_names none = []
realm_names (some roles) = only_texts roles

-- Client roles where there are any, and else the roles of the realm.
unfoldable pub get_nbes_role_names : Auth → List String
unfolding only_texts
get_nbes_role_names auth = elim auth.resource_roles [
  | none ↦ realm_names auth.realm_roles
  | some [] ↦ realm_names auth.realm_roles
  | some (r ∷ rest) ↦ only_texts (r ∷ rest)
]

-- `"nbec_secretariat" in role_names or "administrator" in ... or "super_admin" in ...`
abbrev pub may_assign : List String → Bool
may_assign names =
    any (λ r. str_eq r "nbec_secretariat" || str_eq r "administrator" || str_eq r "super_admin")
      names

-- `NBECMember.objects.get(keycloak_sub=..., is_active=True)`; the column is unique.
unfoldable pub find_member : Option ℕ → List Member → Option Member
find_member sub [] = none
find_member sub (m ∷ ms) =
    if m.is_active && has_sub m.keycloak_sub sub then some m else find_member sub ms

-- An approved declaration of the member against the item or its author.
abbrev pub is_against : ℕ → ℕ → Option ℕ → Bool
is_against item_id author_id none = false
is_against item_id author_id (some e) = e == item_id || e == author_id

abbrev pub is_conflict : ℕ → Item → ConflictDeclaration → Bool
is_conflict member_id item c =
    (c.member_id == member_id)
    && (is_approved c.status && is_against item.id item.author_id c.affected_entity_id)

unfoldable pub has_conflict : Option Member → Item → List ConflictDeclaration → Bool
has_conflict none item cs = false
has_conflict (some m) item cs = any (is_conflict m.id item) cs

unfoldable pub assert_no_reviewer_conflict : User → Item → Action (Unit {0})
unfolding find_member has_conflict
assert_no_reviewer_conflict reviewer item = do
  member ← read (λ w. find_member reviewer.keycloak_sub w.members)
  conflicts ← read (λ w. w.conflicts)
  raise_if (has_conflict member item conflicts) moderator_conflict

-- `ItemComment.objects.create`
unfoldable pub create_comment : ℕ → String → String → Bool → ℕ → Action (Unit {0})
unfolding uuid4
create_comment item_version_id anchor_path body resolved created_by = do
  id ← uuid4
  let c : ItemComment = record {
    id = id;
    item_version_id = item_version_id;
    anchor_path = anchor_path;
    body = body;
    resolved = resolved;
    created_by = created_by;
  }
  change (λ w. record w { comments = c ∷ w.comments })

-- `item.versions.get(id=item.current_version_id)`
abbrev pub current_version : Tables → Option ItemVersion
current_version w = elim w.item.current_version_id [
  | none ↦ none
  | some id ↦ find_version id w.versions
]

abbrev is_none {ℓ} : {A : Type ℓ} → Option A → Bool
is_none none = true
is_none (some _) = false

-- The endpoint names the creator by the subject of the token, where the column refers to the
-- primary key of a user.
unfoldable pub add_comment : Auth → String → String → Action (Unit {0})
unfolding create_comment find_version
add_comment auth anchor_path body = do
  item ← read (λ w. w.item)
  raise_if (is_none item.current_version_id) no_active_version
  found ← read current_version
  version ← or_raise does_not_exist found
  users ← read (λ w. w.users)
  raise_if (not (any (λ (u : User). u.id == auth.sub) users)) (crash database_error)
  create_comment version.id anchor_path body false auth.sub

pub data Decision : Type 0 where
  accept decline : Decision

abbrev pub decision_text : Decision → String
decision_text accept = "ACCEPT"
decision_text decline = "DECLINE"

-- `item.status not in [IN_REVIEW, REVISED]`, negated
unfoldable pub takes_suggestions : Status → Bool
takes_suggestions in_review = true
takes_suggestions revised = true
takes_suggestions _ = false

unfoldable pub find_comment : ℕ → List ItemComment → Option ItemComment
find_comment id [] = none
find_comment id (c ∷ cs) = if c.id == id then some c else find_comment id cs

-- `suggestion.status = "resolved"; suggestion.save(update_fields=["status"])`
unfoldable pub resolve : ℕ → List ItemComment → List ItemComment
resolve id [] = []
resolve id (c ∷ cs) = (if c.id == id then record c { resolved = true } else c) ∷ resolve id cs

-- `data.get("rationale")`, where a blank counts as none
abbrev pub rationale_of : Option String → Option String
rationale_of none = none
rationale_of (some s) = if str_eq s "" then none else some s

-- The three transitions of `transition_item`.
unfoldable pub is_valid_transition : Status → Status → Bool
is_valid_transition submitted in_review = true
is_valid_transition in_review reviewed = true
is_valid_transition reviewed revised = true
is_valid_transition _ _ = false

-- `if not reviewer_id`
abbrev pub given_text : Option String → Option String
given_text none = none
given_text (some s) = if str_eq s "" then none else some s

-- `target_state in (IN_REVIEW, REVIEWED)`
abbrev pub is_notified : Status → Bool
is_notified in_review = true
is_notified reviewed = true
is_notified _ = false

-- `item.assigned_reviewer_id_id != actor.id`
abbrev pub is_reviewer : Item → User → Bool
is_reviewer item actor = has_sub actor.id item.assigned_reviewer_id

module _ (env : Env) (auth : Auth) where
  abbrev reply : Decision → User → ItemComment → Option String → Action (Unit {0})
  reply decision user suggestion none = give tt
  reply decision user suggestion (some rationale) =
      create_comment suggestion.item_version_id (concat "reply_to_" (env.str_uuid suggestion.id))
        (concat "[" (concat (decision_text decision) (concat "] Rationale: " rationale))) true
        user.id

  -- What follows the checks of `process_suggestion_decision`.
  unfoldable pub settle : User → ItemComment → Decision → Option String → Action (Unit {0})
  unfolding create_comment resolve
  settle user suggestion decision rationale = do
    change (λ w. record w { comments = resolve suggestion.id w.comments })
    reply decision user suggestion rationale
    audit env (subject auth.sub) (concat "SUGGESTION_" (decision_text decision)) "item_comment"
        suggestion.id none (some (("rationale_provided", boolean (not (is_none rationale))) ∷ []))

  unfoldable pub process_suggestion_decision : ℕ → Decision → Option String → Action (Unit {0})
  unfolding find_comment takes_suggestions settle
  process_suggestion_decision suggestion_id decision rationale = do
    user ← user_of env auth.sub user_not_found
    item ← read (λ w. w.item)
    found ← read (λ w. find_comment suggestion_id w.comments)
    suggestion ← or_raise suggestion_not_found found
    raise_if (not (item.author_id == user.id)) not_author
    raise_if (not (takes_suggestions item.status)) (cannot_process item.status)
    raise_if suggestion.resolved already_resolved
    settle user suggestion decision (rationale_of rationale)

  -- Submitted to In Review: the reviewer is looked up, checked and assigned.
  unfoldable pub assign_reviewer : Item → Option String → Action (Unit {0})
  unfolding assert_no_reviewer_conflict
  assign_reviewer item reviewer_id = do
    raise_if (not (may_assign (get_nbes_role_names auth))) assigners_only
    given ← or_raise reviewer_needed (given_text reviewer_id)
    sub ← or_raise invalid_uuid (env.parse_uuid given)
    reviewer ← user_of env sub does_not_exist
    raise_if (reviewer.id == item.author_id) author_is_reviewer
    assert_no_reviewer_conflict reviewer item
    change (λ w.
        let i = w.item in record w { item = record i { assigned_reviewer_id = some reviewer.id } })

  -- The checks of the branch that the current status selects.
  unfoldable pub check_transition : Status → Item → User → Option String → Action (Unit {0})
  unfolding assign_reviewer
  check_transition submitted item actor reviewer_id = assign_reviewer item reviewer_id
  check_transition in_review item actor reviewer_id =
      raise_if (not (is_reviewer item actor || may_assign (get_nbes_role_names auth))) reviewer_only
  check_transition _ item actor reviewer_id =
      raise_if (not (item.author_id == actor.id)) author_only

  abbrev transition_note : Status → Status → Option String → String
  transition_note from_state to_state none =
      concat "Workflow transition: "
        (concat (status_text from_state) (concat " → " (status_text to_state)))
  transition_note from_state to_state (some s) = s

  unfoldable pub transition_item : Status → Option String → Option String → Action (Unit {0})
  unfolding check_transition
  transition_item target reviewer_id notes = do
    actor ← user_of env auth.sub does_not_exist
    item ← read (λ w. w.item)
    raise_if (not (is_valid_transition item.status target)) (invalid_transition item.status target)
    check_transition item.status item actor reviewer_id
    save_status target
    create_transition item.status target actor.id
        (transition_note item.status target (given_text notes))
    audit env (subject auth.sub) "ITEM_WORKFLOW_TRANSITION" "item" item.id
        (some (("status", text (status_text item.status)) ∷ []))
        (some (("status", text (status_text target)) ∷ []))
    if is_notified target then notify target [] else give tt
