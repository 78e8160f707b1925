-- ===== src/ItemBank/Tests.antt =====
-- An item that goes from its draft to the panel, exports from the vault, and the theorems of the item
-- bank at them.
use nbes_backend.Base.{
  ℕ, zero, suc, ◌≡◌, refl, true, false, none, some, Option, List, [], ◌∷◌, ok, err, String, ℤ, pos,
  negsuc, if◌then◌else◌, str_eq,
}
use nbes_backend.Python.{Value, text, decimal}
use nbes_backend.Python.Text.{is_space, strip_left, strip_right, strip}
use nbes_backend.Env.{Env}
use nbes_backend.Events.{infer_topic, outbox_row}
use nbes_backend.Audit.{is_state_change, publish, payload_of, record_atomic, record_event}
use nbes_backend.SittingApp.Fixtures.{demo, empty_trail}
use nbes_backend.ItemBank.Model.{
  draft, in_review, reviewed, revised, moderation_panel, ItemVersion, User, status_text,
  is_editable, locked_for_use, PanelVote,
}
use nbes_backend.ItemBank.World.{
  invalid_uuid, Tables, find_user, user_of, uuid4, save_status, create_transition, notify,
  actor_column, audit,
}
use nbes_backend.ItemBank.Drafts.{
  DraftData, blank, snapshot_of, apply_draft, has_mandatory_metadata, last_version, find_version,
  add_version, record_draft, create_item_draft, update_item_draft, submit_item_for_review,
  restored_marks, restore_item_version,
}
use nbes_backend.ItemBank.Review.{
  Auth, only_texts, get_nbes_role_names, find_member, has_conflict, assert_no_reviewer_conflict,
  create_comment, add_comment, takes_suggestions, find_comment, resolve, is_valid_transition,
  settle, process_suggestion_decision, assign_reviewer, check_transition, transition_item,
}
use nbes_backend.ItemBank.Panel.{
  words_from, row_of, create_vote, votes_for, shown_user, approve_by_consensus, reject_by_consensus,
  register_panel_vote,
}
use nbes_backend.ItemBank.Requests.{
  Request, comment, partial_update, submit, vote, transition, handle_item, serve_item_one,
  serve_item,
}
use nbes_backend.ItemBank.Contract.{Change, handle_item-Change}
use nbes_backend.ItemBank.History.{IsProper, item-IsProper, is_settled, item_never_settled}
use nbes_backend.ItemBank.Unresolved.{IsUntouched, serve_item-IsUntouched}
use nbes_backend.ItemBank.Vault.{
  VaultExportRequest, Vault, find_export, user_by_id, save_export, is_vault_officer, audit_export,
  initiate_export, expire_export, execute_vault_cosign, VaultCall, initiate, cosign, handle_vault,
  serve_vault_one, serve_vault,
}
use nbes_backend.ItemBank.DualControl.{
  Executed, cosign_effect, Below, executed_count, IsControlled, vault-IsControlled,
}

-- Decimals as texts in unary notation, which are read back.
abbrev unary : ℕ → String
unary zero = ""
unary (suc n) = String.◌∷◌ "1" (unary n)

abbrev written : Value → String
written (decimal (pos n)) = String.◌∷◌ "+" (unary n)
written (decimal (negsuc n)) = String.◌∷◌ "-" (unary n)
written _ = "v"

abbrev ones : String → ℕ
ones String.[] = 0
ones (String.◌∷◌ c s) = suc (ones s)

abbrev read_back : String → Option ℤ
read_back String.[] = none
read_back (String.◌∷◌ c s) =
    if str_eq (String.◌∷◌ c String.[]) "+" then some (pos (ones s)) else some (negsuc (ones s))

-- "2" is the reviewer's subject; "SYSTEM" is no UUID.
abbrev lab : Env
lab = record demo {
  parse_uuid = λ s. if str_eq s "2" then some 2 else none;
  str_value = written;
  parse_float = read_back;
}

-- Four users: the author, the reviewer, an administrator and a member of the panel.
abbrev people : List User
people =
    record { id = 11; keycloak_sub = some 1; shown = "author" }
    ∷ record { id = 12; keycloak_sub = some 2; shown = "reviewer" }
    ∷ record { id = 13; keycloak_sub = some 3; shown = "admin" }
    ∷ record { id = 14; keycloak_sub = some 4; shown = "panel" }
    ∷ []

abbrev author : Auth
author = record { sub = 1; resource_roles = none; realm_roles = none }

abbrev reviewer : Auth
reviewer = record { sub = 2; resource_roles = none; realm_roles = none }

abbrev admin : Auth
admin = record { sub = 3; resource_roles = some (text "administrator" ∷ []); realm_roles = none }

abbrev question : DraftData
question = record {
  content = some "What is a tort?";
  asset_refs = none;
  item_type = none;
  subject = some "Law";
  topic = some "Torts";
  cognitive_level = some "Recall";
  difficulty = some "Easy";
  marks = some (some (pos 200));
  time = some (some (pos 5));
  source = some "Board";
  blueprint_ref = some "B1";
}

-- A later edit of its content and its marks.
abbrev shorter : DraftData
shorter = record question { content = some "Tort?"; marks = some (some (pos 100)) }

abbrev drafted : Tables
drafted = elim (create_item_draft lab 1 question people [] [] none empty_trail) [
  | ok w ↦ w
  | err e ↦ record {
    item = record {
      id = 0;
      status = draft;
      metadata = blank;
      author_id = 0;
      assigned_reviewer_id = none;
      current_version_id = none;
    };
    versions = [];
    comments = [];
    transitions = [];
    votes = [];
    users = [];
    members = [];
    conflicts = [];
    schema = none;
    notices = [];
    trail = empty_trail;
  }
]

abbrev to_panel : List (Auth × Request)
to_panel =
    (author, submit)
    ∷ (admin, transition in_review (some "2") none)
    ∷ (author, submit)
    ∷ (reviewer, transition reviewed none none)
    ∷ (author, transition revised none (some "Beginning"))
    ∷ (author, partial_update shorter)
    ∷ (author, submit)
    ∷ (reviewer, vote (some "Approve") (some "Good"))
    ∷ []

unfoldable run_item : List (Auth × Request) → Tables
unfolding infer_topic outbox_row is_state_change publish payload_of record_atomic record_event
    is_space strip_left strip_right strip status_text is_editable find_user user_of uuid4
    save_status create_transition notify actor_column audit apply_draft has_mandatory_metadata
    last_version find_version add_version record_draft create_item_draft update_item_draft
    submit_item_for_review restored_marks restore_item_version only_texts get_nbes_role_names
    find_member has_conflict assert_no_reviewer_conflict create_comment add_comment
    takes_suggestions find_comment resolve is_valid_transition settle process_suggestion_decision
    assign_reviewer check_transition transition_item words_from create_vote votes_for shown_user
    approve_by_consensus reject_by_consensus register_panel_vote handle_item serve_item_one
    serve_item
run_item requests = serve_item lab requests drafted

reaches_panel : (run_item to_panel).item.status ≡ moderation_panel
unfolding run_item
reaches_panel = refl

item-IsProper_example : IsProper (serve_item lab to_panel drafted)
unfolding run_item
item-IsProper_example =
    item-IsProper lab 1 question people [] [] none empty_trail {w = drafted} to_panel refl

handle_item-Change_example : Change author drafted (serve_item_one lab (author, submit) drafted)
unfolding run_item
handle_item-Change_example =
    handle_item-Change lab author drafted {w' = serve_item_one lab (author, submit) drafted} submit
      refl

item_never_settled_example : is_settled (serve_item lab to_panel drafted).item.status ≡ false
unfolding run_item
item_never_settled_example = item_never_settled lab to_panel drafted refl

abbrev first_version : ItemVersion
first_version = record {
  id = 0;
  version_no = 0;
  content = "";
  metadata_snapshot = snapshot_of lab blank none;
  asset_refs = [];
  saved_by = 0;
}

abbrev newest : List ItemVersion → ItemVersion
newest [] = first_version
newest (v ∷ vs) = v

abbrev tail : List ItemVersion → List ItemVersion
tail [] = []
tail (v ∷ vs) = vs

-- Shortened, and then written out again.
abbrev shortened : Tables
shortened = serve_item_one lab (author, partial_update shorter) drafted

abbrev lengthened : Tables
lengthened = serve_item_one lab (author, partial_update question) shortened

-- Thirty words, and an item in the panel with one approval.
abbrev thirty : String
thirty = "a b c d e f g h i j a b c d e f g h i j a b c d e f g h i j"

abbrev panel : List PanelVote → Tables
panel votes =
    let i = drafted.item in
    record drafted { item = record i { status = moderation_panel }; votes = votes }

abbrev one_approval : List PanelVote
one_approval = record { panellist_id = 13; vote = "Approve"; justification = thirty } ∷ []

abbrev fourth : User
fourth = record { id = 14; keycloak_sub = some 4; shown = "panel" }

abbrev voted : Env → Tables → Tables
voted env w = elim (register_panel_vote env (row_of fourth) (some "Approve") (some thirty) w) [
  | ok (_, w') ↦ w'
  | err e ↦ w
]

-- A backend in which "SYSTEM" is read as a UUID.
abbrev other_lab : Env
other_lab = record lab { parse_uuid = λ s. some 9 }

-- The second approval locks the item for use in that backend, and is refused in the other.
locks_for_use : (voted other_lab (panel one_approval)).item.status ≡ locked_for_use
unfolding run_item
locks_for_use = refl

refuses_second :
    register_panel_vote lab (row_of fourth) (some "Approve") (some thirty) (panel one_approval)
    ≡ err invalid_uuid
unfolding run_item
refuses_second = refl

-- A vault with two members.
abbrev stocked : Vault
stocked = record {
  exports = [];
  users = people;
  members =
      record { id = 1; keycloak_sub = 2; is_active = true }
      ∷ record { id = 2; keycloak_sub = 3; is_active = true }
      ∷ [];
  officers = none;
  alerts = [];
  trail = empty_trail;
}

unfoldable run_vault : List (ℕ × VaultCall) → Vault
unfolding infer_topic outbox_row is_state_change publish payload_of record_atomic record_event
    find_user find_export user_by_id save_export is_vault_officer audit_export initiate_export
    expire_export execute_vault_cosign handle_vault serve_vault_one serve_vault
run_vault calls = serve_vault lab calls stocked

-- The requester cannot cosign, the other member can, and nobody can after that.
abbrev dual_calls : List (ℕ × VaultCall)
dual_calls =
    (0, initiate 2 "all" "exam")
    ∷ (5, cosign 0 2)
    ∷ (5, cosign 0 3)
    ∷ (0, cosign 0 3)
    ∷ (0, initiate 2 "all" "exam")
    ∷ (300000, cosign 7 3)
    ∷ []

abbrev asked : Vault
asked = run_vault ((0, initiate 2 "all" "exam") ∷ [])

cosign_effect_example :
    (r : VaultExportRequest) × (u : User) × (o : User) × (find_export 0 asked.exports ≡ some r)
    × (find_user 3 asked.users ≡ some u)
    × (user_by_id r.requester_id asked.users ≡ some o)
    × Executed lab 3 r u o asked (serve_vault_one lab (0, cosign 0 3) asked)
unfolding run_vault
cosign_effect_example =
    cosign_effect lab asked {v' = serve_vault_one lab (0, cosign 0 3) asked} 0 3 refl

vault-IsControlled_example : IsControlled 0 (serve_vault lab dual_calls stocked)
unfolding run_vault Below executed_count
vault-IsControlled_example =
    vault-IsControlled lab 0 dual_calls stocked
      (record { dual = tt; distinct = tt; audited = refl })

executes_once : executed_count (run_vault dual_calls).exports ≡ 1
unfolding run_vault executed_count
executes_once = refl

-- The same backend with the users of Django.
abbrev plain_lab : Env
plain_lab = record lab { user_has_sub = false }

serve_item-IsUntouched_example :
    IsUntouched drafted
      (serve_item plain_lab ((author, submit) ∷ (author, comment "a" "b") ∷ []) drafted)
serve_item-IsUntouched_example =
    serve_item-IsUntouched plain_lab refl ((author, submit) ∷ (author, comment "a" "b") ∷ [])
      drafted
