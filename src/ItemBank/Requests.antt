-- ===== src/ItemBank/Requests.antt =====
-- The endpoints of apps/itembank/views.py on one item: each loads the row afresh, calls its service,
-- and answers an exception with an error.
use nbes_backend.Base.{ℕ, String, Option, List, [], ◌∷◌, ok, err}
use nbes_backend.Env.{Env}
use nbes_backend.ItemBank.Model.{Status}
use nbes_backend.ItemBank.World.{Tables, Action}
use nbes_backend.ItemBank.Drafts.{
  DraftData, update_item_draft, submit_item_for_review, restore_item_version,
}
use nbes_backend.ItemBank.Review.{
  Auth, Decision, add_comment, process_suggestion_decision, transition_item,
}
use nbes_backend.ItemBank.Panel.{sub_text, register_panel_vote}

pub data Request : Type 0 where
  partial_update : DraftData → Request
  submit : Request
  restore : ℕ → Request
  comment : String → String → Request
  decide_suggestion : ℕ → Decision → Option String → Request
  vote : Option String → Option String → Request
  transition : Status → Option String → Option String → Request

module _ (env : Env) (auth : Auth) where
  unfoldable pub handle_item : Request → Action (Unit {0})
  unfolding update_item_draft submit_item_for_review restore_item_version add_comment
      process_suggestion_decision register_panel_vote transition_item
  handle_item (partial_update data') w = update_item_draft env auth.sub data' w
  handle_item submit w = submit_item_for_review env auth.sub w
  handle_item (restore version_id) w = restore_item_version env auth.sub version_id w
  handle_item (comment anchor_path body) w = add_comment auth anchor_path body w
  handle_item (decide_suggestion id decision rationale) w =
      process_suggestion_decision env auth id decision rationale w
  handle_item (vote kind justification) w =
      register_panel_vote env (sub_text auth.sub) kind justification w
  handle_item (transition target reviewer_id notes) w =
      transition_item env auth target reviewer_id notes w

-- The tables after one request, whether it is answered or refused, and after one and another.
unfoldable pub serve_item_one : Env → Auth × Request → Tables → Tables
serve_item_one env (auth, r) w = elim (handle_item env auth r w) [ ok (_, w') ↦ w' | err _ ↦ w ]

unfoldable pub serve_item : Env → List (Auth × Request) → Tables → Tables
serve_item env [] w = w
serve_item env (r ∷ rest) w = serve_item env rest (serve_item_one env r w)
