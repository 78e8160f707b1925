-- ===== src/ItemBank/Contract.antt =====
-- The contract of an item: the changes that a committed request may make, apart from the code that
-- makes them, and that every request makes one of them.
use nbes_backend.Base.{
  ℕ, ◌==◌, String, ◌≡◌, inl, inr, Bool, true, false, Option, none, some, List, [], ◌∷◌, arith, ok,
  succeeds, Option-cases,
}
use nbes_backend.Env.{Env}
use nbes_backend.Audit.{record_atomic, payload_of}
use nbes_backend.ItemBank.Model.{
  Status, submitted, in_review, reviewed, revised, ItemVersion, ItemComment, ItemTransition, User,
  is_editable,
}
use nbes_backend.ItemBank.World.{
  Tables, find_user, user_of, uuid4, save_status, create_transition, notify, audit,
}
use nbes_backend.ItemBank.Drafts.{
  DraftData, has_mandatory_metadata, last_version, next_no, add_version, update_item_draft,
  submit_target, submit_item_for_review, restore_item_version,
}
use nbes_backend.ItemBank.Review.{
  Auth, Decision, accept, decline, rationale_of, given_text, find_member, has_conflict,
  assert_no_reviewer_conflict, create_comment, add_comment, takes_suggestions, find_comment,
  resolve, is_valid_transition, may_assign, get_nbes_role_names, settle,
  process_suggestion_decision, assign_reviewer, check_transition, transition_item,
}
use nbes_backend.ItemBank.Panel.{create_vote, register_panel_vote}
use nbes_backend.ItemBank.Requests.{
  Request, partial_update, submit, restore, comment, decide_suggestion, vote, transition,
  handle_item,
}

-- The token's user is the author.
abbrev pub is_author : ℕ → Tables → Bool
is_author sub w = elim (find_user sub w.users) [ none ↦ false | some u ↦ w.item.author_id == u.id ]

-- One version more, with the next number, and the item refers to it.
abbrev pub IsSaved : Tables → List ItemVersion → Option ℕ → Type 0
IsSaved w [] id = ⊥
IsSaved w (v ∷ rest) id =
    (rest ≡ w.versions) × (v.version_no ≡ next_no (last_version w.versions)) × (id ≡ some v.id)

-- One transition more, between the statuses.
abbrev pub IsMoved : Status → Status → List ItemTransition → List ItemTransition → Type 0
IsMoved s t old [] = ⊥
IsMoved s t old (m ∷ rest) = (rest ≡ old) × (m.from_state ≡ s) × (m.to_state ≡ t)

-- One unresolved comment more.
abbrev pub IsCommented : List ItemComment → List ItemComment → Type 0
IsCommented old [] = ⊥
IsCommented old (c ∷ rest) = (rest ≡ old) × (c.resolved ≡ false)

-- The comment is resolved, with a reply, born resolved, where a rationale is given.
abbrev IsReplied : List ItemComment → List ItemComment → Type 0
IsReplied old [] = ⊥
IsReplied old (c ∷ rest) = (rest ≡ old) × (c.resolved ≡ true)

abbrev pub IsDecided : ℕ → Option String → List ItemComment → List ItemComment → Type 0
IsDecided id none old new = new ≡ resolve id old
IsDecided id (some _) old new = IsReplied (resolve id old) new

-- The row and what hangs on it, apart from comments, are as before.
abbrev pub SameRow : Tables → Tables → Type 0
SameRow w w' =
    (w'.item ≡ w.item)
    × (w'.versions ≡ w.versions)
    × (w'.transitions ≡ w.transitions)
    × (w'.votes ≡ w.votes)

-- Versions, comments and votes are as before.
abbrev pub SameContent : Tables → Tables → Type 0
SameContent w w' = (w'.versions ≡ w.versions) × (w'.comments ≡ w.comments) × (w'.votes ≡ w.votes)

-- A new version of an editable item, by its author, and nothing else but the metadata.
abbrev pub Saving : ℕ → Tables → Tables → Type 0
Saving sub w w' =
    (is_author sub w ≡ true)
    × (is_editable w.item.status ≡ true)
    × (w'.item.status ≡ w.item.status)
    × (w'.item.author_id ≡ w.item.author_id)
    × (w'.item.assigned_reviewer_id ≡ w.item.assigned_reviewer_id)
    × IsSaved w w'.versions w'.item.current_version_id
    × (w'.comments ≡ w.comments)
    × (w'.transitions ≡ w.transitions)
    × (w'.votes ≡ w.votes)

-- The item moves from one status to another, with a row in its log, and nothing else.
abbrev pub Moving : Status → Status → Tables → Tables → Type 0
Moving s t w w' =
    (w.item.status ≡ s)
    × (w'.item ≡ (let i = w.item in record i { status = t }))
    × IsMoved s t w.transitions w'.transitions
    × SameContent w w'

-- The same with the assignment of a reviewer.
abbrev pub Assigning : User → Tables → Tables → Type 0
Assigning reviewer w w' =
    (w.item.status ≡ submitted)
    × (w'.item ≡ (
        let i = w.item in record i { status = in_review; assigned_reviewer_id = some reviewer.id }))
    × IsMoved submitted in_review w.transitions w'.transitions
    × SameContent w w'

pub data Change (auth : Auth) (w w' : Tables) : Type 0 where
  saved : Saving auth.sub w w' → Change auth w w'
  commented : SameRow w w' → IsCommented w.comments w'.comments → Change auth w w'
  decided :
      (id : ℕ) (rationale : Option String)
      → is_author auth.sub w ≡ true
      → takes_suggestions w.item.status ≡ true
      → SameRow w w'
      → IsDecided id rationale w.comments w'.comments
      → Change auth w w'
  -- the author submits an item whose metadata are complete
  submitting :
      is_author auth.sub w ≡ true
      → is_editable w.item.status ≡ true
      → has_mandatory_metadata w.item.metadata ≡ true
      → Moving w.item.status (submit_target w.item.status) w w'
      → Change auth w w'
  -- an assigner names a reviewer who is not the author and has no approved conflict
  assigning :
      (reviewer : User)
      → may_assign (get_nbes_role_names auth) ≡ true
      → (reviewer.id == w.item.author_id) ≡ false
      → has_conflict (find_member reviewer.keycloak_sub w.members) w.item w.conflicts ≡ false
      → Assigning reviewer w w'
      → Change auth w w'
  reviewing : Moving in_review reviewed w w' → Change auth w w'
  revising : is_author auth.sub w ≡ true → Moving reviewed revised w w' → Change auth w w'

-- The endpoint passes the subject of the token, a text, where a row is wanted: no vote is recorded.
pub vote_refused :
    (env : Env) (auth : Auth) (w : Tables) (kind justification : Option String)
    → succeeds (handle_item env auth (vote kind justification) w) ≡ false
unfolding handle_item register_panel_vote create_vote
vote_refused env auth w kind justification = ground arith

module _ (env : Env) (auth : Auth) (w : Tables) {w' : Tables} where
  draft_effect :
      (d : DraftData)
      → handle_item env auth (partial_update d) w ≡ ok (tt, w')
      → Saving auth.sub w w'
  unfolding handle_item user_of update_item_draft add_version uuid4
  draft_effect d h = ground arith

  restore_effect :
      (id : ℕ) → handle_item env auth (restore id) w ≡ ok (tt, w') → Saving auth.sub w w'
  unfolding handle_item user_of restore_item_version add_version uuid4 audit record_atomic
      payload_of
  restore_effect id h = ground arith

  pub comment_effect :
      (path body : String)
      → handle_item env auth (comment path body) w ≡ ok (tt, w')
      → SameRow w w' × IsCommented w.comments w'.comments
  unfolding handle_item add_comment create_comment uuid4
  comment_effect path body h = ground arith

  settle_effect :
      (u : User) (c : ItemComment) (d : Decision) (rationale : Option String)
      → settle env auth u c d rationale w ≡ ok (tt, w')
      → SameRow w w' × IsDecided c.id rationale w.comments w'.comments
  unfolding settle create_comment uuid4 audit record_atomic payload_of
  settle_effect u c accept none h = ground arith
  settle_effect u c decline none h = ground arith
  settle_effect u c accept (some s) h = ground arith
  settle_effect u c decline (some s) h = ground arith

  decide_effect :
      (id : ℕ) (d : Decision) (rationale : Option String)
      → handle_item env auth (decide_suggestion id d rationale) w ≡ ok (tt, w')
      → Change auth w w'
  unfolding handle_item user_of process_suggestion_decision
  decide_effect id d rationale h = elim (Option-cases (find_user auth.sub w.users)) [
    | inl e ↦ ground arith
    | inr (u, e) ↦ elim (Option-cases (find_comment id w.comments)) [
      | inl q ↦ ground arith
      | inr (c, q) ↦
          let f = settle_effect u c d (rationale_of rationale) in
          Change.decided c.id (rationale_of rationale) (ground (arith, f)) (ground (arith, f))
            (ground (arith, f)) (ground (arith, f))
    ]
  ]

  submit_effect :
      handle_item env auth submit w ≡ ok (tt, w')
      → (is_author auth.sub w ≡ true)
        × (is_editable w.item.status ≡ true)
        × (has_mandatory_metadata w.item.metadata ≡ true)
        × Moving w.item.status (submit_target w.item.status) w w'
  unfolding handle_item user_of submit_item_for_review save_status create_transition audit
      record_atomic payload_of
  submit_effect h = ground arith

  assign_effect :
      (u : User) (reviewer_id notes : Option String) (given : String) (sub : ℕ)
      → given_text reviewer_id ≡ some given
      → env.parse_uuid given ≡ some sub
      → find_user sub w.users ≡ some u
      → w.item.status ≡ submitted
      → handle_item env auth (transition in_review reviewer_id notes) w ≡ ok (tt, w')
      → (may_assign (get_nbes_role_names auth) ≡ true)
        × ((u.id == w.item.author_id) ≡ false)
        × (has_conflict (find_member u.keycloak_sub w.members) w.item w.conflicts ≡ false)
        × Assigning u w w'
  unfolding handle_item user_of transition_item is_valid_transition check_transition assign_reviewer
      assert_no_reviewer_conflict save_status create_transition notify audit record_atomic
      payload_of
  assign_effect u reviewer_id notes given sub g p f s h = ground arith

  transition_is_valid :
      (t : Status) (reviewer_id notes : Option String)
      → handle_item env auth (transition t reviewer_id notes) w ≡ ok (tt, w')
      → is_valid_transition w.item.status t ≡ true
  unfolding handle_item user_of transition_item
  transition_is_valid t reviewer_id notes h = ground arith

  review_effect :
      (reviewer_id notes : Option String)
      → handle_item env auth (transition reviewed reviewer_id notes) w ≡ ok (tt, w')
      → Moving in_review reviewed w w'
  unfolding handle_item user_of transition_item is_valid_transition check_transition assign_reviewer
      save_status create_transition notify audit record_atomic payload_of
  review_effect reviewer_id notes h = ground arith

  revise_effect :
      (reviewer_id notes : Option String)
      → handle_item env auth (transition revised reviewer_id notes) w ≡ ok (tt, w')
      → (is_author auth.sub w ≡ true) × Moving reviewed revised w w'
  unfolding handle_item user_of transition_item is_valid_transition check_transition assign_reviewer
      save_status create_transition notify audit record_atomic payload_of
  revise_effect reviewer_id notes h = ground arith

  assign-Change :
      (reviewer_id notes : Option String)
      → handle_item env auth (transition in_review reviewer_id notes) w ≡ ok (tt, w')
      → Change auth w w'
  unfolding handle_item user_of transition_item is_valid_transition check_transition assign_reviewer
  assign-Change reviewer_id notes h =
      let s : w.item.status ≡ submitted =
        ground (arith, transition_is_valid in_review reviewer_id notes h) in
      elim (Option-cases (given_text reviewer_id)) [
        | inl e ↦ ground arith
        | inr (given, g) ↦ elim (Option-cases (env.parse_uuid given)) [
          | inl e ↦ ground arith
          | inr (sub, p) ↦ elim (Option-cases (find_user sub w.users)) [
            | inl e ↦ ground arith
            | inr (u, f) ↦
                let q = assign_effect u reviewer_id notes given sub g p f s h in
                Change.assigning u q.0 q.1 q.2 q.3
          ]
        ]
      ]

  transition-Change :
      (t : Status) (reviewer_id notes : Option String)
      → handle_item env auth (transition t reviewer_id notes) w ≡ ok (tt, w')
      → Change auth w w'
  unfolding is_valid_transition
  transition-Change in_review r n h = assign-Change r n h
  transition-Change reviewed r n h = Change.reviewing (review_effect r n h)
  transition-Change revised r n h = let f = revise_effect r n h in Change.revising f.0 f.1
  transition-Change t r n h = ground (arith, transition_is_valid t r n h)

  -- Every request that commits makes a change that the contract of an item allows: a new version of
  -- an editable item by its author, a comment, a decision of the author on a suggestion, the author's
  -- submission of an item with its mandatory metadata, the assignment by an assigner of a reviewer
  -- who is not the author and has no approved conflict, the end of a review, or the author's
  -- revision.
  pub handle_item-Change : (r : Request) → handle_item env auth r w ≡ ok (tt, w') → Change auth w w'
  handle_item-Change (partial_update d) h = Change.saved (draft_effect d h)
  handle_item-Change submit h = let f = submit_effect h in Change.submitting f.0 f.1 f.2 f.3
  handle_item-Change (restore id) h = Change.saved (restore_effect id h)
  handle_item-Change (comment path body) h =
      let f = comment_effect path body h in Change.commented f.0 f.1
  handle_item-Change (decide_suggestion id d rationale) h = decide_effect id d rationale h
  handle_item-Change (vote kind justification) h =
      cc (h, vote_refused env auth w kind justification)
  handle_item-Change (transition t r n) h = transition-Change t r n h
