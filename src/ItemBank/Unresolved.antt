-- ===== src/ItemBank/Unresolved.antt =====
-- The item bank where the model of users has no field `keycloak_sub`: the settings of the repository
-- name no model of users, and that of Django has none.
use nbes_backend.Base.{
  ℕ, ◌≡◌, refl, false, Option, List, [], ◌∷◌, ok, err, arith, inl, inr, Result-cases, ◌∙◌,
}
use nbes_backend.Python.{field_error}
use nbes_backend.Env.{Env}
use nbes_backend.Audit.{Trail}
use nbes_backend.Committee.Conflicts.{ConflictDeclaration}
use nbes_backend.ItemBank.Model.{User, Member}
use nbes_backend.ItemBank.World.{crash, Tables, user_of}
use nbes_backend.ItemBank.Drafts.{
  DraftData, create_item_draft, update_item_draft, submit_item_for_review, restore_item_version,
}
use nbes_backend.ItemBank.Review.{Auth, process_suggestion_decision, transition_item}
use nbes_backend.ItemBank.Requests.{
  Request, partial_update, submit, restore, comment, decide_suggestion, vote, transition,
  handle_item, serve_item_one, serve_item,
}
use nbes_backend.ItemBank.Contract.{comment_effect, vote_refused}
use nbes_backend.ItemBank.Vault.{Vault}

-- The item, its versions and its transitions are as before.
abbrev pub IsUntouched : Tables → Tables → Type 0
IsUntouched w w' =
    (w'.item ≡ w.item) × (w'.versions ≡ w.versions) × (w'.transitions ≡ w.transitions)

module _ (env : Env) (unresolved : env.user_has_sub ≡ false) where
  -- No draft is created: the lookup of its author raises.
  pub unresolved_creation :
      (sub : ℕ) (d : DraftData) (users : List User) (members : List Member)
      (conflicts : List ConflictDeclaration) (schema : Option ℕ) (trail : Trail)
      → create_item_draft env sub d users members conflicts schema trail ≡ err (crash field_error)
  unfolding create_item_draft
  unresolved_creation sub d users members conflicts schema trail = rw unresolved refl

  handle_item-IsUntouched :
      (auth : Auth) (r : Request) (w : Tables) {w' : Tables}
      → handle_item env auth r w ≡ ok (tt, w')
      → IsUntouched w w'
  unfolding handle_item user_of update_item_draft submit_item_for_review restore_item_version
      process_suggestion_decision transition_item
  handle_item-IsUntouched auth (partial_update d) w h = ground (arith, unresolved)
  handle_item-IsUntouched auth submit w h = ground (arith, unresolved)
  handle_item-IsUntouched auth (restore id) w h = ground (arith, unresolved)
  handle_item-IsUntouched auth (comment path body) w {w'} h =
      let f = comment_effect env auth w {w' = w'} path body h in ground (arith, f)
  handle_item-IsUntouched auth (decide_suggestion id d rationale) w h = ground (arith, unresolved)
  handle_item-IsUntouched auth (vote kind justification) w h =
      cc (h, vote_refused env auth w kind justification)
  handle_item-IsUntouched auth (transition t r n) w h = ground (arith, unresolved)

  serve_item_one-IsUntouched :
      (auth : Auth) (r : Request) (w : Tables) → IsUntouched w (serve_item_one env (auth, r) w)
  unfolding serve_item_one
  serve_item_one-IsUntouched auth r w = elim (Result-cases (handle_item env auth r w)) [
    | inl ((u, w'), e) ↦ rw (serve_item_one, e) (handle_item-IsUntouched auth r w e)
    | inr (x, e) ↦ rw (serve_item_one, e) (refl, refl, refl)
  ]

  -- Where users cannot be looked up by their subject, no requests change an item, its versions or its
  -- transitions.
  pub serve_item-IsUntouched :
      (requests : List (Auth × Request)) (w : Tables) → IsUntouched w (serve_item env requests w)
  unfolding serve_item
  serve_item-IsUntouched [] w = (refl, refl, refl)
  serve_item-IsUntouched ((auth, r) ∷ rest) w =
      let one = serve_item_one-IsUntouched auth r w in
      let more = serve_item-IsUntouched rest (serve_item_one env (auth, r) w) in
      (more.0 ∙ one.0, more.1 ∙ one.1, more.2 ∙ one.2)
