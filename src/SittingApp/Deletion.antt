-- ===== src/SittingApp/Deletion.antt =====
-- Which request deletes a cycle, and that no other does.
use nbes_backend.Base.{
  String, ◌≡◌, inl, inr, Bool, true, false, Option, none, some, arith, ok, Result-cases, Bool-cases,
  ◌∙◌,
}
use nbes_backend.Env.{Env}
use nbes_backend.SittingApp.Model.{SubjectPaper, Sitting, auto_lock, is_locked}
use nbes_backend.SittingApp.World.{World, Action, Caller, pure, ◌>>◌}
use nbes_backend.SittingApp.Lifecycle.{
  lock_sitting, update_sitting_draft, configure_sitting, approve_sitting, activate_sitting,
  close_sitting,
}
use nbes_backend.SittingApp.Papers.{add_or_update_paper}
use nbes_backend.SittingApp.Amend.{amend_non_critical, amend_critical_with_resolution}
use nbes_backend.SittingApp.Effects.{
  update_effect, configure_effect, approve_effect, activate_effect, close_effect, lock_effect,
}
use nbes_backend.SittingApp.AmendEffects.{amend_non_critical_effect, amend_critical_effect}
use nbes_backend.SittingApp.PaperEffects.{put_effect, drop_effect, delete_effect}
use nbes_backend.SittingApp.Requests.{
  Request, update, delete, put_paper, drop_paper, configure, approve, manual_lock, activate, close,
  amend, amend_critical, paper_by_id, remove_found, call,
}

-- What the service returned, under the view's `>> pure tt`.
pub returned :
    {A : Type 0} (m : Action A) (w : World) {w' : World}
    → (m >> pure tt) w ≡ ok (tt, w')
    → (a : A) × (m w ≡ ok (a, w'))
returned {A} m w {w'} h = elim (Result-cases (m w)) [
  | inl ((a, w1), e) ↦ (a, ground (arith, e, h))
  | inr (x, e) ↦ absurd (ground (arith, e, h))
]

-- The request of a deletion.
abbrev pub is_deletion : Request → Bool
is_deletion delete = true
is_deletion _ = false

module _ (env : Env) (caller : Caller) (w : World) {w' : World} where
  lock-kept :
      (j : String) {s' : Sitting}
      → lock_sitting env caller w.row auto_lock j true w ≡ ok (s', w')
      → w'.is_deleted ≡ w.is_deleted
  unfolding lock_sitting
  lock-kept j h = elim (Bool-cases (is_locked w.row)) [
    | inl e ↦ ground (arith, e, h)
    | inr e ↦ (lock_effect env caller w.row w auto_lock j true (rw e at h)).7
  ]

  remove_found-kept :
      (o : Option SubjectPaper)
      → remove_found env caller o w.row w ≡ ok (tt, w')
      → w'.is_deleted ≡ w.is_deleted
  unfolding remove_found
  remove_found-kept none h = cc
  remove_found-kept (some p) h = (drop_effect env caller w.row w p h).7

  -- Only the deletion of a cycle that is there deletes it.
  pub call-is_deleted :
      (r : Request)
      → w.is_deleted ≡ false
      → call env caller r w.row w ≡ ok (tt, w')
      → w'.is_deleted ≡ is_deletion r
  unfolding call
  call-is_deleted (update changes) k h =
      let (s', e) = returned (update_sitting_draft env caller w.row changes) w h in
      (update_effect env caller w.row w changes e).4 ∙ k
  call-is_deleted delete k h = (delete_effect env caller w.row w h).1
  call-is_deleted (put_paper d) k h =
      let (p, e) = returned (add_or_update_paper env caller w.row d) w h in
      (put_effect env caller w.row w d e).8 ∙ k
  call-is_deleted (drop_paper id) k h = remove_found-kept (paper_by_id id w.papers) h ∙ k
  call-is_deleted configure k h =
      let (s', e) = returned (configure_sitting env caller w.row) w h in
      (configure_effect env caller w.row w e).5 ∙ k
  call-is_deleted (approve meeting) k h =
      let (s', e) = returned (approve_sitting env caller w.row meeting) w h in
      (approve_effect env caller w.row w meeting e).4 ∙ k
  call-is_deleted (manual_lock j) k h =
      let (s', e) = returned (lock_sitting env caller w.row auto_lock _ true) w h in
      lock-kept _ e ∙ k
  call-is_deleted activate k h =
      let (s', e) = returned (activate_sitting env caller w.row) w h in
      (activate_effect env caller w.row w e).4 ∙ k
  call-is_deleted close k h =
      let (s', e) = returned (close_sitting env caller w.row) w h in
      (close_effect env caller w.row w e).4 ∙ k
  call-is_deleted (amend changes j) k h =
      let (s', e) = returned (amend_non_critical env caller w.row changes j) w h in
      (amend_non_critical_effect env caller w.row w changes j e).9 ∙ k
  call-is_deleted (amend_critical changes resolution j) k h =
      let (s', e) =
        returned (amend_critical_with_resolution env caller w.row changes resolution j) w h in
      (amend_critical_effect env caller w.row w changes j resolution e).6 ∙ k
