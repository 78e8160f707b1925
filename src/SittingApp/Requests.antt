-- ===== src/SittingApp/Requests.antt =====
-- The endpoints of views.py that change a cycle: each loads the row afresh, calls
-- its service, and answers an exception with an error.
use nbes_backend.Base.{
  ◌≡◌, refl, Bool, false, ok, ℕ, ◌==◌, String, true, Option, none, some, List, [], ◌∷◌, str_eq,
  if◌then◌else◌, err,
}
use nbes_backend.Python.{Dict}
use nbes_backend.Env.{Env}
use nbes_backend.SittingApp.Model.{Sitting, SubjectPaper, auto_lock, is_locked}
use nbes_backend.SittingApp.World.{
  World, Action, not_found, missing, configuration_locked, delete_locked, refuse_if, modify, pure,
  lift, gets, validation, ◌>>=◌, ◌>>◌, Caller,
}
use nbes_backend.SittingApp.Lifecycle.{
  Changes, update_sitting_draft, configure_sitting, approve_sitting, lock_sitting, activate_sitting,
  close_sitting,
}
use nbes_backend.SittingApp.Papers.{PaperData, add_or_update_paper, remove_paper}
use nbes_backend.SittingApp.Amend.{amend_non_critical, amend_critical_with_resolution}

pub data Request : Type 0 where
  update : Changes → Request
  delete : Request
  put_paper : PaperData → Request
  drop_paper : ℕ → Request
  configure : Request
  approve : ℕ → Request
  manual_lock : String → Request
  activate close : Request
  amend : Dict → String → Request
  amend_critical : Dict → String → String → Request

-- `_get_paper`
unfoldable pub paper_by_id : ℕ → List SubjectPaper → Option SubjectPaper
paper_by_id id [] = none
paper_by_id id (p ∷ ps) = if p.id == id then some p else paper_by_id id ps

module _ (env : Env) (caller : Caller) where
  -- The paper of the path, or the answer 404.
  unfoldable pub remove_found : Option SubjectPaper → Sitting → Action (Unit {0})
  remove_found none s = lift (err (validation not_found missing []))
  remove_found (some p) s = remove_paper env caller s p

  -- `SittingDetailView.delete`: the row and what cascades from it, with nothing written to the trail.
  unfoldable pub delete_sitting : Sitting → Action (Unit {0})
  delete_sitting s = do
    lift (refuse_if (is_locked s) configuration_locked delete_locked)
    modify (λ w. record w { papers = []; lock_events = []; lock_record = none; is_deleted = true })

  -- The view's call of its service on the instance that it loaded.
  unfoldable pub call : Request → Sitting → Action (Unit {0})
  call (update changes) s = update_sitting_draft env caller s changes >> pure tt
  call delete s = delete_sitting s
  call (put_paper d) s = add_or_update_paper env caller s d >> pure tt
  call (drop_paper id) s = do papers ← gets (λ w. w.papers); remove_found (paper_by_id id papers) s
  call configure s = configure_sitting env caller s >> pure tt
  call (approve meeting) s = approve_sitting env caller s meeting >> pure tt
  call (manual_lock justification) s =
      lock_sitting env caller s auto_lock
        (if str_eq justification "" then "Manual lock by authorised override." else justification)
        true
      >> pure tt
  call activate s = activate_sitting env caller s >> pure tt
  call close s = close_sitting env caller s >> pure tt
  call (amend changes justification) s =
      amend_non_critical env caller s changes justification >> pure tt
  call (amend_critical changes resolution justification) s =
      amend_critical_with_resolution env caller s changes resolution justification >> pure tt

  -- One request: load the row or answer 404, call the service, keep what it committed.
  unfoldable pub handle : Request → Action (Unit {0})
  handle r = do
    is_deleted ← gets (λ w. w.is_deleted)
    s ← gets (λ w. w.row)
    if is_deleted then lift (err (validation not_found missing [])) else call r s

  -- A request that returns found the cycle, and is the view's call.
  pub handle-call :
      (r : Request) (w : World) {w' : World}
      → handle r w ≡ ok (tt, w')
      → (w.is_deleted ≡ false) × (call r w.row w ≡ ok (tt, w'))
  unfolding handle
  handle-call r w h = found w.is_deleted refl h
    where
      found :
          (b : Bool) {w' : World}
          → w.is_deleted ≡ b
          → (if b then lift (err (validation not_found missing [])) else call r w.row) w
            ≡ ok (tt, w')
          → (w.is_deleted ≡ false) × (call r w.row w ≡ ok (tt, w'))
      found true e h = cc
      found false e h = (e, h)
