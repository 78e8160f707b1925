-- ===== src/SittingApp/Graph.antt =====
-- The lifecycle of a cycle as a diagram, DRAFT → CONFIGURED → LOCKED → ACTIVE → CLOSED, with the
-- edits that lead back and those that stay.
use nbes_backend.Base.{ℕ, ◌≤◌, ◌≡◌, Bool, true, List, arith}
use nbes_backend.Env.{Env}
use nbes_backend.SittingApp.Model.{
  Status, draft, configured, locked, active, closed, Sitting, is_locked,
}
use nbes_backend.SittingApp.World.{World, Caller}
use nbes_backend.SittingApp.Requests.{Request}
use nbes_backend.SittingApp.Serve.{serve, serve_induction}
use nbes_backend.SittingApp.Commits.{Commit}

infix 40 ◌⟶◌
pub data ◌⟶◌ : Status → Status → Type 0 where
  edit_draft : draft ⟶ draft
  reopen : configured ⟶ draft
  configure : draft ⟶ configured
  confirm : configured ⟶ configured
  lock : configured ⟶ locked
  start : locked ⟶ active
  finish : active ⟶ closed
  amend_locked : locked ⟶ locked
  amend_active : active ⟶ active
  amend_closed : closed ⟶ closed

ruleset edges = (
  edit_draft, reopen, configure, confirm, lock, start, finish, amend_locked, amend_active,
  amend_closed,
)

pub Commit-⟶ :
    (env : Env) (resolved : Bool) (w w' : World)
    → Commit env resolved w w'
    → w.row.status ⟶ w'.row.status
unfolding is_locked
Commit-⟶ env resolved w w' (Commit.edit o t f) = grind (arith, edges)
Commit-⟶ env resolved w w' (Commit.papers o e l k n) = grind (arith, edges)
Commit-⟶ env resolved w w' (Commit.deletion o d r p l k t) = grind (arith, edges)
Commit-⟶ env resolved w w' (Commit.configuring o r t e) = grind (arith, edges)
Commit-⟶ env resolved w w' (Commit.approval m c t e) = grind (arith, edges)
Commit-⟶ env resolved w w' (Commit.locking s c a r p e k b f) = grind (arith, edges)
Commit-⟶ env resolved w w' (Commit.replay l e) = grind (arith, edges)
Commit-⟶ env resolved w w' (Commit.start l t e) = grind (arith, edges)
Commit-⟶ env resolved w w' (Commit.finish l t e) = grind (arith, edges)
Commit-⟶ env resolved w w' (Commit.minor l p k f z) = grind (arith, edges)
Commit-⟶ env resolved w w' (Commit.major i v l p k f z) = grind (arith, edges)

infix 40 ◌⟶*◌
pub data ◌⟶*◌ (s : Status) : Status → Type 0 where
  here : s ⟶* s
  next : {t u : Status} → s ⟶* t → t ⟶ u → s ⟶* u

-- Whatever requests are served, the status has moved along the edges of the diagram.
pub serve_follows_diagram :
    (env : Env) (requests : List (Caller × Request)) (w : World)
    → w.row.status ⟶* (serve env requests w).row.status
serve_follows_diagram env requests w =
    serve_induction env (λ v. w.row.status ⟶* v.row.status)
      (λ resolved v v' c h. next h (Commit-⟶ env resolved v v' c)) requests w here

abbrev pub stage : Status → ℕ
stage draft = 0
stage configured = 0
stage locked = 1
stage active = 2
stage closed = 3

stage-⟶ : {s t : Status} → s ⟶ t → stage s ≤ stage t
stage-⟶ edit_draft = omega arith
stage-⟶ reopen = omega arith
stage-⟶ configure = omega arith
stage-⟶ confirm = omega arith
stage-⟶ lock = omega arith
stage-⟶ start = omega arith
stage-⟶ finish = omega arith
stage-⟶ amend_locked = omega arith
stage-⟶ amend_active = omega arith
stage-⟶ amend_closed = omega arith

stage-⟶* : {s t : Status} → s ⟶* t → stage s ≤ stage t
stage-⟶* here = omega arith
stage-⟶* (next r e) = omega (arith, stage-⟶* r, stage-⟶ e)

locked_stage : (s : Sitting) → is_locked s ≡ true → 1 ≤ stage s.status
unfolding is_locked
locked_stage s h = ground arith

stage_locked : (s : Sitting) → 1 ≤ stage s.status → is_locked s ≡ true
unfolding is_locked
stage_locked s h = ground arith

-- No requests take a cycle back before a stage that it has reached, where draft and configured
-- are one stage, and locked, active and closed come after it in this order.
pub serve_never_back :
    (env : Env) (requests : List (Caller × Request)) (w : World)
    → stage w.row.status ≤ stage (serve env requests w).row.status
serve_never_back env requests w = stage-⟶* (serve_follows_diagram env requests w)

-- A locked cycle stays locked, whatever requests are served.
pub serve-is_locked :
    (env : Env) (requests : List (Caller × Request)) (w : World)
    → is_locked w.row ≡ true
    → is_locked (serve env requests w).row ≡ true
serve-is_locked env requests w l =
    stage_locked (serve env requests w).row
      (omega (arith, locked_stage w.row l, serve_never_back env requests w))
