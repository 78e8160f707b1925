-- ===== src/SittingApp/Pitfalls.antt =====
-- Where the services do otherwise than their comments say.
use nbes_backend.Base.{◌≡◌, ◌≢◌, String, false, Option, List, arith, ok}
use nbes_backend.Python.{Dict, text, isoformat}
use nbes_backend.Env.{Env}
use nbes_backend.SittingApp.Model.{Sitting, SubjectPaper, Snapshot, is_locked}
use nbes_backend.SittingApp.World.{World, Caller}
use nbes_backend.SittingApp.Snapshot.{build_live_snapshot}
use nbes_backend.SittingApp.Lifecycle.{Changes, update_sitting_draft, set_all}
use nbes_backend.SittingApp.Amend.{amend_critical_with_resolution, known_changes}
use nbes_backend.SittingApp.Effects.{update_effect}
use nbes_backend.SittingApp.AmendEffects.{Froze, amend_critical_effect, amend_critical_snapshot}

-- `build_live_snapshot` has no snapshot of an instance whose date is a text.
live-text_date :
    (env : Env) (s : Sitting) (t : String) (frozen : Option Snapshot) (papers : List SubjectPaper)
    → s.sitting_date ≡ text t
    → Froze (build_live_snapshot env s papers) frozen
    → ⊥
unfolding build_live_snapshot isoformat
live-text_date env s t frozen papers e z = ground arith

-- A resolution that amends the date of a cycle, as a request can only carry it, as a text, never
-- commits: the snapshot needs `isoformat` of it.
pub amend_date_fails :
    (env : Env) (caller : Caller) (w : World) (changes : Dict) (resolution justification t : String)
    → (set_all (known_changes changes) w.row).sitting_date ≡ text t
    → (s' : Sitting) (w' : World)
    → amend_critical_with_resolution env caller w.row changes resolution justification w
      ≢ ok (s', w')
amend_date_fails env caller w changes resolution j t e s' w' h =
    let f = amend_critical_effect env caller w.row w changes j resolution h in
    live-text_date env s' t _ _ (rw f.1 e)
      (amend_critical_snapshot env caller w.row w changes j resolution h)

-- A draft edit whose instance was loaded before a lock leaves the row unlocked, also where the row
-- has been locked since.
pub stale_edit_unlocks :
    (env : Env) (caller : Caller) (s : Sitting) (changes : Changes) (w : World) {s' : Sitting}
    {w' : World}
    → is_locked s ≡ false
    → update_sitting_draft env caller s changes w ≡ ok (s', w')
    → is_locked w'.row ≡ false
unfolding is_locked
stale_edit_unlocks env caller s changes w o h =
    ground (arith, update_effect env caller s w changes h)
