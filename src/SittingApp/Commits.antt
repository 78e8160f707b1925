-- ===== src/SittingApp/Commits.antt =====
-- The contract of the app: the changes that a committed request may make, apart from the
-- code that makes them, and that every request of views.py makes one of them.
use nbes_backend.Base.{
  ℕ, String, ◌≡◌, ◌≢◌, refl, inl, inr, Bool, true, false, Option, none, some, [], arith, ok,
  Bool-cases,
}
use nbes_backend.Env.{Env}
use nbes_backend.SittingApp.Model.{
  SubjectPaper, configured, locked, active, closed, Sitting, Snapshot, auto_lock, is_locked,
}
use nbes_backend.SittingApp.World.{World, Caller}
use nbes_backend.SittingApp.Ready.{IsReady, validate_sitting_complete_iff}
use nbes_backend.SittingApp.Snapshot.{build_live_snapshot, frozen_snapshot}
use nbes_backend.SittingApp.Lifecycle.{
  reopened, is_open, lock_sitting, lock_open_sitting, update_sitting_draft, configure_sitting,
  approve_sitting, activate_sitting, close_sitting,
}
use nbes_backend.SittingApp.Papers.{add_or_update_paper}
use nbes_backend.SittingApp.Amend.{amend_non_critical, amend_critical_with_resolution}
use nbes_backend.SittingApp.Frame.{SameFrame}
use nbes_backend.SittingApp.Effects.{
  SameTables, update_effect, configure_effect, approve_effect, activate_effect, close_effect,
  lock_effect, lock_snapshot,
}
use nbes_backend.SittingApp.AmendEffects.{
  Froze, amend_non_critical_effect, amend_critical_effect, amend_critical_snapshot,
}
use nbes_backend.SittingApp.PaperEffects.{HasRoom, put_effect, drop_effect, delete_effect}
use nbes_backend.SittingApp.Deletion.{returned, is_deletion, call-is_deleted}
use nbes_backend.SittingApp.Requests.{
  Request, update, delete, put_paper, drop_paper, configure, approve, manual_lock, activate, close,
  amend, amend_critical, paper_by_id, remove_found, call, handle, handle-call,
}

-- `resolved` says whether the request carries a resolution of the committee.
pub data Commit (env : Env) (resolved : Bool) (w w' : World) : Type 0 where
  -- a draft edit: a configured cycle falls back to draft
  edit :
      is_locked w.row ≡ false
      → SameTables w w'
      → SameFrame (reopened w.row) w'.row
      → Commit env resolved w w'
  -- a paper added, updated or removed, likewise
  papers :
      is_locked w.row ≡ false
      → w'.row ≡ reopened w.row
      → w'.lock_events ≡ w.lock_events
      → w'.lock_record ≡ w.lock_record
      → HasRoom w.papers w'.papers
      → Commit env resolved w w'
  -- a cycle that is not locked is deleted, with what belongs to it
  deletion :
      is_locked w.row ≡ false
      → w'.is_deleted ≡ true
      → w'.row ≡ w.row
      → w'.papers ≡ []
      → w'.lock_events ≡ []
      → w'.lock_record ≡ none
      → w'.trail ≡ w.trail
      → Commit env resolved w w'
  configuring :
      is_open w.row.status ≡ true
      → IsReady env w.row w.papers
      → SameTables w w'
      → w'.row ≡ (let r = w.row in record r { status = configured })
      → Commit env resolved w w'
  approval :
      (meeting : ℕ)
      → w.row.status ≡ configured
      → SameTables w w'
      → w'.row ≡ (
          let r = w.row in
          record r { approved_at = some w.trail.clock; approved_via_meeting_id = some meeting })
      → Commit env resolved w w'
  -- the lock: approved, ready, and frozen as the snapshot says
  locking :
      (snapshot : Snapshot)
      → w.row.status ≡ configured
      → w.row.approved_at ≢ none
      → IsReady env w.row w.papers
      → w'.papers ≡ w.papers
      → w'.row ≡ (let r = w.row in record r { status = locked; locked_at = some w.trail.clock })
      → w'.lock_record ≢ none
      → build_live_snapshot env w'.row w'.papers ≡ ok snapshot
      → frozen_snapshot w'.lock_events ≡ some snapshot
      → Commit env resolved w w'
  replay : is_locked w.row ≡ true → w' ≡ w → Commit env resolved w w'
  start :
      w.row.status ≡ locked
      → SameTables w w'
      → w'.row ≡ (let r = w.row in record r { status = active })
      → Commit env resolved w w'
  finish :
      w.row.status ≡ active
      → SameTables w w'
      → w'.row ≡ (let r = w.row in record r { status = closed })
      → Commit env resolved w w'
  -- an amendment by the Chair leaves the frozen snapshot
  minor :
      is_locked w.row ≡ true
      → w'.papers ≡ w.papers
      → w'.lock_record ≡ w.lock_record
      → SameFrame w.row w'.row
      → frozen_snapshot w'.lock_events ≡ frozen_snapshot w.lock_events
      → Commit env resolved w w'
  -- a resolution freezes a new one, of the amended instance
  major :
      (instance' : Sitting)
      → resolved ≡ true
      → is_locked w.row ≡ true
      → w'.papers ≡ w.papers
      → w'.lock_record ≡ w.lock_record
      → SameFrame w.row w'.row
      → Froze (build_live_snapshot env instance' w.papers) (frozen_snapshot w'.lock_events)
      → Commit env resolved w w'

-- The request carries a resolution.
abbrev pub is_resolution : Request → Bool
is_resolution (amend_critical _ _ _) = true
is_resolution _ = false

module _ (env : Env) (caller : Caller) (w : World) {w' : World} where
  lock_open-Commit :
      (justification : String) {s' : Sitting}
      → lock_open_sitting env caller w.row auto_lock justification true w ≡ ok (s', w')
      → Commit env false w w'
  lock_open-Commit j h =
      let f = lock_effect env caller w.row w auto_lock j true h in
      let (snapshot, built, frozen) = lock_snapshot env caller w.row w j true h in
      Commit.locking snapshot f.0 f.1 ((validate_sitting_complete_iff env w.row w.papers).0 f.2) f.3
        f.4 f.5 (rw (f.4, f.3) built) frozen

  lock-Commit :
      (justification : String) {s' : Sitting}
      → lock_sitting env caller w.row auto_lock justification true w ≡ ok (s', w')
      → Commit env false w w'
  unfolding lock_sitting
  lock-Commit j h = elim (Bool-cases (is_locked w.row)) [
    | inl e ↦ Commit.replay e (ground (arith, e, h))
    | inr e ↦ lock_open-Commit j (rw e at h)
  ]

  remove_found-Commit :
      (o : Option SubjectPaper)
      → remove_found env caller o w.row w ≡ ok (tt, w')
      → Commit env false w w'
  unfolding remove_found
  remove_found-Commit none h = cc
  remove_found-Commit (some p) h =
      let f = drop_effect env caller w.row w p h in Commit.papers f.0 f.1 f.3 f.4 (inl f.5)

  call-Commit :
      (r : Request) → call env caller r w.row w ≡ ok (tt, w') → Commit env (is_resolution r) w w'
  unfolding call
  call-Commit (update changes) h =
      let (s', e) = returned (update_sitting_draft env caller w.row changes) w h in
      let f = update_effect env caller w.row w changes e in Commit.edit f.0 f.1 f.2
  call-Commit delete h =
      let f = delete_effect env caller w.row w h in Commit.deletion f.0 f.1 f.2 f.3 f.4 f.5 f.6
  call-Commit (put_paper d) h =
      let (p, e) = returned (add_or_update_paper env caller w.row d) w h in
      let f = put_effect env caller w.row w d e in Commit.papers f.0 f.3 f.4 f.5 f.6
  call-Commit (drop_paper id) h = remove_found-Commit (paper_by_id id w.papers) h
  call-Commit configure h =
      let (s', e) = returned (configure_sitting env caller w.row) w h in
      let f = configure_effect env caller w.row w e in
      Commit.configuring f.0 ((validate_sitting_complete_iff env w.row w.papers).0 f.1) f.3 f.2
  call-Commit (approve meeting) h =
      let (s', e) = returned (approve_sitting env caller w.row meeting) w h in
      let f = approve_effect env caller w.row w meeting e in Commit.approval meeting f.0 f.2 f.1
  call-Commit (manual_lock j) h =
      let (s', e) = returned (lock_sitting env caller w.row auto_lock _ true) w h in lock-Commit _ e
  call-Commit activate h =
      let (s', e) = returned (activate_sitting env caller w.row) w h in
      let f = activate_effect env caller w.row w e in Commit.start f.0 f.2 f.1
  call-Commit close h =
      let (s', e) = returned (close_sitting env caller w.row) w h in
      let f = close_effect env caller w.row w e in Commit.finish f.0 f.2 f.1
  call-Commit (amend changes j) h =
      let (s', e) = returned (amend_non_critical env caller w.row changes j) w h in
      let f = amend_non_critical_effect env caller w.row w changes j e in
      Commit.minor f.0 f.4 f.5 f.6 f.7
  call-Commit (amend_critical changes resolution j) h =
      let (s', e) =
        returned (amend_critical_with_resolution env caller w.row changes resolution j) w h in
      let f = amend_critical_effect env caller w.row w changes j resolution e in
      Commit.major s' refl f.0 f.2 f.3 f.4
        (amend_critical_snapshot env caller w.row w changes j resolution e)

  -- Every request that commits finds the cycle, makes a change that the contract allows, and leaves the
  -- cycle in place unless it is the request of its deletion.
  pub handle-Commit :
      (r : Request)
      → handle env caller r w ≡ ok (tt, w')
      → (w.is_deleted ≡ false) × Commit env (is_resolution r) w w' × (w'.is_deleted ≡ is_deletion r)
  handle-Commit r h =
      let (found, e) = handle-call env caller r w h in
      (found, call-Commit r e, call-is_deleted env caller w r found e)
