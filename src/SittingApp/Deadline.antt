-- ===== src/SittingApp/Deadline.antt =====
-- What a run of the T-30 task does to each cycle.
use nbes_backend.Base.{
  ◌≡◌, ◌≢◌, refl, String, Bool, true, false, none, some, List, [], ◌∷◌, ◌+◌, ℕ, arith, ok, err,
  Result-cases, Bool-cases, inl, inr, succeeds,
}
use nbes_backend.Python.{isoformat, Fault}
use nbes_backend.Env.{Env}
use nbes_backend.Audit.{Trail}
use nbes_backend.SittingApp.Model.{
  configured, locked, Sitting, Snapshot, Kind, auto_lock, is_locked, SubjectPaper,
}
use nbes_backend.SittingApp.World.{
  World, Caller, Code, Message, Outcome, validation, crash, uuid4, publish_event, audit,
}
use nbes_backend.SittingApp.Save.{save_lock}
use nbes_backend.SittingApp.Validate.{is_none}
use nbes_backend.SittingApp.Ready.{IsReady, validate_sitting_complete_iff}
use nbes_backend.SittingApp.Snapshot.{build_live_snapshot, frozen_snapshot}
use nbes_backend.SittingApp.Lifecycle.{
  lock_sitting, lock_open_sitting, create_lock_event, ensure_lock_record, is_configured,
}
use nbes_backend.SittingApp.Effects.{lock_effect, lock_snapshot}
use nbes_backend.SittingApp.Monitor.{
  Cell, with_trail, cell_of, nobody, is_candidate, Verdict, untouched, locked_now, skipped, failed,
  lock_offset_days, settle, try_lock, monitor_one, monitor_t30_lock,
}

-- The row as the lock leaves it.
abbrev pub stamped_row : ℕ → Sitting → Sitting
stamped_row time s = record s { status = locked; locked_at = some time }

module _ (env : Env) (caller : Caller) (s : Sitting) (w : World) where
  -- The lock of a configured, approved and ready cycle whose snapshot can be taken commits.
  pub lock_succeeds :
      (kind : Kind) (justification : String) (override : Bool) (snapshot : Snapshot)
      → s.status ≡ configured
      → s.approved_at ≢ none
      → IsReady env s w.papers
      → build_live_snapshot env (stamped_row w.trail.clock s) w.papers ≡ ok snapshot
      → succeeds (lock_sitting env caller s kind justification override w) ≡ true
  unfolding lock_sitting is_locked lock_open_sitting save_lock publish_event audit create_lock_event
      ensure_lock_record uuid4
  lock_succeeds kind j override snapshot c a r b =
      let v = (validate_sitting_complete_iff env s w.papers).1 r in ground (arith, c, a, v, b)

  live-never_refused :
      (p : Sitting) (ps : List SubjectPaper) (code : Code) (m : Message) (d : List Message)
      → build_live_snapshot env p ps ≢ err (validation code m d)
  unfolding build_live_snapshot
  live-never_refused p ps code m d h = ground (arith, h)

  -- Only a cycle that is not ready is refused, once it is configured and approved.
  refused-not_ready :
      (kind : Kind) (justification : String) (override : Bool) (code : Code) (m : Message)
      (d : List Message)
      → is_configured s.status ≡ true
      → is_none s.approved_at ≡ false
      → lock_sitting env caller s kind justification override w ≡ err (validation code m d)
      → IsReady env s w.papers
      → ⊥
  unfolding lock_sitting is_locked lock_open_sitting save_lock publish_event audit create_lock_event
      ensure_lock_record uuid4
  refused-not_ready kind j override code m d c a h r =
      let v = (validate_sitting_complete_iff env s w.papers).1 r in
      ground (arith, c, a, v, h, live-never_refused (stamped_row w.trail.clock s) w.papers code m d)

-- What the task may do to one cycle that comes by its cutoff: nothing to one that is no candidate;
-- lock a ready one and freeze its snapshot; leave one that is not ready as it is; leave as it is one
-- that an exception stopped.
pub data Monitored (env : Env) (cutoff : ℕ) (c : Cell) : Verdict → Cell → Type 0 where
  passed : is_candidate cutoff c.row ≡ false → Monitored env cutoff c untouched c
  locking :
      (ref : String) (c' : Cell) (snapshot : Snapshot)
      → is_candidate cutoff c.row ≡ true
      → IsReady env c.row c.papers
      → c'.papers ≡ c.papers
      → c'.row.status ≡ locked
      → c'.row.locked_at ≢ none
      → c'.lock_record ≢ none
      → build_live_snapshot env c'.row c.papers ≡ ok snapshot
      → frozen_snapshot c'.lock_events ≡ some snapshot
      → Monitored env cutoff c (locked_now ref) c'
  refusing :
      (ref code : String) (m : Message)
      → is_candidate cutoff c.row ≡ true
      → (IsReady env c.row c.papers → ⊥)
      → Monitored env cutoff c (skipped ref code m) c
  stopped :
      (ref : String) (f : Fault)
      → is_candidate cutoff c.row ≡ true
      → Monitored env cutoff c (failed ref f) c

-- A verdict and a cycle for each cycle before, in order.
pub data EachMonitored (env : Env) (cutoff : ℕ)
    : List Cell → List Verdict → List Cell → Type 0 where
  none_left : EachMonitored env cutoff [] [] []
  and_then :
      {c c' : Cell} {v : Verdict} {cs cs' : List Cell} {vs : List Verdict}
      → Monitored env cutoff c v c'
      → EachMonitored env cutoff cs vs cs'
      → EachMonitored env cutoff (c ∷ cs) (v ∷ vs) (c' ∷ cs')

candidate_parts :
    (cutoff : ℕ) (s : Sitting)
    → is_candidate cutoff s ≡ true
    → (is_configured s.status ≡ true) × (is_none s.approved_at ≡ false) × (is_locked s ≡ false)
unfolding is_candidate is_locked
candidate_parts cutoff s h = ground arith

module _ (env : Env) (show_message : Message → String) (today : ℕ) where
  abbrev cutoff : ℕ
  cutoff = today + lock_offset_days

  locked-Monitored :
      (c : Cell) (t : Trail) (justification : String) {s' : Sitting} {w : World}
      → is_candidate cutoff c.row ≡ true
      → lock_sitting env nobody c.row auto_lock justification false (with_trail c t) ≡ ok (s', w)
      → Monitored env cutoff c (locked_now s'.ref) (cell_of w)
  unfolding lock_sitting
  locked-Monitored c t j {s'} {w} k h =
      let (_, _, o) = candidate_parts cutoff c.row k in
      let h' = rw o at h in
      let f = lock_effect env nobody c.row (with_trail c t) auto_lock j false h' in
      let (snapshot, built, frozen) = lock_snapshot env nobody c.row (with_trail c t) j false h' in
      Monitored.locking s'.ref (cell_of w) snapshot k
        ((validate_sitting_complete_iff env c.row c.papers).0 f.2) f.3 (rw f.4) (rw f.4 (λ e. cc))
        f.5 (rw f.4 built) frozen

  settle-Monitored :
      (c : Cell) (t : Trail) (justification : String) (o : Outcome (Sitting × World))
      → is_candidate cutoff c.row ≡ true
      → lock_sitting env nobody c.row auto_lock justification false (with_trail c t) ≡ o
      → Monitored env cutoff c
          (settle env show_message today c t o).0
          (settle env show_message today c t o).1
  unfolding settle
  settle-Monitored c t j (ok (s', w)) k h = locked-Monitored c t j k h
  settle-Monitored c t j (err (validation code m d)) k h =
      let (on, a, _) = candidate_parts cutoff c.row k in
      Monitored.refusing _ _ m k
        (refused-not_ready env nobody c.row (with_trail c t) auto_lock j false code m d on a h)
  settle-Monitored c t j (err (crash f)) k h = Monitored.stopped _ f k

  try_lock-Monitored :
      (c : Cell) (t : Trail)
      → is_candidate cutoff c.row ≡ true
      → Monitored env cutoff c
          (try_lock env show_message today c t).0
          (try_lock env show_message today c t).1
  unfolding try_lock
  try_lock-Monitored c t k = elim (Result-cases (isoformat env.iso_date c.row.sitting_date)) [
    | inr (f, e) ↦ rw (e, try_lock) (Monitored.stopped c.row.ref f k)
    | inl (day, e) ↦ rw (e, try_lock) (settle-Monitored c t _ _ k refl)
  ]

  monitor_one-Monitored :
      (c : Cell) (t : Trail)
      → Monitored env cutoff c
          (monitor_one env show_message today c t).0
          (monitor_one env show_message today c t).1
  unfolding monitor_one
  monitor_one-Monitored c t = elim (Bool-cases (is_candidate cutoff c.row)) [
    | inl e ↦ rw (e, monitor_one) (try_lock-Monitored c t e)
    | inr e ↦ rw (e, monitor_one) (Monitored.passed e)
  ]

  -- A run of the task visits every cycle, whatever happens at the others, and does to each what
  -- `Monitored` says: it locks and freezes a ready candidate, leaves as it is a candidate that is
  -- not ready, one that an exception stops, and one that is no candidate.
  pub monitor_t30_lock-EachMonitored :
      (cells : List Cell) (t : Trail)
      → EachMonitored env cutoff cells
          (monitor_t30_lock env show_message today cells t).0
          (monitor_t30_lock env show_message today cells t).1
  unfolding monitor_t30_lock
  monitor_t30_lock-EachMonitored [] t = EachMonitored.none_left
  monitor_t30_lock-EachMonitored (c ∷ cs) t =
      EachMonitored.and_then (monitor_one-Monitored c t)
        (monitor_t30_lock-EachMonitored cs (monitor_one env show_message today c t).2)

module _ (env : Env) (show_message : Message → String) (today : ℕ) (c : Cell) (t : Trail) where
  -- A candidate that is ready, and whose snapshot can be taken, is locked by the run, and reported so.
  pub ready_candidate_locks :
      (snapshot : Snapshot)
      → is_candidate (today + lock_offset_days) c.row ≡ true
      → IsReady env c.row c.papers
      → build_live_snapshot env (stamped_row t.clock c.row) c.papers ≡ ok snapshot
      → (monitor_one env show_message today c t).0 ≡ locked_now c.row.ref
  unfolding monitor_one try_lock settle isoformat is_candidate lock_sitting is_locked
      lock_open_sitting save_lock publish_event audit create_lock_event ensure_lock_record uuid4
  ready_candidate_locks snapshot k r b =
      let v = (validate_sitting_complete_iff env c.row c.papers).1 r in ground (arith, k, v, b)
