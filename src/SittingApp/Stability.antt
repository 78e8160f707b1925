-- ===== src/SittingApp/Stability.antt =====
-- The frozen snapshot: when it is taken, and what leaves it alone.
use nbes_backend.Base.{
  ◌≡◌, ◌≢◌, refl, Bool, true, false, none, some, List, arith, String, ok, err, All, ◌∙◌, sym,
  Option-cases, inl, inr,
}
use nbes_backend.Python.{Dict}
use nbes_backend.Env.{Env}
use nbes_backend.Audit.{Trail}
use nbes_backend.SittingApp.Model.{Sitting, Snapshot, is_locked, auto_lock}
use nbes_backend.SittingApp.World.{World, Caller, Outcome}
use nbes_backend.SittingApp.Snapshot.{build_live_snapshot, frozen_snapshot, get_sitting_snapshot}
use nbes_backend.SittingApp.Lifecycle.{create_sitting, lock_sitting}
use nbes_backend.SittingApp.Amend.{amend_critical_with_resolution}
use nbes_backend.SittingApp.Effects.{lock_effect, lock_snapshot}
use nbes_backend.SittingApp.AmendEffects.{Froze, amend_critical_effect, amend_critical_snapshot}
use nbes_backend.SittingApp.Requests.{Request}
use nbes_backend.SittingApp.Commits.{Commit, is_resolution}
use nbes_backend.SittingApp.Serve.{serve, serve_induction, serve_induction_minor}
use nbes_backend.SittingApp.Soundness.{serve-IsSound}

-- What a later phase reads of a locked cycle with a frozen snapshot is that snapshot.
snapshot-eq_frozen :
    (env : Env) (w : World) (snapshot : Snapshot)
    → is_locked w.row ≡ true
    → frozen_snapshot w.lock_events ≡ some snapshot
    → get_sitting_snapshot env w ≡ ok snapshot
unfolding get_sitting_snapshot
snapshot-eq_frozen env w snapshot l f = ground arith

snapshot-eq_live :
    (env : Env) (w : World) (live : Outcome Snapshot)
    → is_locked w.row ≡ true
    → Froze live (frozen_snapshot w.lock_events)
    → get_sitting_snapshot env w ≡ live
snapshot-eq_live env w (ok snapshot) l z = snapshot-eq_frozen env w snapshot l z
snapshot-eq_live env w (err x) l z = absurd z

is_locked-status : (s r : Sitting) → r.status ≡ s.status → is_locked r ≡ is_locked s
unfolding is_locked
is_locked-status s r e = rw e

module _ (env : Env) (before : World) where
  -- Locked, with the frozen snapshot of `before`.
  abbrev KeepsFrozen : World → Type 0
  KeepsFrozen w =
      (is_locked w.row ≡ true)
      × (frozen_snapshot w.lock_events ≡ frozen_snapshot before.lock_events)

  Commit-KeepsFrozen : (w w' : World) → Commit env false w w' → KeepsFrozen w → KeepsFrozen w'
  unfolding is_locked
  Commit-KeepsFrozen w w' (Commit.edit o t f) h = ground arith
  Commit-KeepsFrozen w w' (Commit.papers o e l k n) h = ground arith
  Commit-KeepsFrozen w w' (Commit.deletion o d r p l k t) h = ground arith
  Commit-KeepsFrozen w w' (Commit.configuring o r t e) h = ground arith
  Commit-KeepsFrozen w w' (Commit.approval m c t e) h = ground arith
  Commit-KeepsFrozen w w' (Commit.locking s c a r p e k b f) h = ground arith
  Commit-KeepsFrozen w w' (Commit.replay l e) h = rw e h
  Commit-KeepsFrozen w w' (Commit.start l t e) h = ground arith
  Commit-KeepsFrozen w w' (Commit.finish l t e) h = ground arith
  Commit-KeepsFrozen w w' (Commit.minor l p k f z) h = ground arith
  Commit-KeepsFrozen w w' (Commit.major i v l p k f z) h = cc

module _ (env : Env) (w : World) where
  serve-get_sitting_snapshot :
      (requests : List (Caller × Request))
      → is_locked w.row ≡ true
      → frozen_snapshot w.lock_events ≢ none
      → All (λ q. is_resolution q.1 ≡ false) requests
      → get_sitting_snapshot env (serve env requests w) ≡ get_sitting_snapshot env w
  serve-get_sitting_snapshot requests l f plain =
      let (l', f') =
        serve_induction_minor env (KeepsFrozen env w) (Commit-KeepsFrozen env w) requests w plain
          (l, refl) in
      elim (Option-cases (frozen_snapshot w.lock_events)) [
        | inl e ↦ absurd (f e)
        | inr (snapshot, e) ↦
            snapshot-eq_frozen env (serve env requests w) snapshot l' (f' ∙ e)
            ∙ sym (snapshot-eq_frozen env w snapshot l e)
      ]

-- Of a cycle that was created and then served any requests, and is locked now, later phases
-- read the same snapshot after any further requests that carry no resolution.
pub snapshot_stable :
    (env : Env) (caller : Caller) (data' : Sitting) (trail : Trail) (w : World)
    → (earlier later : List (Caller × Request)) → create_sitting env caller data' trail ≡ ok w
    → is_locked (serve env earlier w).row ≡ true
    → All (λ q. is_resolution q.1 ≡ false) later
    → get_sitting_snapshot env (serve env later (serve env earlier w))
      ≡ get_sitting_snapshot env (serve env earlier w)
snapshot_stable env caller data' trail w earlier later created l plain =
    serve-get_sitting_snapshot env (serve env earlier w) later l
      ((serve-IsSound env caller data' trail earlier created).sealed l).frozen plain

module _ (env : Env) (caller : Caller) (w : World) {s' : Sitting} {w' : World} where
  -- A lock that takes effect freezes the locked row and its papers, whatever was frozen before.
  pub lock_freezes :
      (justification : String) (override : Bool)
      → is_locked w.row ≡ false
      → lock_sitting env caller w.row auto_lock justification override w ≡ ok (s', w')
      → get_sitting_snapshot env w' ≡ build_live_snapshot env w'.row w'.papers
  unfolding lock_sitting
  lock_freezes j override o h =
      let h' = rw o at h in
      let f = lock_effect env caller w.row w auto_lock j override h' in
      let (snapshot, built, frozen) = lock_snapshot env caller w.row w j override h' in
      snapshot-eq_frozen env w' snapshot (rw f.4 (unfold is_locked in refl)) frozen
      ∙ sym (rw (f.4, f.3) built)

  -- A resolution makes the snapshot the live one of the amended instance.
  pub resolution_freezes :
      (changes : Dict) (resolution justification : String)
      → amend_critical_with_resolution env caller w.row changes resolution justification w
        ≡ ok (s', w')
      → get_sitting_snapshot env w' ≡ build_live_snapshot env s' w'.papers
  resolution_freezes changes resolution j h =
      let f = amend_critical_effect env caller w.row w changes j resolution h in
      let z = amend_critical_snapshot env caller w.row w changes j resolution h in
      snapshot-eq_live env w' (build_live_snapshot env s' w'.papers)
        (is_locked-status w.row w'.row f.4.1 ∙ f.0) (rw f.2 z)

-- An approval, once recorded, stays recorded after any requests, edits of the configuration included, unless
-- the cycle is deleted.
pub approval_stays :
    (env : Env) (requests : List (Caller × Request)) (w : World)
    → (serve env requests w).is_deleted ≡ false
    → w.row.approved_at ≢ none
    → (serve env requests w).row.approved_at ≢ none
approval_stays env requests w kept h =
    serve_induction env (λ w. w.row.approved_at ≢ none) step requests w h
  where
    step :
        (resolved : Bool) (v v' : World)
        → Commit env resolved v v'
        → v.row.approved_at ≢ none
        → v'.row.approved_at ≢ none
    step resolved v v' (Commit.edit o t f) a = ground arith
    step resolved v v' (Commit.papers o e l k n) a = ground arith
    step resolved v v' (Commit.deletion o d r p l k t) a = ground arith
    step resolved v v' (Commit.configuring o r t e) a = ground arith
    step resolved v v' (Commit.approval m c t e) a = ground arith
    step resolved v v' (Commit.locking s c b r p e k q f) a = ground arith
    step resolved v v' (Commit.replay l e) a = ground arith
    step resolved v v' (Commit.start l t e) a = ground arith
    step resolved v v' (Commit.finish l t e) a = ground arith
    step resolved v v' (Commit.minor l p k f z) a = ground arith
    step resolved v v' (Commit.major i x l p k f z) a = ground arith
