-- ===== src/SittingApp/Soundness.antt =====
-- What a locked cycle is sure to have, whatever requests were made since it was created.
use nbes_backend.Base.{
  inl, inr, ◌≤◌, ◌≡◌, ◌≢◌, Bool, true, false, Option, none, List, [], ◌∷◌, arith, ok, err, length,
  All, sym, ap, ◌∙◌, subst, false≢true,
}
use nbes_backend.Env.{Env}
use nbes_backend.Audit.{Trail}
use nbes_backend.SittingApp.Model.{Sitting, SubjectPaper, Snapshot, is_locked}
use nbes_backend.SittingApp.World.{World, Caller, Outcome, publish_event, audit}
use nbes_backend.SittingApp.Save.{save, all_fields}
use nbes_backend.SittingApp.Validate.{required_papers, is_none}
use nbes_backend.SittingApp.Ready.{PaperReady, SectionsAgree}
use nbes_backend.SittingApp.Snapshot.{frozen_snapshot}
use nbes_backend.SittingApp.Lifecycle.{new_sitting, create_sitting, record_creation}
use nbes_backend.SittingApp.Frame.{clean_fields-Framed}
use nbes_backend.SittingApp.AmendEffects.{Froze}
use nbes_backend.SittingApp.Requests.{Request}
use nbes_backend.SittingApp.Commits.{Commit}
use nbes_backend.SittingApp.Serve.{serve, serve_induction}

-- A paper with a blueprint, whose section marks add up.
abbrev pub PaperFit : Env → SubjectPaper → Type 0
PaperFit env p = SectionsAgree env p × (is_none p.blueprint_version_id ≡ false)

-- Five fit papers, approved, stamped, with its lock on record and a frozen snapshot.
pub record IsSealed (env : Env) (w : World) : Type 0 where
  pub counted : length w.papers ≡ required_papers
  pub each : All (PaperFit env) w.papers
  pub approved : w.row.approved_at ≢ none
  pub stamped : w.row.locked_at ≢ none
  pub recorded : w.lock_record ≢ none
  pub frozen : frozen_snapshot w.lock_events ≢ none

pub record IsSound (env : Env) (w : World) : Type 0 where
  pub room : length w.papers ≤ required_papers
  pub sealed : is_locked w.row ≡ true → IsSealed env w

All-PaperFit :
    (env : Env) (s : Sitting) (ps : List SubjectPaper)
    → All (PaperReady env s) ps
    → All (PaperFit env) ps
All-PaperFit env s [] h = tt
All-PaperFit env s (p ∷ ps) h = ((h.0.1, h.0.2), All-PaperFit env s ps h.1)

Froze-some :
    (live : Outcome Snapshot) (frozen : Option Snapshot) → Froze live frozen → frozen ≢ none
Froze-some (ok s) frozen h = λ e. cc
Froze-some (err x) frozen h = absurd h

-- A cycle that is not locked after the step has only its room to keep.
open_IsSound :
    (env : Env) (w : World)
    → length w.papers ≤ required_papers
    → is_locked w.row ≡ false
    → IsSound env w
open_IsSound env w room o = record { room = room; sealed = λ l. absurd (false≢true (sym o ∙ l)) }

-- A step between locked states that keeps what a seal speaks of.
keep_IsSealed :
    (env : Env) (w w' : World)
    → w'.papers ≡ w.papers
    → w'.row.approved_at ≡ w.row.approved_at
    → w'.row.locked_at ≡ w.row.locked_at
    → w'.lock_record ≡ w.lock_record
    → frozen_snapshot w'.lock_events ≢ none
    → IsSealed env w
    → IsSealed env w'
keep_IsSealed env w w' p a l k z h = record {
  counted = ap length p ∙ h.counted;
  each = subst (All (PaperFit env)) (sym p) h.each;
  approved = λ e. h.approved (sym a ∙ e);
  stamped = λ e. h.stamped (sym l ∙ e);
  recorded = λ e. h.recorded (sym k ∙ e);
  frozen = z;
}

keep_IsSound :
    (env : Env) (w w' : World)
    → w'.papers ≡ w.papers
    → IsSealed env w'
    → IsSound env w
    → IsSound env w'
keep_IsSound env w w' p z h = record { room = rw p h.room; sealed = λ l. z }

Commit-IsSound :
    (env : Env) (resolved : Bool) (w w' : World)
    → Commit env resolved w w'
    → IsSound env w
    → IsSound env w'
unfolding is_locked
Commit-IsSound env resolved w w' (Commit.edit o t f) h =
    open_IsSound env w' (rw t.0 h.room) (ground arith)
Commit-IsSound env resolved w w' (Commit.papers o e l k n) h =
    open_IsSound env w' (elim n [ inl m ↦ omega (arith, m, h.room) | inr m ↦ m ]) (ground arith)
Commit-IsSound env resolved w w' (Commit.deletion o d r p l k t) h =
    open_IsSound env w' (rw p (omega arith)) (rw r o)
Commit-IsSound env resolved w w' (Commit.configuring o r t e) h =
    open_IsSound env w' (rw t.0 h.room) (rw e)
Commit-IsSound env resolved w w' (Commit.approval m c t e) h =
    open_IsSound env w' (rw t.0 h.room) (ground arith)
Commit-IsSound env resolved w w' (Commit.locking s c a r p e k b f) h =
    keep_IsSound env w w' p
      (record {
        counted = ap length p ∙ r.counted;
        each = subst (All (PaperFit env)) (sym p) (All-PaperFit env w.row w.papers r.each);
        approved = rw e a;
        stamped = rw e (λ q. cc);
        recorded = k;
        frozen = rw f (λ q. cc);
      })
      h
Commit-IsSound env resolved w w' (Commit.replay l e) h = rw e h
Commit-IsSound env resolved w w' (Commit.start l t e) h =
    let z = h.sealed (rw l) in
    keep_IsSound env w w' t.0 (keep_IsSealed env w w' t.0 (rw e) (rw e) t.2 (rw t.1 z.frozen) z) h
Commit-IsSound env resolved w w' (Commit.finish l t e) h =
    let z = h.sealed (rw l) in
    keep_IsSound env w w' t.0 (keep_IsSealed env w w' t.0 (rw e) (rw e) t.2 (rw t.1 z.frozen) z) h
Commit-IsSound env resolved w w' (Commit.minor l p k f z) h =
    keep_IsSound env w w' p
      (keep_IsSealed env w w' p f.4 f.3 k (rw z (h.sealed l).frozen) (h.sealed l)) h
Commit-IsSound env resolved w w' (Commit.major i v l p k f z) h =
    keep_IsSound env w w' p (keep_IsSealed env w w' p f.4 f.3 k (Froze-some _ _ z) (h.sealed l)) h

module _ (env : Env) (caller : Caller) (data' : Sitting) (trail : Trail) {w : World} where
  create_effect :
      create_sitting env caller data' trail ≡ ok w → (w.papers ≡ []) × (is_locked w.row ≡ false)
  unfolding create_sitting record_creation save publish_event audit is_locked
  create_effect h =
      ground (arith, clean_fields-Framed env all_fields (new_sitting env caller data'))

  create-IsSound : create_sitting env caller data' trail ≡ ok w → IsSound env w
  create-IsSound h =
      let (none_yet, unlocked) = create_effect h in
      open_IsSound env w (rw none_yet (omega arith)) unlocked

  pub serve-IsSound :
      (requests : List (Caller × Request))
      → create_sitting env caller data' trail ≡ ok w
      → IsSound env (serve env requests w)
  serve-IsSound requests h =
      serve_induction env (IsSound env) (Commit-IsSound env) requests w (create-IsSound h)

  -- A cycle that was created, and then served any requests, has at most five papers.
  pub papers_bounded :
      (requests : List (Caller × Request))
      → create_sitting env caller data' trail ≡ ok w
      → length (serve env requests w).papers ≤ required_papers
  papers_bounded requests h = (serve-IsSound requests h).room

  -- A cycle that was created, then served any requests, and is locked, has exactly five papers,
  -- each with a blueprint and with section marks that add up, an approval, the time of its lock,
  -- a lock record, and a frozen snapshot.
  pub locked-IsSealed :
      (requests : List (Caller × Request))
      → create_sitting env caller data' trail ≡ ok w
      → is_locked (serve env requests w).row ≡ true
      → IsSealed env (serve env requests w)
  locked-IsSealed requests h l = (serve-IsSound requests h).sealed l
