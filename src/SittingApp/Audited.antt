-- ===== src/SittingApp/Audited.antt =====
-- Every committed request leaves exactly one audit row, in the caller's name and on the chain.
use nbes_backend.Base.{
  ◌≡◌, ◌⊎◌, inl, inr, true, false, Option, none, some, List, [], ◌∷◌, arith, ok, String,
  Result-cases, Bool-cases, sym, subst,
}
use nbes_backend.Env.{Env}
use nbes_backend.Audit.{AuditEvent}
use nbes_backend.Audit.Chain.{IsChained, Extends, same, more}
use nbes_backend.SittingApp.Model.{Sitting, SubjectPaper, auto_lock, is_locked}
use nbes_backend.SittingApp.World.{World, Caller}
use nbes_backend.SittingApp.Lifecycle.{
  lock_sitting, update_sitting_draft, configure_sitting, approve_sitting, activate_sitting,
  close_sitting,
}
use nbes_backend.SittingApp.Papers.{add_or_update_paper}
use nbes_backend.SittingApp.Amend.{amend_non_critical, amend_critical_with_resolution}
use nbes_backend.SittingApp.Effects.{
  IsNext, update_effect, configure_effect, approve_effect, activate_effect, close_effect,
  lock_effect,
}
use nbes_backend.SittingApp.AmendEffects.{amend_non_critical_effect, amend_critical_effect}
use nbes_backend.SittingApp.PaperEffects.{put_effect, drop_effect, delete_effect}
use nbes_backend.SittingApp.Requests.{
  Request, update, delete, put_paper, drop_paper, configure, approve, manual_lock, activate, close,
  amend, amend_critical, paper_by_id, remove_found, call, handle, handle-call,
}
use nbes_backend.SittingApp.Deletion.{returned}
use nbes_backend.SittingApp.Serve.{serve_one, serve}

-- One row more, or a lock that found the cycle locked already and changed nothing, or the deletion of a cycle
-- that is not locked, which leaves the trail as it was.
abbrev pub Audited : Env → Caller → World → World → Type 0
Audited env caller w w' =
    IsNext env caller w.trail.events w'.trail.events
    ⊎ ((is_locked w.row ≡ true) × (w' ≡ w))
    ⊎ ((is_locked w.row ≡ false) × (w'.is_deleted ≡ true) × (w'.trail ≡ w.trail))

module _ (env : Env) (caller : Caller) (w : World) {w' : World} where
  lock-Audited :
      (j : String) {s' : Sitting}
      → lock_sitting env caller w.row auto_lock j true w ≡ ok (s', w')
      → Audited env caller w w'
  unfolding lock_sitting
  lock-Audited j h = elim (Bool-cases (is_locked w.row)) [
    | inl e ↦ inr (inl (e, ground (arith, e, h)))
    | inr e ↦ inl (lock_effect env caller w.row w auto_lock j true (rw e at h)).6
  ]

  remove_found-Audited :
      (o : Option SubjectPaper)
      → remove_found env caller o w.row w ≡ ok (tt, w')
      → Audited env caller w w'
  unfolding remove_found
  remove_found-Audited none h = cc
  remove_found-Audited (some p) h = inl (drop_effect env caller w.row w p h).6

  call-Audited : (r : Request) → call env caller r w.row w ≡ ok (tt, w') → Audited env caller w w'
  unfolding call
  call-Audited (update changes) h =
      let (s', e) = returned (update_sitting_draft env caller w.row changes) w h in
      inl (update_effect env caller w.row w changes e).3
  call-Audited delete h = let f = delete_effect env caller w.row w h in inr (inr (f.0, f.1, f.6))
  call-Audited (put_paper d) h =
      let (p, e) = returned (add_or_update_paper env caller w.row d) w h in
      inl (put_effect env caller w.row w d e).7
  call-Audited (drop_paper id) h = remove_found-Audited (paper_by_id id w.papers) h
  call-Audited configure h =
      let (s', e) = returned (configure_sitting env caller w.row) w h in
      inl (configure_effect env caller w.row w e).4
  call-Audited (approve meeting) h =
      let (s', e) = returned (approve_sitting env caller w.row meeting) w h in
      inl (approve_effect env caller w.row w meeting e).3
  call-Audited (manual_lock j) h =
      let (s', e) = returned (lock_sitting env caller w.row auto_lock _ true) w h in
      lock-Audited _ e
  call-Audited activate h =
      let (s', e) = returned (activate_sitting env caller w.row) w h in
      inl (activate_effect env caller w.row w e).3
  call-Audited close h =
      let (s', e) = returned (close_sitting env caller w.row) w h in
      inl (close_effect env caller w.row w e).3
  call-Audited (amend changes j) h =
      let (s', e) = returned (amend_non_critical env caller w.row changes j) w h in
      inl (amend_non_critical_effect env caller w.row w changes j e).8
  call-Audited (amend_critical changes resolution j) h =
      let (s', e) =
        returned (amend_critical_with_resolution env caller w.row changes resolution j) w h in
      inl (amend_critical_effect env caller w.row w changes j resolution e).5

  -- A request that commits writes exactly one audit row, sealed to the head of the trail, with the
  -- caller's identity, request id and address; only a lock of a locked cycle, which changes nothing, and
  -- the deletion of a cycle that is not locked write none.
  pub handle-Audited : (r : Request) → handle env caller r w ≡ ok (tt, w') → Audited env caller w w'
  handle-Audited r h = let (found, e) = handle-call env caller r w h in call-Audited r e

-- The trail only grows, and stays a chain.
abbrev Grows : Env → List AuditEvent → List AuditEvent → Type 0
Grows env old new = Extends old new × IsChained env new

IsNext-Grows :
    (env : Env) (caller : Caller) (start old new : List AuditEvent)
    → IsNext env caller old new
    → Grows env start old
    → Grows env start new
IsNext-Grows env caller start old [] n g = absurd n
IsNext-Grows env caller start old (e ∷ rest) n g =
    (more e (subst (Extends start) (sym n.0) g.0), (rw n.0 n.4, rw n.0 g.1))

module _ (env : Env) (start : List AuditEvent) where
  serve_one-Grows :
      (caller : Caller) (r : Request) (w : World)
      → Grows env start w.trail.events
      → Grows env start (serve_one env (caller, r) w).trail.events
  unfolding serve_one
  serve_one-Grows caller r w g = elim (Result-cases (handle env caller r w)) [
    | inl ((u, w'), e) ↦
        rw (e, serve_one)
          (elim (handle-Audited env caller w r e) [
            | inl n ↦ IsNext-Grows env caller start w.trail.events w'.trail.events n g
            | inr (inl (l, q)) ↦ rw q g
            | inr (inr (l, d, q)) ↦ rw q g
          ])
    | inr (x, e) ↦ rw (e, serve_one) g
  ]

  serve-Grows :
      (requests : List (Caller × Request)) (w : World)
      → Grows env start w.trail.events
      → Grows env start (serve env requests w).trail.events
  unfolding serve
  serve-Grows [] w g = g
  serve-Grows ((caller, r) ∷ rest) w g =
      serve-Grows rest (serve_one env (caller, r) w) (serve_one-Grows caller r w g)

-- Whatever requests are served, the audit trail keeps all of its rows, and stays chained if it was.
pub serve-append_only :
    (env : Env) (requests : List (Caller × Request)) (w : World)
    → IsChained env w.trail.events
    → Extends w.trail.events (serve env requests w).trail.events
      × IsChained env (serve env requests w).trail.events
serve-append_only env requests w c = serve-Grows env w.trail.events requests w (same, c)
