-- ===== src/SittingApp/PaperEffects.antt =====
-- What the edits of papers leave in the tables when they return.
use nbes_backend.Base.{
  ℕ, ◌≤◌, ◌≡◌, refl, Bool, true, false, none, List, [], ◌∷◌, arith, ok, err, Result-cases, inl, inr,
  ◌⊎◌, subst, sym, ◌∙◌, ap, length, length-append, if◌then◌else◌,
}
use nbes_backend.Env.{Env}
use nbes_backend.Audit.{record_atomic, payload_of, publish}
use nbes_backend.SittingApp.Model.{draft, Sitting, SubjectPaper, is_locked}
use nbes_backend.SittingApp.World.{World, Caller, Outcome, publish_event, audit, uuid4}
use nbes_backend.SittingApp.Save.{save_status}
use nbes_backend.SittingApp.Validate.{required_papers, validate_pass_band, validate_paper_sections}
use nbes_backend.SittingApp.Lifecycle.{is_configured}
use nbes_backend.SittingApp.Papers.{
  PaperData, apply_data, store_paper, delete_paper, reopen, obtain_paper, add_or_update_paper,
  remove_paper, write_paper,
}
use nbes_backend.SittingApp.Requests.{delete_sitting}
use nbes_backend.SittingApp.Effects.{IsNext}

length-store_paper :
    (p : SubjectPaper) (ps : List SubjectPaper) → length (store_paper p ps) ≡ length ps
unfolding store_paper
length-store_paper p [] = refl
length-store_paper p (q ∷ qs) = ground (arith, length-store_paper p qs)

length-delete_paper : (id : ℕ) (ps : List SubjectPaper) → length (delete_paper id ps) ≤ length ps
unfolding delete_paper
length-delete_paper id [] = omega arith
length-delete_paper id (p ∷ ps) = ground (arith, length-delete_paper id ps)

-- The row of a cycle whose configured status fell back to draft with the instance's.
abbrev pub reopened_row : Sitting → Sitting → Sitting
reopened_row s r = if is_configured s.status then record r { status = draft } else r

-- No more papers than before, or than a cycle has.
abbrev pub HasRoom : List SubjectPaper → List SubjectPaper → Type 0
HasRoom old new = (length new ≤ length old) ⊎ (length new ≤ required_papers)

-- What `obtain_paper` leaves alone, and the room that it finds.
abbrev Obtained : World → Outcome ((SubjectPaper × Bool) × World) → Type 0
Obtained w (ok (_, w1)) =
    (w1.row ≡ w.row)
    × (w1.lock_events ≡ w.lock_events)
    × (w1.lock_record ≡ w.lock_record)
    × (w1.trail.events ≡ w.trail.events)
    × HasRoom w.papers w1.papers
    × (w1.is_deleted ≡ w.is_deleted)
Obtained w (err _) = Unit

obtain-Obtained : (d : PaperData) (w : World) → Obtained w (obtain_paper d w)
unfolding obtain_paper uuid4
obtain-Obtained d w = grind (arith, length-append)

module _ (env : Env) (caller : Caller) (s : Sitting) (w : World) {w' : World} where
  write_effect :
      (d : PaperData) (p : SubjectPaper) (created : Bool) {q : SubjectPaper}
      → write_paper env caller s d p created w ≡ ok (q, w')
      → (q ≡ apply_data d p)
        × (validate_paper_sections env q ≡ ok tt)
        × (w'.row ≡ reopened_row s w.row)
        × (w'.lock_events ≡ w.lock_events)
        × (w'.lock_record ≡ w.lock_record)
        × (w'.papers ≡ store_paper q w.papers)
        × IsNext env caller w.trail.events w'.trail.events
        × (w'.is_deleted ≡ w.is_deleted)
  unfolding write_paper reopen save_status publish_event audit record_atomic payload_of publish
  write_effect d p true h = ground arith
  write_effect d p false h = ground arith

module _ (env : Env) (caller : Caller) (s : Sitting) (w : World) {w' : World} where
  pub put_effect :
      (d : PaperData) {q : SubjectPaper}
      → add_or_update_paper env caller s d w ≡ ok (q, w')
      → (is_locked s ≡ false)
        × (validate_pass_band s d.pass_mark ≡ ok tt)
        × (validate_paper_sections env q ≡ ok tt)
        × (w'.row ≡ reopened_row s w.row)
        × (w'.lock_events ≡ w.lock_events)
        × (w'.lock_record ≡ w.lock_record)
        × HasRoom w.papers w'.papers
        × IsNext env caller w.trail.events w'.trail.events
        × (w'.is_deleted ≡ w.is_deleted)
  unfolding add_or_update_paper
  put_effect d {q} h = elim (Result-cases (obtain_paper d w)) [
    | inl (((p, created), w1), e) ↦
        let o = rw e at (obtain-Obtained d w) in
        let k : (is_locked s ≡ false)
            × (validate_pass_band s d.pass_mark ≡ ok tt)
            × (write_paper env caller s d p created w1 ≡ ok (q, w')) =
          ground (arith, e) in
        let f = write_effect env caller s w1 d p created k.2 in
        (
          k.0,
          k.1,
          f.1,
          f.2 ∙ ap (reopened_row s) o.0,
          f.3 ∙ o.1,
          f.4 ∙ o.2,
          subst (λ n. (n ≤ length w.papers) ⊎ (n ≤ required_papers))
              (sym (ap length f.5 ∙ length-store_paper q w1.papers)) o.4,
          rw (← o.3) f.6,
          f.7 ∙ o.5,
        )
    | inr (x, e) ↦ absurd (ground (arith, e))
  ]

  pub drop_effect :
      (p : SubjectPaper)
      → remove_paper env caller s p w ≡ ok (tt, w')
      → (is_locked s ≡ false)
        × (w'.row ≡ reopened_row s w.row)
        × (w'.papers ≡ delete_paper p.id w.papers)
        × (w'.lock_events ≡ w.lock_events)
        × (w'.lock_record ≡ w.lock_record)
        × (length w'.papers ≤ length w.papers)
        × IsNext env caller w.trail.events w'.trail.events
        × (w'.is_deleted ≡ w.is_deleted)
  unfolding remove_paper reopen save_status publish_event audit record_atomic payload_of publish
  drop_effect p h = ground (arith, length-delete_paper p.id w.papers)

  pub delete_effect :
      delete_sitting env caller s w ≡ ok (tt, w')
      → (is_locked s ≡ false)
        × (w'.is_deleted ≡ true)
        × (w'.row ≡ w.row)
        × (w'.papers ≡ [])
        × (w'.lock_events ≡ [])
        × (w'.lock_record ≡ none)
        × (w'.trail ≡ w.trail)
  unfolding delete_sitting
  delete_effect h = ground arith
