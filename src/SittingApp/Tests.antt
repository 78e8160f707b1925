-- ===== src/SittingApp/Tests.antt =====
-- Runs of the app, and its theorems at inputs that meet their hypotheses.
use nbes_backend.Base.{
  length, some, err, ◌≡◌, ◌≢◌, refl, true, false, ◌≤◌, ◌↔◌, Option, none, [], ◌∷◌, String, ok,
}
use nbes_backend.Python.{text, Dict}
use nbes_backend.Audit.Chain.{IsChained, Extends}
use nbes_backend.Audit.{AuditEvent, payload_of, genesis}
use nbes_backend.SittingApp.Model.{locked, closed, Sitting, is_locked}
use nbes_backend.SittingApp.World.{World, Outcome}
use nbes_backend.SittingApp.Validate.{required_papers, validate_sitting_complete}
use nbes_backend.SittingApp.Ready.{IsReady, validate_sitting_complete_iff}
use nbes_backend.SittingApp.Snapshot.{build_live_snapshot, get_sitting_snapshot}
use nbes_backend.SittingApp.Lifecycle.{update_sitting_draft}
use nbes_backend.SittingApp.Amend.{amend_critical_with_resolution}
use nbes_backend.SittingApp.Requests.{manual_lock, amend_critical}
use nbes_backend.SittingApp.Commits.{Commit, handle-Commit}
use nbes_backend.SittingApp.Graph.{◌⟶*◌, serve_follows_diagram}
use nbes_backend.SittingApp.Serve.{serve_one, serve}
use nbes_backend.SittingApp.Soundness.{IsSealed, papers_bounded, locked-IsSealed}
use nbes_backend.SittingApp.Stability.{
  snapshot_stable, lock_freezes, resolution_freezes, approval_stays,
}
use nbes_backend.SittingApp.Audited.{Audited, handle-Audited, serve-append_only}
use nbes_backend.SittingApp.Pitfalls.{amend_date_fails, stale_edit_unlocks}
use nbes_backend.SittingApp.Fixtures.{
  demo, chair, empty_trail, may, given, preparing, locking, afterwards, after, created, ready, held,
}

runs : (after locking).row.status ≡ locked
unfolding after
runs = refl

closes : (serve demo afterwards (after locking)).row.status ≡ closed
unfolding after
closes = refl

-- The lock of `ready`.
abbrev lock_ready : World
lock_ready = serve_one demo (chair, manual_lock "") ready

handle-Commit_example :
    (ready.is_deleted ≡ false)
    × Commit demo false ready lock_ready
    × (lock_ready.is_deleted ≡ false)
unfolding after
handle-Commit_example = handle-Commit demo chair ready {w' = lock_ready} (manual_lock "") refl

handle-Audited_example : Audited demo chair ready lock_ready
unfolding after
handle-Audited_example = handle-Audited demo chair ready {w' = lock_ready} (manual_lock "") refl

papers_bounded_example : length (serve demo preparing created).papers ≤ required_papers
unfolding after
papers_bounded_example = papers_bounded demo chair may empty_trail {w = created} preparing refl

locked-IsSealed_example : IsSealed demo (serve demo locking created)
unfolding after
locked-IsSealed_example = locked-IsSealed demo chair may empty_trail {w = created} locking refl refl

snapshot_stable_example :
    get_sitting_snapshot demo (serve demo afterwards (serve demo locking created))
    ≡ get_sitting_snapshot demo (serve demo locking created)
unfolding after
snapshot_stable_example =
    snapshot_stable demo chair may empty_trail created locking afterwards refl refl
      (refl, (refl, (refl, (refl, (refl, tt)))))

validate_sitting_complete_iff_example :
    (validate_sitting_complete demo may (after preparing).papers ≡ ok tt)
    ↔ IsReady demo may (after preparing).papers
validate_sitting_complete_iff_example =
    validate_sitting_complete_iff demo may (after preparing).papers

serve-append_only_example :
    Extends created.trail.events (serve demo afterwards created).trail.events
    × IsChained demo (serve demo afterwards created).trail.events
unfolding after
serve-append_only_example = serve-append_only demo afterwards created (refl, tt)

lock_freezes_example :
    get_sitting_snapshot demo lock_ready ≡ build_live_snapshot demo lock_ready.row lock_ready.papers
unfolding after
lock_freezes_example =
    lock_freezes demo chair ready {s' = lock_ready.row} {w' = lock_ready}
      "Manual lock by authorised override." true refl refl

approval_stays_example : (serve demo afterwards (after preparing)).row.approved_at ≢ none
unfolding after
approval_stays_example = approval_stays demo afterwards (after preparing) refl (λ e. cc)

-- The rule of `held`, changed by resolution.
abbrev rule_change : Dict
rule_change = ("pass_rule", text "majority") ∷ []

abbrev long_reason : String
long_reason = "Resolution of the committee on the pass rule."

abbrev resolve_held : World
resolve_held = serve_one demo (chair, amend_critical rule_change "RES-1" long_reason) held

abbrev resolved_row : Sitting
resolved_row = record held.row { pass_rule = text "majority" }

resolution_freezes_example :
    get_sitting_snapshot demo resolve_held
    ≡ build_live_snapshot demo resolved_row resolve_held.papers
unfolding after
resolution_freezes_example =
    resolution_freezes demo chair held {s' = resolved_row} {w' = resolve_held} rule_change "RES-1"
      long_reason refl

abbrev date_change : Dict
date_change = ("sitting_date", text "2026-05-02") ∷ []

amend_date_fails_example :
    amend_critical_with_resolution demo chair held.row date_change "RES-1" long_reason held
    ≢ ok (held.row, held)
unfolding after
amend_date_fails_example =
    amend_date_fails demo chair held date_change "RES-1" long_reason "2026-05-02" refl held.row held

-- The edit of an instance that was loaded before `held` was locked.
abbrev stale : World
stale = given (update_stale)
  where
    update_stale : Outcome World
    update_stale = elim (update_sitting_draft demo chair may [] held) [
      | ok (_, w) ↦ ok w
      | err e ↦ err e
    ]

stale_edit_unlocks_example : is_locked stale.row ≡ false
unfolding after
stale_edit_unlocks_example =
    stale_edit_unlocks demo chair may [] held {s' = may} {w' = stale} refl refl

serve_follows_diagram_example :
    (after preparing).row.status ⟶* (serve demo afterwards (after preparing)).row.status
serve_follows_diagram_example = serve_follows_diagram demo afterwards (after preparing)

-- An audit row whose address is no part of its payload.
abbrev audit_row : Option String → AuditEvent
audit_row address = record {
  payload =
      payload_of
        (record {
          actor_id = some 7;
          action = "SITTING_LOCKED";
          entity_type = "sitting";
          entity_id = "BAR-2026-05";
          old_state = none;
          new_state = none;
          request_id = none;
          ip_address = none;
        })
        1 100;
  ip_address = address;
  request_id = none;
  chain_hash = genesis;
}
