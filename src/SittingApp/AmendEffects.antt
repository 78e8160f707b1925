-- ===== src/SittingApp/AmendEffects.antt =====
-- What the amendments leave in the tables when they return.
use nbes_backend.Base.{
  String, ◌≡◌, refl, true, false, Option, some, List, [], ◌∷◌, arith, ok, err, All,
}
use nbes_backend.Python.{Dict}
use nbes_backend.Env.{Env}
use nbes_backend.Audit.{record_atomic, payload_of, publish}
use nbes_backend.SittingApp.Model.{Field, Sitting, Snapshot, is_locked, is_critical}
use nbes_backend.SittingApp.World.{World, Caller, Outcome, publish_event, audit, uuid4}
use nbes_backend.SittingApp.Save.{save, all_fields}
use nbes_backend.SittingApp.Snapshot.{build_live_snapshot, frozen_snapshot, event_snapshot}
use nbes_backend.SittingApp.Lifecycle.{Changes, set_all}
use nbes_backend.SittingApp.Amend.{
  known_changes, unknown_names, reject_unknown, classify_changes, create_amendment,
  amend_non_critical, amend_critical_with_resolution, raise_critical,
}
use nbes_backend.SittingApp.Frame.{SameFrame, set_all-SameFrame, clean_fields-Framed}
use nbes_backend.SittingApp.Effects.{IsNext}

-- The first snapshot was built, and the second is that one.
abbrev pub Froze : Outcome Snapshot → Option Snapshot → Type 0
Froze (ok live) frozen = frozen ≡ some live
Froze (err _) frozen = ⊥

-- No field of the changes is critical.
abbrev pub AreNonCritical : Changes → Type 0
AreNonCritical = All (λ c. is_critical c.0 ≡ false)

classify_changes-AreNonCritical :
    (changes : Changes) → (classify_changes changes).0 ≡ [] → AreNonCritical changes
unfolding classify_changes
classify_changes-AreNonCritical [] h = tt
classify_changes-AreNonCritical ((f, v) ∷ rest) h =
    ground (arith, classify_changes-AreNonCritical rest)

raise_critical-nil : (fs : List Field) → raise_critical fs ≡ ok tt → fs ≡ []
raise_critical-nil [] h = refl
raise_critical-nil (f ∷ fs) h = cc

module _ (env : Env) (caller : Caller) (s : Sitting) {s' : Sitting} (w : World) {w' : World}
    (changes : Dict) (justification : String) where
  pub amend_non_critical_effect :
      amend_non_critical env caller s changes justification w ≡ ok (s', w')
      → (is_locked s ≡ true)
        × (unknown_names changes ≡ [])
        × AreNonCritical (known_changes changes)
        × (s' ≡ set_all (known_changes changes) s)
        × (w'.papers ≡ w.papers)
        × (w'.lock_record ≡ w.lock_record)
        × SameFrame s w'.row
        × (frozen_snapshot w'.lock_events ≡ frozen_snapshot w.lock_events)
        × IsNext env caller w.trail.events w'.trail.events
        × (w'.is_deleted ≡ w.is_deleted)
  unfolding amend_non_critical save publish_event audit record_atomic payload_of publish
      create_amendment uuid4 frozen_snapshot event_snapshot reject_unknown
  amend_non_critical_effect h = ground (
    arith,
    set_all-SameFrame (known_changes changes) s,
    clean_fields-Framed env all_fields (set_all (known_changes changes) s),
    classify_changes-AreNonCritical (known_changes changes),
    raise_critical-nil (classify_changes (known_changes changes)).0,
  )

  pub amend_critical_effect :
      (resolution : String)
      → amend_critical_with_resolution env caller s changes resolution justification w ≡ ok (s', w')
      → (is_locked s ≡ true)
        × (s' ≡ set_all (known_changes changes) s)
        × (w'.papers ≡ w.papers)
        × (w'.lock_record ≡ w.lock_record)
        × SameFrame s w'.row
        × IsNext env caller w.trail.events w'.trail.events
        × (w'.is_deleted ≡ w.is_deleted)
  unfolding amend_critical_with_resolution save publish_event audit record_atomic payload_of publish
      create_amendment uuid4
  amend_critical_effect resolution h = ground (
    arith,
    set_all-SameFrame (known_changes changes) s,
    clean_fields-Framed env all_fields (set_all (known_changes changes) s),
  )

  -- The snapshot is taken of the amended instance, and is the newest that an event bears.
  pub amend_critical_snapshot :
      (resolution : String)
      → amend_critical_with_resolution env caller s changes resolution justification w ≡ ok (s', w')
      → Froze (build_live_snapshot env s' w.papers) (frozen_snapshot w'.lock_events)
  unfolding amend_critical_with_resolution save publish_event audit create_amendment uuid4
      frozen_snapshot event_snapshot
  amend_critical_snapshot resolution h = ground arith
