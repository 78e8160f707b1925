-- ===== src/SittingApp/Effects.antt =====
-- What each service call of the lifecycle leaves in the tables when it returns, with the audit row
-- that it writes.
use nbes_backend.Base.{ℕ, String, ◌≡◌, ◌≢◌, Bool, true, false, none, some, List, [], ◌∷◌, arith, ok}
use nbes_backend.Env.{Env}
use nbes_backend.Audit.{AuditEvent, head_hash, record_atomic, payload_of, publish}
use nbes_backend.SittingApp.Model.{
  configured, locked, active, closed, Sitting, Kind, auto_lock, Snapshot, is_locked,
}
use nbes_backend.SittingApp.World.{World, Caller, publish_event, audit, uuid4}
use nbes_backend.SittingApp.Save.{save, save_status, save_lock, save_approval, all_fields}
use nbes_backend.SittingApp.Validate.{validate_sitting_complete}
use nbes_backend.SittingApp.Snapshot.{build_live_snapshot, frozen_snapshot, event_snapshot}
use nbes_backend.SittingApp.Lifecycle.{
  Changes, set_all, reopened, is_open, update_sitting_draft, configure_sitting, approve_sitting,
  lock_open_sitting, activate_sitting, close_sitting, create_lock_event, ensure_lock_record,
}
use nbes_backend.SittingApp.Frame.{SameFrame, set_all-SameFrame, clean_fields-Framed}

-- One audit row more, sealed to the head of the trail before it, in the caller's name.
abbrev pub IsNext : Env → Caller → List AuditEvent → List AuditEvent → Type 0
IsNext env caller old [] = ⊥
IsNext env caller old (e ∷ rest) =
    (rest ≡ old)
    × (e.payload.actor_id ≡ caller.actor_id)
    × (e.request_id ≡ caller.request_id)
    × (e.ip_address ≡ caller.ip_address)
    × (e.chain_hash ≡ env.seal (head_hash old) e.payload)

-- Everything but the row of the cycle and the trail is as before.
abbrev pub SameTables : World → World → Type 0
SameTables w w' =
    (w'.papers ≡ w.papers) × (w'.lock_events ≡ w.lock_events) × (w'.lock_record ≡ w.lock_record)

module _ (env : Env) (caller : Caller) (s : Sitting) {s' : Sitting} (w : World) {w' : World} where
  pub update_effect :
      (changes : Changes)
      → update_sitting_draft env caller s changes w ≡ ok (s', w')
      → (is_locked s ≡ false)
        × SameTables w w'
        × SameFrame (reopened s) w'.row
        × IsNext env caller w.trail.events w'.trail.events
        × (w'.is_deleted ≡ w.is_deleted)
  unfolding update_sitting_draft save publish_event audit record_atomic payload_of publish
  update_effect changes h = ground (
    arith,
    set_all-SameFrame changes s,
    clean_fields-Framed env all_fields (reopened (set_all changes s)),
  )

  pub configure_effect :
      configure_sitting env caller s w ≡ ok (s', w')
      → (is_open s.status ≡ true)
        × (validate_sitting_complete env s w.papers ≡ ok tt)
        × (w'.row ≡ (let r = w.row in record r { status = configured }))
        × SameTables w w'
        × IsNext env caller w.trail.events w'.trail.events
        × (w'.is_deleted ≡ w.is_deleted)
  unfolding configure_sitting save_status publish_event audit record_atomic payload_of publish
  configure_effect h = ground arith

  pub approve_effect :
      (meeting : ℕ)
      → approve_sitting env caller s meeting w ≡ ok (s', w')
      → (s.status ≡ configured)
        × (w'.row ≡ (
            let r = w.row in
            record r { approved_at = some w.trail.clock; approved_via_meeting_id = some meeting }))
        × SameTables w w'
        × IsNext env caller w.trail.events w'.trail.events
        × (w'.is_deleted ≡ w.is_deleted)
  unfolding approve_sitting save_approval publish_event audit record_atomic payload_of publish
  approve_effect meeting h = ground arith

  pub activate_effect :
      activate_sitting env caller s w ≡ ok (s', w')
      → (s.status ≡ locked)
        × (w'.row ≡ (let r = w.row in record r { status = active }))
        × SameTables w w'
        × IsNext env caller w.trail.events w'.trail.events
        × (w'.is_deleted ≡ w.is_deleted)
  unfolding activate_sitting save_status publish_event audit record_atomic payload_of publish
  activate_effect h = ground arith

  pub close_effect :
      close_sitting env caller s w ≡ ok (s', w')
      → (s.status ≡ active)
        × (w'.row ≡ (let r = w.row in record r { status = closed }))
        × SameTables w w'
        × IsNext env caller w.trail.events w'.trail.events
        × (w'.is_deleted ≡ w.is_deleted)
  unfolding close_sitting save_status publish_event audit record_atomic payload_of publish
  close_effect h = ground arith

  -- The snapshot is taken of the locked instance, and is the newest lock event.
  pub lock_effect :
      (kind : Kind) (justification : String) (override : Bool)
      → lock_open_sitting env caller s kind justification override w ≡ ok (s', w')
      → (s.status ≡ configured)
        × (s.approved_at ≢ none)
        × (validate_sitting_complete env s w.papers ≡ ok tt)
        × (w'.papers ≡ w.papers)
        × (w'.row ≡ (let r = w.row in record r { status = locked; locked_at = some w.trail.clock }))
        × (w'.lock_record ≢ none)
        × IsNext env caller w.trail.events w'.trail.events
        × (w'.is_deleted ≡ w.is_deleted)
  unfolding lock_open_sitting save_lock publish_event audit create_lock_event ensure_lock_record
      uuid4 record_atomic payload_of publish
  lock_effect kind justification override h = ground arith

  pub lock_snapshot :
      (justification : String) (override : Bool)
      → lock_open_sitting env caller s auto_lock justification override w ≡ ok (s', w')
      → (snapshot : Snapshot) × (build_live_snapshot env
            (record s { status = locked; locked_at = some w.trail.clock })
            w.papers
          ≡ ok snapshot)
        × (frozen_snapshot w'.lock_events ≡ some snapshot)
  unfolding lock_open_sitting save_lock publish_event audit create_lock_event ensure_lock_record
      uuid4 frozen_snapshot event_snapshot
  lock_snapshot justification override h = ground arith
