-- ===== src/Committee/Contract.antt =====
-- The contract of a meeting: the changes that a committed request may make, apart from the code
-- that makes them, and that every request makes one of them.
use nbes_backend.Base.{
  ℕ, ◌≤◌, String, ◌≡◌, refl, inl, inr, true, false, Option, none, some, List, [], ◌∷◌, arith, ok,
  map, Option-cases, suc, List-cases, ap, subst, ◌∙◌, if◌then◌else◌,
}
use nbes_backend.Python.{Dict}
use nbes_backend.Env.{Env}
use nbes_backend.Audit.{record_atomic, payload_of, publish}
use nbes_backend.SittingApp.World.{Caller}
use nbes_backend.SittingApp.Effects.{IsNext}
use nbes_backend.Committee.Model.{
  agenda_issued, convened, adjourned, minuted, Agenda, Minutes, MinutesAddendum,
}
use nbes_backend.Committee.World.{Tables, uuid4, publish_event, audit}
use nbes_backend.Committee.Attendance.{NoRepeat, set_size, distinct, set_size-distinct}
use nbes_backend.Committee.Meetings.{
  quorum_met, is_convenable, is_draft, is_adjourned, last_version, save_status, save_signature,
  sign, link, create_minutes, publish_agenda, record_attendance, convene_meeting, adjourn_meeting,
  sign_minutes, issue_addendum,
}
use nbes_backend.Committee.Requests.{
  Request, agenda, attendance, convene, adjourn, sign_off, addendum, sign_found, amend_found,
  handle_meeting,
}

-- Agendas, minutes, addenda and action items are as before.
abbrev pub SameRest : Tables → Tables → Type 0
SameRest w w' =
    (w'.agendas ≡ w.agendas)
    × (w'.minutes ≡ w.minutes)
    × (w'.addenda ≡ w.addenda)
    × (w'.action_items ≡ w.action_items)

-- The minutes `m`, signed by `actor` at `time`.
abbrev pub signed_as : Option ℕ → ℕ → String → Minutes → Minutes
signed_as actor time signature m = record m {
  approved = true;
  approved_by_id = actor;
  approved_at = some time;
  immutable_at = some time;
  signature_ref = signature;
}

pub data Change (caller : Caller) (w w' : Tables) : Type 0 where
  -- an agenda of the next version; a draft meeting has its agenda issued then
  agenda_out :
      (a : Agenda)
      → w'.agendas ≡ a ∷ w.agendas
      → a.version ≡ suc (last_version w.agendas)
      → w'.meeting ≡ (
          let r = w.meeting in if is_draft r.status then record r { status = agenda_issued } else r)
      → w'.minutes ≡ w.minutes
      → w'.addenda ≡ w.addenda
      → w'.action_items ≡ w.action_items
      → Change caller w w'
  -- the attendance, each attendee once, in place of the one recorded before
  attended :
      (ids : List String)
      → w'.meeting ≡ (let r = w.meeting in record r { attendees = ids })
      → NoRepeat ids
      → SameRest w w'
      → Change caller w w'
  -- the meeting convenes, with its quorum of different attendees
  convening :
      is_convenable w.meeting.status ≡ true
      → w.meeting.quorum_required ≤ set_size w.meeting.attendees
      → w'.meeting
        ≡ (let r = w.meeting in record r { status = convened; convened_at = some w.trail.clock })
      → SameRest w w'
      → Change caller w w'
  -- the meeting adjourns, and has draft minutes, which it did not have
  adjourning :
      (m : Minutes)
      → w.meeting.status ≡ convened
      → w.minutes ≡ none
      → w'.meeting
        ≡ (let r = w.meeting in record r { status = adjourned; adjourned_at = some w.trail.clock })
      → w'.minutes ≡ some m
      → m.approved ≡ false
      → w'.agendas ≡ w.agendas
      → w'.addenda ≡ w.addenda
      → w'.action_items ≡ w.action_items
      → Change caller w w'
  -- unsigned minutes are signed, and the open links of the action items lead to them
  signing :
      (m : Minutes) (signature : String)
      → w.minutes ≡ some m
      → m.approved ≡ false
      → w'.minutes ≡ some (signed_as caller.actor_id w.trail.clock signature m)
      → w'.meeting
        ≡ (let r = w.meeting in if is_adjourned r.status then record r { status = minuted } else r)
      → w'.action_items ≡ map (link m.id) w.action_items
      → w'.agendas ≡ w.agendas
      → w'.addenda ≡ w.addenda
      → Change caller w w'
  -- an addendum to signed minutes
  adding :
      (m : Minutes) (d : MinutesAddendum)
      → w.minutes ≡ some m
      → m.approved ≡ true
      → w'.addenda ≡ d ∷ w.addenda
      → w'.meeting ≡ w.meeting
      → w'.minutes ≡ w.minutes
      → w'.agendas ≡ w.agendas
      → w'.action_items ≡ w.action_items
      → Change caller w w'

-- The change, and the one audit row that comes with it.
abbrev pub Recorded : Env → Caller → Tables → Tables → Type 0
Recorded env caller w w' = Change caller w w' × IsNext env caller w.trail.events w'.trail.events

-- One agenda more, of the next version.
abbrev IsOut : List Agenda → List Agenda → Type 0
IsOut old [] = ⊥
IsOut old (a ∷ rest) = (rest ≡ old) × (a.version ≡ suc (last_version old))

-- Minutes that are not signed.
abbrev IsUnsigned : Option Minutes → Type 0
IsUnsigned none = ⊥
IsUnsigned (some m) = m.approved ≡ false

-- One addendum more.
abbrev IsAdded : List MinutesAddendum → List MinutesAddendum → Type 0
IsAdded old [] = ⊥
IsAdded old (d ∷ rest) = rest ≡ old

module _ (env : Env) (caller : Caller) (w : Tables) {w' : Tables} where
  agenda_effect :
      (items : List Dict) (document_ref : String)
      → handle_meeting env caller (agenda items document_ref) w ≡ ok (tt, w')
      → IsOut w.agendas w'.agendas
        × (w'.meeting ≡ (
            let r = w.meeting in
            if is_draft r.status then record r { status = agenda_issued } else r))
        × (w'.minutes ≡ w.minutes)
        × (w'.addenda ≡ w.addenda)
        × (w'.action_items ≡ w.action_items)
        × IsNext env caller w.trail.events w'.trail.events
  unfolding handle_meeting publish_agenda uuid4 save_status publish_event audit record_atomic
      payload_of publish
  agenda_effect items document_ref h = ground arith

  attendance_effect :
      (ids : List ℕ)
      → handle_meeting env caller (attendance ids) w ≡ ok (tt, w')
      → (w'.meeting
          ≡ (let r = w.meeting in record r { attendees = distinct (map env.str_uuid ids) }))
        × SameRest w w'
        × IsNext env caller w.trail.events w'.trail.events
  unfolding handle_meeting record_attendance publish_event audit record_atomic payload_of publish
  attendance_effect ids h = ground arith

  convene_effect :
      handle_meeting env caller convene w ≡ ok (tt, w')
      → (is_convenable w.meeting.status ≡ true)
        × (w.meeting.quorum_required ≤ set_size w.meeting.attendees)
        × (w'.meeting ≡ (
            let r = w.meeting in record r { status = convened; convened_at = some w.trail.clock }))
        × SameRest w w'
        × IsNext env caller w.trail.events w'.trail.events
  unfolding handle_meeting convene_meeting quorum_met publish_event audit record_atomic payload_of
      publish
  convene_effect h = ground arith

  adjourn_effect :
      handle_meeting env caller adjourn w ≡ ok (tt, w')
      → (w.meeting.status ≡ convened)
        × (w.minutes ≡ none)
        × (w'.meeting ≡ (
            let r = w.meeting in
            record r { status = adjourned; adjourned_at = some w.trail.clock }))
        × IsUnsigned w'.minutes
        × (w'.agendas ≡ w.agendas)
        × (w'.addenda ≡ w.addenda)
        × (w'.action_items ≡ w.action_items)
        × IsNext env caller w.trail.events w'.trail.events
  unfolding handle_meeting adjourn_meeting create_minutes uuid4 publish_event audit record_atomic
      payload_of publish
  adjourn_effect h = ground arith

  sign_effect :
      (m : Minutes) (signature : String)
      → sign_found env caller signature (some m) w.meeting w ≡ ok (tt, w')
      → w.minutes ≡ some m
      → (m.approved ≡ false)
        × (w'.minutes ≡ some (signed_as caller.actor_id w.trail.clock signature m))
        × (w'.meeting ≡ (
            let r = w.meeting in
            if is_adjourned r.status then record r { status = minuted } else r))
        × (w'.action_items ≡ map (link m.id) w.action_items)
        × (w'.agendas ≡ w.agendas)
        × (w'.addenda ≡ w.addenda)
        × IsNext env caller w.trail.events w'.trail.events
  unfolding sign_found sign_minutes sign save_signature save_status publish_event audit
      record_atomic payload_of publish
  sign_effect m signature h e = ground arith

  addendum_effect :
      (m : Minutes) (content document_ref : String)
      → amend_found env caller content document_ref (some m) w ≡ ok (tt, w')
      → (m.approved ≡ true)
        × IsAdded w.addenda w'.addenda
        × (w'.meeting ≡ w.meeting)
        × (w'.minutes ≡ w.minutes)
        × (w'.agendas ≡ w.agendas)
        × (w'.action_items ≡ w.action_items)
        × IsNext env caller w.trail.events w'.trail.events
  unfolding amend_found issue_addendum uuid4 publish_event audit record_atomic payload_of publish
  addendum_effect m content document_ref h = ground arith

  agenda-Change :
      (as' : List Agenda)
      → IsOut w.agendas as'
      → w'.agendas ≡ as'
      → (w'.meeting ≡ (
          let r = w.meeting in
          if is_draft r.status then record r { status = agenda_issued } else r))
      → w'.minutes ≡ w.minutes
      → w'.addenda ≡ w.addenda
      → w'.action_items ≡ w.action_items
      → Change caller w w'
  agenda-Change [] o e r m d i = absurd o
  agenda-Change (a ∷ rest) o e r m d i = Change.agenda_out a (e ∙ ap (λ l. a ∷ l) o.0) o.1 r m d i

  -- Every request that commits makes a change that the contract of a meeting allows, and writes
  -- exactly one audit row, in the caller's name and sealed to the head of the trail.
  pub handle_meeting-Recorded :
      (r : Request) → handle_meeting env caller r w ≡ ok (tt, w') → Recorded env caller w w'
  unfolding handle_meeting
  handle_meeting-Recorded (agenda items d) h =
      let f = agenda_effect items d h in (agenda-Change w'.agendas f.0 refl f.1 f.2 f.3 f.4, f.5)
  handle_meeting-Recorded (attendance ids) h =
      let f = attendance_effect ids h in
      (Change.attended _ f.0 (set_size-distinct (map env.str_uuid ids)).0 f.1, f.2)
  handle_meeting-Recorded convene h =
      let f = convene_effect h in (Change.convening f.0 f.1 f.2 f.3, f.4)
  handle_meeting-Recorded adjourn h =
      let f = adjourn_effect h in
      elim (Option-cases w'.minutes) [
        | inl e ↦ absurd (rw e at f.3)
        | inr (m, e) ↦ (Change.adjourning m f.0 f.1 f.2 e (rw e at f.3) f.4 f.5 f.6, f.7)
      ]
  handle_meeting-Recorded (sign_off signature) h = elim (Option-cases w.minutes) [
    | inl e ↦ absurd (unfold sign_found in cc (h, e))
    | inr (m, e) ↦
        let f =
          sign_effect m signature
            (subst (λ o. sign_found env caller signature o w.meeting w ≡ ok (tt, w')) e h) e in
        (Change.signing m signature e f.0 f.1 f.2 f.3 f.4 f.5, f.6)
  ]
  handle_meeting-Recorded (addendum content d) h = elim (Option-cases w.minutes) [
    | inl e ↦ absurd (unfold amend_found in cc (h, e))
    | inr (m, e) ↦
        let f =
          addendum_effect m content d
            (subst (λ o. amend_found env caller content d o w ≡ ok (tt, w')) e h) in
        elim (List-cases w'.addenda) [
          | inl q ↦ absurd (rw q at f.1)
          | inr (x, rest, q) ↦
              (Change.adding m x e f.0 (q ∙ ap (λ l. x ∷ l) (rw q at f.1)) f.2 f.3 f.4 f.5, f.6)
        ]
  ]
