-- ===== src/Committee/History.antt =====
-- What holds of a meeting after any requests since it was scheduled.
use nbes_backend.Base.{
  ℕ, ◌≤◌, suc, ◌≡◌, ◌≢◌, refl, true, false, Option, none, some, List, [], ◌∷◌, arith, ok, length,
  Result-cases, inl, inr, ◌∙◌, ap,
}
use nbes_backend.Env.{Env}
use nbes_backend.Audit.{Trail}
use nbes_backend.SittingApp.World.{Caller}
use nbes_backend.Committee.Model.{
  Status, draft, agenda_issued, scheduled, convened, adjourned, minuted, Meeting, Agenda, Minutes,
}
use nbes_backend.Committee.World.{Tables, audit, publish_event}
use nbes_backend.Committee.Attendance.{NoRepeat}
use nbes_backend.Committee.Meetings.{last_version, record_schedule, schedule_meeting}
use nbes_backend.Committee.Requests.{Request, handle_meeting, serve_meeting_one, serve_meeting}
use nbes_backend.Committee.Contract.{Change, handle_meeting-Recorded}

module _ (env : Env) where
  serve_meeting_one-cases :
      (caller : Caller) (r : Request) (w : Tables) (P : Tables → Type 0)
      → ((w' : Tables) → Change caller w w' → P w')
      → P w
      → P (serve_meeting_one env (caller, r) w)
  unfolding serve_meeting_one
  serve_meeting_one-cases caller r w P step same =
      elim (Result-cases (handle_meeting env caller r w)) [
        | inl ((u, w'), e) ↦
            rw (e, serve_meeting_one) (step w' (handle_meeting-Recorded env caller w r e).0)
        | inr (x, e) ↦ rw (e, serve_meeting_one) same
      ]

  -- What every change keeps holds after any requests.
  serve_meeting_induction :
      (P : Tables → Type 0)
      → ((caller : Caller) (w w' : Tables) → Change caller w w' → P w → P w')
      → (requests : List (Caller × Request)) (w : Tables) → P w
      → P (serve_meeting env requests w)
  unfolding serve_meeting
  serve_meeting_induction P step [] w h = h
  serve_meeting_induction P step ((caller, r) ∷ rest) w h =
      serve_meeting_induction P step rest (serve_meeting_one env (caller, r) w)
        (serve_meeting_one-cases caller r w P (λ w' c. step caller w w' c h) h)

abbrev AreUnsigned : Option Minutes → Type 0
AreUnsigned none = ⊥
AreUnsigned (some m) = m.approved ≡ false

abbrev AreSigned : Option Minutes → Type 0
AreSigned none = ⊥
AreSigned (some m) = (m.approved ≡ true) × (m.immutable_at ≢ none)

-- No minutes until the meeting adjourns, unsigned ones until it is minuted, signed ones from then on.
unfoldable pub MinutesFit : Status → Option Minutes → Type 0
MinutesFit adjourned o = AreUnsigned o
MinutesFit minuted o = AreSigned o
MinutesFit _ o = o ≡ none

-- The time of convening, from then on.
unfoldable pub ConvenedFit : Status → Option ℕ → Type 0
ConvenedFit convened t = t ≢ none
ConvenedFit adjourned t = t ≢ none
ConvenedFit minuted t = t ≢ none
ConvenedFit _ t = t ≡ none

-- Versions count down to 1, newest first.
abbrev pub Numbered : List Agenda → Type 0
Numbered [] = Unit
Numbered (a ∷ older) = (a.version ≡ suc (length older)) × Numbered older

pub record IsProper (w : Tables) : Type 0 where
  pub minutes_fit : MinutesFit w.meeting.status w.minutes
  pub convened_fit : ConvenedFit w.meeting.status w.meeting.convened_at
  pub numbered : Numbered w.agendas
  pub attended : NoRepeat w.meeting.attendees

last_version-Numbered : (as' : List Agenda) → Numbered as' → last_version as' ≡ length as'
unfolding last_version
last_version-Numbered [] h = refl
last_version-Numbered (a ∷ older) h = ground (arith, h.0, last_version-Numbered older h.1)

Change-IsProper : (caller : Caller) (w w' : Tables) → Change caller w w' → IsProper w → IsProper w'
unfolding MinutesFit ConvenedFit
Change-IsProper caller w w' (Change.agenda_out a g v e m d i) h = record {
  minutes_fit = ground (arith, e, m, h.minutes_fit);
  convened_fit = ground (arith, e, h.convened_fit);
  numbered = rw g (v ∙ ap suc (last_version-Numbered w.agendas h.numbered), h.numbered);
  attended = ground (arith, e, h.attended);
}
Change-IsProper caller w w' (Change.attended ids e n r) h = record {
  minutes_fit = rw (e, r.1) h.minutes_fit;
  convened_fit = rw e h.convened_fit;
  numbered = rw r.0 h.numbered;
  attended = rw e n;
}
Change-IsProper caller w w' (Change.convening c q e r) h = record {
  minutes_fit = ground (arith, e, r.1, c, h.minutes_fit);
  convened_fit = rw e (λ k. cc);
  numbered = rw r.0 h.numbered;
  attended = rw e h.attended;
}
Change-IsProper caller w w' (Change.adjourning m c n e q a g d i) h = record {
  minutes_fit = rw (e, q) a;
  convened_fit = ground (arith, e, c, h.convened_fit);
  numbered = rw g h.numbered;
  attended = rw e h.attended;
}
Change-IsProper caller w w' (Change.signing m s n a q e i g d) h = record {
  minutes_fit = ground (arith, e, n, a, q, h.minutes_fit);
  convened_fit = ground (arith, e, h.convened_fit);
  numbered = rw g h.numbered;
  attended = ground (arith, e, h.attended);
}
Change-IsProper caller w w' (Change.adding m x n a d e q g i) h = record {
  minutes_fit = rw (e, q) h.minutes_fit;
  convened_fit = rw e h.convened_fit;
  numbered = rw g h.numbered;
  attended = rw e h.attended;
}

module _ (env : Env) (caller : Caller) (data' : Meeting) (trail : Trail) {w : Tables} where
  schedule_effect :
      schedule_meeting env caller data' trail ≡ ok w
      → (w.meeting.status ≡ draft)
        × (w.meeting.convened_at ≡ none)
        × (w.meeting.attendees ≡ [])
        × (w.minutes ≡ none)
        × (w.agendas ≡ [])
  unfolding schedule_meeting record_schedule audit publish_event
  schedule_effect h = ground arith

  -- A meeting that was scheduled, and then served any requests, has no minutes before it adjourns,
  -- unsigned ones until it is minuted, and signed and sealed ones from then on; it has the time of
  -- its convening exactly from then on; its agendas are numbered from 1 without a gap; and no
  -- attendee is recorded twice.
  pub meeting-IsProper :
      (requests : List (Caller × Request))
      → schedule_meeting env caller data' trail ≡ ok w
      → IsProper (serve_meeting env requests w)
  unfolding MinutesFit ConvenedFit
  meeting-IsProper requests h =
      let f = schedule_effect h in
      serve_meeting_induction env IsProper Change-IsProper requests w (record {
        minutes_fit = rw (f.0, f.3);
        convened_fit = rw (f.0, f.1);
        numbered = rw f.4 tt;
        attended = rw f.2 tt;
      })

-- Signed minutes never change again, whatever requests are served.
pub minutes_sealed :
    (env : Env) (requests : List (Caller × Request)) (w : Tables) (m : Minutes)
    → w.minutes ≡ some m
    → m.approved ≡ true
    → (serve_meeting env requests w).minutes ≡ some m
minutes_sealed env requests w m e a =
    serve_meeting_induction env (λ v. v.minutes ≡ some m) step requests w e
  where
    step :
        (caller : Caller) (v v' : Tables)
        → Change caller v v'
        → v.minutes ≡ some m
        → v'.minutes ≡ some m
    step caller v v' (Change.agenda_out x g k r q d i) h = q ∙ h
    step caller v v' (Change.attended ids r n s) h = s.1 ∙ h
    step caller v v' (Change.convening c q r s) h = s.1 ∙ h
    step caller v v' (Change.adjourning x c n r q b g d i) h = cc
    step caller v v' (Change.signing x s n b q r i g d) h = cc
    step caller v v' (Change.adding x y n b d r q g i) h = q ∙ h

abbrev pub rank : Status → ℕ
rank draft = 0
rank agenda_issued = 1
rank scheduled = 1
rank convened = 2
rank adjourned = 3
rank minuted = 4

-- No requests take a meeting back in the order draft, agenda issued or scheduled, convened,
-- adjourned, minuted.
pub meeting_never_back :
    (env : Env) (requests : List (Caller × Request)) (w : Tables)
    → rank w.meeting.status ≤ rank (serve_meeting env requests w).meeting.status
meeting_never_back env requests w =
    serve_meeting_induction env (λ v. rank w.meeting.status ≤ rank v.meeting.status) step requests w
      (omega arith)
  where
    step :
        (caller : Caller) (v v' : Tables)
        → Change caller v v'
        → rank w.meeting.status ≤ rank v.meeting.status
        → rank w.meeting.status ≤ rank v'.meeting.status
    step caller v v' (Change.agenda_out x g k r q d i) h = ground arith
    step caller v v' (Change.attended ids r n s) h = ground arith
    step caller v v' (Change.convening c q r s) h = ground arith
    step caller v v' (Change.adjourning x c n r q b g d i) h = ground arith
    step caller v v' (Change.signing x s n b q r i g d) h = ground arith
    step caller v v' (Change.adding x y n b d r q g i) h = ground arith
