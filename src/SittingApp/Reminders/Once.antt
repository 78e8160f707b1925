-- ===== src/SittingApp/Reminders/Once.antt =====
-- A reminder of one offset goes out once a day.
use nbes_backend.Base.{◌≡◌, refl, ℕ, String, true, false, some, List, any, arith, ok, eq_iff}
use nbes_backend.Python.{get}
use nbes_backend.Env.{Env}
use nbes_backend.Audit.{
  AuditEvent, Trail, record_event, is_state_change, record_atomic, payload_of, publish,
}
use nbes_backend.Audit.Chain.{Extends, same, more}
use nbes_backend.SittingApp.Model.{Sitting}
use nbes_backend.SittingApp.Reminders.{
  is_same_reminder, is_reminder, already_sent, is_closed, sent, was_sent, record_reminder,
  send_reminder,
}

module _ (env : Env) (s : Sitting) (offset on_date : ℕ) (t : Trail) {t' : Trail} where
  sent-already_sent :
      send_reminder env (some s) offset on_date t ≡ ok (sent, t')
      → already_sent s.ref offset (env.iso_date on_date) t' ≡ true
  unfolding send_reminder already_sent record_reminder record_event is_state_change record_atomic
      payload_of publish is_reminder is_same_reminder get
  sent-already_sent h = ground (
    arith,
    h,
    (eq_iff s.ref s.ref).1 refl,
    (eq_iff (env.iso_date on_date) (env.iso_date on_date)).1 refl,
  )

any-Extends :
    (ref : String) (offset : ℕ) (day : String) (old new : List AuditEvent)
    → Extends old new
    → any (is_reminder ref offset day) old ≡ true
    → any (is_reminder ref offset day) new ≡ true
any-Extends ref offset day old _ same h = h
any-Extends ref offset day old _ (more {new} e x) h =
    ground (arith, any-Extends ref offset day old new x h)

module _ (env : Env) (s : Sitting) (offset on_date : ℕ) (t : Trail) {t' : Trail} where
  -- Once a reminder has gone out for a cycle at an offset on a day, no attempt on that day at that
  -- offset for the cycle sends another, whatever has been audited since, while it is not closed: the
  -- attempt finds that it was sent, and leaves the tables as they are.
  pub reminder_once :
      (later : Sitting) (u : Trail)
      → send_reminder env (some s) offset on_date t ≡ ok (sent, t')
      → Extends t'.events u.events
      → later.ref ≡ s.ref
      → is_closed later.status ≡ false
      → send_reminder env (some later) offset on_date u ≡ ok (was_sent, u)
  unfolding send_reminder already_sent
  reminder_once later u h x r o =
      let a =
        any-Extends s.ref offset (env.iso_date on_date) t'.events u.events x
          (sent-already_sent env s offset on_date t h) in
      rw (o, r) (rw a)
