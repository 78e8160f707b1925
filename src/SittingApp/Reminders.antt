-- ===== src/SittingApp/Reminders.antt =====
-- tasks.py: `send_t30_reminders` at one offset and one cycle, `_send_reminder_atomic`, and the test
-- against the audit trail that keeps it from sending twice.
pub mod Once
use nbes_backend.Base.{
  ℕ, String, Bool, true, false, ◌&&◌, ◌||◌, ◌==◌, Option, none, some, List, [], ◌∷◌, any, str_eq,
  pos, eqb_ℤ, Result, ok, err, if◌then◌else◌,
}
use nbes_backend.Python.{Value, text, number, Dict, get, isoformat, Fault}
use nbes_backend.Env.{Env}
use nbes_backend.Audit.{AuditEvent, Trail, Entry, record_event, publish}
use nbes_backend.SittingApp.Model.{Status, closed, Sitting}

-- What the JSON lookups of `_already_sent` compare.
abbrev is_number : ℕ → Option Value → Bool
is_number n (some (number k)) = eqb_ℤ k (pos n)
is_number n _ = false

abbrev is_text : String → Option Value → Bool
is_text s (some (text u)) = str_eq u s
is_text s _ = false

-- The offset and the date of the audited state.
unfoldable pub is_same_reminder : ℕ → String → Option Dict → Bool
unfolding get
is_same_reminder offset day none = false
is_same_reminder offset day (some d) =
    is_number offset (get "offset_days" d) && is_text day (get "date" d)

-- One row against the filter of `_already_sent`.
unfoldable pub is_reminder : String → ℕ → String → AuditEvent → Bool
unfolding is_same_reminder
is_reminder ref offset day e =
    str_eq e.payload.entity_type "sitting"
    && (str_eq e.payload.entity_id ref
        && (str_eq e.payload.action "T30_REMINDER_SENT"
            && is_same_reminder offset day e.payload.new_state))

-- `_already_sent`
unfoldable pub already_sent : String → ℕ → String → Trail → Bool
unfolding is_reminder
already_sent ref offset day t = any (is_reminder ref offset day) t.events

abbrev pub is_closed : Status → Bool
is_closed closed = true
is_closed _ = false

-- The string that `_send_reminder_atomic` returns.
pub data Reminder : Type 0 where
  sent was_sent was_closed vanished : Reminder

module _ (env : Env) where
  -- The audit row and the event of a reminder.
  unfoldable pub record_reminder : Sitting → ℕ → ℕ → String → Trail → Result Fault Trail
  unfolding record_event
  record_reminder s offset on_date starts t =
      let day = env.iso_date on_date in
      let entry : Entry = record {
        actor_id = none;
        action = "T30_REMINDER_SENT";
        entity_type = "sitting";
        entity_id = s.ref;
        old_state = none;
        new_state = some (
            ("offset_days", number (pos offset))
            ∷ ("date", text day)
            ∷ ("sitting_date", text starts)
            ∷ []);
        request_id = none;
        ip_address = none;
      } in
      elim (record_event env entry t) [
        | err f ↦ err f
        | ok t' ↦ ok (
            publish "T30ReminderDue"
              (("ref", text s.ref)
                ∷ ("offset_days", number (pos offset))
                ∷ ("sitting_date", text starts)
                ∷ ("fires_on", text day)
                ∷ [])
              none t')
      ]

  -- `_send_reminder_atomic` on the row that the query finds, if any.
  unfoldable pub send_reminder : Option Sitting → ℕ → ℕ → Trail → Result Fault (Reminder × Trail)
  unfolding already_sent record_reminder
  send_reminder none offset on_date t = ok (vanished, t)
  send_reminder (some s) offset on_date t =
      if is_closed s.status
      then ok (was_closed, t)
      else if already_sent s.ref offset (env.iso_date on_date) t
      then ok (was_sent, t)
      else elim (isoformat env.iso_date s.sitting_date) [
        | err f ↦ err f
        | ok starts ↦ elim (record_reminder s offset on_date starts t) [
          | err f ↦ err f
          | ok t' ↦ ok (sent, t')
        ]
      ]
