-- ===== src/Committee/World.antt =====
-- The tables of one meeting, and what its services share.
use nbes_backend.Base.{ℕ, ◌+◌, String, Option, none, List, ok, err}
use nbes_backend.Python.{Dict, Fault}
use nbes_backend.Env.{Env}
use nbes_backend.Audit.{Trail, Entry, publish, record_event}
use nbes_backend.Transaction.{Call}
use nbes_backend.SittingApp.World.{Caller}
use nbes_backend.Committee.Model.{Status, Meeting, Agenda, Minutes, MinutesAddendum, ActionItem}

-- The texts of the exceptions, with the values that they print.
pub data Error : Type 0 where
  cannot_convene cannot_adjourn : Status → Error
  quorum_not_met : ℕ → ℕ → Error
  already_signed unsigned not_found : Error
  crash : Fault → Error

-- Agendas newest version first, addenda newest first; `minutes` is one to one.
pub record Tables : Type 0 where
  pub meeting : Meeting
  pub agendas : List Agenda
  pub minutes : Option Minutes
  pub addenda : List MinutesAddendum
  pub action_items : List ActionItem
  pub trail : Trail

abbrev pub Action : Type 0 → Type 0
Action = Call Tables Error

-- `timezone.now()`
abbrev pub now : Action ℕ
now w = ok (w.trail.clock, w)

unfoldable pub uuid4 : Action ℕ
uuid4 w = let t = w.trail in ok (t.fresh, record w { trail = record t { fresh = t.fresh + 1 } })

unfoldable pub publish_event : String → Dict → Action (Unit {0})
publish_event name payload w = ok (tt, record w { trail = publish name payload none w.trail })

module _ (env : Env) where
  -- `_audit`
  unfoldable pub audit :
      Caller → String → String → ℕ → Option Dict → Option Dict → Action (Unit {0})
  unfolding record_event
  audit caller action entity_type entity_id old_state new_state w =
      let entry : Entry = record {
        actor_id = caller.actor_id;
        action = action;
        entity_type = entity_type;
        entity_id = env.str_uuid entity_id;
        old_state = old_state;
        new_state = new_state;
        request_id = caller.request_id;
        ip_address = caller.ip_address;
      } in
      elim (record_event env entry w.trail) [
        | ok t ↦ ok (tt, record w { trail = t })
        | err f ↦ err (crash f)
      ]
