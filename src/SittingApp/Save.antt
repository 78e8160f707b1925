-- ===== src/SittingApp/Save.antt =====
-- What `save()` does to the row of an instance: each attribute goes through its column.
use nbes_backend.Base.{none, some, List, [], ◌∷◌, ok, err}
use nbes_backend.Base.Fallible.{◌>>=◌}
use nbes_backend.Python.{Value, Fault}
use nbes_backend.Env.{Env}
use nbes_backend.SittingApp.Model.{
  Field, Sitting, pass_mark, pass_rule, pass_band_min, pass_band_max, compensated_min_per_paper,
  compensated_aggregate_floor, sitting_date, sitting_end_date, normalisation_method, centres,
  field_name, getattr, setattr,
}
use nbes_backend.SittingApp.World.{Action, Outcome, crash}

abbrev pub all_fields : List Field
all_fields =
    pass_mark ∷ pass_rule ∷ pass_band_min ∷ pass_band_max ∷ compensated_min_per_paper
    ∷ compensated_aggregate_floor ∷ sitting_date ∷ sitting_end_date ∷ normalisation_method ∷ centres
    ∷ []

module _ (env : Env) where
  -- The value that the column of `f` stores.
  unfoldable pub clean_field : Field → Value → Outcome Value
  clean_field f v = elim (env.clean (field_name f) v) [
    | none ↦ err (crash Fault.database_error)
    | some c ↦ ok c
  ]

  unfoldable pub clean_fields : List Field → Sitting → Outcome Sitting
  clean_fields [] s = ok s
  clean_fields (f ∷ fs) s = do v ← clean_field f (getattr s f); clean_fields fs (setattr f v s)

  -- `save()`: every column is written from the instance, which itself stays as it is.
  unfoldable pub save : Sitting → Action (Unit {0})
  save s w = elim (clean_fields all_fields s) [
    | ok stored ↦ ok (tt, record w { row = stored })
    | err e ↦ err e
  ]

-- `save(update_fields=["status", "updated_at"])`
unfoldable pub save_status : Sitting → Action (Unit {0})
save_status s w = let r = w.row in ok (tt, record w { row = record r { status = s.status } })

-- `save(update_fields=["status", "locked_at", "updated_at"])`
unfoldable pub save_lock : Sitting → Action (Unit {0})
save_lock s w =
    let r = w.row in
    ok (tt, record w { row = record r { status = s.status; locked_at = s.locked_at } })

-- `save(update_fields=["approved_at", "approved_via_meeting_id", "updated_at"])`
unfoldable pub save_approval : Sitting → Action (Unit {0})
save_approval s w =
    let r = w.row in
    ok (
      tt,
      record w {
        row = record r {
          approved_at = s.approved_at;
          approved_via_meeting_id = s.approved_via_meeting_id;
        };
      },
    )
