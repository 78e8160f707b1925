-- ===== src/SittingApp/Frame.antt =====
-- What edits by field leave alone: the columns of the lifecycle, under `setattr` and `save`.
use nbes_backend.Base.{◌≡◌, refl, List, [], ◌∷◌, arith, ok, err, Result-cases, inl, inr}
use nbes_backend.Python.{Value}
use nbes_backend.Env.{Env}
use nbes_backend.SittingApp.Model.{Field, Sitting, pass_mark, getattr, setattr}
use nbes_backend.SittingApp.World.{Outcome}
use nbes_backend.SittingApp.Save.{clean_field, clean_fields}
use nbes_backend.SittingApp.Lifecycle.{Changes, set_all}

-- The columns that no edit by field touches.
abbrev pub SameFrame : Sitting → Sitting → Type 0
SameFrame s r =
    (r.ref ≡ s.ref)
    × (r.status ≡ s.status)
    × (r.created_by_id ≡ s.created_by_id)
    × (r.locked_at ≡ s.locked_at)
    × (r.approved_at ≡ s.approved_at)
    × (r.approved_via_meeting_id ≡ s.approved_via_meeting_id)

abbrev pub Framed : Sitting → Outcome Sitting → Type 0
Framed s (ok r) = SameFrame s r
Framed s (err _) = Unit

pub setattr-SameFrame : (f : Field) (v : Value) (s : Sitting) → SameFrame s (setattr f v s)
unfolding setattr
setattr-SameFrame pass_mark v s = (refl, refl, refl, refl, refl, refl)
setattr-SameFrame _ v s = (refl, refl, refl, refl, refl, refl)

SameFrame-trans : (s t r : Sitting) → SameFrame s t → SameFrame t r → SameFrame s r
SameFrame-trans s t r h k = ground arith

pub set_all-SameFrame : (changes : Changes) (s : Sitting) → SameFrame s (set_all changes s)
unfolding set_all
set_all-SameFrame [] s = (refl, refl, refl, refl, refl, refl)
set_all-SameFrame ((f, v) ∷ rest) s =
    SameFrame-trans s (setattr f v s) (set_all rest (setattr f v s)) (setattr-SameFrame f v s)
      (set_all-SameFrame rest (setattr f v s))

Framed-trans : (s t : Sitting) (r : Outcome Sitting) → SameFrame s t → Framed t r → Framed s r
Framed-trans s t (ok r) h k = SameFrame-trans s t r h k
Framed-trans s t (err e) h k = tt

module _ (env : Env) where
  pub clean_fields-Framed : (fs : List Field) (s : Sitting) → Framed s (clean_fields env fs s)
  unfolding clean_fields
  clean_fields-Framed [] s = (refl, refl, refl, refl, refl, refl)
  clean_fields-Framed (f ∷ fs) s = elim (Result-cases (clean_field env f (getattr s f))) [
    | inl (c, e) ↦ rw e (
        Framed-trans s (setattr f c s) (clean_fields env fs (setattr f c s))
          (setattr-SameFrame f c s) (clean_fields-Framed fs (setattr f c s)))
    | inr (x, e) ↦ rw e tt
  ]
