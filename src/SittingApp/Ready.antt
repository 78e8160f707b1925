-- ===== src/SittingApp/Ready.antt =====
-- When a cycle is ready, said apart from the code, and that `validate_sitting_complete` decides it.
use nbes_backend.Base.{
  ◌≡◌, ◌↔◌, refl, Bool, true, false, not, Option, none, some, List, [], ◌∷◌, arith, ok, err, All,
  length, ◌==◌, ℤ, pos, ◌≤ℤ◌, eqb_ℤ, Result-cases, inl, inr, ◌⊎◌, ap,
}
use nbes_backend.Base.Fallible.{◌>>=◌, ◌>>◌}
use nbes_backend.Python.{Value, null, boolean, comparable, decimal_lt, decimal_gt, is_null}
use nbes_backend.Python.Text.{is_empty}
use nbes_backend.Env.{Env}
use nbes_backend.SittingApp.Model.{Sitting, SubjectPaper}
use nbes_backend.SittingApp.World.{
  Message, Outcome, Check, validation, crash, missing_blueprint, end_before_start, paper_count,
  default_pass_mark,
}
use nbes_backend.SittingApp.Validate.{
  required_papers, is_compensated, to_decimal, check_minimum, check_maximum, validate_pass_band,
  sum_marks, validate_paper_sections, validate_compensation, date_lt, collect, add_if, is_none,
  sum_verdict, paper_reasons, papers_reasons, default_check, sitting_reasons, raise_reasons,
  validate_sitting_complete,
}

abbrev Below : Option ℤ → ℤ → Type 0
Below none d = ⊥
Below (some b) d = b ≤ℤ d

abbrev Above : Option ℤ → ℤ → Type 0
Above none d = ⊥
Above (some b) d = d ≤ℤ b

-- The mark `d` is not beyond one end of the policy band. A null end bounds nothing; an end that is
-- no number admits no mark.
abbrev pub AtLeast : Value → ℤ → Type 0
AtLeast null d = Unit
AtLeast v d = Below (comparable v) d

abbrev pub AtMost : Value → ℤ → Type 0
AtMost null d = Unit
AtMost v d = Above (comparable v) d

abbrev pub InBand : Sitting → ℤ → Type 0
InBand s d = AtLeast s.pass_band_min d × AtMost s.pass_band_max d

check_minimum_iff : (v : Value) (d : ℤ) → (check_minimum v d ≡ ok tt) ↔ AtLeast v d
unfolding check_minimum decimal_lt
check_minimum_iff null d = ((λ h. tt), (λ h. refl))
check_minimum_iff (boolean true) d = ((λ h. ground arith), (λ h. ground arith))
check_minimum_iff (boolean false) d = ((λ h. ground arith), (λ h. ground arith))
check_minimum_iff _ d = ((λ h. ground arith), (λ h. ground arith))

check_maximum_iff : (v : Value) (d : ℤ) → (check_maximum v d ≡ ok tt) ↔ AtMost v d
unfolding check_maximum decimal_gt
check_maximum_iff null d = ((λ h. tt), (λ h. refl))
check_maximum_iff (boolean true) d = ((λ h. ground arith), (λ h. ground arith))
check_maximum_iff (boolean false) d = ((λ h. ground arith), (λ h. ground arith))
check_maximum_iff _ d = ((λ h. ground arith), (λ h. ground arith))

pub validate_pass_band_iff :
    (s : Sitting) (d : ℤ) → (validate_pass_band s (some d) ≡ ok tt) ↔ InBand s d
unfolding validate_pass_band
validate_pass_band_iff s d = (
  (λ h.
      ground
        (arith, (check_minimum_iff s.pass_band_min d).0, (check_maximum_iff s.pass_band_max d).0)),
  (λ h.
      rw ((check_minimum_iff s.pass_band_min d).1 h.0)
        ((check_maximum_iff s.pass_band_max d).1 h.1)),
)

-- The marks of the sections, where there are any, add up to the total of the paper.
abbrev pub SectionsAgree : Env → SubjectPaper → Type 0
SectionsAgree env p =
    (is_empty p.sections ≡ true) ⊎ (sum_marks env (pos 0) p.sections ≡ some (pos p.total_marks))

eqb_ℤ_iff : (a b : ℤ) → (eqb_ℤ a b ≡ true) ↔ (a ≡ b)
eqb_ℤ_iff a b = ((λ h. ground arith), (λ h. ground arith))

module _ (env : Env) (p : SubjectPaper) where
  sum_verdict_iff : (o : Option ℤ) → (sum_verdict env p o ≡ ok tt) ↔ (o ≡ some (pos p.total_marks))
  unfolding sum_verdict
  sum_verdict_iff none = ((λ h. cc), (λ h. cc))
  sum_verdict_iff (some t) = (
    (λ h. ground (arith, (eqb_ℤ_iff t (pos p.total_marks)).0)),
    (λ h. ground (arith, (eqb_ℤ_iff t (pos p.total_marks)).1)),
  )

  pub validate_paper_sections_iff : (validate_paper_sections env p ≡ ok tt) ↔ SectionsAgree env p
  unfolding validate_paper_sections
  validate_paper_sections_iff = (
    (λ h. ground (arith, (sum_verdict_iff (sum_marks env (pos 0) p.sections)).0)),
    (λ h. ground (arith, (sum_verdict_iff (sum_marks env (pos 0) p.sections)).1)),
  )

-- A compensated pass has both of its thresholds.
abbrev pub CompensationSet : Sitting → Type 0
CompensationSet s =
    (is_compensated s.pass_rule ≡ false)
    ⊎ ((is_null s.compensated_min_per_paper ≡ false)
        × (is_null s.compensated_aggregate_floor ≡ false))

pub validate_compensation_iff :
    (s : Sitting) → (validate_compensation s ≡ ok tt) ↔ CompensationSet s
unfolding validate_compensation
validate_compensation_iff s = ((λ h. ground arith), (λ h. ground (arith, h)))

-- The cycle's own mark reads as a decimal in the band, or as no mark at all.
abbrev MarkInBand : Sitting → Outcome (Option ℤ) → Type 0
MarkInBand s (ok none) = Unit
MarkInBand s (ok (some d)) = InBand s d
MarkInBand s (err _) = ⊥

abbrev pub PaperReady : Env → Sitting → SubjectPaper → Type 0
PaperReady env s p =
    InBand s p.pass_mark × SectionsAgree env p × (is_none p.blueprint_version_id ≡ false)

-- Five papers, every pass mark in the band, section marks that add up, a blueprint for each paper,
-- thresholds for a compensated pass, and an end that is not before the start.
pub record IsReady (env : Env) (s : Sitting) (papers : List SubjectPaper) : Type 0 where
  pub counted : length papers ≡ required_papers
  pub marked : MarkInBand s (to_decimal env s.pass_mark)
  pub each : All (PaperReady env s) papers
  pub compensated : CompensationSet s
  pub ordered : date_lt s.sitting_end_date s.sitting_date ≡ ok false

collect-nil :
    (label : Message → Message) (c : Check) (reasons : List Message)
    → (collect label c reasons ≡ ok []) ↔ ((c ≡ ok tt) × (reasons ≡ []))
unfolding collect
collect-nil label (ok u) reasons = ((λ h. ground arith), (λ h. ground arith))
collect-nil label (err (validation c m d)) [] = ((λ h. cc), (λ h. cc))
collect-nil label (err (validation c m d)) (x ∷ xs) = ((λ h. cc), (λ h. cc))
collect-nil label (err (crash f)) reasons = ((λ h. cc), (λ h. cc))

marked_iff :
    (s : Sitting) (o : Outcome (Option ℤ)) → ((o >>= validate_pass_band s) ≡ ok tt) ↔ MarkInBand s o
marked_iff s (ok none) = ((λ h. tt), (λ h. unfold validate_pass_band in refl))
marked_iff s (ok (some d)) = validate_pass_band_iff s d
marked_iff s (err e) = ((λ h. cc), (λ h. absurd h))

default_check_iff :
    (env : Env) (s : Sitting)
    → (default_check env s ≡ ok tt) ↔ MarkInBand s (to_decimal env s.pass_mark)
unfolding default_check
default_check_iff env s = marked_iff s (to_decimal env s.pass_mark)

add_if-nil :
    (b : Bool) (m : Message) (reasons : List Message)
    → (add_if b m reasons ≡ []) ↔ ((b ≡ false) × (reasons ≡ []))
add_if-nil true m [] = ((λ h. cc), (λ h. cc))
add_if-nil true m (x ∷ xs) = ((λ h. cc), (λ h. cc))
add_if-nil false m reasons = ((λ h. (refl, h)), (λ h. h.1))

-- A last step that may add one reason.
bind_add-nil :
    (o : Outcome (List Message)) (b : Bool) (m : Message)
    → ((do found ← o; ok (add_if b m found)) ≡ ok []) ↔ ((o ≡ ok []) × (b ≡ false))
bind_add-nil (ok found) b m = (
  (λ h. ground (arith, (add_if-nil b m found).0)),
  (λ h. ground (arith, (add_if-nil b m found).1)),
)
bind_add-nil (err e) b m = ((λ h. cc), (λ h. cc))

-- A step that adds no reason exactly when `P` holds.
abbrev Adds : (List Message → Outcome (List Message)) → Type 0 → Type 0
Adds f P = (reasons : List Message) → (f reasons ≡ ok []) ↔ (P × (reasons ≡ []))

bind-nil :
    (o : Outcome (List Message)) (g : List Message → Outcome (List Message)) (Q : Type 0)
    → Adds g Q
    → ((o >>= g) ≡ ok []) ↔ ((o ≡ ok []) × Q)
bind-nil (ok found) g Q step =
    ((λ h. (ap ok ((step found).0 h).1, ((step found).0 h).0)), (λ h. (step found).1 (h.1, cc)))
bind-nil (err e) g Q step = ((λ h. cc), (λ h. cc))

Adds-bind :
    (f g : List Message → Outcome (List Message)) (P Q : Type 0)
    → Adds f P
    → Adds g Q
    → Adds (λ reasons. f reasons >>= g) (P × Q)
Adds-bind f g P Q first then reasons =
    let b = bind-nil (f reasons) g Q then in
    (
      (λ h. let (o, q) = b.0 h in let (p, nil) = (first reasons).0 o in ((p, q), nil)),
      (λ h. let ((p, q), nil) = h in b.1 ((first reasons).1 (p, nil), q)),
    )

collect-Adds :
    (label : Message → Message) (c : Check) (P : Type 0)
    → (c ≡ ok tt) ↔ P
    → Adds (collect label c) P
collect-Adds label c P b reasons =
    let found = collect-nil label c reasons in
    ((λ h. let (o, nil) = found.0 h in (b.0 o, nil)), (λ h. found.1 (b.1 h.0, h.1)))

raise_reasons-nil : (o : Outcome (List Message)) → ((o >>= raise_reasons) ≡ ok tt) ↔ (o ≡ ok [])
raise_reasons-nil (ok []) = ((λ h. refl), (λ h. refl))
raise_reasons-nil (ok (m ∷ ms)) = ((λ h. cc), (λ h. cc))
raise_reasons-nil (err e) = ((λ h. cc), (λ h. cc))

module _ (env : Env) (s : Sitting) where
  paper_check_iff :
      (p : SubjectPaper)
      → ((validate_pass_band s (some p.pass_mark) >> validate_paper_sections env p) ≡ ok tt)
        ↔ (InBand s p.pass_mark × SectionsAgree env p)
  paper_check_iff p =
      both (validate_pass_band s (some p.pass_mark)) (validate_pass_band_iff s p.pass_mark)
    where
      both :
          (c : Check)
          → (c ≡ ok tt) ↔ InBand s p.pass_mark
          → ((c >> validate_paper_sections env p) ≡ ok tt)
            ↔ (InBand s p.pass_mark × SectionsAgree env p)
      both (ok u) b = (
        (λ h. (b.0 refl, (validate_paper_sections_iff env p).0 h)),
        (λ h. (validate_paper_sections_iff env p).1 h.1),
      )
      both (err e) b = ((λ h. cc), (λ h. absurd (cc (b.1 h.0))))

  paper_reasons-Adds : (p : SubjectPaper) → Adds (paper_reasons env s p) (PaperReady env s p)
  unfolding paper_reasons
  paper_reasons-Adds p reasons =
      let check = validate_pass_band s (some p.pass_mark) >> validate_paper_sections env p in
      let found = collect-nil (λ m. m) check reasons in
      let added =
        bind_add-nil (collect (λ m. m) check reasons) (is_none p.blueprint_version_id)
          (missing_blueprint p.subject_code) in
      (
        (λ h.
            let (o, some_blueprint) = added.0 h in
            let (passed, nil) = found.0 o in
            let (band, agree) = (paper_check_iff p).0 passed in
            ((band, agree, some_blueprint), nil)),
        (λ h.
            let ((band, agree, some_blueprint), nil) = h in
            added.1 (found.1 ((paper_check_iff p).1 (band, agree), nil), some_blueprint)),
      )

  papers_reasons-Adds :
      (ps : List SubjectPaper) → Adds (papers_reasons env s ps) (All (PaperReady env s) ps)
  unfolding papers_reasons
  papers_reasons-Adds [] reasons = ((λ h. (tt, cc)), (λ h. ap ok h.1))
  papers_reasons-Adds (p ∷ ps) reasons =
      Adds-bind (paper_reasons env s p) (papers_reasons env s ps) (PaperReady env s p)
        (All (PaperReady env s) ps) (paper_reasons-Adds p) (papers_reasons-Adds ps) reasons

  dates-Adds :
      Adds
        (λ reasons. date_lt s.sitting_end_date s.sitting_date >>= λ early.
          ok (add_if early end_before_start reasons))
        (date_lt s.sitting_end_date s.sitting_date ≡ ok false)
  dates-Adds reasons = elim (Result-cases (date_lt s.sitting_end_date s.sitting_date)) [
    | inl (early, e) ↦ rw e (
      (λ h. let (b, nil) = (add_if-nil early end_before_start reasons).0 (cc) in (ap ok b, nil)),
      (λ h. ap ok ((add_if-nil early end_before_start reasons).1 (cc, h.1))),
    )
    | inr (x, e) ↦ rw e ((λ h. cc), (λ h. cc))
  ]

  abbrev late_check : List Message → Outcome (List Message)
  late_check reasons = do
    early ← date_lt s.sitting_end_date s.sitting_date
    ok (add_if early end_before_start reasons)

  abbrev compensation_check : List Message → Outcome (List Message)
  compensation_check reasons = collect (λ m. m) (validate_compensation s) reasons >>= late_check

  reasons_iff :
      (papers : List SubjectPaper)
      → (sitting_reasons env s papers ≡ ok []) ↔ (
          (MarkInBand s (to_decimal env s.pass_mark)
            × (All (PaperReady env s) papers
                × (CompensationSet s × (date_lt s.sitting_end_date s.sitting_date ≡ ok false))))
          × (add_if (not (length papers == required_papers)) (paper_count (length papers)) [] ≡ []))
  unfolding sitting_reasons
  reasons_iff papers =
      Adds-bind (collect default_pass_mark (default_check env s))
        (λ reasons. papers_reasons env s papers reasons >>= compensation_check) _ _
        (collect-Adds default_pass_mark (default_check env s) _ (default_check_iff env s))
        (Adds-bind (papers_reasons env s papers) compensation_check _ _ (papers_reasons-Adds papers)
          (Adds-bind (collect (λ m. m) (validate_compensation s)) late_check _ _
            (collect-Adds (λ m. m) (validate_compensation s) _ (validate_compensation_iff s))
            dates-Adds))
        _

  -- The check passes exactly when the cycle is ready.
  pub validate_sitting_complete_iff :
      (papers : List SubjectPaper)
      → (validate_sitting_complete env s papers ≡ ok tt) ↔ IsReady env s papers
  unfolding validate_sitting_complete
  validate_sitting_complete_iff papers =
      let raised = raise_reasons-nil (sitting_reasons env s papers) in
      let parts = reasons_iff papers in
      (
        (λ h.
            let ((marked, (each, (compensated, ordered))), counted) = parts.0 (raised.0 h) in
            record {
              counted = ground arith;
              marked = marked;
              each = each;
              compensated = compensated;
              ordered = ordered;
            }),
        (λ h. raised.1 (
            parts.1 ((h.marked, (h.each, (h.compensated, h.ordered))), ground (arith, h.counted)))),
      )
