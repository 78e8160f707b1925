-- ===== src/SittingApp/Validate.antt =====
-- The validators of services.py, and the readiness check before configuring or
-- locking a cycle.
use nbes_backend.Base.{
  ℕ, ◌/◌, suc, Bool, true, false, not, ◌==◌, Option, none, some, List, [], ◌∷◌, ◌++◌, str_eq, ltb,
  if◌then◌else◌, length, ℤ, pos, negsuc, ◌+ℤ◌, eqb_ℤ, sub_ℕ, ok, err,
}
use nbes_backend.Base.Fallible.{◌>>=◌, ◌>>◌}
use nbes_backend.Python.{
  Value, null, boolean, text, number, decimal, date, Dict, type_error, invalid_operation, is_null,
  hundredths, decimal_lt, decimal_gt, get,
}
use nbes_backend.Python.Text.{codes, is_empty, text_lt}
use nbes_backend.Env.{Env}
use nbes_backend.SittingApp.Model.{Sitting, SubjectPaper}
use nbes_backend.SittingApp.World.{
  Message, below_minimum, above_maximum, malformed_sections, missing_blueprint, sections_sum_to,
  thresholds_needed, end_before_start, incomplete, paper_count, default_pass_mark,
  out_of_policy_pass_standard, inconsistent_marks_allocation, inconsistent_compensation_rule,
  sitting_not_ready, validation, crash, Outcome, Check, or_crash, refuse_if,
}

-- REQUIRED_SUBJECT_PAPER_COUNT
abbrev pub required_papers : ℕ
required_papers = 5

-- `pass_rule == PassRule.COMPENSATED`
abbrev pub is_compensated : Value → Bool
is_compensated (text s) = str_eq s "compensated"
is_compensated _ = false

module _ (env : Env) where
  -- `_to_decimal`
  unfoldable pub to_decimal : Value → Outcome (Option ℤ)
  to_decimal null = ok none
  to_decimal (text s) = if str_eq s "" then ok none else elim (env.parse_decimal s) [
    | none ↦ err (crash invalid_operation)
    | some d ↦ ok (some d)
  ]
  to_decimal (decimal d) = ok (some d)
  to_decimal (number n) = ok (some (hundredths n))
  to_decimal _ = err (crash invalid_operation)

  -- `int(v)`, `none` for TypeError and ValueError
  unfoldable pub int_of : Value → Option ℤ
  int_of (boolean b) = some (if b then pos 1 else pos 0)
  int_of (text s) = env.parse_int s
  int_of (number n) = some n
  int_of (decimal (pos n)) = some (pos (n / 100))
  int_of (decimal (negsuc n)) = some (sub_ℕ 0 (suc n / 100))
  int_of _ = none

-- The test against one end of the policy band, where the column is not null.
unfoldable pub check_minimum : Value → ℤ → Check
check_minimum lo d = if is_null lo then ok tt else do
  low ← or_crash (decimal_lt d lo)
  refuse_if low out_of_policy_pass_standard (below_minimum d lo)

unfoldable pub check_maximum : Value → ℤ → Check
check_maximum hi d = if is_null hi then ok tt else do
  high ← or_crash (decimal_gt d hi)
  refuse_if high out_of_policy_pass_standard (above_maximum d hi)

-- `_validate_pass_band`
unfoldable pub validate_pass_band : Sitting → Option ℤ → Check
validate_pass_band s none = ok tt
validate_pass_band s (some d) = check_minimum s.pass_band_min d >> check_maximum s.pass_band_max d

module _ (env : Env) where
  -- `int(s.get("marks", 0))` of one section
  unfoldable pub section_marks : Dict → Option ℤ
  unfolding int_of get
  section_marks s = elim (get "marks" s) [ none ↦ some (pos 0) | some v ↦ int_of env v ]

  -- `sum(...)`, from the left; `none` where one section is malformed
  unfoldable pub sum_marks : ℤ → List Dict → Option ℤ
  sum_marks acc [] = some acc
  sum_marks acc (s ∷ rest) = elim (section_marks s) [
    | none ↦ none
    | some m ↦ sum_marks (acc +ℤ m) rest
  ]

  -- The verdict on a sum of section marks.
  unfoldable pub sum_verdict : SubjectPaper → Option ℤ → Check
  sum_verdict p none =
      err (validation inconsistent_marks_allocation (malformed_sections p.subject_code) [])
  sum_verdict p (some total) =
      refuse_if (not (eqb_ℤ total (pos p.total_marks))) inconsistent_marks_allocation
        (sections_sum_to p.subject_code total p.total_marks)

  -- `_validate_paper_sections`
  unfoldable pub validate_paper_sections : SubjectPaper → Check
  unfolding sum_verdict
  validate_paper_sections p =
      if is_empty p.sections then ok tt else sum_verdict p (sum_marks (pos 0) p.sections)

-- `_validate_compensation`
unfoldable pub validate_compensation : Sitting → Check
validate_compensation s =
    if is_compensated s.pass_rule
    then if is_null s.compensated_min_per_paper
      then err (validation inconsistent_compensation_rule thresholds_needed [])
      else if is_null s.compensated_aggregate_floor
      then err (validation inconsistent_compensation_rule thresholds_needed [])
      else ok tt
    else ok tt

-- `a < b` for two values of the date columns
unfoldable pub date_lt : Value → Value → Outcome Bool
date_lt (date a) (date b) = ok (ltb a b)
date_lt (text a) (text b) = ok (text_lt (codes a) (codes b))
date_lt _ _ = err (crash type_error)

-- `try: check except SittingValidationError as exc: reasons.append(label(exc.message))`
unfoldable pub collect : (Message → Message) → Check → List Message → Outcome (List Message)
collect label (ok _) reasons = ok reasons
collect label (err (validation c m d)) reasons = ok (reasons ++ label m ∷ [])
collect label (err (crash f)) reasons = err (crash f)

abbrev pub add_if : Bool → Message → List Message → List Message
add_if true m reasons = reasons ++ m ∷ []
add_if false m reasons = reasons

abbrev pub is_none {ℓ} : {A : Type ℓ} → Option A → Bool
is_none none = true
is_none (some _) = false

-- `if reasons: raise ...`
abbrev pub raise_reasons : List Message → Check
raise_reasons [] = ok tt
raise_reasons (m ∷ ms) = err (validation sitting_not_ready incomplete (m ∷ ms))

module _ (env : Env) where
  -- One round of the loop over the papers.
  unfoldable pub paper_reasons : Sitting → SubjectPaper → List Message → Outcome (List Message)
  paper_reasons s p reasons = do
    found ←
        collect (λ m. m) (validate_pass_band s (some p.pass_mark) >> validate_paper_sections env p)
          reasons
    ok (add_if (is_none p.blueprint_version_id) (missing_blueprint p.subject_code) found)

  unfoldable pub papers_reasons :
      Sitting → List SubjectPaper → List Message → Outcome (List Message)
  papers_reasons s [] reasons = ok reasons
  papers_reasons s (p ∷ ps) reasons = do
    found ← paper_reasons s p reasons
    papers_reasons s ps found

  -- The check of the cycle's own pass mark.
  unfoldable pub default_check : Sitting → Check
  default_check s = do d ← to_decimal env s.pass_mark; validate_pass_band s d

  -- `reasons` at the end of `_validate_sitting_complete`
  unfoldable pub sitting_reasons : Sitting → List SubjectPaper → Outcome (List Message)
  sitting_reasons s papers = do
    let counted = add_if (not (length papers == required_papers)) (paper_count (length papers)) []
    default ← collect default_pass_mark (default_check s) counted
    each ← papers_reasons s papers default
    compensated ← collect (λ m. m) (validate_compensation s) each
    early ← date_lt s.sitting_end_date s.sitting_date
    ok (add_if early end_before_start compensated)

  -- `_validate_sitting_complete`
  unfoldable pub validate_sitting_complete : Sitting → List SubjectPaper → Check
  validate_sitting_complete s papers = do reasons ← sitting_reasons s papers; raise_reasons reasons
