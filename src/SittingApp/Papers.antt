-- ===== src/SittingApp/Papers.antt =====
-- The papers of a cycle, in services.py.
use nbes_backend.Base.{
  ℕ, ◌==◌, String, Bool, true, false, not, Option, none, some, List, [], ◌∷◌, ◌++◌, str_eq, leb,
  select, length, if◌then◌else◌, ℤ, pos,
}
use nbes_backend.Python.{Value, null, text, number, decimal, Dict}
use nbes_backend.Env.{Env}
use nbes_backend.SittingApp.Model.{draft, Sitting, SubjectPaper, is_locked}
use nbes_backend.SittingApp.World.{
  add_locked, remove_locked, would_exceed, configuration_locked, subject_count_mismatch, Action,
  pure, lift, gets, ◌>>=◌, ◌>>◌, modify, refuse_if, Caller, uuid4, publish_event, audit,
}
use nbes_backend.SittingApp.Save.{save_status}
use nbes_backend.SittingApp.Validate.{required_papers, validate_pass_band, validate_paper_sections}
use nbes_backend.SittingApp.Lifecycle.{is_configured}

-- The validated data of the upsert serializer; `none` is a key that is absent.
pub record PaperData : Type 0 where
  pub subject_code : String
  pub subject_name : Option String
  pub mode : Option String
  pub total_marks : Option ℕ
  pub pass_mark : Option ℤ
  pub duration_minutes : Option ℕ
  pub sections : Option (List Dict)
  pub normalisation_method : Option String
  pub normalisation_params : Option Dict
  pub blueprint_version : Option (Option ℕ)

abbrev pub get_or {ℓ} : {A : Type ℓ} → Option A → A → A
get_or none d = d
get_or (some a) d = a

abbrev pub has_code : String → SubjectPaper → Bool
has_code code p = str_eq p.subject_code code

-- The row of `get_or_create` for a new paper: the defaults of the model.
abbrev new_paper : ℕ → PaperData → SubjectPaper
new_paper id d = record {
  id = id;
  subject_code = d.subject_code;
  subject_name = get_or d.subject_name d.subject_code;
  mode = "cbt";
  total_marks = 100;
  pass_mark = pos 5000;
  duration_minutes = 180;
  sections = [];
  normalisation_method = "none";
  normalisation_params = [];
  blueprint_version_id = none;
}

-- The loop of `setattr` over `data`; `subject_code` is set to itself.
unfoldable pub apply_data : PaperData → SubjectPaper → SubjectPaper
apply_data d p = record {
  id = p.id;
  subject_code = d.subject_code;
  subject_name = get_or d.subject_name p.subject_name;
  mode = get_or d.mode p.mode;
  total_marks = get_or d.total_marks p.total_marks;
  pass_mark = get_or d.pass_mark p.pass_mark;
  duration_minutes = get_or d.duration_minutes p.duration_minutes;
  sections = get_or d.sections p.sections;
  normalisation_method = get_or d.normalisation_method p.normalisation_method;
  normalisation_params = get_or d.normalisation_params p.normalisation_params;
  blueprint_version_id = get_or d.blueprint_version p.blueprint_version_id;
}

-- `SubjectPaper.objects.filter(..., subject_code=code).first()`
unfoldable pub find_paper : String → List SubjectPaper → Option SubjectPaper
find_paper code [] = none
find_paper code (p ∷ ps) = if has_code code p then some p else find_paper code ps

-- `paper.save()`: the row with the subject code of `p`, which is unique in a cycle.
unfoldable pub store_paper : SubjectPaper → List SubjectPaper → List SubjectPaper
store_paper p [] = []
store_paper p (q ∷ qs) = if has_code p.subject_code q then p ∷ qs else q ∷ store_paper p qs

-- `paper.delete()`
unfoldable pub delete_paper : ℕ → List SubjectPaper → List SubjectPaper
delete_paper id ps = select (λ p. not (p.id == id)) ps

-- An edit of a configured cycle takes it back to draft.
unfoldable pub reopen : Sitting → Action (Unit {0})
reopen s = if is_configured s.status then save_status (record s { status = draft }) else pure tt

-- `get_or_create`, after the test of the capacity: the paper, and whether it is new.
unfoldable pub obtain_paper : PaperData → Action (SubjectPaper × Bool)
obtain_paper d = do
  papers ← gets (λ w. w.papers)
  elim (find_paper d.subject_code papers) [
    | some p ↦ pure (p, false)
    | none ↦ do
      lift (
          refuse_if (leb required_papers (length papers)) subject_count_mismatch
            (would_exceed d.subject_code))
      id ← uuid4
      let p = new_paper id d
      modify (λ w. record w { papers = w.papers ++ p ∷ [] })
      pure (p, true)
  ]

module _ (env : Env) (caller : Caller) where
  -- `key: _snapshot_value(getattr(paper, key))` for a key that `data` has
  abbrev entry_if {ℓ} : {A : Type ℓ} → Option A → String → Value → Dict
  entry_if none key v = []
  entry_if (some _) key v = (key, v) ∷ []

  -- `old_state` of the audit row: the keys of `data`, at the old paper.
  unfoldable pub old_paper_state : PaperData → SubjectPaper → Dict
  old_paper_state d p =
      ("subject_code", text p.subject_code)
      ∷ (entry_if d.subject_name "subject_name" (text p.subject_name)
          ++ entry_if d.mode "mode" (text p.mode)
          ++ entry_if d.total_marks "total_marks" (number (pos p.total_marks))
          ++ entry_if d.pass_mark "pass_mark" (text (env.str_value (decimal p.pass_mark)))
          ++ entry_if d.duration_minutes "duration_minutes" (number (pos p.duration_minutes))
          ++ entry_if d.sections "sections" (text (env.dumps p.sections))
          ++ entry_if d.normalisation_method "normalisation_method" (text p.normalisation_method)
          ++ entry_if d.normalisation_params "normalisation_params"
              (text (env.dumps (p.normalisation_params ∷ [])))
          ++ entry_if d.blueprint_version "blueprint_version"
              (elim p.blueprint_version_id [ none ↦ null | some b ↦ text (env.str_blueprint b) ]))

  -- The second half of `add_or_update_paper`, from the loop of `setattr` on.
  unfoldable pub write_paper : Sitting → PaperData → SubjectPaper → Bool → Action SubjectPaper
  write_paper s d p created = do
    let stored = apply_data d p
    modify (λ w. record w { papers = store_paper stored w.papers })
    lift (validate_paper_sections env stored)
    reopen s
    audit env caller (if created then "PAPER_ADDED" else "PAPER_UPDATED") "subject_paper"
        (env.str_uuid stored.id) (if created then none else some (old_paper_state d p))
        (some (
          ("sitting", text s.ref)
          ∷ ("subject_code", text stored.subject_code)
          ∷ ("mode", text stored.mode)
          ∷ ("total_marks", number (pos stored.total_marks))
          ∷ []))
    publish_event (if created then "SittingPaperAdded" else "SittingPaperUpdated") (
        ("sitting_ref", text s.ref)
        ∷ ("paper_id", text (env.str_uuid stored.id))
        ∷ ("subject_code", text stored.subject_code)
        ∷ [])
    pure stored

  unfoldable pub add_or_update_paper : Sitting → PaperData → Action SubjectPaper
  add_or_update_paper s d = do
    lift (refuse_if (is_locked s) configuration_locked add_locked)
    lift (validate_pass_band s d.pass_mark)
    (p, created) ← obtain_paper d
    write_paper s d p created

  -- `s` is the cycle of the paper, as loaded with the paper.
  unfoldable pub remove_paper : Sitting → SubjectPaper → Action (Unit {0})
  remove_paper s p = do
    lift (refuse_if (is_locked s) configuration_locked remove_locked)
    modify (λ w. record w { papers = delete_paper p.id w.papers })
    reopen s
    audit env caller "PAPER_REMOVED" "subject_paper" (env.str_uuid p.id)
        (some (("sitting", text s.ref) ∷ ("subject_code", text p.subject_code) ∷ [])) none
    publish_event "SittingPaperRemoved" (
        ("sitting_ref", text s.ref)
        ∷ ("paper_id", text (env.str_uuid p.id))
        ∷ ("subject_code", text p.subject_code)
        ∷ [])
