-- ===== src/PaperBank/Generate.antt =====
-- `generate_paper_rule_based` and `submit_paper_for_approval` of apps/itembank/services.py: what the
-- two services write.
use nbes_backend.Base.{
  ℕ, suc, ◌==◌, String, Option, none, some, List, [], ◌∷◌, ◌++◌, length, pos, if◌then◌else◌, Bool,
  true, false, not,
}
use nbes_backend.Python.{text, number, decimal, Dict}
use nbes_backend.Env.{Env}
use nbes_backend.Transaction.{give, fail, read, ◌>>=◌, ◌>>◌, change, raise_if}
use nbes_backend.ItemBank.Model.{Item, User}
use nbes_backend.PaperBank.Checks.{Settings, paper_not_found, not_submittable, item_by_id}
use nbes_backend.PaperBank.Construct.{
  PaperStatus, paper_draft, constructed, ready_for_approval, paper_approved, paper_rejected,
  Variant, Paper, Context, Action, checked, audit_paper, log_vault_reads, record_usages,
  create_paper,
}
use nbes_backend.PaperBank.Draw.{RuleData, Draw, ids_of, pool_of, draw_paper}

-- Variants are numbered from 2.
unfoldable pub number_variants : ℕ → List Draw → List Variant
number_variants n [] = []
number_variants n (v ∷ vs) =
    record { variant_no = n; item_ids = ids_of v.items; total_marks = v.marks }
    ∷ number_variants (suc n) vs

abbrev with_found : Option Item → List Item → List Item
with_found none is = is
with_found (some i) is = i ∷ is

-- `pool_by_id.get(item_id)` for the items of a variant, and of all variants
unfoldable pub pooled : List Item → List ℕ → List Item
unfolding item_by_id
pooled pool [] = []
pooled pool (id ∷ rest) = with_found (item_by_id id pool) (pooled pool rest)

unfoldable pub variant_items : List Item → List Variant → List Item
unfolding pooled
variant_items pool [] = []
variant_items pool (v ∷ vs) = pooled pool v.item_ids ++ variant_items pool vs

abbrev pub generated : RuleData → Draw → List Draw → Paper
generated d p vs = record {
  id = 0;
  sitting_ref = d.sitting_ref;
  subject = d.subject;
  mode = d.mode;
  total_marks = d.total_marks;
  time_limit = d.time_limit;
  item_ids = ids_of p.items;
  sections = [];
  variants = number_variants 2 vs;
  blueprint_ref = d.blueprint_ref;
  status = constructed;
}

abbrev pub is_submittable : PaperStatus → Bool
is_submittable constructed = true
is_submittable paper_draft = true
is_submittable _ = false

unfoldable pub paper_text : PaperStatus → String
paper_text paper_draft = "Draft"
paper_text constructed = "Constructed"
paper_text ready_for_approval = "Ready For Approval"
paper_text paper_approved = "Approved"
paper_text paper_rejected = "Rejected"

unfoldable pub find_paper : ℕ → List Paper → Option Paper
find_paper id [] = none
find_paper id (p ∷ ps) = if p.id == id then some p else find_paper id ps

-- `paper.save(update_fields=["status", "updated_at"])`
unfoldable pub save_paper_status : ℕ → PaperStatus → List Paper → List Paper
save_paper_status id s [] = []
save_paper_status id s (p ∷ ps) =
    (if p.id == id then record p { status = s } else p) ∷ save_paper_status id s ps

abbrev or_absent : Option Paper → Action Paper
or_absent none = fail paper_not_found
or_absent (some p) = give p

module _ (env : Env) where
  -- `new_state` of the audit row
  abbrev pub generated_state : RuleData → Draw → List Draw → Dict
  generated_state d p vs =
      ("sitting_ref", text d.sitting_ref)
      ∷ ("item_count", number (pos (length p.items)))
      ∷ ("variants", number (pos (length vs)))
      ∷ ("total_marks", text (env.str_value (decimal p.marks)))
      ∷ []

  unfoldable pub generate_paper_rule_based :
      Settings → User → Context → RuleData → Action (Unit {0})
  unfolding pool_of draw_paper number_variants variant_items create_paper record_usages
      log_vault_reads audit_paper
  generate_paper_rule_based settings user c d = do
    pool ← read (λ b. pool_of settings d b.items b.usages)
    drawn ← checked (draw_paper settings d pool)
    paper_id ← create_paper (generated d drawn.0 drawn.1)
    let all_items = drawn.0.items ++ variant_items pool (number_variants 2 drawn.1)
    record_usages d.sitting_ref all_items
    log_vault_reads env user c all_items
    audit_paper env user "PAPER_GENERATED" "paper" paper_id none (generated_state d drawn.0 drawn.1)
        none

  unfoldable pub submit_paper_for_approval : ℕ → User → Action (Unit {0})
  unfolding find_paper save_paper_status paper_text audit_paper
  submit_paper_for_approval id user = do
    found ← read (λ b. find_paper id b.papers)
    p ← or_absent found
    raise_if (not (is_submittable p.status)) not_submittable
    change (λ b. record b { papers = save_paper_status id ready_for_approval b.papers })
    audit_paper env user "PAPER_SUBMITTED_FOR_APPROVAL" "paper" p.id
        (some (("status", text (paper_text p.status)) ∷ []))
        (("status", text (paper_text ready_for_approval)) ∷ []) none
