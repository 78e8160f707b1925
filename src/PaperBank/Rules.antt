-- ===== src/PaperBank/Rules.antt =====
-- A paper by rules: what its generation writes, and its submission.
use nbes_backend.Base.{ℕ, ◌+◌, ◌≡◌, refl, none, List, ◌∷◌, ◌++◌, length, arith, ok, ◌∙◌}
use nbes_backend.Python.{Dict}
use nbes_backend.Env.{Env}
use nbes_backend.Audit.{record_event, record_atomic, payload_of, publish}
use nbes_backend.Transaction.{◌>>◌, >>_ok}
use nbes_backend.ItemBank.Model.{User}
use nbes_backend.PaperBank.Checks.{Settings}
use nbes_backend.PaperBank.Construct.{
  Context, Bank, audit_paper, log_vault_reads, record_usages, create_paper,
}
use nbes_backend.PaperBank.Draw.{RuleData, Draw, pool_of, draw_paper}
use nbes_backend.PaperBank.Generate.{
  number_variants, variant_items, generated, generated_state, generate_paper_rule_based,
}
use nbes_backend.PaperBank.Manual.{Written, Grown, usages_grow, reads_grow}

module _ (env : Env) (user : User) (c : Context) where
  row_grows :
      (id : ℕ) (new_state : Dict) (b : Bank)
      → (b' : Bank) × (audit_paper env user "PAPER_GENERATED" "paper" id none new_state none b
          ≡ ok (tt, b'))
        × Grown 0 0 1 b b'
  unfolding audit_paper record_event record_atomic payload_of publish
  row_grows id new_state b = (
    _,
    refl,
    record {
      papers = refl;
      items = refl;
      used = omega arith;
      accessed = omega arith;
      recorded = omega arith;
    },
  )

  -- Where the selections for a paper and its variants are made, the generation returns: the paper is
  -- written with the identifiers of its items and those of the variants, numbered from 2, with a usage
  -- and an access for each item, and an audit row for each access and for the paper.
  pub generate_writes :
      (settings : Settings) (d : RuleData) (p : Draw) (vs : List Draw) (b : Bank)
      → draw_paper settings d (pool_of settings d b.items b.usages) ≡ ok (p, vs)
      → (b' : Bank) × (generate_paper_rule_based env settings user c d b ≡ ok (tt, b'))
        × Written
            (length (
              p.items
              ++ variant_items (pool_of settings d b.items b.usages) (number_variants 2 vs)))
            (let q = generated d p vs in record q { id = b.trail.fresh })
            b
            b'
  unfolding generate_paper_rule_based create_paper
  generate_writes settings d p vs b h =
      let items =
        p.items ++ variant_items (pool_of settings d b.items b.usages) (number_variants 2 vs) in
      let q = generated d p vs in
      let t = b.trail in
      let b1 : Bank = record b {
        papers = record q { id = t.fresh } ∷ b.papers;
        trail = record t { fresh = t.fresh + 1 };
      } in
      let (b2, e, g) = usages_grow d.sitting_ref items b1 in
      let (b3, f, k) = reads_grow env user c items b2 in
      let (b4, x, y) = row_grows t.fresh (generated_state env d p vs) b3 in
      let reads = log_vault_reads env user c items in
      let writes =
        audit_paper env user "PAPER_GENERATED" "paper" t.fresh none (generated_state env d p vs)
          none in
      let run =
        >>_ok (record_usages d.sitting_ref items) (reads >> writes) b1 b2 e
          (>>_ok reads writes b2 b3 f x) in
      (
        b4,
        rw h run,
        record {
          papers = y.papers ∙ k.papers ∙ g.papers;
          items = y.items ∙ k.items ∙ g.items;
          usages = omega (arith, g.used, k.used, y.used);
          accesses = omega (arith, g.accessed, k.accessed, y.accessed);
          events = omega (arith, g.recorded, k.recorded, y.recorded);
        },
      )
