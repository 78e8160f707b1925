-- ===== src/PaperBank/Draw.antt =====
-- The selections of `generate_paper_rule_based` in apps/itembank/services.py: the pool, the primary
-- items, and the items of each variant.
use nbes_backend.Base.{
  ℕ, suc, zero, ◌+◌, ◌-◌, ◌==◌, String, Bool, true, false, not, ◌&&◌, ◌||◌, List, [], ◌∷◌, ◌++◌,
  map, select, ℤ, ltb_ℤ, ◌-ℤ◌, Result, ok, err, if◌then◌else◌,
}
use nbes_backend.ItemBank.Model.{Item}
use nbes_backend.PaperBank.Select.{Candidate, Selection, select_items}
use nbes_backend.PaperBank.Checks.{
  Settings, PaperError, wrong_distribution, cannot_meet_constraints, off_target,
  variant_cannot_be_met, variant_off_target, validate_time_allocation, validate_blueprint,
  is_listed, ItemUsage, cooled_down_items,
}
use nbes_backend.PaperBank.Construct.{is_locked_for_use, has_subject}

-- Percentages are whole numbers.
pub record RuleData : Type 0 where
  pub sitting_ref : String
  pub subject : String
  pub mode : String
  pub total_marks : ℤ
  pub time_limit : ℤ
  pub difficulty_distribution : List (String × ℕ)
  pub topic_coverage : List (String × ℕ)
  pub blueprint_ref : String
  pub variants_count : ℕ

-- The items of one selection, with the marks that it reports.
pub record Draw : Type 0 where
  pub items : List Item
  pub marks : ℤ

unfoldable pub percentages : List (String × ℕ) → ℕ
percentages [] = 0
percentages ((k, p) ∷ d) = p + percentages d

-- The items of the subject that are locked for use and not cooling down.
unfoldable pub pool_of : Settings → RuleData → List Item → List ItemUsage → List Item
unfolding cooled_down_items
pool_of settings d items usages =
    let cooled = cooled_down_items settings d.sitting_ref usages in
    select
      (λ (i : Item).
        has_subject d.subject i && (is_locked_for_use i.status && not (is_listed i.id cooled)))
      items

-- `abs(marks - total) > tolerance`
abbrev pub is_off : ℤ → ℤ → ℤ → Bool
is_off marks total tolerance = ltb_ℤ tolerance (marks -ℤ total) || ltb_ℤ tolerance (total -ℤ marks)

abbrev pub drawn : Selection → Draw
drawn s = record { items = map (λ (c : Candidate). c.item) s.selected; marks = s.selected_marks }

abbrev pub ids_of : List Item → List ℕ
ids_of items = map (λ (i : Item). i.id) items

module _ (settings : Settings) (d : RuleData) (pool : List Item) where
  abbrev pub selection : List ℕ → Selection × Bool
  selection used = select_items pool d.difficulty_distribution d.topic_coverage d.total_marks used

  -- The checks on the primary items, and those on a variant's, in their orders.
  unfoldable pub check_primary : Selection × Bool → Result PaperError Draw
  unfolding validate_blueprint
  check_primary (s, true) = err cannot_meet_constraints
  check_primary (s, false) =
      elim (validate_blueprint settings (drawn s).items d.blueprint_ref d.total_marks) [
        | err e ↦ err e
        | ok _ ↦ elim (validate_time_allocation (drawn s).items d.time_limit) [
          | err e ↦ err e
          | ok _ ↦
              if is_off s.selected_marks d.total_marks settings.tolerance
              then err off_target
              else ok (drawn s)
        ]
      ]

  unfoldable pub check_variant : Selection × Bool → Result PaperError Draw
  unfolding validate_blueprint
  check_variant (s, true) = err variant_cannot_be_met
  check_variant (s, false) =
      if is_off s.selected_marks d.total_marks settings.tolerance
      then err variant_off_target
      else elim (validate_blueprint settings (drawn s).items d.blueprint_ref d.total_marks) [
        | err e ↦ err e
        | ok _ ↦ elim (validate_time_allocation (drawn s).items d.time_limit) [
          | err e ↦ err e
          | ok _ ↦ ok (drawn s)
        ]
      ]

  abbrev in_front : Draw → Result PaperError (List Draw) → Result PaperError (List Draw)
  in_front v (ok vs) = ok (v ∷ vs)
  in_front v (err e) = err e

  -- The loop over the variants, with the identifiers that are used.
  unfoldable pub draw_variants : ℕ → List ℕ → Result PaperError (List Draw)
  unfolding check_variant
  draw_variants zero used = ok []
  draw_variants (suc n) used = elim (check_variant (selection used)) [
    | err e ↦ err e
    | ok v ↦ in_front v (draw_variants n (ids_of v.items ++ used))
  ]

  -- The primary items, and a variant for each of the further ones asked for.
  unfoldable pub draw_paper : Result PaperError (Draw × List Draw)
  unfolding percentages check_primary draw_variants
  draw_paper =
      if not (percentages d.difficulty_distribution == 100)
        || not (percentages d.topic_coverage == 100)
      then err wrong_distribution
      else elim (check_primary (selection [])) [
        | err e ↦ err e
        | ok p ↦ elim (draw_variants (d.variants_count - 1) (ids_of p.items)) [
          | err e ↦ err e
          | ok vs ↦ ok (p, vs)
        ]
      ]
