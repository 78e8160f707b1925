-- ===== src/PaperBank/Variants.antt =====
-- A generated paper and its variants: what each selection satisfies, and that they share no item.
use nbes_backend.Base.{
  ℕ, suc, zero, ◌+◌, ◌-◌, ◌==◌, ◌≤◌, ◌≡◌, refl, inl, inr, String, Bool, true, false, List, [], ◌∷◌,
  ◌++◌, map, arith, ◌-ℤ◌, ◌≤ℤ◌, ltb_ℤ, ok, if◌then◌else◌, Option-cases, Bool-cases, Result-cases,
  ap, sym, subst, leb, leb→le,
}
use nbes_backend.ItemBank.Model.{Item}
use nbes_backend.PaperBank.Select.{Candidate, Selection, amount, targets, candidate_of}
use nbes_backend.PaperBank.Checks.{Settings, total_time, validate_blueprint, is_listed}
use nbes_backend.PaperBank.Coverage.{gathered, of_difficulty, of_topic, select_items_covers}
use nbes_backend.PaperBank.Choice.{count, offered, select_items-offered}
use nbes_backend.PaperBank.Draw.{
  RuleData, Draw, drawn, ids_of, selection, check_primary, check_variant, draw_variants, draw_paper,
}

append_nil : (ids : List ℕ) → ids ++ [] ≡ ids
append_nil [] = refl
append_nil (i ∷ rest) = ap (λ l. i ∷ l) (append_nil rest)

-- How often an item stands in a list, by its identifier, and in some selections.
unfoldable pub times : ℕ → List Item → ℕ
times id [] = 0
times id (i ∷ rest) = (if i.id == id then 1 else 0) + times id rest

unfoldable pub times_in : ℕ → List Draw → ℕ
unfolding times
times_in id [] = 0
times_in id (v ∷ vs) = times id v.items + times_in id vs

abbrev has_id : ℕ → Candidate → Bool
has_id id c = let i = c.item in i.id == id

times-selected :
    (id : ℕ) (cs : List Candidate)
    → times id (map (λ (c : Candidate). c.item) cs) ≡ count (has_id id) cs
unfolding times count
times-selected id [] = refl
times-selected id (c ∷ cs) = omega (arith, times-selected id cs)

offered_once :
    (id : ℕ) (used : List ℕ) (pool : List Item) → offered (has_id id) used pool ≤ times id pool
unfolding offered times
offered_once id used [] = omega arith
offered_once id used (i ∷ rest) = elim (Option-cases (candidate_of i)) [
  | inl e ↦ ground (arith, offered_once id used rest)
  | inr (c, e) ↦ ground (arith, offered_once id used rest)
]

offered_used :
    (id : ℕ) (used : List ℕ) (pool : List Item)
    → is_listed id used ≡ true
    → offered (has_id id) used pool ≡ 0
unfolding offered
offered_used id used [] h = refl
offered_used id used (i ∷ rest) h = elim (Option-cases (candidate_of i)) [
  | inl e ↦ ground (arith, offered_used id used rest h)
  | inr (c, e) ↦ elim (Bool-cases (i.id == id)) [
    | inl q ↦
        let k : i.id ≡ id = ground arith in
        ground (arith, offered_used id used rest h, subst (λ x. is_listed x used ≡ true) (sym k) h)
    | inr q ↦ ground (arith, offered_used id used rest h)
  ]
]

is_listed-ids :
    (id : ℕ) (items : List Item) (used : List ℕ)
    → 1 ≤ times id items
    → is_listed id (ids_of items ++ used) ≡ true
unfolding times
is_listed-ids id [] used h = absurd (omega (arith, h))
is_listed-ids id (i ∷ rest) used h = ground (arith, is_listed-ids id rest used)

is_listed-more :
    (id : ℕ) (items : List Item) (used : List ℕ)
    → is_listed id used ≡ true
    → is_listed id (ids_of items ++ used) ≡ true
is_listed-more id [] used h = h
is_listed-more id (i ∷ rest) used h = ground (arith, is_listed-more id rest used h)

module _ (settings : Settings) (d : RuleData) (pool : List Item) where
  -- What a selection for a paper satisfies, made when some items are used.
  pub record IsDraw (used : List ℕ) (v : Draw) : Type 0 where
    pub choice : Selection
    pub chosen : selection settings d pool used ≡ (choice, false)
    pub is_it : v ≡ drawn choice
    pub difficulties :
        (k : String)
        → amount k (targets d.total_marks d.difficulty_distribution)
          ≤ℤ gathered (of_difficulty k) choice.selected
    pub topics :
        (k : String)
        → amount k (targets d.total_marks d.topic_coverage) ≤ℤ gathered (of_topic k) choice.selected
    pub not_above : v.marks -ℤ d.total_marks ≤ℤ settings.tolerance
    pub not_below : d.total_marks -ℤ v.marks ≤ℤ settings.tolerance
    pub in_time : total_time v.items ≤ℤ d.time_limit
    pub covering : validate_blueprint settings v.items d.blueprint_ref d.total_marks ≡ ok tt

  -- The same for some selections one after another, each with the items before it used.
  unfoldable pub AreDraws : List ℕ → List Draw → Type 0
  AreDraws used [] = Unit
  AreDraws used (v ∷ vs) = IsDraw used v × AreDraws (ids_of v.items ++ used) vs

  drawn-IsDraw :
      (used : List ℕ) (s : Selection)
      → selection settings d pool used ≡ (s, false)
      → ltb_ℤ settings.tolerance (s.selected_marks -ℤ d.total_marks) ≡ false
      → ltb_ℤ settings.tolerance (d.total_marks -ℤ s.selected_marks) ≡ false
      → ltb_ℤ d.time_limit (total_time (drawn s).items) ≡ false
      → validate_blueprint settings (drawn s).items d.blueprint_ref d.total_marks ≡ ok tt
      → IsDraw used (drawn s)
  drawn-IsDraw used s e a b t c =
      let f =
        select_items_covers pool d.difficulty_distribution d.topic_coverage d.total_marks used
          {s = s} e in
      record {
        choice = s;
        chosen = e;
        is_it = refl;
        difficulties = f.0;
        topics = f.1;
        not_above = ground (arith, a);
        not_below = ground (arith, b);
        in_time = ground (arith, t);
        covering = c;
      }

  -- What both checks of a selection leave.
  abbrev Checked : Selection × Bool → Draw → Type 0
  Checked q v =
      (q.1 ≡ false)
      × (v ≡ drawn q.0)
      × (ltb_ℤ settings.tolerance (q.0.selected_marks -ℤ d.total_marks) ≡ false)
      × (ltb_ℤ settings.tolerance (d.total_marks -ℤ q.0.selected_marks) ≡ false)
      × (ltb_ℤ d.time_limit (total_time (drawn q.0).items) ≡ false)
      × (validate_blueprint settings (drawn q.0).items d.blueprint_ref d.total_marks ≡ ok tt)

  primary-Checked :
      (s : Selection) (b : Bool) (v : Draw)
      → check_primary settings d pool (s, b) ≡ ok v
      → Checked (s, b) v
  unfolding check_primary
  primary-Checked s true v h = ground arith
  primary-Checked s false v h = ground arith

  variant-Checked :
      (s : Selection) (b : Bool) (v : Draw)
      → check_variant settings d pool (s, b) ≡ ok v
      → Checked (s, b) v
  unfolding check_variant
  variant-Checked s true v h = ground arith
  variant-Checked s false v h = ground arith

  Checked-IsDraw :
      (used : List ℕ) (v : Draw) → Checked (selection settings d pool used) v → IsDraw used v
  Checked-IsDraw used v c =
      let q = selection settings d pool used in
      let e : q ≡ (q.0, false) = ap (λ b. (q.0, b)) c.0 in
      subst (IsDraw used) (sym c.1) (drawn-IsDraw used q.0 e c.2 c.3 c.4 c.5)

  -- No more of an item is drawn than the pool has, and none of a used one.
  draw_times :
      (id : ℕ) (used : List ℕ) (v : Draw)
      → IsDraw used v
      → times id v.items ≤ offered (has_id id) used pool
  draw_times id used v h = rw h.is_it (
      omega (
        arith,
        times-selected id h.choice.selected,
        subst (λ q. count (has_id id) q.0.selected ≤ offered (has_id id) used pool) h.chosen
            (select_items-offered (has_id id) pool d.difficulty_distribution d.topic_coverage
              d.total_marks used),
      ))

  variants-AreDraws :
      (n : ℕ) (used : List ℕ) (vs : List Draw)
      → draw_variants settings d pool n used ≡ ok vs
      → AreDraws used vs
  unfolding draw_variants AreDraws
  variants-AreDraws zero used vs h = ground arith
  variants-AreDraws (suc n) used vs h =
      let q = selection settings d pool used in
      elim (Result-cases (check_variant settings d pool q)) [
        | inr (x, e) ↦ ground arith
        | inl (v, e) ↦
            elim (Result-cases (draw_variants settings d pool n (ids_of v.items ++ used))) [
              | inr (x, f) ↦ ground arith
              | inl (rest, f) ↦
                  let k : v ∷ rest ≡ vs = ground arith in
                  subst (AreDraws used) k (
                    Checked-IsDraw used v (variant-Checked q.0 q.1 v e),
                    variants-AreDraws n (ids_of v.items ++ used) rest f,
                  )
            ]
      ]

  draws_used :
      (id : ℕ) (used : List ℕ) (vs : List Draw)
      → AreDraws used vs
      → is_listed id used ≡ true
      → times_in id vs ≡ 0
  unfolding AreDraws times_in
  draws_used id used [] h l = refl
  draws_used id used (v ∷ vs) h l = omega (
    arith,
    draw_times id used v h.0,
    offered_used id used pool l,
    draws_used id (ids_of v.items ++ used) vs h.1 (is_listed-more id v.items used l),
  )

  draws_once :
      (id : ℕ) (used : List ℕ) (vs : List Draw) → AreDraws used vs → times_in id vs ≤ times id pool
  unfolding AreDraws times_in
  draws_once id used [] h = omega arith
  draws_once id used (v ∷ vs) h =
      let a = draw_times id used v h.0 in
      let b = offered_once id used pool in
      elim (Bool-cases (leb 1 (times id v.items))) [
        | inl e ↦ omega (
          arith,
          a,
          b,
          draws_used id (ids_of v.items ++ used) vs h.1
              (is_listed-ids id v.items used (leb→le 1 (times id v.items) e)),
        )
        | inr e ↦
            let z : times id v.items ≡ 0 = ground arith in
            omega (arith, z, draws_once id (ids_of v.items ++ used) vs h.1)
      ]

  -- A generated paper and its variants are selections without an error, each of what the ones before
  -- it left, that cover the shares of every difficulty and topic, stay within the tolerance of the
  -- total and within the time, and cover the blueprint; and all together they use no item more often
  -- than it stands in the pool.
  pub draw_paper-AreDraws :
      (p : Draw) (vs : List Draw)
      → draw_paper settings d pool ≡ ok (p, vs)
      → AreDraws [] (p ∷ vs) × ((id : ℕ) → times_in id (p ∷ vs) ≤ times id pool)
  unfolding draw_paper AreDraws
  draw_paper-AreDraws p vs h =
      let q = selection settings d pool [] in
      let e : check_primary settings d pool q ≡ ok p = ground arith in
      let f : draw_variants settings d pool (d.variants_count - 1) (ids_of p.items) ≡ ok vs =
        ground arith in
      let one = Checked-IsDraw [] p (primary-Checked q.0 q.1 p e) in
      let rest : AreDraws (ids_of p.items ++ []) vs =
        subst (λ l. AreDraws l vs) (sym (append_nil (ids_of p.items)))
          (variants-AreDraws (d.variants_count - 1) (ids_of p.items) vs f) in
      ((one, rest), λ id. draws_once id [] (p ∷ vs) (one, rest))
