-- ===== src/PaperBank/Coverage.antt =====
-- What the selection covers, where it reports no error.
use nbes_backend.Base.{
  ℕ, zero, suc, ◌≡◌, ◌≢◌, refl, inl, inr, String, Bool, true, false, some, List, [], ◌∷◌, ◌++◌,
  arith, str_eq, length, ℤ, pos, ltb_ℤ, ◌+ℤ◌, ◌-ℤ◌, ◌≤ℤ◌, +ℤ_parts, -ℤ_parts, zero_+ℤ, +ℤ_zero,
  +ℤ_assoc, ap, sym, ◌∙◌, Option-cases, Bool-cases, eq_iff, subst, ◌⊎◌, All, not, ◌&&◌,
  if◌then◌else◌,
}
use nbes_backend.ItemBank.Model.{Item}
use nbes_backend.PaperBank.Select.{
  Candidate, Bucket, Amounts, amount, set_amount, reduce, targets, non_negative, is_short,
  Selection, add_to_bucket, file_item, fill_buckets, insert, sort, sort_buckets, choose, pop, take,
  select_loop, start_selection, select_items, candidate_of, is_excluded, has_key,
}
use nbes_backend.PaperBank.Progress.{loop_stop, loop_none, loop_take}

-- The marks of the candidates that pass the test.
unfoldable pub gathered : (Candidate → Bool) → List Candidate → ℤ
gathered p [] = pos 0
gathered p (c ∷ cs) = (if p c then c.marks else pos 0) +ℤ gathered p cs

abbrev pub of_difficulty : String → Candidate → Bool
of_difficulty d c = str_eq c.difficulty d

abbrev pub of_topic : String → Candidate → Bool
of_topic t c = str_eq c.topic t

gathered-append :
    (p : Candidate → Bool) (cs : List Candidate) (c : Candidate)
    → gathered p (cs ++ (c ∷ [])) ≡ gathered p cs +ℤ (if p c then c.marks else pos 0)
unfolding gathered
gathered-append p [] c = let m = if p c then c.marks else pos 0 in +ℤ_zero m ∙ sym (zero_+ℤ m)
gathered-append p (d ∷ ds) c =
    let k = if p d then d.marks else pos 0 in
    ap (λ x. k +ℤ x) (gathered-append p ds c)
    ∙ sym (+ℤ_assoc k (gathered p ds) (if p c then c.marks else pos 0))

amount-set_same : (k : String) (a : ℤ) (d : Amounts) → amount k (set_amount k a d) ≡ a
unfolding amount set_amount
amount-set_same k a [] = let e = (eq_iff k k).1 refl in ground (arith, e)
amount-set_same k a ((j, b) ∷ d) = ground (arith, amount-set_same k a d)

amount-set_other :
    (j k : String) (a : ℤ) (d : Amounts) → k ≢ j → amount j (set_amount k a d) ≡ amount j d
unfolding amount set_amount
amount-set_other j k a [] n = let e = (eq_iff k j).0 in ground (arith, e)
amount-set_other j k a ((i, b) ∷ d) n =
    let e = eq_iff i k in let f = eq_iff i j in ground (arith, e.0, f.0, amount-set_other j k a d n)

unshort : (k : String) (d : Amounts) → is_short d ≡ false → amount k d ≤ℤ pos 0
unfolding amount
unshort k [] h = omega arith
unshort k ((j, a) ∷ d) h = ground (arith, unshort k d)

-- Every candidate stands in the bucket of its difficulty and its topic.
abbrev Fits : Bucket → Candidate → Type 0
Fits b c = (c.difficulty ≡ b.difficulty) × (c.topic ≡ b.topic)

unfoldable Filed : List Bucket → Type 0
Filed [] = Unit
Filed (b ∷ bs) = All (Fits b) b.items × Filed bs

module _ (P : Candidate → Type 0) where
  insert-All : (c : Candidate) (cs : List Candidate) → P c → All P cs → All P (insert c cs)
  unfolding insert
  insert-All c [] h k = (h, tt)
  insert-All c (d ∷ ds) h k = elim (Bool-cases (ltb_ℤ c.marks d.marks)) [
    | inl e ↦ rw e (k.0, insert-All c ds h k.1)
    | inr e ↦ rw e (h, k)
  ]

  sort-All : (cs : List Candidate) → All P cs → All P (sort cs)
  unfolding sort
  sort-All [] k = tt
  sort-All (c ∷ cs) k = insert-All c (sort cs) k.0 (sort-All cs k.1)

  append-All : (cs : List Candidate) (c : Candidate) → All P cs → P c → All P (cs ++ (c ∷ []))
  append-All [] c k h = (h, tt)
  append-All (d ∷ ds) c k h = (k.0, append-All ds c k.1 h)

add-Filed : (c : Candidate) (bs : List Bucket) → Filed bs → Filed (add_to_bucket c bs)
unfolding Filed add_to_bucket
add-Filed c [] h = (((refl, refl), tt), tt)
add-Filed c (b ∷ bs) h =
    elim (Bool-cases (str_eq b.difficulty c.difficulty && str_eq b.topic c.topic)) [
      | inl e ↦
          let f : Fits b c = (
            sym ((eq_iff b.difficulty c.difficulty).0 (ground arith)),
            sym ((eq_iff b.topic c.topic).0 (ground arith)),
          ) in
          rw e (append-All (Fits b) b.items c h.0 f, h.1)
      | inr e ↦ rw e (h.0, add-Filed c bs h.1)
    ]

module _ (difficulties topics : List (String × ℕ)) (excluded : List ℕ) where
  file_item-cases :
      (i : Item) (bs : List Bucket)
      → (file_item difficulties topics excluded i bs ≡ bs)
        ⊎ ((c : Candidate) × (file_item difficulties topics excluded i bs ≡ add_to_bucket c bs))
  file_item-cases i bs = elim (Option-cases (candidate_of i)) [
    | inl e ↦ inl (ground arith)
    | inr (c, e) ↦
        let t =
          not (is_excluded i.id excluded)
          && (has_key c.difficulty difficulties && has_key c.topic topics) in
        elim (Bool-cases t) [ inl q ↦ inr (c, ground arith) | inr q ↦ inl (ground arith) ]
  ]

  fill-Filed :
      (pool : List Item) (bs : List Bucket)
      → Filed bs
      → Filed (fill_buckets difficulties topics excluded pool bs)
  unfolding fill_buckets
  fill-Filed [] bs h = h
  fill-Filed (i ∷ rest) bs h =
      fill-Filed rest (file_item difficulties topics excluded i bs) (elim (file_item-cases i bs) [
        | inl e ↦ subst Filed (sym e) h
        | inr (c, e) ↦ subst Filed (sym e) (add-Filed c bs h)
      ])

sort-Filed : (bs : List Bucket) → Filed bs → Filed (sort_buckets bs)
unfolding Filed sort_buckets
sort-Filed [] h = tt
sort-Filed (b ∷ bs) h = (sort-All (Fits b) b.items h.0, sort-Filed bs h.1)

pop-Filed :
    (key : String × String) (bs : List Bucket) {c : Candidate} {rest : List Bucket}
    → pop key bs ≡ some (c, rest)
    → Filed bs
    → (c.difficulty ≡ key.0) × (c.topic ≡ key.1) × Filed rest
unfolding Filed pop
pop-Filed key [] e h = ground arith
pop-Filed key (b ∷ bs) {c} {rest} e h =
    let d = (eq_iff b.difficulty key.0).0 in
    let t = (eq_iff b.topic key.1).0 in
    elim (Option-cases (pop key bs)) [
      | inl q ↦ ground (arith, d, t)
      | inr ((x, bs'), q) ↦ ground (arith, d, t, pop-Filed key bs {c = x} {rest = bs'} q)
    ]

-- What the loop keeps: requirements are at least what the selection leaves of the targets.
record IsCovering (by_difficulty by_topic : Amounts) (s : Selection) : Type 0 where
  filed : Filed s.buckets
  difficulty_left :
      (k : String)
      → amount k by_difficulty ≤ℤ amount k s.by_difficulty +ℤ gathered (of_difficulty k) s.selected
  topic_left :
      (k : String) → amount k by_topic ≤ℤ amount k s.by_topic +ℤ gathered (of_topic k) s.selected
  summed : s.selected_marks ≡ gathered (λ c. true) s.selected

non_negative_le : (a : ℤ) → a ≤ℤ non_negative a
non_negative_le a = ground arith

-- One name's requirement after an item of `marks` under the name `j`.
reduce_left :
    (j k : String) (marks target g : ℤ) (d : Amounts)
    → target ≤ℤ amount k d +ℤ g
    → target ≤ℤ amount k (reduce j marks d) +ℤ (g +ℤ (if str_eq j k then marks else pos 0))
reduce_left j k marks target g d h = elim (Bool-cases (str_eq j k)) [
  | inl e ↦
      let q : j ≡ k = (eq_iff j k).0 e in
      let n = non_negative (amount j d -ℤ marks) in
      rw (e, sym q, amount-set_same j n d)
        (omega (
          arith,
          subst (λ x. target ≤ℤ amount x d +ℤ g) (sym q) h,
          +ℤ_parts (amount j d) g,
          +ℤ_parts g marks,
          +ℤ_parts n (g +ℤ marks),
          non_negative_le (amount j d -ℤ marks),
          -ℤ_parts (amount j d) marks,
        ))
  | inr e ↦
      let q =
        amount-set_other k j (non_negative (amount j d -ℤ marks)) d
          (λ r. cc (e, (eq_iff j k).1 r)) in
      rw (e, q, +ℤ_zero g) h
]

module _ (by_difficulty by_topic : Amounts) where
  take-IsCovering :
      (key : String × String) (c : Candidate) (bs : List Bucket) (s : Selection)
      → pop key s.buckets ≡ some (c, bs)
      → IsCovering by_difficulty by_topic s
      → IsCovering by_difficulty by_topic (take key c bs s)
  take-IsCovering key c bs s e h =
      let f = pop-Filed key s.buckets {c = c} {rest = bs} e h.filed in
      record {
        filed = f.2;
        difficulty_left = λ k.
            rw (gathered-append (of_difficulty k) s.selected c, f.0)
              (reduce_left key.0 k c.marks (amount k by_difficulty)
                (gathered (of_difficulty k) s.selected) s.by_difficulty (h.difficulty_left k));
        topic_left = λ k.
            rw (gathered-append (of_topic k) s.selected c, f.1)
              (reduce_left key.1 k c.marks (amount k by_topic) (gathered (of_topic k) s.selected)
                s.by_topic (h.topic_left k));
        summed = ap (λ x. x +ℤ c.marks) h.summed ∙ sym (gathered-append (λ c. true) s.selected c);
      }

  loop-IsCovering :
      (fuel : ℕ) (s : Selection)
      → IsCovering by_difficulty by_topic s
      → IsCovering by_difficulty by_topic (select_loop fuel s)
  unfolding select_loop
  loop-IsCovering zero s h = h
  loop-IsCovering (suc fuel) s h = elim (Option-cases (choose s)) [
    | inl e ↦ rw (loop_stop fuel s e) h
    | inr (key, e) ↦ elim (Option-cases (pop key s.buckets)) [
      | inl q ↦ rw (loop_none fuel s key e q) h
      | inr ((c, bs), q) ↦
          rw (loop_take fuel s key c bs e q)
            (loop-IsCovering fuel (take key c bs s) (take-IsCovering key c bs s q h))
    ]
  ]

start-IsCovering :
    (pool : List Item) (difficulties topics : List (String × ℕ)) (total : ℤ) (excluded : List ℕ)
    → IsCovering
        (targets total difficulties)
        (targets total topics)
        (start_selection pool difficulties topics total excluded)
unfolding start_selection gathered Filed
start-IsCovering pool difficulties topics total excluded = record {
  filed =
      sort-Filed (fill_buckets difficulties topics excluded pool [])
        (fill-Filed difficulties topics excluded pool [] tt);
  difficulty_left = λ k. rw (+ℤ_zero (amount k (targets total difficulties))) (omega arith);
  topic_left = λ k. rw (+ℤ_zero (amount k (targets total topics))) (omega arith);
  summed = refl;
}

-- A selection without an error has, for every difficulty and for every topic, marks of its items that
-- reach the target, the share of the total that the distribution gives to that name; and the marks
-- that it reports are those of all its items.
pub select_items_covers :
    (pool : List Item) (difficulties topics : List (String × ℕ)) (total : ℤ) (excluded : List ℕ)
    {s : Selection}
    → select_items pool difficulties topics total excluded ≡ (s, false)
    → ((k : String)
        → amount k (targets total difficulties) ≤ℤ gathered (of_difficulty k) s.selected)
      × ((k : String) → amount k (targets total topics) ≤ℤ gathered (of_topic k) s.selected)
      × (s.selected_marks ≡ gathered (λ c. true) s.selected)
unfolding select_items
select_items_covers pool difficulties topics total excluded {s} h =
    let start = start_selection pool difficulties topics total excluded in
    let c =
      loop-IsCovering (targets total difficulties) (targets total topics) (length pool) start
        (start-IsCovering pool difficulties topics total excluded) in
    let e : select_loop (length pool) start ≡ s = ap (λ p. p.0) h in
    let i : IsCovering (targets total difficulties) (targets total topics) s =
      subst (IsCovering (targets total difficulties) (targets total topics)) e c in
    let d : is_short s.by_difficulty ≡ false = ground arith in
    let t : is_short s.by_topic ≡ false = ground arith in
    (
      (λ k. omega (
        arith,
        i.difficulty_left k,
        unshort k s.by_difficulty d,
        +ℤ_parts (amount k s.by_difficulty) (gathered (of_difficulty k) s.selected),
      )),
      (λ k. omega (
        arith,
        i.topic_left k,
        unshort k s.by_topic t,
        +ℤ_parts (amount k s.by_topic) (gathered (of_topic k) s.selected),
      )),
      i.summed,
    )
