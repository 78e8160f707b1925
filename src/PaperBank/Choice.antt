-- ===== src/PaperBank/Choice.antt =====
-- Which items are selected: each one that the pool offers once at most, and none that is excluded.
use nbes_backend.Base.{
  ℕ, zero, suc, ◌+◌, ◌≤◌, ◌≡◌, refl, inl, inr, String, Bool, false, not, ◌&&◌, none, some, List, [],
  ◌∷◌, ◌++◌, arith, length, ℤ, Option-cases, if◌then◌else◌,
}
use nbes_backend.ItemBank.Model.{Item}
use nbes_backend.PaperBank.Select.{
  Candidate, Bucket, Selection, add_to_bucket, file_item, fill_buckets, insert, sort, sort_buckets,
  choose, pop, take, select_loop, start_selection, select_items, candidate_of, is_excluded,
}
use nbes_backend.PaperBank.Progress.{loop_stop, loop_take}

module _ (p : Candidate → Bool) where
  -- How many candidates pass the test `p`: in a list, in the buckets, and in the pool apart from the
  -- excluded ones.
  unfoldable pub count : List Candidate → ℕ
  count [] = 0
  count (c ∷ cs) = (if p c then 1 else 0) + count cs

  unfoldable count_in : List Bucket → ℕ
  count_in [] = 0
  count_in (b ∷ bs) = count b.items + count_in bs

  abbrev counts : List ℕ → Item → Bool
  counts excluded i = elim (candidate_of i) [
    | none ↦ false
    | some c ↦ not (is_excluded i.id excluded) && p c
  ]

  unfoldable pub offered : List ℕ → List Item → ℕ
  offered excluded [] = 0
  offered excluded (i ∷ rest) = (if counts excluded i then 1 else 0) + offered excluded rest

  count-append :
      (cs : List Candidate) (c : Candidate)
      → count (cs ++ (c ∷ [])) ≡ count cs + (if p c then 1 else 0)
  unfolding count
  count-append [] c = omega arith
  count-append (d ∷ ds) c = omega (arith, count-append ds c)

  count-insert :
      (c : Candidate) (cs : List Candidate)
      → count (insert c cs) ≡ (if p c then 1 else 0) + count cs
  unfolding count insert
  count-insert c [] = refl
  count-insert c (d ∷ ds) = ground (arith, count-insert c ds)

  count-sort : (cs : List Candidate) → count (sort cs) ≡ count cs
  unfolding count sort
  count-sort [] = refl
  count-sort (c ∷ cs) = omega (arith, count-insert c (sort cs), count-sort cs)

  count_in-add :
      (c : Candidate) (bs : List Bucket)
      → count_in (add_to_bucket c bs) ≡ (if p c then 1 else 0) + count_in bs
  unfolding count count_in add_to_bucket
  count_in-add c [] = omega arith
  count_in-add c (b ∷ bs) = ground (arith, count_in-add c bs, count-append b.items c)

  count_in-sort : (bs : List Bucket) → count_in (sort_buckets bs) ≡ count_in bs
  unfolding count_in sort_buckets
  count_in-sort [] = refl
  count_in-sort (b ∷ bs) = omega (arith, count-sort b.items, count_in-sort bs)

  module _ (difficulties topics : List (String × ℕ)) (excluded : List ℕ) where
    count_in-file :
        (i : Item) (bs : List Bucket)
        → count_in (file_item difficulties topics excluded i bs)
          ≤ (if counts excluded i then 1 else 0) + count_in bs
    count_in-file i bs = elim (Option-cases (candidate_of i)) [
      | inl e ↦ ground arith
      | inr (c, e) ↦ ground (arith, count_in-add c bs)
    ]

    count_in-fill :
        (pool : List Item) (bs : List Bucket)
        → count_in (fill_buckets difficulties topics excluded pool bs)
          ≤ offered excluded pool + count_in bs
    unfolding fill_buckets offered
    count_in-fill [] bs = omega arith
    count_in-fill (i ∷ rest) bs = omega (
      arith,
      count_in-file i bs,
      count_in-fill rest (file_item difficulties topics excluded i bs),
    )

  count_in-pop :
      (key : String × String) (bs : List Bucket) {c : Candidate} {rest : List Bucket}
      → pop key bs ≡ some (c, rest)
      → count_in bs ≡ (if p c then 1 else 0) + count_in rest
  unfolding count count_in pop
  count_in-pop key [] h = ground arith
  count_in-pop key (b ∷ bs) {c} {rest} h = elim (Option-cases (pop key bs)) [
    | inl e ↦ ground arith
    | inr ((d, bs'), e) ↦ ground (arith, count_in-pop key bs {c = d} {rest = bs'} e)
  ]

  -- A round moves one candidate from the buckets to the selection.
  loop_count :
      (fuel : ℕ) (s : Selection)
      → count (select_loop fuel s).selected + count_in (select_loop fuel s).buckets
        ≡ count s.selected + count_in s.buckets
  unfolding select_loop
  loop_count zero s = refl
  loop_count (suc fuel) s = elim (Option-cases (choose s)) [
    | inl e ↦ rw (loop_stop fuel s e) refl
    | inr (key, e) ↦ elim (Option-cases (pop key s.buckets)) [
      | inl q ↦ ground arith
      | inr ((c, bs), q) ↦ rw (loop_take fuel s key c bs e q) (
          omega (
            arith,
            loop_count fuel (take key c bs s),
            count-append s.selected c,
            count_in-pop key s.buckets {c = c} {rest = bs} q,
          ))
    ]
  ]

  -- Whatever the candidates are counted by, no more are selected than the pool offers apart from the
  -- excluded items: an item is selected only from the pool, as often as it stands there at most, and
  -- never where it is excluded.
  pub select_items-offered :
      (pool : List Item) (difficulties topics : List (String × ℕ)) (total : ℤ) (excluded : List ℕ)
      → count (select_items pool difficulties topics total excluded).0.selected
        ≤ offered excluded pool
  unfolding select_items start_selection count count_in
  select_items-offered pool difficulties topics total excluded = omega (
    arith,
    loop_count (length pool) (start_selection pool difficulties topics total excluded),
    count_in-sort (fill_buckets difficulties topics excluded pool []),
    count_in-fill difficulties topics excluded pool [],
  )
