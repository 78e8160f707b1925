-- ===== src/PaperBank/Progress.antt =====
-- The selection ends: each round takes one item out of the buckets.
use nbes_backend.Base.{
  ℕ, zero, suc, ◌+◌, ◌≤◌, ◌≡◌, ◌≢◌, refl, inl, inr, String, false, Option, none, some, List, [],
  ◌∷◌, arith, length, ℤ, pos, ltb_ℤ, Option-cases, Bool-cases, length-append, eq_iff, ap, ◌⊎◌, not,
  ◌&&◌,
}
use nbes_backend.Python.Text.{is_empty}
use nbes_backend.ItemBank.Model.{Item}
use nbes_backend.PaperBank.Select.{
  Candidate, Bucket, Amounts, score, Selection, add_to_bucket, file_item, fill_buckets, insert,
  sort, sort_buckets, best_from, choose, pop, take, select_loop, start_selection, select_items,
  candidate_of,
}

-- The items in the buckets.
unfoldable pub size : List Bucket → ℕ
size [] = 0
size (b ∷ bs) = length b.items + size bs

module _ (key : String × String) where
  pop-size :
      (bs : List Bucket) {c : Candidate} {rest : List Bucket}
      → pop key bs ≡ some (c, rest)
      → size bs ≡ suc (size rest)
  unfolding pop size
  pop-size [] h = ground arith
  pop-size (b ∷ bs) {c} {rest} h = elim (Option-cases (pop key bs)) [
    | inl e ↦ ground arith
    | inr ((d, bs'), e) ↦ ground (arith, pop-size bs {c = d} {rest = bs'} e)
  ]

size-add : (c : Candidate) (bs : List Bucket) → size (add_to_bucket c bs) ≡ suc (size bs)
unfolding size add_to_bucket
size-add c [] = ground arith
size-add c (b ∷ bs) = ground (arith, size-add c bs, length-append b.items (c ∷ []))

length-insert : (c : Candidate) (cs : List Candidate) → length (insert c cs) ≡ suc (length cs)
unfolding insert
length-insert c [] = refl
length-insert c (d ∷ ds) = ground (arith, length-insert c ds)

length-sort : (cs : List Candidate) → length (sort cs) ≡ length cs
unfolding sort
length-sort [] = refl
length-sort (c ∷ cs) = ground (arith, length-sort cs, length-insert c (sort cs))

size-sort_buckets : (bs : List Bucket) → size (sort_buckets bs) ≡ size bs
unfolding size sort_buckets
size-sort_buckets [] = refl
size-sort_buckets (b ∷ bs) = ground (arith, length-sort b.items, size-sort_buckets bs)

module _ (difficulties topics : List (String × ℕ)) (excluded : List ℕ) where
  size-file_item :
      (i : Item) (bs : List Bucket)
      → size (file_item difficulties topics excluded i bs) ≤ suc (size bs)
  size-file_item i bs = elim (Option-cases (candidate_of i)) [
    | inl e ↦ ground arith
    | inr (c, e) ↦ ground (arith, size-add c bs)
  ]

  size-fill_buckets :
      (pool : List Item) (bs : List Bucket)
      → size (fill_buckets difficulties topics excluded pool bs) ≤ length pool + size bs
  unfolding fill_buckets
  size-fill_buckets [] bs = omega arith
  size-fill_buckets (i ∷ rest) bs = omega (
    arith,
    size-file_item i bs,
    size-fill_buckets rest (file_item difficulties topics excluded i bs),
  )

-- A bucket of that name that has an item.
abbrev HasItem : String × String → List Bucket → Type 0
HasItem key bs = pop key bs ≢ none

module _ (key : String × String) where
  pop-behind : (b : Bucket) (bs : List Bucket) → HasItem key bs → HasItem key (b ∷ bs)
  unfolding pop
  pop-behind b bs h = ground arith

  pop-front :
      (b : Bucket) (bs : List Bucket)
      → is_empty b.items ≡ false
      → key ≡ (b.difficulty, b.topic)
      → HasItem key (b ∷ bs)
  unfolding pop
  pop-front b bs h e =
      let d = (eq_iff b.difficulty key.0).1 in
      let t = (eq_iff b.topic key.1).1 in ground (arith, ap (λ p. p.0) e, ap (λ p. p.1) e, d, t)

module _ (by_difficulty by_topic : Amounts) (key : String × String) where
  best_from-HasItem :
      (best : Option (String × String) × ℤ) (bs : List Bucket)
      → (best_from by_difficulty by_topic best bs).0 ≡ some key
      → (best.0 ≡ some key) ⊎ HasItem key bs
  unfolding best_from
  best_from-HasItem best [] h = inl h
  best_from-HasItem best (b ∷ bs) h =
      let s = score by_difficulty by_topic b in
      elim (Bool-cases (not (is_empty b.items) && ltb_ℤ best.1 s)) [
        | inl e ↦
            elim (best_from-HasItem (some (b.difficulty, b.topic), s) bs (rw (e, best_from) at h)) [
              | inl q ↦ inr (pop-front key b bs (ground (arith, e)) (ground arith))
              | inr q ↦ inr (pop-behind key b bs q)
            ]
        | inr e ↦ elim (best_from-HasItem best bs (rw (e, best_from) at h)) [
          | inl q ↦ inl q
          | inr q ↦ inr (pop-behind key b bs q)
        ]
      ]

choose-HasItem :
    (s : Selection) (key : String × String) → choose s ≡ some key → HasItem key s.buckets
unfolding choose
choose-HasItem s key h =
    let e : (best_from s.by_difficulty s.by_topic (none, pos 0) s.buckets).0 ≡ some key =
      ground arith in
    elim (best_from-HasItem s.by_difficulty s.by_topic key (none, pos 0) s.buckets e) [
      | inl q ↦ ground arith
      | inr q ↦ q
    ]

-- One round of the loop: the two ways out, and a choice.
module _ (fuel : ℕ) (s : Selection) where
  pub loop_stop : choose s ≡ none → select_loop (suc fuel) s ≡ s
  unfolding select_loop
  loop_stop e = cc

  pub loop_none :
      (key : String × String)
      → choose s ≡ some key
      → pop key s.buckets ≡ none
      → select_loop (suc fuel) s ≡ s
  unfolding select_loop
  loop_none key e q = cc

  pub loop_take :
      (key : String × String) (c : Candidate) (bs : List Bucket)
      → choose s ≡ some key
      → pop key s.buckets ≡ some (c, bs)
      → select_loop (suc fuel) s ≡ select_loop fuel (take key c bs s)
  unfolding select_loop
  loop_take key c bs e q = cc

-- With fuel for every item in the buckets the loop ends where the code breaks out of it.
select_loop_ends :
    (fuel : ℕ) (s : Selection) → size s.buckets ≤ fuel → choose (select_loop fuel s) ≡ none
unfolding select_loop
select_loop_ends zero s h = elim (Option-cases (choose s)) [
  | inl e ↦ e
  | inr (key, e) ↦ elim (Option-cases (pop key s.buckets)) [
    | inl q ↦ absurd (choose-HasItem s key e q)
    | inr ((c, bs), q) ↦ absurd (omega (arith, pop-size key s.buckets {c = c} {rest = bs} q))
  ]
]
select_loop_ends (suc fuel) s h = elim (Option-cases (choose s)) [
  | inl e ↦ rw (loop_stop fuel s e) e
  | inr (key, e) ↦ elim (Option-cases (pop key s.buckets)) [
    | inl q ↦ absurd (choose-HasItem s key e q)
    | inr ((c, bs), q) ↦ rw (loop_take fuel s key c bs e q) (
        select_loop_ends fuel (take key c bs s)
          (omega (arith, h, pop-size key s.buckets {c = c} {rest = bs} q)))
  ]
]

-- The choice of items ends for every pool and every distribution, because a round for each item of
-- the pool is enough: after that no bucket with an item in it has a requirement left to serve.
pub select_items_ends :
    (pool : List Item) (difficulties topics : List (String × ℕ)) (total : ℤ) (excluded : List ℕ)
    → choose (select_items pool difficulties topics total excluded).0 ≡ none
unfolding select_items start_selection size
select_items_ends pool difficulties topics total excluded =
    select_loop_ends (length pool) (start_selection pool difficulties topics total excluded) (
      omega (
        arith,
        size-sort_buckets (fill_buckets difficulties topics excluded pool []),
        size-fill_buckets difficulties topics excluded pool [],
      ))
