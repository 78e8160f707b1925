-- ===== src/PaperBank/Select.antt =====
-- `_select_items_for_constraints` of apps/itembank/services.py: the greedy choice of items. Marks are
-- in hundredths, and shares in hundredths of a percent.
use nbes_backend.Base.{
  ℕ, zero, suc, ◌+◌, ◌*◌, ◌/◌, ◌==◌, String, Bool, true, false, not, ◌&&◌, Option, none, some, List,
  [], ◌∷◌, ◌++◌, map, any, str_eq, length, ℤ, pos, negsuc, ltb_ℤ, sub_ℕ, ◌-ℤ◌, if◌then◌else◌, ◌+ℤ◌,
}
use nbes_backend.Python.Text.{is_empty}
use nbes_backend.ItemBank.Model.{Item}

-- `(total * share / 100).quantize(0.01, ROUND_HALF_UP)`, halves away from zero
abbrev pub portion : ℤ → ℕ → ℤ
portion (pos n) share = pos ((n * share + 5000) / 10000)
portion (negsuc n) share = sub_ℕ 0 ((suc n * share + 5000) / 10000)

-- An item with the difficulty, the topic and the marks that make it a candidate.
pub record Candidate : Type 0 where
  pub item : Item
  pub difficulty : String
  pub topic : String
  pub marks : ℤ

pub record Bucket : Type 0 where
  pub difficulty : String
  pub topic : String
  pub items : List Candidate

-- A dict from names to amounts, with its keys in order.
abbrev pub Amounts : Type 0
Amounts = List (String × ℤ)

abbrev or_none {ℓ} : {A : Type ℓ} → Bool → Option A → Option A
or_none true o = o
or_none false o = none

abbrev both : Item → Option String → Option String → Option ℤ → Option Candidate
both i (some d) (some t) (some m) =
    if str_eq d ""
    then none
    else if str_eq t ""
    then none
    else some (record { item = i; difficulty = d; topic = t; marks = m })
both i _ _ _ = none

-- `not item.difficulty or not item.topic or item.marks is None` drops an item.
abbrev pub candidate_of : Item → Option Candidate
candidate_of i = let m = i.metadata in both i m.difficulty m.topic m.marks

abbrev pub has_key : {A : Type 0} → String → List (String × A) → Bool
has_key k d = any (λ p. str_eq p.0 k) d

-- `buckets[(difficulty, topic)].append(item)` on a dict that makes empty lists
unfoldable pub add_to_bucket : Candidate → List Bucket → List Bucket
add_to_bucket c [] = record { difficulty = c.difficulty; topic = c.topic; items = c ∷ [] } ∷ []
add_to_bucket c (b ∷ bs) =
    let rest = add_to_bucket c bs in
    if str_eq b.difficulty c.difficulty && str_eq b.topic c.topic
    then record b { items = b.items ++ (c ∷ []) } ∷ bs
    else b ∷ rest

abbrev pub is_excluded : ℕ → List ℕ → Bool
is_excluded id ids = any (λ i. i == id) ids

module _ (difficulties topics : List (String × ℕ)) (excluded : List ℕ) where
  -- The test of one item of the pool.
  abbrev pub file_item : Item → List Bucket → List Bucket
  file_item i bs = elim (candidate_of i) [
    | none ↦ bs
    | some c ↦
        if not (is_excluded i.id excluded)
          && (has_key c.difficulty difficulties && has_key c.topic topics)
        then add_to_bucket c bs
        else bs
  ]

  -- The loop over the pool, from the buckets that the items before have filled.
  unfoldable pub fill_buckets : List Item → List Bucket → List Bucket
  unfolding add_to_bucket
  fill_buckets [] bs = bs
  fill_buckets (i ∷ rest) bs = fill_buckets rest (file_item i bs)

-- `bucket_items.sort(key=marks, reverse=True)`, which keeps the order of equal marks
unfoldable pub insert : Candidate → List Candidate → List Candidate
insert c [] = c ∷ []
insert c (d ∷ ds) = let rest = insert c ds in if ltb_ℤ c.marks d.marks then d ∷ rest else c ∷ d ∷ ds

unfoldable pub sort : List Candidate → List Candidate
sort [] = []
sort (c ∷ cs) = insert c (sort cs)

unfoldable pub sort_buckets : List Bucket → List Bucket
unfolding sort
sort_buckets [] = []
sort_buckets (b ∷ bs) = record b { items = sort b.items } ∷ sort_buckets bs

abbrev pub targets : ℤ → List (String × ℕ) → Amounts
targets total dist = map (λ p. (p.0, portion total (100 * p.1))) dist

-- `d.get(key, Decimal("0"))` and `d[key] = amount`
unfoldable pub amount : String → Amounts → ℤ
amount k [] = pos 0
amount k ((j, a) ∷ d) = if str_eq j k then a else amount k d

unfoldable pub set_amount : String → ℤ → Amounts → Amounts
set_amount k a [] = (k, a) ∷ []
set_amount k a ((j, b) ∷ d) =
    let rest = set_amount k a d in if str_eq j k then (j, a) ∷ d else (j, b) ∷ rest

-- `max(Decimal("0"), d.get(key) - marks)`, stored
abbrev pub non_negative : ℤ → ℤ
non_negative a = if ltb_ℤ (pos 0) a then a else pos 0

abbrev pub reduce : String → ℤ → Amounts → Amounts
reduce k marks d = set_amount k (non_negative (amount k d -ℤ marks)) d

-- The loop's variables; `selected` in the order of choice.
pub record Selection : Type 0 where
  pub buckets : List Bucket
  pub by_difficulty : Amounts
  pub by_topic : Amounts
  pub selected : List Candidate
  pub selected_marks : ℤ

abbrev pub score : Amounts → Amounts → Bucket → ℤ
score by_difficulty by_topic b = amount b.difficulty by_difficulty +ℤ amount b.topic by_topic

-- The first bucket that is not empty, of the greatest score above `best_score`, or `best`.
unfoldable pub best_from :
    Amounts → Amounts → Option (String × String) × ℤ → List Bucket → Option (String × String) × ℤ
unfolding amount ◌+ℤ◌
best_from by_difficulty by_topic best [] = best
best_from by_difficulty by_topic best (b ∷ bs) =
    let s = score by_difficulty by_topic b in
    let better = not (is_empty b.items) && ltb_ℤ best.1 s in
    best_from by_difficulty by_topic (if better then (some (b.difficulty, b.topic), s) else best) bs

-- The key of the next bucket, `none` where the loop breaks.
unfoldable pub choose : Selection → Option (String × String)
unfolding best_from
choose s =
    let best = best_from s.by_difficulty s.by_topic (none, pos 0) s.buckets in
    or_none (ltb_ℤ (pos 0) best.1) best.0

abbrev has_name : String × String → Bucket → Bool
has_name key b = str_eq b.difficulty key.0 && str_eq b.topic key.1

abbrev behind : Bucket → Option (Candidate × List Bucket) → Option (Candidate × List Bucket)
behind b none = none
behind b (some (c, bs)) = some (c, b ∷ bs)

-- `buckets[key].pop(0)`; keys are distinct, so that there is one such bucket at most.
unfoldable pub pop : String × String → List Bucket → Option (Candidate × List Bucket)
pop key [] = none
pop key (b ∷ bs) =
    let rest = behind b (pop key bs) in
    if has_name key b
    then elim b.items [ [] ↦ rest | c ∷ cs ↦ some (c, record b { items = cs } ∷ bs) ]
    else rest

abbrev pub take : String × String → Candidate → List Bucket → Selection → Selection
take key c bs s = record {
  buckets = bs;
  by_difficulty = reduce key.0 c.marks s.by_difficulty;
  by_topic = reduce key.1 c.marks s.by_topic;
  selected = s.selected ++ (c ∷ []);
  selected_marks = s.selected_marks +ℤ c.marks;
}

-- `while True`, on fuel
unfoldable pub select_loop : ℕ → Selection → Selection
unfolding choose pop set_amount
select_loop zero s = s
select_loop (suc fuel) s = elim (choose s) [
  | none ↦ s
  | some key ↦ elim (pop key s.buckets) [
    | none ↦ s
    | some (c, bs) ↦ select_loop fuel (take key c bs s)
  ]
]

-- The buckets and the requirements before the loop.
unfoldable pub start_selection :
    List Item → List (String × ℕ) → List (String × ℕ) → ℤ → List ℕ → Selection
unfolding fill_buckets sort_buckets
start_selection pool difficulties topics total excluded = record {
  buckets = sort_buckets (fill_buckets difficulties topics excluded pool []);
  by_difficulty = targets total difficulties;
  by_topic = targets total topics;
  selected = [];
  selected_marks = pos 0;
}

-- Whether a requirement is left: an entry of `errors`.
abbrev pub is_short : Amounts → Bool
is_short d = any (λ p. ltb_ℤ (pos 0) p.1) d

-- One round for each item of the pool is enough fuel. Only whether there are errors is kept of them.
unfoldable pub select_items :
    List Item → List (String × ℕ) → List (String × ℕ) → ℤ → List ℕ → Selection × Bool
unfolding start_selection select_loop
select_items pool difficulties topics total excluded =
    let s = select_loop (length pool) (start_selection pool difficulties topics total excluded) in
    (s, if is_short s.by_difficulty then true else is_short s.by_topic)
