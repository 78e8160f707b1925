-- ===== src/Committee/Attendance.antt =====
-- The attendance of a meeting: `dict.fromkeys` as `record_attendance` uses it, `set` as `quorum_met`
-- does, and that the two agree.
use nbes_backend.Base.{
  ℕ, ◌+◌, String, ◌≡◌, refl, Bool, true, false, List, [], ◌∷◌, arith, length, any, str_eq, eq_iff,
  inl, inr, Bool-cases, ◌∙◌, if◌then◌else◌,
}

abbrev pub is_in : String → List String → Bool
is_in x = any (str_eq x)

-- `list(dict.fromkeys(xs))`: the first of each, where those of `seen` have been kept already.
unfoldable pub fresh_of : List String → List String → List String
fresh_of seen [] = []
fresh_of seen (x ∷ xs) = elim (is_in x seen) [
  | true ↦ fresh_of seen xs
  | false ↦ x ∷ fresh_of (x ∷ seen) xs
]

unfoldable pub distinct : List String → List String
unfolding fresh_of
distinct = fresh_of []

-- `len(set(xs))`: the members that do not occur again.
unfoldable pub set_size : List String → ℕ
set_size [] = 0
set_size (x ∷ xs) = if is_in x xs then set_size xs else set_size xs + 1

-- No member twice.
abbrev pub NoRepeat : List String → Type 0
NoRepeat [] = Unit
NoRepeat (x ∷ xs) = (is_in x xs ≡ false) × NoRepeat xs

-- What was seen is not kept again.
seen-fresh_of :
    (y : String) (seen xs : List String) → is_in y seen ≡ true → is_in y (fresh_of seen xs) ≡ false
unfolding fresh_of
seen-fresh_of y seen [] h = refl
seen-fresh_of y seen (x ∷ xs) h =
    ground (arith, h, seen-fresh_of y seen xs h, seen-fresh_of y (x ∷ seen) xs, (eq_iff y x).0)

fresh_of-NoRepeat : (seen xs : List String) → NoRepeat (fresh_of seen xs)
unfolding fresh_of
fresh_of-NoRepeat seen [] = tt
fresh_of-NoRepeat seen (x ∷ xs) = elim (Bool-cases (is_in x seen)) [
  | inl e ↦ rw (e, fresh_of) (fresh_of-NoRepeat seen xs)
  | inr e ↦
      rw (e, fresh_of)
        (seen-fresh_of x (x ∷ seen) xs (rw ((eq_iff x x).1 refl)), fresh_of-NoRepeat (x ∷ seen) xs)
]

set_size-NoRepeat : (xs : List String) → NoRepeat xs → set_size xs ≡ length xs
unfolding set_size
set_size-NoRepeat [] h = refl
set_size-NoRepeat (x ∷ xs) h = ground (arith, h.0, set_size-NoRepeat xs h.1)

-- The members that do not occur again and are not in `seen`.
unfoldable count_unseen : List String → List String → ℕ
count_unseen seen [] = 0
count_unseen seen (x ∷ xs) =
    let rest = count_unseen seen xs in
    if is_in x xs then rest else if is_in x seen then rest else rest + 1

count_unseen-nil : (xs : List String) → count_unseen [] xs ≡ set_size xs
unfolding count_unseen set_size
count_unseen-nil [] = refl
count_unseen-nil (x ∷ xs) = ground (arith, count_unseen-nil xs)

-- One more seen, one less counted where it occurs.
count_unseen-cons :
    (x : String) (seen xs : List String)
    → is_in x seen ≡ false
    → count_unseen seen xs ≡ count_unseen (x ∷ seen) xs + (if is_in x xs then 1 else 0)
unfolding count_unseen
count_unseen-cons x seen [] h = refl
count_unseen-cons x seen (y ∷ ys) h = elim (Bool-cases (str_eq x y)) [
  | inl e ↦ ground (arith, e, (eq_iff x y).0 e, (eq_iff y x).1, h, count_unseen-cons x seen ys h)
  | inr e ↦ ground (arith, e, (eq_iff y x).0, (eq_iff x y).1, h, count_unseen-cons x seen ys h)
]

length-fresh_of : (seen xs : List String) → length (fresh_of seen xs) ≡ count_unseen seen xs
unfolding fresh_of count_unseen
length-fresh_of seen [] = refl
length-fresh_of seen (x ∷ xs) =
    ground
      (arith, length-fresh_of seen xs, length-fresh_of (x ∷ seen) xs, count_unseen-cons x seen xs)

-- Where `dict.fromkeys` has been applied, `set` has nothing left to do: the recorded attendees are as
-- many as the different identifiers that were given, and `set` finds that number of them.
pub set_size-distinct :
    (ids : List String)
    → NoRepeat (distinct ids)
      × (length (distinct ids) ≡ set_size ids)
      × (set_size (distinct ids) ≡ set_size ids)
unfolding distinct
set_size-distinct ids =
    let counted = length-fresh_of [] ids ∙ count_unseen-nil ids in
    (
      fresh_of-NoRepeat [] ids,
      counted,
      set_size-NoRepeat (distinct ids) (fresh_of-NoRepeat [] ids) ∙ counted,
    )
