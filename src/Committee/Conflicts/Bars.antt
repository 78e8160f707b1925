-- ===== src/Committee/Conflicts/Bars.antt =====
-- Which declarations bar a member, said apart from the query, and that `check_coi` finds them.
use nbes_backend.Base.{
  ℕ, String, ◌≡◌, ◌↔◌, ◌⊎◌, inl, inr, true, Option, none, List, [], ◌∷◌, arith, ok, eq_iff,
  Bool-cases, subst, sym,
}
use nbes_backend.Env.{Env}
use nbes_backend.SittingApp.World.{Caller}
use nbes_backend.Committee.Conflicts.{
  ConflictDeclaration, approved, is_active_conflict, check_coi, save_review, record_coi, review_coi,
  Declarations,
}

-- An approved declaration of the member, of the type and on the entity asked for, where they are.
abbrev pub Bars : ℕ → String → Option ℕ → ConflictDeclaration → Type 0
Bars member_id entity_type entity_id c =
    (c.member_id ≡ member_id)
    × (c.status ≡ approved)
    × ((entity_type ≡ "") ⊎ (c.affected_entity_type ≡ entity_type))
    × ((entity_id ≡ none) ⊎ (c.affected_entity_id ≡ entity_id))

abbrev pub Some : (ConflictDeclaration → Type 0) → List ConflictDeclaration → Type 0
Some P [] = ⊥
Some P (c ∷ cs) = P c ⊎ Some P cs

module _ (member_id : ℕ) (entity_type : String) (entity_id : Option ℕ) where
  is_active_conflict_iff :
      (c : ConflictDeclaration)
      → (is_active_conflict member_id entity_type entity_id c ≡ true)
        ↔ Bars member_id entity_type entity_id c
  unfolding is_active_conflict
  is_active_conflict_iff c =
      let e = eq_iff entity_type "" in
      let f = eq_iff c.affected_entity_type entity_type in
      ((λ h. ground (arith, h, e.0, f.0)), (λ h. ground (arith, h, e.1, f.1)))

  -- The query reports a conflict exactly where the table has a declaration that bars the member.
  pub check_coi_iff :
      (cs : List ConflictDeclaration)
      → ((check_coi member_id entity_type entity_id cs).0 ≡ true)
        ↔ Some (Bars member_id entity_type entity_id) cs
  unfolding check_coi
  check_coi_iff [] = ((λ h. cc), (λ h. absurd h))
  check_coi_iff (c ∷ cs) =
      elim (Bool-cases (is_active_conflict member_id entity_type entity_id c)) [
        | inl e ↦ ((λ h. inl ((is_active_conflict_iff c).0 e)), (λ h. rw e))
        | inr e ↦ (
          (λ h. inr ((check_coi_iff cs).0 (rw e at h))),
          (λ h. elim h [
            | inl b ↦ absurd (cc ((is_active_conflict_iff c).1 b, e))
            | inr b ↦ rw e ((check_coi_iff cs).1 b)
          ]),
        )
      ]

-- The declaration `c` as an approval saves it bars its member from its entity.
save_review-Bars :
    (c done : ConflictDeclaration) (cs : List ConflictDeclaration)
    → done.id ≡ c.id
    → done.status ≡ approved
    → Some (λ d. d ≡ c) cs
    → Some (Bars c.member_id c.affected_entity_type c.affected_entity_id) (save_review done cs)
unfolding save_review
save_review-Bars c done [] i s h = absurd h
save_review-Bars c done (d ∷ ds) i s (inl e) = inl (ground (arith, e, i, s))
save_review-Bars c done (d ∷ ds) i s (inr h) = inr (save_review-Bars c done ds i s h)

module _ (env : Env) (caller : Caller) (c : ConflictDeclaration) (w : Declarations) where
  review_effect :
      (review_date : Option ℕ) {c' : ConflictDeclaration} {w' : Declarations}
      → review_coi env caller c true review_date w ≡ ok (c', w')
      → (c'.id ≡ c.id) × (c'.status ≡ approved) × (w'.conflicts ≡ save_review c' w.conflicts)
  unfolding review_coi record_coi
  review_effect review_date h = ground arith

  -- After the approval of a declaration that stands in the table, the query reports a conflict of its
  -- member with its entity.
  pub review_coi-check_coi :
      (review_date : Option ℕ) {c' : ConflictDeclaration} {w' : Declarations}
      → Some (λ d. d ≡ c) w.conflicts
      → review_coi env caller c true review_date w ≡ ok (c', w')
      → (check_coi c.member_id c.affected_entity_type c.affected_entity_id w'.conflicts).0 ≡ true
  review_coi-check_coi review_date {c'} {w'} stored h =
      let f = review_effect review_date h in
      (check_coi_iff c.member_id c.affected_entity_type c.affected_entity_id w'.conflicts).1 (
        subst (Some (Bars c.member_id c.affected_entity_type c.affected_entity_id)) (sym f.2)
          (save_review-Bars c c' w.conflicts f.0 f.1 stored))
