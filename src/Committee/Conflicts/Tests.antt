-- ===== src/Committee/Conflicts/Tests.antt =====
-- A declaration that is made and approved.
use nbes_backend.Base.{◌≡◌, ◌↔◌, refl, inl, true, none, some, [], ◌∷◌, ok, err}
use nbes_backend.Audit.{record_event, is_state_change}
use nbes_backend.SittingApp.Fixtures.{demo, chair, empty_trail}
use nbes_backend.Committee.Conflicts.{
  ConflictDeclaration, Declarations, pending, coi_text, save_review, is_active_conflict, check_coi,
  record_coi, declare_coi, review_coi,
}
use nbes_backend.Committee.Conflicts.Bars.{Bars, Some, check_coi_iff, review_coi-check_coi}

abbrev declared : ConflictDeclaration
declared = record {
  id = 4;
  member_id = 7;
  subject_type = "candidate";
  subject_description = "A relative sits the examination.";
  nature = "personal";
  affected_entity_type = "item";
  affected_entity_id = some 12;
  status = pending;
  effective_from = none;
  review_date = none;
  declared_at = 10;
  reviewed_at = none;
  reviewed_by_id = none;
}

abbrev one_declared : Declarations
one_declared = record { conflicts = declared ∷ []; trail = empty_trail }

unfoldable after_review : Declarations → Declarations
unfolding record_event is_state_change coi_text save_review is_active_conflict check_coi record_coi
    declare_coi review_coi
after_review w = elim (review_coi demo chair declared true none w) [ ok (_, w') ↦ w' | err _ ↦ w ]

-- What the review returns.
abbrev reviewed : ConflictDeclaration
reviewed = elim (review_coi demo chair declared true none one_declared) [
  | ok (c, _) ↦ c
  | err _ ↦ declared
]

check_coi_iff_example :
    ((check_coi 7 "item" none (declared ∷ [])).0 ≡ true) ↔ Some (Bars 7 "item" none) (declared ∷ [])
check_coi_iff_example = check_coi_iff 7 "item" none (declared ∷ [])

review_coi-check_coi_example :
    (check_coi 7 "item" (some 12) (after_review one_declared).conflicts).0 ≡ true
unfolding after_review
review_coi-check_coi_example =
    review_coi-check_coi demo chair declared one_declared none {c' = reviewed}
      {w' = after_review one_declared} (inl refl) refl
