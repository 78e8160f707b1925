-- ===== src/PaperBank/Checks.antt =====
-- The checks on a paper's items in apps/itembank/services.py: `_validate_time_allocation`,
-- `_validate_blueprint`, `_validate_sections`, `_recent_sittings` and `get_cooled_down_items`. Marks
-- are in hundredths, and shares in hundredths of a percent.
use nbes_backend.Base.{
  ℕ, ◌==◌, String, Bool, true, false, not, ◌&&◌, ◌||◌, Option, none, some, List, [], ◌∷◌, map,
  select, any, all, str_eq, ltb, length, ℤ, pos, ltb_ℤ, eqb_ℤ, ◌+ℤ◌, Result, ok, err, if◌then◌else◌,
  suc, zero,
}
use nbes_backend.Base.Fallible.{◌>>=◌, ◌>>◌}
use nbes_backend.Python.Text.{is_empty}
use nbes_backend.ItemBank.Model.{Item}
use nbes_backend.PaperBank.Select.{portion}

-- An entry of `settings.NBES_BLUEPRINTS`.
pub record PaperBlueprint : Type 0 where
  pub topics : List (String × ℕ)
  pub sections : List String

-- `NBES_BLUEPRINTS`, `PAPER_MARKS_TOLERANCE` and `ITEM_COOLDOWN_SITTINGS`.
pub record Settings : Type 0 where
  pub blueprints : List (String × PaperBlueprint)
  pub tolerance : ℤ
  pub cooldown : ℕ

-- An entry of the payload's sections.
pub record Section : Type 0 where
  pub name : String
  pub item_ids : List ℕ
  pub marks : Option ℤ

pub record ItemUsage : Type 0 where
  pub item_id : ℕ
  pub used_in : String
  pub recorded_at : ℕ

-- The ValueErrors, by their messages.
pub data PaperError : Type 0 where
  duplicate_items items_not_available wrong_total wrong_subject : PaperError
  too_long topic_under_represented : PaperError
  sections_required empty_section repeated_item foreign_item : PaperError
  section_marks_mismatch items_not_covered wrong_section_count : PaperError
  cooling_down : PaperError
  wrong_distribution cannot_meet_constraints off_target variant_cannot_be_met variant_off_target :
      PaperError
  paper_not_found not_submittable paper_crash : PaperError

abbrev pub Check : Type 0
Check = Result PaperError (Unit {0})

abbrev pub refuse_if : Bool → PaperError → Check
refuse_if true e = err e
refuse_if false e = ok tt

abbrev or_zero : Option ℤ → ℤ
or_zero none = pos 0
or_zero (some t) = t

-- `sum((item.time or 0) for item in items)`
unfoldable pub total_time : List Item → ℤ
unfolding ◌+ℤ◌
total_time [] = pos 0
total_time (i ∷ rest) = or_zero i.metadata.time +ℤ total_time rest

abbrev pub validate_time_allocation : List Item → ℤ → Check
validate_time_allocation items time_limit = refuse_if (ltb_ℤ time_limit (total_time items)) too_long

-- `catalogue.get(blueprint_ref)`
unfoldable pub find_blueprint : String → List (String × PaperBlueprint) → Option PaperBlueprint
find_blueprint ref [] = none
find_blueprint ref ((r, b) ∷ rest) = if str_eq r ref then some b else find_blueprint ref rest

-- The marks of an item that count for a topic: those of an item with that topic, which no item has
-- under the empty name.
abbrev pub is_of_topic : String → Item → Bool
is_of_topic topic i = elim i.metadata.topic [
  | none ↦ false
  | some t ↦ not (str_eq t "") && str_eq t topic
]

unfoldable pub topic_marks : String → List Item → ℤ
unfolding ◌+ℤ◌
topic_marks topic [] = pos 0
topic_marks topic (i ∷ rest) =
    (if is_of_topic topic i then or_zero i.metadata.marks else pos 0) +ℤ topic_marks topic rest

-- `actual + tolerance < required_marks` for an entry of the blueprint
abbrev pub is_under : List Item → ℤ → ℤ → String × ℕ → Bool
is_under items total_marks tolerance t =
    ltb_ℤ (topic_marks t.0 items +ℤ tolerance) (portion total_marks t.1)

module _ (settings : Settings) where
  unfoldable pub validate_blueprint : List Item → String → ℤ → Check
  unfolding find_blueprint topic_marks ◌+ℤ◌
  validate_blueprint items blueprint_ref total_marks =
      if str_eq blueprint_ref ""
      then ok tt
      else elim (find_blueprint blueprint_ref settings.blueprints) [
        | none ↦ ok tt
        | some b ↦
            refuse_if (any (is_under items total_marks settings.tolerance) b.topics)
              topic_under_represented
      ]

  -- The blueprint's section catalogue, empty where there is none.
  abbrev pub blueprint_sections : String → List String
  blueprint_sections ref = elim (find_blueprint ref settings.blueprints) [
    | none ↦ []
    | some b ↦ b.sections
  ]

-- `items_by_id[i]`
unfoldable pub item_by_id : ℕ → List Item → Option Item
item_by_id id [] = none
item_by_id id (i ∷ rest) = if i.id == id then some i else item_by_id id rest

abbrev pub is_listed : ℕ → List ℕ → Bool
is_listed id ids = any (λ i. i == id) ids

-- The loop over one section's items, with the items seen before.
unfoldable pub place_items : List Item → List ℕ → List ℕ → Result PaperError (List ℕ)
unfolding item_by_id
place_items items [] seen = ok seen
place_items items (id ∷ rest) seen =
    if is_listed id seen then err repeated_item else elim (item_by_id id items) [
      | none ↦ err foreign_item
      | some _ ↦ place_items items rest (id ∷ seen)
    ]

abbrev marks_of_id : List Item → ℕ → ℤ
marks_of_id items id = elim (item_by_id id items) [
  | none ↦ pos 0
  | some i ↦ or_zero i.metadata.marks
]

unfoldable pub marks_of_ids : List Item → List ℕ → ℤ
unfolding item_by_id ◌+ℤ◌
marks_of_ids items [] = pos 0
marks_of_ids items (id ∷ rest) = marks_of_id items id +ℤ marks_of_ids items rest

abbrev is_mismatch : List Item → Section → Bool
is_mismatch items s = elim s.marks [
  | none ↦ false
  | some declared ↦ not (eqb_ℤ declared (marks_of_ids items s.item_ids))
]

unfoldable pub place_section : List Item → Section → List ℕ → Result PaperError (List ℕ)
unfolding place_items marks_of_ids
place_section items s seen = do
  refuse_if (is_empty s.item_ids) empty_section
  now ← place_items items s.item_ids seen
  refuse_if (is_mismatch items s) section_marks_mismatch
  ok now

-- The loop over the sections.
unfoldable pub place_sections : List Item → List Section → List ℕ → Result PaperError (List ℕ)
unfolding place_section
place_sections items [] seen = ok seen
place_sections items (s ∷ rest) seen =
    place_section items s seen >>= λ now. place_sections items rest now

unfoldable pub validate_sections : Settings → List Item → List Section → String → Check
unfolding place_sections find_blueprint
validate_sections settings items sections ref =
    if is_empty sections
    then refuse_if (not (is_empty (blueprint_sections settings ref))) sections_required
    else do
      seen ← place_sections items sections []
      refuse_if (not (all (λ (i : Item). is_listed i.id seen) items)) items_not_covered
      refuse_if
          (not (is_empty (blueprint_sections settings ref))
            && not (length (blueprint_sections settings ref) == length sections))
          wrong_section_count

-- `Max("recorded_at")` of one cycle
unfoldable pub latest : String → List ItemUsage → ℕ
latest ref [] = 0
latest ref (u ∷ rest) =
    let m = latest ref rest in
    if str_eq u.used_in ref && ltb m u.recorded_at then u.recorded_at else m

abbrev pub is_ref : String → List String → Bool
is_ref ref refs = any (λ r. str_eq r ref) refs

unfoldable pub distinct_refs : List ItemUsage → List String
distinct_refs [] = []
distinct_refs (u ∷ rest) =
    let refs = distinct_refs rest in if is_ref u.used_in refs then refs else u.used_in ∷ refs

-- `order_by("-latest")`
unfoldable pub insert_ref : List ItemUsage → String → List String → List String
unfolding latest
insert_ref usages r [] = r ∷ []
insert_ref usages r (q ∷ rest) =
    let more = insert_ref usages r rest in
    if ltb (latest r usages) (latest q usages) then q ∷ more else r ∷ q ∷ rest

unfoldable pub sort_refs : List ItemUsage → List String → List String
unfolding insert_ref
sort_refs usages [] = []
sort_refs usages (r ∷ rest) = insert_ref usages r (sort_refs usages rest)

unfoldable pub first : ℕ → List String → List String
first zero rs = []
first (suc n) [] = []
first (suc n) (r ∷ rs) = r ∷ first n rs

-- An empty name excludes nothing.
unfoldable pub recent_sittings : ℕ → String → List ItemUsage → List String
unfolding sort_refs distinct_refs first
recent_sittings limit excluded usages =
    let kept = select (λ u. str_eq excluded "" || not (str_eq u.used_in excluded)) usages in
    first limit (sort_refs kept (distinct_refs kept))

-- The items that a paper of this cycle may not use.
unfoldable pub cooled_down_items : Settings → String → List ItemUsage → List ℕ
unfolding recent_sittings
cooled_down_items settings ref usages =
    let recent = recent_sittings settings.cooldown ref usages in
    map (λ (u : ItemUsage). u.item_id) (select (λ u. is_ref u.used_in recent) usages)
