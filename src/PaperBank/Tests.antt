-- ===== src/PaperBank/Tests.antt =====
-- A bank of four items, papers made from it by hand and by rules, and the theorems about them.
use nbes_backend.Base.{
  ℕ, ◌≤◌, ◌≡◌, refl, String, Bool, true, none, some, List, [], ◌∷◌, ok, err, pos, length, ◌+ℤ◌,
  ◌≤ℤ◌,
}
use nbes_backend.SittingApp.Fixtures.{demo, empty_trail}
use nbes_backend.ItemBank.Model.{Status, draft, locked_for_use, Item, User}
use nbes_backend.PaperBank.Select.{
  add_to_bucket, fill_buckets, insert, sort, sort_buckets, amount, set_amount, best_from, choose,
  pop, targets, select_loop, start_selection, select_items, Selection,
}
use nbes_backend.PaperBank.Progress.{select_items_ends}
use nbes_backend.PaperBank.Coverage.{gathered, of_difficulty, of_topic, select_items_covers}
use nbes_backend.PaperBank.Checks.{
  Settings, Section, total_time, find_blueprint, topic_marks, validate_blueprint, item_by_id,
  place_items, marks_of_ids, place_section, place_sections, validate_sections, latest,
  distinct_refs, insert_ref, sort_refs, first, recent_sittings, cooled_down_items,
}
use nbes_backend.PaperBank.Construct.{
  constructed, Paper, Context, Bank, ManualData, has_repeat, available, sum_of_marks, checked_items,
  create_manual_paper,
}
use nbes_backend.PaperBank.Manual.{Written, create_manual_paper_writes}
use nbes_backend.PaperBank.Draw.{
  RuleData, Draw, percentages, pool_of, check_primary, check_variant, draw_variants, draw_paper,
}
use nbes_backend.PaperBank.Variants.{AreDraws, times, times_in, draw_paper-AreDraws}

abbrev make : ℕ → String → String → ℕ → Status → Item
make id difficulty topic marks status = record {
  id = id;
  status = status;
  metadata = record {
    item_type = "mcq";
    subject = some "Law";
    topic = some topic;
    cognitive_level = none;
    difficulty = some difficulty;
    marks = some (pos marks);
    time = some (pos 10);
    source = none;
    blueprint_ref = none;
  };
  author_id = 11;
  assigned_reviewer_id = none;
  current_version_id = none;
}

abbrev stock : List Item
stock =
    make 1 "Easy" "Torts" 5000 locked_for_use
    ∷ make 2 "Hard" "Deeds" 5000 locked_for_use
    ∷ make 3 "Easy" "Deeds" 5000 locked_for_use
    ∷ make 4 "Hard" "Torts" 5000 locked_for_use
    ∷ make 5 "Hard" "Torts" 5000 draft
    ∷ []

abbrev bank : Bank
bank = record {
  items = stock;
  usages = record { item_id = 5; used_in = "2024"; recorded_at = 3 } ∷ [];
  papers = [];
  accesses = [];
  trail = empty_trail;
}

abbrev settings : Settings
settings = record { blueprints = []; tolerance = pos 500; cooldown = 3 }

abbrev rules : RuleData
rules = record {
  sitting_ref = "2025";
  subject = "Law";
  mode = "cbt";
  total_marks = pos 10000;
  time_limit = pos 60;
  difficulty_distribution = ("Easy", 50) ∷ ("Hard", 50) ∷ [];
  topic_coverage = ("Torts", 50) ∷ ("Deeds", 50) ∷ [];
  blueprint_ref = "";
  variants_count = 2;
}

abbrev by_hand : ManualData
by_hand = record {
  item_ids = 2 ∷ 1 ∷ [];
  sitting_ref = "2025";
  subject = "Law";
  mode = "cbt";
  total_marks = pos 10000;
  time_limit = pos 20;
  blueprint_ref = "";
  sections = [];
}

abbrev one_section : Section
one_section = record { name = "A"; item_ids = 1 ∷ 2 ∷ []; marks = some (pos 10000) }

abbrev maker : User
maker = record { id = 11; keycloak_sub = some 1; shown = "maker" }

abbrev session : Context
session = record { session_id = some "s"; ip = none }

unfoldable drawn_paper : RuleData → List Item → Draw × List Draw
unfolding add_to_bucket fill_buckets insert sort sort_buckets amount set_amount best_from choose pop
    select_loop start_selection select_items find_blueprint topic_marks validate_blueprint latest
    distinct_refs insert_ref sort_refs first recent_sittings cooled_down_items percentages pool_of
    check_primary check_variant draw_variants draw_paper ◌+ℤ◌ total_time
drawn_paper d pool = elim (draw_paper settings d pool) [
  | ok q ↦ q
  | err e ↦ (record { items = []; marks = pos 0 }, [])
]

abbrev pool : List Item
pool = stock

-- Items 1 and 2 for the paper, and 3 and 4 for the variant.
draws_two : times_in 3 ((drawn_paper rules pool).1) ≡ 1
unfolding drawn_paper times times_in
draws_two = refl

draw_paper-AreDraws_example :
    AreDraws settings rules pool [] ((drawn_paper rules pool).0 ∷ (drawn_paper rules pool).1)
    × ((id : ℕ)
        → times_in id ((drawn_paper rules pool).0 ∷ (drawn_paper rules pool).1) ≤ times id pool)
unfolding drawn_paper
draw_paper-AreDraws_example =
    draw_paper-AreDraws settings rules pool (drawn_paper rules pool).0 (drawn_paper rules pool).1
      refl

abbrev chosen : Selection × Bool
chosen =
    select_items pool rules.difficulty_distribution rules.topic_coverage rules.total_marks (1 ∷ [])

select_items_ends_example : choose chosen.0 ≡ none
select_items_ends_example =
    select_items_ends pool rules.difficulty_distribution rules.topic_coverage rules.total_marks
      (1 ∷ [])

select_items_covers_example :
    ((k : String)
      → amount k (targets rules.total_marks rules.difficulty_distribution)
        ≤ℤ gathered (of_difficulty k) chosen.0.selected)
    × ((k : String)
        → amount k (targets rules.total_marks rules.topic_coverage)
          ≤ℤ gathered (of_topic k) chosen.0.selected)
    × (chosen.0.selected_marks ≡ gathered (λ c. true) chosen.0.selected)
unfolding drawn_paper
select_items_covers_example =
    select_items_covers pool rules.difficulty_distribution rules.topic_coverage rules.total_marks
      (1 ∷ []) {s = chosen.0} refl

unfoldable admitted : ManualData → List Item
unfolding find_blueprint topic_marks validate_blueprint item_by_id place_items marks_of_ids
    place_section place_sections validate_sections latest distinct_refs insert_ref sort_refs first
    recent_sittings has_repeat available sum_of_marks checked_items ◌+ℤ◌ total_time
admitted d = elim (checked_items settings d bank) [ ok items ↦ items | err e ↦ [] ]

admits_both : length (admitted (record by_hand { sections = one_section ∷ [] })) ≡ 2
unfolding admitted
admits_both = refl

create_manual_paper_writes_example :
    (p : Paper) × (b' : Bank) × (create_manual_paper demo settings maker session by_hand bank
      ≡ ok (tt, b'))
    × Written (length (admitted by_hand)) p bank b'
    × (p.item_ids ≡ by_hand.item_ids)
    × (p.status ≡ constructed)
unfolding admitted
create_manual_paper_writes_example =
    create_manual_paper_writes demo maker session settings by_hand (admitted by_hand) bank refl
