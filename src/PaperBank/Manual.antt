-- ===== src/PaperBank/Manual.antt =====
-- A manual paper: what the checks admit, and what its construction writes.
use nbes_backend.Base.{
  ℕ, suc, ◌+◌, ◌==◌, ◌≡◌, refl, inl, inr, String, true, false, not, none, some, List, [], ◌∷◌, map,
  any, any_none, All, arith, length, eqb_ℤ, ◌≤ℤ◌, ltb_ℤ, ok, Option-cases, ◌∙◌, eq_of_parts,
}
use nbes_backend.Python.{Dict}
use nbes_backend.Env.{Env}
use nbes_backend.Audit.{record_event, record_atomic, payload_of, publish}
use nbes_backend.Transaction.{◌>>◌, >>_ok}
use nbes_backend.ItemBank.Model.{locked_for_use, Item, User}
use nbes_backend.PaperBank.Checks.{
  Settings, total_time, item_by_id, recent_sittings, validate_blueprint, validate_sections,
}
use nbes_backend.PaperBank.Construct.{
  constructed, Paper, Context, Bank, ManualData, has_repeat, available, sum_of_marks, has_subject,
  is_used_in, checked_items, audit_paper, log_read, log_vault_reads, record_usages, create_paper,
  paper_state, create_manual_paper,
}

-- No identifier twice.
unfoldable pub NoRepeat : List ℕ → Type 0
NoRepeat [] = Unit
NoRepeat (i ∷ rest) = All (λ j. (j == i) ≡ false) rest × NoRepeat rest

-- What the items of a manual paper are.
pub record IsAdmitted (settings : Settings) (d : ManualData) (b : Bank) (items : List Item)
    : Type 0 where
  pub in_order : map (λ (i : Item). i.id) items ≡ d.item_ids
  pub distinct : NoRepeat d.item_ids
  pub locked : All (λ i. i.status ≡ locked_for_use) items
  pub totalled : sum_of_marks items ≡ d.total_marks
  pub of_subject : All (λ i. has_subject d.subject i ≡ true) items
  pub in_time : total_time items ≤ℤ d.time_limit
  pub covering : validate_blueprint settings items d.blueprint_ref d.total_marks ≡ ok tt
  pub in_sections : validate_sections settings items d.sections d.blueprint_ref ≡ ok tt
  pub rested :
      All
        (λ i.
          is_used_in (recent_sittings settings.cooldown d.sitting_ref b.usages) b.usages i ≡ false)
        items

has_repeat-NoRepeat : (ids : List ℕ) → has_repeat ids ≡ false → NoRepeat ids
unfolding has_repeat NoRepeat
has_repeat-NoRepeat [] h = tt
has_repeat-NoRepeat (i ∷ rest) h =
    (any_none (λ j. j == i) rest (ground arith), has_repeat-NoRepeat rest (ground arith))

item_by_id-id : (id : ℕ) (items : List Item) {i : Item} → item_by_id id items ≡ some i → i.id ≡ id
unfolding item_by_id
item_by_id-id id [] h = ground arith
item_by_id-id id (x ∷ xs) {i} h = ground (arith, item_by_id-id id xs {i = i})

available_items :
    (ids : List ℕ) (items : List Item) {found : List Item}
    → available ids items ≡ some found
    → (map (λ (i : Item). i.id) found ≡ ids) × All (λ i. i.status ≡ locked_for_use) found
unfolding available
available_items [] items {found} h = ground arith
available_items (id ∷ rest) items {found} h = elim (Option-cases (item_by_id id items)) [
  | inl e ↦ ground arith
  | inr (i, e) ↦ elim (Option-cases (available rest items)) [
    | inl q ↦ ground arith
    | inr (is, q) ↦
        ground (arith, item_by_id-id id items {i = i} e, available_items rest items {found = is} q)
  ]
]

of_subject-All :
    (subject : String) (items : List Item)
    → All (λ i. not (has_subject subject i) ≡ false) items
    → All (λ i. has_subject subject i ≡ true) items
of_subject-All subject [] h = tt
of_subject-All subject (i ∷ rest) h = (ground arith, of_subject-All subject rest h.1)

module _ (settings : Settings) (d : ManualData) (b : Bank) where
  checked_facts :
      (items : List Item)
      → checked_items settings d b ≡ ok items
      → (has_repeat d.item_ids ≡ false)
        × (available d.item_ids b.items ≡ some items)
        × (eqb_ℤ (sum_of_marks items) d.total_marks ≡ true)
        × (any (λ (i : Item). not (has_subject d.subject i)) items ≡ false)
        × (ltb_ℤ d.time_limit (total_time items) ≡ false)
        × (validate_blueprint settings items d.blueprint_ref d.total_marks ≡ ok tt)
        × (validate_sections settings items d.sections d.blueprint_ref ≡ ok tt)
        × (any
              (is_used_in (recent_sittings settings.cooldown d.sitting_ref b.usages) b.usages)
              items
            ≡ false)
  unfolding checked_items
  checked_facts items h = ground arith

  -- The checks of a manual paper admit only the items of the payload, in its order and each once, that
  -- are locked for use and of the paper's subject, whose marks make the total, whose times fit in the
  -- limit, which cover the blueprint and the sections, and which no recent cycle has used.
  pub checked_items-IsAdmitted :
      (items : List Item) → checked_items settings d b ≡ ok items → IsAdmitted settings d b items
  checked_items-IsAdmitted items h =
      let f = checked_facts items h in
      let a = available_items d.item_ids b.items {found = items} f.1 in
      record {
        in_order = a.0;
        distinct = has_repeat-NoRepeat d.item_ids f.0;
        locked = a.1;
        totalled = eq_of_parts (sum_of_marks items) d.total_marks (ground (arith, f.2));
        of_subject =
            of_subject-All d.subject items
              (any_none (λ (i : Item). not (has_subject d.subject i)) items f.3);
        in_time = ground (arith, f.4);
        covering = f.5;
        in_sections = f.6;
        rested =
            any_none
              (is_used_in (recent_sittings settings.cooldown d.sitting_ref b.usages) b.usages) items
              f.7;
      }

-- What the rows of one paper add to the tables.
pub record Written (n : ℕ) (p : Paper) (old new : Bank) : Type 0 where
  pub papers : new.papers ≡ p ∷ old.papers
  pub items : new.items ≡ old.items
  pub usages : length new.usages ≡ n + length old.usages
  pub accesses : length new.accesses ≡ n + length old.accesses
  pub events : length new.trail.events ≡ suc n + length old.trail.events

-- The tables after some calls that leave items and papers alone.
pub record Grown (usages accesses events : ℕ) (old new : Bank) : Type 0 where
  pub papers : new.papers ≡ old.papers
  pub items : new.items ≡ old.items
  pub used : length new.usages ≡ usages + length old.usages
  pub accessed : length new.accesses ≡ accesses + length old.accesses
  pub recorded : length new.trail.events ≡ events + length old.trail.events

-- The calls return.
pub usages_grow :
    (ref : String) (items : List Item) (b : Bank)
    → (b' : Bank) × (record_usages ref items b ≡ ok (tt, b')) × Grown (length items) 0 0 b b'
unfolding record_usages
usages_grow ref [] b = (
  b,
  refl,
  record {
    papers = refl;
    items = refl;
    used = omega arith;
    accessed = omega arith;
    recorded = omega arith;
  },
)
usages_grow ref (i ∷ rest) b =
    let b1 : Bank = record b {
      usages = record { item_id = i.id; used_in = ref; recorded_at = b.trail.clock } ∷ b.usages;
    } in
    let (b', e, g) = usages_grow ref rest b1 in
    (
      b',
      e,
      record {
        papers = g.papers;
        items = g.items;
        used = omega (arith, g.used);
        accessed = g.accessed;
        recorded = g.recorded;
      },
    )

module _ (env : Env) (user : User) (c : Context) where
  read_grows :
      (i : Item) (b : Bank)
      → (b' : Bank) × (log_read env user c i b ≡ ok (tt, b')) × Grown 0 1 1 b b'
  unfolding log_read audit_paper record_event record_atomic payload_of publish
  read_grows i b = (
    _,
    refl,
    record {
      papers = refl;
      items = refl;
      used = omega arith;
      accessed = omega arith;
      recorded = omega arith;
    },
  )

  pub reads_grow :
      (items : List Item) (b : Bank)
      → (b' : Bank) × (log_vault_reads env user c items b ≡ ok (tt, b'))
        × Grown 0 (length items) (length items) b b'
  unfolding log_vault_reads
  reads_grow [] b = (
    b,
    refl,
    record {
      papers = refl;
      items = refl;
      used = omega arith;
      accessed = omega arith;
      recorded = omega arith;
    },
  )
  reads_grow (i ∷ rest) b =
      let (b1, e, g) = read_grows i b in
      let (b2, f, k) = reads_grow rest b1 in
      (
        b2,
        >>_ok (log_read env user c i) (log_vault_reads env user c rest) b b1 e f,
        record {
          papers = k.papers ∙ g.papers;
          items = k.items ∙ g.items;
          used = omega (arith, g.used, k.used);
          accessed = omega (arith, g.accessed, k.accessed);
          recorded = omega (arith, g.recorded, k.recorded);
        },
      )

  paper_grows :
      (id : ℕ) (new_state : Dict) (b : Bank)
      → (b' : Bank) × (audit_paper env user "PAPER_CONSTRUCTED" "paper" id none new_state none b
          ≡ ok (tt, b'))
        × Grown 0 0 1 b b'
  unfolding audit_paper record_event record_atomic payload_of publish
  paper_grows id new_state b = (
    _,
    refl,
    record {
      papers = refl;
      items = refl;
      used = omega arith;
      accessed = omega arith;
      recorded = omega arith;
    },
  )

  -- Where the checks admit the items of a paper without sections, the construction returns: the paper is written as constructed,
  -- with the identifiers of the payload, a usage and an access for each item, and an audit row for
  -- each access and for the paper.
  pub create_manual_paper_writes :
      (settings : Settings) (d : ManualData) (items : List Item) (b : Bank)
      → checked_items settings (record d { sections = [] }) b ≡ ok items
      → (p : Paper) × (b' : Bank) × (create_manual_paper env settings user c
            (record d { sections = [] })
            b
          ≡ ok (tt, b'))
        × Written (length items) p b b'
        × (p.item_ids ≡ d.item_ids)
        × (p.status ≡ constructed)
  unfolding create_manual_paper create_paper
  create_manual_paper_writes settings d items b h =
      let p : Paper = record {
        id = b.trail.fresh;
        sitting_ref = d.sitting_ref;
        subject = d.subject;
        mode = d.mode;
        total_marks = d.total_marks;
        time_limit = d.time_limit;
        item_ids = map (λ (i : Item). i.id) items;
        sections = [];
        variants = [];
        blueprint_ref = d.blueprint_ref;
        status = constructed;
      } in
      let t = b.trail in
      let b1 : Bank = record b {
        papers = p ∷ b.papers;
        trail = record t { fresh = t.fresh + 1 };
      } in
      let (b2, e, g) = usages_grow d.sitting_ref items b1 in
      let (b3, f, k) = reads_grow items b2 in
      let (b4, x, y) =
        paper_grows b.trail.fresh (paper_state (record d { sections = [] }) items) b3 in
      let reads = log_vault_reads env user c items in
      let writes =
        audit_paper env user "PAPER_CONSTRUCTED" "paper" b.trail.fresh none
          (paper_state (record d { sections = [] }) items) none in
      let run =
        >>_ok (record_usages d.sitting_ref items) (reads >> writes) b1 b2 e
          (>>_ok reads writes b2 b3 f x) in
      (
        p,
        b4,
        rw h run,
        record {
          papers = y.papers ∙ k.papers ∙ g.papers;
          items = y.items ∙ k.items ∙ g.items;
          usages = omega (arith, g.used, k.used, y.used);
          accesses = omega (arith, g.accessed, k.accessed, y.accessed);
          events = omega (arith, g.recorded, k.recorded, y.recorded);
        },
        (checked_items-IsAdmitted settings (record d { sections = [] }) b items h).in_order,
        refl,
      )
