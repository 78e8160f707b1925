-- ===== src/SittingApp/Blueprint.antt =====
-- services.py: `publish_blueprint_version`, and the numbers of the versions of each subject.
use nbes_backend.Base.{
  ℕ, ◌+◌, String, ◌≡◌, refl, Bool, Option, none, some, List, [], ◌∷◌, ◌++◌, select, length, str_eq,
  ltb, arith, pos, Result, ok, err, if◌then◌else◌, suc, Bool-cases, inl, inr, eq_iff, ap, subst,
  sym,
}
use nbes_backend.Python.{text, number, Dict, Fault}
use nbes_backend.Env.{Env}
use nbes_backend.Audit.{Trail, Entry, record_event, publish}
use nbes_backend.SittingApp.World.{Caller}

-- `BlueprintVersion`; the distributions are JSON objects, the tolerance is in thousandths.
pub record BlueprintVersion : Type 0 where
  pub id : ℕ
  pub subject_code : String
  pub version_no : ℕ
  pub topic_coverage : Dict
  pub cognitive_distribution : Dict
  pub difficulty_distribution : Dict
  pub sections : List Dict
  pub total_marks : ℕ
  pub tolerance : ℕ
  pub description : String
  pub published_at : Option ℕ
  pub published_by_id : Option ℕ

-- The validated data of the publish serializer; `none` is a key that is absent.
pub record BlueprintData : Type 0 where
  pub topic_coverage : Option Dict
  pub cognitive_distribution : Option Dict
  pub difficulty_distribution : Option Dict
  pub sections : Option (List Dict)
  pub total_marks : Option ℕ
  pub tolerance : Option ℕ
  pub description : Option String

abbrev given_or {ℓ} : {A : Type ℓ} → Option A → A → A
given_or none d = d
given_or (some a) d = a

-- The table, newest first, with the trail.
pub record Versions : Type 0 where
  pub versions : List BlueprintVersion
  pub trail : Trail

abbrev pub is_of : String → BlueprintVersion → Bool
is_of code v = str_eq v.subject_code code

-- `.order_by("-version_no").first() or 0` of one subject
unfoldable pub top_version : List BlueprintVersion → ℕ
top_version [] = 0
top_version (v ∷ vs) =
    let rest = top_version vs in if ltb rest v.version_no then v.version_no else rest

unfoldable pub next_version : String → List BlueprintVersion → ℕ
unfolding top_version
next_version code vs = top_version (select (is_of code) vs) + 1

module _ (env : Env) (caller : Caller) where
  -- The row that `objects.create` writes.
  abbrev new_version : String → BlueprintData → Versions → BlueprintVersion
  new_version code d w = record {
    id = w.trail.fresh;
    subject_code = code;
    version_no = next_version code w.versions;
    topic_coverage = given_or d.topic_coverage [];
    cognitive_distribution = given_or d.cognitive_distribution [];
    difficulty_distribution = given_or d.difficulty_distribution [];
    sections = given_or d.sections [];
    total_marks = given_or d.total_marks 100;
    tolerance = given_or d.tolerance 50;
    description = given_or d.description "";
    published_at = some w.trail.clock;
    published_by_id = caller.actor_id;
  }

  unfoldable pub publish_blueprint_version :
      String → BlueprintData → Versions → Result Fault (BlueprintVersion × Versions)
  unfolding record_event next_version
  publish_blueprint_version code d w =
      let v = new_version code d w in
      let t = w.trail in
      let state = ("subject_code", text code) ∷ ("version_no", number (pos v.version_no)) ∷ [] in
      let entry : Entry = record {
        actor_id = caller.actor_id;
        action = "BLUEPRINT_VERSION_PUBLISHED";
        entity_type = "blueprint_version";
        entity_id = env.str_uuid v.id;
        old_state = none;
        new_state = some state;
        request_id = caller.request_id;
        ip_address = caller.ip_address;
      } in
      elim (record_event env entry (record t { fresh = t.fresh + 1 })) [
        | err f ↦ err f
        | ok t' ↦ ok (
          v,
          record {
            versions = v ∷ w.versions;
            trail =
                publish "BlueprintVersionPublished"
                  (state ++ ("version_id", text (env.str_uuid v.id)) ∷ []) none t';
          },
        )
      ]

-- Versions that count down to 1.
abbrev pub CountDown : List BlueprintVersion → Type 0
CountDown [] = Unit
CountDown (v ∷ vs) = (v.version_no ≡ suc (length vs)) × CountDown vs

top_version-CountDown : (vs : List BlueprintVersion) → CountDown vs → top_version vs ≡ length vs
unfolding top_version
top_version-CountDown [] h = refl
top_version-CountDown (v ∷ vs) h = ground (arith, h.0, top_version-CountDown vs h.1)

CountDown-cons :
    (code : String) (v : BlueprintVersion) (vs : List BlueprintVersion)
    → v.version_no ≡ next_version v.subject_code vs
    → CountDown (select (is_of code) vs)
    → CountDown (select (is_of code) (v ∷ vs))
unfolding next_version
CountDown-cons code v vs n h = elim (Bool-cases (is_of code v)) [
  | inl e ↦ rw e (
    omega (
      arith,
      n,
      ap (λ c. top_version (select (is_of c) vs) + 1) ((eq_iff v.subject_code code).0 e),
      top_version-CountDown (select (is_of code) vs) h,
    ),
    h,
  )
  | inr e ↦ rw e h
]

module _ (env : Env) (caller : Caller) where
  published :
      (code : String) (d : BlueprintData) (w : Versions) (v : BlueprintVersion) (w' : Versions)
      → publish_blueprint_version env caller code d w ≡ ok (v, w')
      → (w'.versions ≡ v ∷ w.versions) × (v.version_no ≡ next_version v.subject_code w.versions)
  unfolding publish_blueprint_version
  published code d w v w' h = ground arith

  -- A version that is published stands on top of the versions there were, which stay as they are;
  -- and where the versions of every subject were numbered from 1 without a gap, so they are after it,
  -- that of its own subject included.
  pub publish_blueprint_version-CountDown :
      (code : String) (d : BlueprintData) (w : Versions) (v : BlueprintVersion) (w' : Versions)
      → publish_blueprint_version env caller code d w ≡ ok (v, w')
      → ((subject : String) → CountDown (select (is_of subject) w.versions))
      → (w'.versions ≡ v ∷ w.versions)
        × ((subject : String) → CountDown (select (is_of subject) w'.versions))
  publish_blueprint_version-CountDown code d w v w' h all_down =
      let (e, n) = published code d w v w' h in
      (
        e,
        λ subject.
            subst (λ l. CountDown (select (is_of subject) l)) (sym e)
              (CountDown-cons subject v w.versions n (all_down subject)),
      )
