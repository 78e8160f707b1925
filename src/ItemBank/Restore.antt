-- ===== src/ItemBank/Restore.antt =====
-- A version that was saved with a draft, and its restoration later.
use nbes_backend.Base.{ℕ, pos, ltb_ℤ, Bool, ◌≡◌, true, Option, some, List, [], ◌∷◌, ℤ}
use nbes_backend.Env.{Env}
use nbes_backend.ItemBank.Model.{Metadata, ItemVersion}
use nbes_backend.ItemBank.Drafts.{snapshot_of}

-- The newest version carries the content and the assets of an older one.
abbrev pub IsCopy : ItemVersion → List ItemVersion → Type 0
IsCopy v [] = ⊥
IsCopy v (u ∷ rest) =
    (u.content ≡ v.content)
    × (u.asset_refs ≡ v.asset_refs)
    × (u.metadata_snapshot ≡ v.metadata_snapshot)

-- Hundredths in the five digits of the column of marks.
abbrev pub fits_column : ℤ → Bool
fits_column d = ltb_ℤ d (pos 100000)

abbrev pub FitsMarks : Metadata → Type 0
FitsMarks m = (d : ℤ) → m.marks ≡ some d → fits_column d ≡ true

abbrev IsSnapshot : Env → Metadata → Option ℕ → List ItemVersion → Type 0
IsSnapshot env m schema [] = ⊥
IsSnapshot env m schema (v ∷ rest) = v.metadata_snapshot ≡ snapshot_of env m schema
