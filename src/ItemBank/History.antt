-- ===== src/ItemBank/History.antt =====
-- What holds of an item after any requests since its draft.
use nbes_backend.Base.{
  ℕ, suc, ◌≡◌, ◌≢◌, refl, inl, inr, Bool, true, false, Option, none, some, List, [], ◌∷◌, arith, ok,
  length, Result-cases, sym, ◌∙◌, ap,
}
use nbes_backend.Env.{Env}
use nbes_backend.Audit.{Trail, record_atomic, payload_of}
use nbes_backend.Committee.Conflicts.{ConflictDeclaration}
use nbes_backend.ItemBank.Model.{
  Status, draft, submitted, in_review, reviewed, revised, moderation_panel, approved, rejected,
  locked_for_use, Metadata, ItemVersion, ItemTransition, User, Member, is_editable,
}
use nbes_backend.ItemBank.World.{Tables, uuid4, audit}
use nbes_backend.ItemBank.Drafts.{
  DraftData, has_mandatory_metadata, last_version, next_no, add_version, record_draft,
  create_item_draft, submit_target,
}
use nbes_backend.ItemBank.Review.{Auth}
use nbes_backend.ItemBank.Requests.{Request, handle_item, serve_item_one, serve_item}
use nbes_backend.ItemBank.Contract.{IsSaved, IsMoved, Moving, Change, handle_item-Change}

module _ (env : Env) where
  serve_item_one-cases :
      (auth : Auth) (r : Request) (w : Tables) (P : Tables → Type 0)
      → ((w' : Tables) → Change auth w w' → P w')
      → P w
      → P (serve_item_one env (auth, r) w)
  unfolding serve_item_one
  serve_item_one-cases auth r w P step same = elim (Result-cases (handle_item env auth r w)) [
    | inl ((u, w'), e) ↦ rw (e, serve_item_one) (step w' (handle_item-Change env auth w r e))
    | inr (x, e) ↦ rw (e, serve_item_one) same
  ]

  -- What every change keeps holds after any requests.
  pub serve_item_induction :
      (P : Tables → Type 0)
      → ((auth : Auth) (w w' : Tables) → Change auth w w' → P w → P w')
      → (requests : List (Auth × Request)) (w : Tables) → P w
      → P (serve_item env requests w)
  unfolding serve_item
  serve_item_induction P step [] w h = h
  serve_item_induction P step ((auth, r) ∷ rest) w h =
      serve_item_induction P step rest (serve_item_one env (auth, r) w)
        (serve_item_one-cases auth r w P (λ w' c. step auth w w' c h) h)

-- The diagram of an item as far as requests can take it.
infix 40 ◌⟶◌
pub data ◌⟶◌ : Status → Status → Type 0 where
  submit : draft ⟶ submitted
  assign : submitted ⟶ in_review
  review : in_review ⟶ reviewed
  revise : reviewed ⟶ revised
  resubmit : revised ⟶ moderation_panel

-- The log, newest first, runs along the diagram from the draft to the status.
unfoldable pub Logged : Status → List ItemTransition → Type 0
Logged s [] = s ≡ draft
Logged s (m ∷ older) = (m.to_state ≡ s) × (m.from_state ⟶ s) × Logged m.from_state older

-- Versions count down to 1, newest first, and the newest is the current one.
abbrev pub Numbered : List ItemVersion → Type 0
Numbered [] = Unit
Numbered (v ∷ older) = (v.version_no ≡ suc (length older)) × Numbered older

unfoldable pub IsCurrent : Option ℕ → List ItemVersion → Type 0
IsCurrent id [] = ⊥
IsCurrent id (v ∷ older) = id ≡ some v.id

-- From its assignment on the reviewer is somebody else than the author.
abbrev IsOther : Option ℕ → ℕ → Type 0
IsOther none author = ⊥
IsOther (some r) author = r ≢ author

unfoldable pub ReviewerFit : Status → Option ℕ → ℕ → Type 0
ReviewerFit draft r author = r ≡ none
ReviewerFit submitted r author = r ≡ none
ReviewerFit _ r author = IsOther r author

-- Out of the author's hands the mandatory metadata are there.
unfoldable pub MetadataFit : Status → Metadata → Type 0
MetadataFit s m = is_editable s ≡ false → has_mandatory_metadata m ≡ true

-- The first list is what is left of the second from some place on.
pub data IsEnd {A : Type 0} (old : List A) : List A → Type 0 where
  whole : IsEnd old old
  after : (x : A) {xs : List A} → IsEnd old xs → IsEnd old (x ∷ xs)

pub record IsProper (w : Tables) : Type 0 where
  pub logged : Logged w.item.status w.transitions
  pub numbered : Numbered w.versions
  pub current : IsCurrent w.item.current_version_id w.versions
  pub reviewer_fit : ReviewerFit w.item.status w.item.assigned_reviewer_id w.item.author_id
  pub metadata_fit : MetadataFit w.item.status w.item.metadata
  pub unvoted : w.votes ≡ []

last_version-Numbered :
    (vs : List ItemVersion) → Numbered vs → next_no (last_version vs) ≡ suc (length vs)
unfolding last_version
last_version-Numbered [] h = refl
last_version-Numbered (v ∷ older) h = ground (arith, h.0, last_version-Numbered older h.1)

saved-Numbered :
    (w : Tables) (vs : List ItemVersion) (id : Option ℕ)
    → IsSaved w vs id
    → Numbered w.versions
    → Numbered vs × IsCurrent id vs
unfolding IsCurrent
saved-Numbered w [] id s n = absurd s
saved-Numbered w (v ∷ rest) id s n =
    ((s.1 ∙ last_version-Numbered w.versions n ∙ ap (λ l. suc (length l)) (sym s.0), rw s.0 n), s.2)

moved-Logged :
    (s t : Status) (old new : List ItemTransition)
    → IsMoved s t old new
    → s ⟶ t
    → Logged s old
    → Logged t new
unfolding Logged
moved-Logged s t old [] m e l = absurd m
moved-Logged s t old (x ∷ rest) m e l = (m.2, rw m.1 e, rw (m.0, m.1) l)

submitting-⟶ : (s : Status) → is_editable s ≡ true → s ⟶ submit_target s
unfolding is_editable
submitting-⟶ draft h = submit
submitting-⟶ revised h = resubmit
submitting-⟶ _ h = ground arith

Moving-IsProper :
    (s t : Status) (w w' : Tables)
    → s ⟶ t
    → Moving s t w w'
    → ReviewerFit t w.item.assigned_reviewer_id w.item.author_id
    → MetadataFit t w.item.metadata
    → IsProper w
    → IsProper w'
Moving-IsProper s t w w' e m r d h = record {
  logged = rw m.1 (moved-Logged s t w.transitions w'.transitions m.2 e (rw m.0 at h.logged));
  numbered = rw m.3.0 h.numbered;
  current = rw (m.1, m.3.0) h.current;
  reviewer_fit = rw m.1 r;
  metadata_fit = rw m.1 d;
  unvoted = m.3.2 ∙ h.unvoted;
}

Change-IsProper : (auth : Auth) (w w' : Tables) → Change auth w w' → IsProper w → IsProper w'
unfolding ReviewerFit MetadataFit is_editable
Change-IsProper auth w w' (Change.saved f) h =
    let n = saved-Numbered w w'.versions w'.item.current_version_id f.5 h.numbered in
    record {
      logged = rw (f.2, f.7) h.logged;
      numbered = n.0;
      current = n.1;
      reviewer_fit = rw (f.2, f.3, f.4) h.reviewer_fit;
      metadata_fit = λ k. ground (arith, f.1, f.2);
      unvoted = f.8 ∙ h.unvoted;
    }
Change-IsProper auth w w' (Change.commented f c) h = record {
  logged = rw (f.0, f.2) h.logged;
  numbered = rw f.1 h.numbered;
  current = rw (f.0, f.1) h.current;
  reviewer_fit = rw f.0 h.reviewer_fit;
  metadata_fit = rw f.0 h.metadata_fit;
  unvoted = f.3 ∙ h.unvoted;
}
Change-IsProper auth w w' (Change.decided id rationale a t f c) h = record {
  logged = rw (f.0, f.2) h.logged;
  numbered = rw f.1 h.numbered;
  current = rw (f.0, f.1) h.current;
  reviewer_fit = rw f.0 h.reviewer_fit;
  metadata_fit = rw f.0 h.metadata_fit;
  unvoted = f.3 ∙ h.unvoted;
}
Change-IsProper auth w w' (Change.submitting a e d m) h =
    Moving-IsProper w.item.status (submit_target w.item.status) w w' (submitting-⟶ w.item.status e)
      m (ground (arith, h.reviewer_fit)) (λ k. d) h
Change-IsProper auth w w' (Change.assigning u a n c m) h = record {
  logged = rw m.1 (
      moved-Logged submitted in_review w.transitions w'.transitions m.2 assign
        (rw m.0 at h.logged));
  numbered = rw m.3.0 h.numbered;
  current = rw (m.1, m.3.0) h.current;
  reviewer_fit = rw m.1 (λ e. ground arith);
  metadata_fit = rw m.1 (λ k. h.metadata_fit (rw m.0));
  unvoted = m.3.2 ∙ h.unvoted;
}
Change-IsProper auth w w' (Change.reviewing m) h =
    Moving-IsProper in_review reviewed w w' review m (rw m.0 at h.reviewer_fit)
      (λ k. h.metadata_fit (rw m.0)) h
Change-IsProper auth w w' (Change.revising a m) h =
    Moving-IsProper reviewed revised w w' revise m (rw m.0 at h.reviewer_fit)
      (λ k. h.metadata_fit (rw m.0)) h

module _ (env : Env) (sub : ℕ) (d : DraftData) (users : List User) (members : List Member)
    (conflicts : List ConflictDeclaration) (schema : Option ℕ) (trail : Trail) {w : Tables} where
  create_effect :
      create_item_draft env sub d users members conflicts schema trail ≡ ok w → IsProper w
  unfolding create_item_draft record_draft add_version uuid4 audit record_atomic payload_of Logged
      IsCurrent ReviewerFit MetadataFit is_editable
  create_effect h = record {
    logged = ground arith;
    numbered = ground arith;
    current = ground arith;
    reviewer_fit = ground arith;
    metadata_fit = λ k. ground arith;
    unvoted = ground arith;
  }

  -- After any requests since the creation of its draft an item has a log that runs along the diagram
  -- from the draft to its status; versions that are numbered from 1 without a gap, the newest of them
  -- the current one; from its assignment on a reviewer, and none before, who is not the author; its
  -- mandatory metadata, unless its author may edit it; and no vote.
  pub item-IsProper :
      (requests : List (Auth × Request))
      → create_item_draft env sub d users members conflicts schema trail ≡ ok w
      → IsProper (serve_item env requests w)
  item-IsProper requests h =
      serve_item_induction env IsProper Change-IsProper requests w (create_effect h)

-- No requests approve, reject or lock an item that is none of these.
abbrev pub is_settled : Status → Bool
is_settled approved = true
is_settled rejected = true
is_settled locked_for_use = true
is_settled _ = false

-- Whatever requests are served to an item that is not approved, rejected or locked for use, it
-- becomes none of these.
pub item_never_settled :
    (env : Env) (requests : List (Auth × Request)) (w : Tables)
    → is_settled w.item.status ≡ false
    → is_settled (serve_item env requests w).item.status ≡ false
item_never_settled env requests w h =
    serve_item_induction env (λ v. is_settled v.item.status ≡ false) step requests w h
  where
    step :
        (auth : Auth) (v v' : Tables)
        → Change auth v v'
        → is_settled v.item.status ≡ false
        → is_settled v'.item.status ≡ false
    step auth v v' (Change.saved f) h = rw f.2 h
    step auth v v' (Change.commented f c) h = rw f.0 h
    step auth v v' (Change.decided id r a t f c) h = rw f.0 h
    step auth v v' (Change.submitting a e d m) h = ground arith
    step auth v v' (Change.assigning u a n c m) h = rw m.1 refl
    step auth v v' (Change.reviewing m) h = rw m.1 refl
    step auth v v' (Change.revising a m) h = rw m.1 refl

-- Versions are only added: those of before stay, in front of them the newer ones.
pub versions_kept :
    (env : Env) (requests : List (Auth × Request)) (w : Tables)
    → IsEnd w.versions (serve_item env requests w).versions
versions_kept env requests w =
    serve_item_induction env (λ v. IsEnd w.versions v.versions) step requests w IsEnd.whole
  where
    saving :
        (v : Tables) (vs : List ItemVersion) (id : Option ℕ)
        → IsSaved v vs id
        → IsEnd w.versions v.versions
        → IsEnd w.versions vs
    saving v [] id s h = absurd s
    saving v (x ∷ rest) id s h = IsEnd.after x (rw s.0 h)

    step :
        (auth : Auth) (v v' : Tables)
        → Change auth v v'
        → IsEnd w.versions v.versions
        → IsEnd w.versions v'.versions
    step auth v v' (Change.saved f) h = saving v v'.versions v'.item.current_version_id f.5 h
    step auth v v' (Change.commented f c) h = rw f.1 h
    step auth v v' (Change.decided id r a t f c) h = rw f.1 h
    step auth v v' (Change.submitting a e d m) h = rw m.3.0 h
    step auth v v' (Change.assigning u a n c m) h = rw m.3.0 h
    step auth v v' (Change.reviewing m) h = rw m.3.0 h
    step auth v v' (Change.revising a m) h = rw m.3.0 h
