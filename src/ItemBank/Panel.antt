-- ===== src/ItemBank/Panel.antt =====
-- The moderation panel: `register_panel_vote` of apps/itembank/services.py, as the endpoint `votes`
-- calls it and as code with a user row at hand could.
use nbes_backend.Base.{
  ℕ, ◌+◌, ◌==◌, String, Bool, true, false, not, Option, none, some, List, [], ◌∷◌, map, select, any,
  str_eq, ltb, leb, length, if◌then◌else◌,
}
use nbes_backend.Python.{text, listing, attribute_error, database_error}
use nbes_backend.Python.Text.{codes, is_space}
use nbes_backend.Env.{Env}
use nbes_backend.Transaction.{give, fail, read, ◌>>=◌, ◌>>◌, change, raise_if}
use nbes_backend.ItemBank.Model.{
  Status, moderation_panel, approved, rejected, locked_for_use, PanelVote, User, status_text,
}
use nbes_backend.ItemBank.World.{
  not_in_panel, too_few_words, already_voted, not_an_instance, crash, Action, or_raise, save_status,
  create_transition, notify, named, audit,
}

-- `len(s.split())`: the characters that start a word, `inside` telling whether one is going on.
unfoldable pub words_from : Bool → List ℕ → ℕ
unfolding is_space
words_from inside [] = 0
words_from inside (c ∷ cs) =
    let blank = words_from false cs in
    let word = words_from true cs in if is_space c then blank else if inside then word else 1 + word

abbrev pub word_count : String → ℕ
word_count s = words_from false (codes s)

-- What a caller passes as the panellist: the subject of a token, as a text, or a row.
pub data Panellist : Type 0 where
  sub_text : ℕ → Panellist
  row_of : User → Panellist

-- The key that the filter on votes compares.
abbrev pub key_of : Panellist → ℕ
key_of (sub_text s) = s
key_of (row_of u) = u.id

-- `PanelVote.objects.filter(panellist_id=key).exists()`
abbrev pub has_voted : ℕ → List PanelVote → Bool
has_voted key votes = any (λ (v : PanelVote). v.panellist_id == key) votes

-- `PanelVote.objects.create`: the field `panellist_id` is a relation and takes a row; the column
-- `vote` takes a text of at most 50 characters.
unfoldable pub create_vote : Panellist → Option String → String → Action User
create_vote (sub_text s) vote justification = fail not_an_instance
create_vote (row_of u) none justification = fail (crash database_error)
create_vote (row_of u) (some vote) justification = do
  raise_if (ltb 50 (length (codes vote))) (crash database_error)
  let v : PanelVote = record { panellist_id = u.id; vote = vote; justification = justification }
  change (λ w. record w { votes = v ∷ w.votes })
  give u

-- `votes.filter(vote=kind)`
unfoldable pub votes_for : String → List PanelVote → List PanelVote
votes_for kind votes = select (λ v. str_eq v.vote kind) votes

-- `str` of a panellist
unfoldable pub shown_user : List User → ℕ → String
shown_user [] id = ""
shown_user (u ∷ us) id = if u.id == id then u.shown else shown_user us id

abbrev pub is_in_panel : Status → Bool
is_in_panel moderation_panel = true
is_in_panel _ = false

module _ (env : Env) where
  -- Two approvals: approved, and locked for use at once.
  unfoldable pub approve_by_consensus : User → String → Action (Unit {0})
  unfolding shown_user votes_for
  approve_by_consensus panellist justification = do
    item ← read (λ w. w.item)
    save_status approved
    create_transition item.status approved panellist.id justification
    save_status locked_for_use
    create_transition approved locked_for_use panellist.id
        "Item approved and automatically locked for use"
    notify locked_for_use []
    votes ← read (λ w. votes_for "Approve" w.votes)
    users ← read (λ w. w.users)
    audit env (named "SYSTEM") "ITEM_CONSENSUAL_APPROVAL" "item" item.id none (
        some (
          ("status", text (status_text locked_for_use))
          ∷ ("approvers", listing (map (λ (v : PanelVote). shown_user users v.panellist_id) votes))
          ∷ []))

  unfoldable pub reject_by_consensus : User → Action (Unit {0})
  unfolding votes_for
  reject_by_consensus panellist = do
    item ← read (λ w. w.item)
    save_status rejected
    create_transition item.status rejected panellist.id "Consensual panel rejection"
    votes ← read (λ w. votes_for "Reject" w.votes)
    notify rejected (map (λ (v : PanelVote). v.justification) votes)
    audit env (named "SYSTEM") "ITEM_CONSENSUAL_REJECTION" "item" item.id none
        (some (("status", text (status_text rejected)) ∷ []))

  unfoldable pub register_panel_vote : Panellist → Option String → Option String → Action (Unit {0})
  unfolding votes_for create_vote approve_by_consensus reject_by_consensus words_from
  register_panel_vote panellist vote justification = do
    item ← read (λ w. w.item)
    raise_if (not (is_in_panel item.status)) (not_in_panel item.status)
    given ← or_raise (crash attribute_error) justification
    raise_if (ltb (word_count given) 30) (too_few_words (word_count given))
    earlier ← read (λ w. has_voted (key_of panellist) w.votes)
    raise_if earlier already_voted
    voter ← create_vote panellist vote given
    approve_count ← read (λ w. length (votes_for "Approve" w.votes))
    reject_count ← read (λ w. length (votes_for "Reject" w.votes))
    if leb 2 approve_count
        then approve_by_consensus voter given
        else (if leb 2 reject_count then reject_by_consensus voter else give tt)
