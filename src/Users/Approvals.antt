-- ===== src/Users/Approvals.antt =====
-- `RoleAssignmentApproval.do_approve` and `do_reject` of apps/users/models.py, as
-- `RoleAssignmentApprovalActionView` of apps/users/views.py calls them, and
-- `expire_pending_role_approvals` of apps/users/tasks.py.
use Prim.Native.String.{◌++◌ as concat}
use Prim.Native.Char.{code}
use nbes_backend.Base.{
  ℕ, ◌==◌, String, Bool, true, false, not, ◌&&◌, ◌||◌, Option, none, some, List, [], ◌∷◌, ltb,
  if◌then◌else◌,
}
use nbes_backend.Python.{text, database_error}
use nbes_backend.Env.{Env}
use nbes_backend.Audit.{Trail, Entry, record_atomic}
use nbes_backend.Transaction.{give, fail, read, ◌>>=◌, ◌>>◌, change, raise_if}
use nbes_backend.SittingApp.World.{Caller}
use nbes_backend.Users.Model.{
  ApprovalStatus, pending, approved, rejected, expired, Approval, Book, approval_not_found,
  not_pending, same_administrator, approval_expired, role_crash, Action,
}
use nbes_backend.Users.Roles.{holds, audit_role, publish_change, grant_role}

-- The reviewing administrator: the key and the address of the row.
pub record Reviewer : Type 0 where
  pub id : ℕ
  pub email : String

unfoldable pub find_approval : ℕ → List Approval → Option Approval
find_approval id [] = none
find_approval id (a ∷ as') = if a.id == id then some a else find_approval id as'

-- The first row of the key, with its new status; keys are distinct.
unfoldable pub save_approval_row : Approval → List Approval → List Approval
save_approval_row a [] = []
save_approval_row a (x ∷ xs) =
    let rest = save_approval_row a xs in if x.id == a.id then a ∷ xs else x ∷ rest

abbrev pub is_pending_approval : ApprovalStatus → Bool
is_pending_approval pending = true
is_pending_approval _ = false

abbrev pub is_requester : ℕ → Option ℕ → Bool
is_requester reviewer none = false
is_requester reviewer (some r) = r == reviewer

abbrev or_no_approval : Option Approval → Action Approval
or_no_approval none = fail approval_not_found
or_no_approval (some a) = give a

-- The approval as a review leaves it.
abbrev pub reviewed : ApprovalStatus → Reviewer → String → Approval → Approval
reviewed s reviewer note a = record a {
  status = s;
  reviewed_by = some reviewer.id;
  review_note = note;
}

-- `s.strip(". ")`; the text below starts with neither a dot nor a blank.
unfoldable pub strip_dots : String → String
strip_dots String.[] = ""
strip_dots (String.◌∷◌ c s) = elim (strip_dots s) [
  | String.[] ↦ if code c == 46 || code c == 32 then "" else String.◌∷◌ c ""
  | String.◌∷◌ d ds ↦ String.◌∷◌ c (String.◌∷◌ d ds)
]

abbrev pub approval_reason : Reviewer → String → String
approval_reason reviewer note =
    strip_dots (concat "Two-admin approval by " (concat reviewer.email (concat ". Note: " note)))

module _ (env : Env) (caller : Caller) where
  -- The column's constraint refuses a second assignment of the role.
  unfoldable pub do_approve : Approval → Reviewer → String → Action (Unit {0})
  unfolding holds grant_role save_approval_row
  do_approve a reviewer note = do
    raise_if (not (is_pending_approval a.status)) not_pending
    raise_if (is_requester reviewer.id a.requested_by) same_administrator
    clock ← read (λ b. b.trail.clock)
    raise_if (ltb a.expires_at clock) approval_expired
    held ← read (λ b. holds a.target_user a.role b.user_roles)
    raise_if held (role_crash database_error)
    grant_role env caller a.target_user a.role a.effective_from a.effective_to (some reviewer.id)
        (some reviewer.id) (approval_reason reviewer note)
    change (λ b. record b {
      approvals = save_approval_row (reviewed approved reviewer note a) b.approvals;
    })

  unfoldable pub do_reject : Approval → Reviewer → String → Action (Unit {0})
  unfolding save_approval_row
  do_reject a reviewer note = do
    raise_if (not (is_pending_approval a.status)) not_pending
    raise_if (is_requester reviewer.id a.requested_by) same_administrator
    change (λ b. record b {
      approvals = save_approval_row (reviewed rejected reviewer note a) b.approvals;
    })

  -- The endpoint, on the row of the path.
  unfoldable pub approve_request : ℕ → Reviewer → String → Action (Unit {0})
  unfolding find_approval do_approve audit_role publish_change
  approve_request id reviewer note = do
    found ← read (λ b. find_approval id b.approvals)
    a ← or_no_approval found
    do_approve a reviewer note
    audit_role env caller "ROLE_APPROVAL_APPROVED" a.target_user none (
        ("role", text a.role)
        ∷ ("approval_id", text (env.str_uuid a.id))
        ∷ ("reviewer", text reviewer.email)
        ∷ [])
    publish_change env caller (
        ("user_id", text (env.str_uuid a.target_user))
        ∷ ("change_type", text "assign")
        ∷ ("role", text a.role)
        ∷ ("via_approval", text (env.str_uuid a.id))
        ∷ [])

  unfoldable pub reject_request : ℕ → Reviewer → String → Action (Unit {0})
  unfolding find_approval do_reject audit_role
  reject_request id reviewer note = do
    found ← read (λ b. find_approval id b.approvals)
    a ← or_no_approval found
    do_reject a reviewer note
    audit_role env caller "ROLE_APPROVAL_REJECTED" a.target_user
        (some (("role", text a.role) ∷ ("approval_id", text (env.str_uuid a.id)) ∷ []))
        (("reviewer", text reviewer.email) ∷ ("note", text note) ∷ [])

-- One pending approval that is past its time, with its audit row.
abbrev pub is_stale : ℕ → Approval → Bool
is_stale now a = is_pending_approval a.status && ltb a.expires_at now

unfoldable pub expire_one : Env → ℕ → Approval → Trail → Approval × Trail
unfolding record_atomic
expire_one env now a t =
    let e : Entry = record {
      actor_id = none;
      action = "ROLE_APPROVAL_EXPIRED";
      entity_type = "rbac";
      entity_id = env.str_uuid a.target_user;
      old_state = some (
          ("role", text a.role)
          ∷ ("approval_id", text (env.str_uuid a.id))
          ∷ ("status", text "pending")
          ∷ []);
      new_state =
          some (("status", text "expired") ∷ ("expired_at", text (env.iso_datetime now)) ∷ []);
      request_id = none;
      ip_address = none;
    } in
    if is_stale now a then (record a { status = expired }, record_atomic env e t) else (a, t)

unfoldable pub expire_all : Env → ℕ → List Approval → Trail → List Approval × Trail
unfolding expire_one
expire_all env now [] t = ([], t)
expire_all env now (a ∷ as') t =
    let (a', t1) = expire_one env now a t in
    let (rest, t2) = expire_all env now as' t1 in (a' ∷ rest, t2)

unfoldable pub expire_pending_role_approvals : Env → Book → Book
unfolding expire_all
expire_pending_role_approvals env b =
    let (rows, t) = expire_all env b.trail.clock b.approvals b.trail in
    record b { approvals = rows; trail = t }
