-- ===== src/Users/Model.antt =====
-- apps/users/models.py: the rows of roles. A role is referred to by its name, a unique column. Dates
-- are in days, times in seconds.
use nbes_backend.Base.{ℕ, String, Bool, ◌||◌, Option, List, str_eq}
use nbes_backend.Python.{Fault}
use nbes_backend.Audit.{Trail}
use nbes_backend.Transaction.{Call}

pub record Role : Type 0 where
  pub name : String
  pub is_active : Bool

-- `RoleMutualExclusion`
pub record Exclusion : Type 0 where
  pub role_a : String
  pub role_b : String

pub record UserRole : Type 0 where
  pub id : ℕ
  pub user : ℕ
  pub role : String
  pub effective_from : ℕ
  pub effective_to : Option ℕ
  pub assigned_by : Option ℕ
  pub revoked_at : Option ℕ
  pub revoke_reason : String

pub data ChangeType : Type 0 where
  assigned revoked : ChangeType

pub record RoleChangeEvent : Type 0 where
  pub user : ℕ
  pub role : String
  pub change_type : ChangeType
  pub actor : Option ℕ
  pub reason : String

pub data ApprovalStatus : Type 0 where
  pending approved rejected expired : ApprovalStatus

-- `RoleAssignmentApproval`
pub record Approval : Type 0 where
  pub id : ℕ
  pub target_user : ℕ
  pub role : String
  pub effective_from : ℕ
  pub effective_to : Option ℕ
  pub requested_by : Option ℕ
  pub reviewed_by : Option ℕ
  pub status : ApprovalStatus
  pub review_note : String
  pub expires_at : ℕ

-- Rows newest first.
pub record Book : Type 0 where
  pub roles : List Role
  pub exclusions : List Exclusion
  pub user_roles : List UserRole
  pub changes : List RoleChangeEvent
  pub approvals : List Approval
  pub trail : Trail

pub data RoleError : Type 0 where
  role_not_found role_conflict role_already_assigned role_not_active : RoleError
  approval_not_found not_pending same_administrator approval_expired : RoleError
  role_crash : Fault → RoleError

abbrev pub Action : Type 0 → Type 0
Action = Call Book RoleError

-- `HIGH_PRIVILEGE_ROLES`
abbrev pub is_high_privilege : String → Bool
is_high_privilege r =
    str_eq r "director_general" || str_eq r "system_administrator" || str_eq r "nbec_member"
