-- ===== src/Users/Roles.antt =====
-- `assign_role` and `revoke_role` of apps/users/services.py, and
-- `RoleMutualExclusion.check_conflict`. The calls of the identity provider, whose failures the code
-- swallows, and of the cache of permissions leave the tables alone.
use nbes_backend.Base.{
  ℕ, ◌+◌, ◌*◌, ◌/◌, ◌==◌, String, Bool, true, false, not, ◌&&◌, ◌||◌, Option, none, some, List, [],
  ◌∷◌, any, str_eq, ok, err, if◌then◌else◌,
}
use nbes_backend.Python.{Value, null, text, Dict}
use nbes_backend.Env.{Env}
use nbes_backend.Audit.{Entry, record_event, publish}
use nbes_backend.Transaction.{give, read, ◌>>=◌, ◌>>◌, change, raise_if}
use nbes_backend.SittingApp.World.{Caller}
use nbes_backend.Users.Model.{
  Role, Exclusion, UserRole, assigned, revoked, RoleChangeEvent, Approval, pending, role_not_found,
  role_conflict, role_already_assigned, role_not_active, role_crash, Action, is_high_privilege,
}

abbrev pub is_null_time : Option ℕ → Bool
is_null_time none = true
is_null_time (some _) = false

-- `Role.objects.get(name=role_name, is_active=True)` finds a row; `any_state` leaves the flag out.
abbrev pub has_role : String → List Role → Bool
has_role name roles = any (λ (r : Role). str_eq r.name name && r.is_active) roles

abbrev pub any_state : String → List Role → Bool
any_state name roles = any (λ (r : Role). str_eq r.name name) roles

-- An assignment of the user that is not revoked.
abbrev pub is_active_of : ℕ → UserRole → Bool
is_active_of user u = (u.user == user) && is_null_time u.revoked_at

unfoldable pub holds : ℕ → String → List UserRole → Bool
holds user role us = any (λ (u : UserRole). is_active_of user u && str_eq u.role role) us

-- The rule names the role on one side and a role that the user holds on the other.
abbrev pub blocks : ℕ → String → List UserRole → Exclusion → Bool
blocks user role us e =
    (str_eq e.role_a role && holds user e.role_b us)
    || (str_eq e.role_b role && holds user e.role_a us)

-- `check_conflict` finds a rule.
unfoldable pub check_conflict : ℕ → String → List UserRole → List Exclusion → Bool
unfolding holds
check_conflict user role us es = any (blocks user role us) es

abbrev pub date_or_null : Env → Option ℕ → Value
date_or_null env none = null
date_or_null env (some d) = text (env.iso_date d)

-- Direct, or queued for a second administrator.
pub data Outcome : Type 0 where
  direct queued : ℕ → Outcome

-- The first row of the key, revoked; keys are distinct.
unfoldable pub revoke_row : ℕ → String → ℕ → String → List UserRole → List UserRole
revoke_row user role now reason [] = []
revoke_row user role now reason (u ∷ us) =
    let rest = revoke_row user role now reason us in
    if is_active_of user u && str_eq u.role role
    then record u { revoked_at = some now; revoke_reason = reason } ∷ us
    else u ∷ rest

abbrev pub given_date : Option ℕ → ℕ → ℕ
given_date none clock = clock / 86400
given_date (some d) clock = d

module _ (env : Env) (caller : Caller) where
  -- `AuditEvent.record(entity_type="rbac", entity_id=user.id, ...)`
  unfoldable pub audit_role : String → ℕ → Option Dict → Dict → Action (Unit {0})
  unfolding record_event
  audit_role action user old_state new_state b =
      let entry : Entry = record {
        actor_id = caller.actor_id;
        action = action;
        entity_type = "rbac";
        entity_id = env.str_uuid user;
        old_state = old_state;
        new_state = some new_state;
        request_id = caller.request_id;
        ip_address = caller.ip_address;
      } in
      elim (record_event env entry b.trail) [
        | ok t ↦ ok (tt, record b { trail = t })
        | err f ↦ err (role_crash f)
      ]

  unfoldable pub publish_change : Dict → Action (Unit {0})
  unfolding publish
  publish_change payload =
      change (λ b. record b { trail = publish "UserRoleChanged" payload none b.trail })

  -- The row of a second administrator's approval, open for 48 hours.
  unfoldable pub queue_role : ℕ → String → ℕ → Option ℕ → Option ℕ → Action Outcome
  unfolding audit_role
  queue_role user role effective_from effective_to assigned_by = do
    trail ← read (λ b. b.trail)
    let expires_at = trail.clock + 48 * 3600
    let a : Approval = record {
      id = trail.fresh;
      target_user = user;
      role = role;
      effective_from = effective_from;
      effective_to = effective_to;
      requested_by = assigned_by;
      reviewed_by = none;
      status = pending;
      review_note = "";
      expires_at = expires_at;
    }
    change (λ b. record b {
      approvals = a ∷ b.approvals;
      trail = record trail { fresh = trail.fresh + 1 };
    })
    audit_role "ROLE_APPROVAL_REQUESTED" user none (
        ("role", text role)
        ∷ ("approval_id", text (env.str_uuid a.id))
        ∷ ("expires_at", text (env.iso_datetime expires_at))
        ∷ ("effective_to", date_or_null env effective_to)
        ∷ [])
    give (queued a.id)

  -- The row of an assignment, and that of its history.
  unfoldable pub grant_role : ℕ → String → ℕ → Option ℕ → Option ℕ → Option ℕ → String → Action ℕ
  grant_role user role effective_from effective_to assigned_by actor reason = do
    trail ← read (λ b. b.trail)
    let u : UserRole = record {
      id = trail.fresh;
      user = user;
      role = role;
      effective_from = effective_from;
      effective_to = effective_to;
      assigned_by = assigned_by;
      revoked_at = none;
      revoke_reason = "";
    }
    let e : RoleChangeEvent = record {
      user = user;
      role = role;
      change_type = assigned;
      actor = actor;
      reason = reason;
    }
    change (λ b. record b {
      user_roles = u ∷ b.user_roles;
      changes = e ∷ b.changes;
      trail = record trail { fresh = trail.fresh + 1 };
    })
    give u.id

  unfoldable pub assign_directly : ℕ → String → ℕ → Option ℕ → Option ℕ → String → Action Outcome
  unfolding grant_role audit_role publish_change
  assign_directly user role effective_from effective_to assigned_by reason = do
    id ← grant_role user role effective_from effective_to assigned_by assigned_by reason
    audit_role "ROLE_ASSIGNED" user (some (("role", text role) ∷ ("status", text "not_held") ∷ []))
        (("role", text role)
          ∷ ("effective_from", text (env.iso_date effective_from))
          ∷ ("effective_to", date_or_null env effective_to)
          ∷ [])
    publish_change (
        ("user_id", text (env.str_uuid user))
        ∷ ("change_type", text "assign")
        ∷ ("role", text role)
        ∷ ("effective_from", text (env.iso_date effective_from))
        ∷ ("effective_to", date_or_null env effective_to)
        ∷ [])
    give (direct id)

  unfoldable pub assign_role : ℕ → String → Option ℕ → Option ℕ → Option ℕ → String → Action Outcome
  unfolding check_conflict holds queue_role assign_directly
  assign_role user role effective_from effective_to assigned_by reason = do
    clock ← read (λ b. b.trail.clock)
    known ← read (λ b. has_role role b.roles)
    raise_if (not known) role_not_found
    blocked ← read (λ b. check_conflict user role b.user_roles b.exclusions)
    raise_if blocked role_conflict
    held ← read (λ b. holds user role b.user_roles)
    raise_if held role_already_assigned
    if is_high_privilege role
        then queue_role user role (given_date effective_from clock) effective_to assigned_by
        else (assign_directly user role (given_date effective_from clock) effective_to assigned_by
            reason)

  unfoldable pub revoke_role : ℕ → String → String → Option ℕ → Action (Unit {0})
  unfolding holds revoke_row audit_role publish_change
  revoke_role user role reason actor = do
    known ← read (λ b. any_state role b.roles)
    raise_if (not known) role_not_found
    held ← read (λ b. holds user role b.user_roles)
    raise_if (not held) role_not_active
    clock ← read (λ b. b.trail.clock)
    let e : RoleChangeEvent = record {
      user = user;
      role = role;
      change_type = revoked;
      actor = actor;
      reason = reason;
    }
    change (λ b. record b {
      user_roles = revoke_row user role clock reason b.user_roles;
      changes = e ∷ b.changes;
    })
    audit_role "ROLE_REVOKED" user (some (("role", text role) ∷ []))
        (("revoked_at", text (env.iso_datetime clock)) ∷ ("reason", text reason) ∷ [])
    publish_change (
        ("user_id", text (env.str_uuid user))
        ∷ ("change_type", text "revoke")
        ∷ ("role", text role)
        ∷ [])
