-- ===== src/Users/SignIn.antt =====
-- What the authentication of a request, `_mirror_profile` of shared/auth.py, writes to the roles of its
-- user: those of the token are added and the others revoked, without an approval. The profile of the user
-- stands already.
use nbes_backend.Base.{
  ℕ, ◌+◌, ◌/◌, String, Bool, not, ◌&&◌, ◌++◌, none, some, List, [], ◌∷◌, map, any, str_eq,
  if◌then◌else◌,
}
use nbes_backend.Env.{Env}
use nbes_backend.Users.Model.{UserRole, assigned, revoked, RoleChangeEvent, Book}
use nbes_backend.Users.Roles.{has_role, is_active_of, holds, check_conflict}

abbrev pub sync_reason : String
sync_reason = "Sync from JWT token (role removed in IAM)"

abbrev pub is_kept : List String → UserRole → Bool
is_kept names u = any (λ s. str_eq s u.role) names

-- The active assignments of the user whose role is none of the names, revoked.
unfoldable pub drop_roles : ℕ → List String → ℕ → List UserRole → List UserRole
drop_roles user names now [] = []
drop_roles user names now (u ∷ us) =
    let rest = drop_roles user names now us in
    if is_active_of user u && not (is_kept names u)
    then record u { revoked_at = some now; revoke_reason = sync_reason } ∷ rest
    else u ∷ rest

unfoldable pub dropped_events : ℕ → List String → List UserRole → List RoleChangeEvent
dropped_events user names [] = []
dropped_events user names (u ∷ us) =
    let rest = dropped_events user names us in
    if is_active_of user u && not (is_kept names u)
    then record {
      user = user;
      role = u.role;
      change_type = revoked;
      actor = none;
      reason = sync_reason;
    }
      ∷ rest
    else rest

abbrev pub token_row : ℕ → String → Book → UserRole
token_row user role b = record {
  id = b.trail.fresh;
  user = user;
  role = role;
  effective_from = b.trail.clock / 86400;
  effective_to = none;
  assigned_by = none;
  revoked_at = none;
  revoke_reason = "";
}

-- A role of the token, where it is known, excluded by no role that the user holds, and not held.
unfoldable pub add_role : ℕ → String → Book → Book
unfolding check_conflict holds
add_role user role b =
    if not (has_role role b.roles)
    then b
    else if check_conflict user role b.user_roles b.exclusions
    then b
    else if holds user role b.user_roles
    then b
    else (let t = b.trail in
        let e : RoleChangeEvent = record {
          user = user;
          role = role;
          change_type = assigned;
          actor = none;
          reason = "Auto-sync from JWT token";
        } in
        record b {
          user_roles = token_row user role b ∷ b.user_roles;
          changes = e ∷ b.changes;
          trail = record t { fresh = t.fresh + 1 };
        })

unfoldable pub add_roles : ℕ → List String → Book → Book
unfolding add_role
add_roles user [] b = b
add_roles user (role ∷ rest) b = add_roles user rest (add_role user role b)

-- `token_roles` are those that `get_nbes_role_names` reads.
unfoldable pub sync_roles : Env → ℕ → List String → Book → Book
unfolding drop_roles dropped_events add_roles
sync_roles env user token_roles b =
    let names = map env.role_name token_roles in
    add_roles user names (record b {
      user_roles = drop_roles user names b.trail.clock b.user_roles;
      changes = dropped_events user names b.user_roles ++ b.changes;
    })
