-- ===== src/Users/Requests.antt =====
-- The endpoints of apps/users/views.py that change roles, and the task that expires approvals, one
-- after another, each some seconds after the one before.
use nbes_backend.Base.{
  ℕ, ◌+◌, Bool, true, false, if◌then◌else◌, String, Option, some, List, [], ◌∷◌, ok, err,
}
use nbes_backend.Env.{Env}
use nbes_backend.Transaction.{give, ◌>>◌}
use nbes_backend.SittingApp.World.{Caller}
use nbes_backend.Users.Model.{Book, Action}
use nbes_backend.Users.Roles.{assign_role, revoke_role}
use nbes_backend.Users.SignIn.{sync_roles}
use nbes_backend.Users.Approvals.{
  Reviewer, approve_request, reject_request, expire_pending_role_approvals,
}

-- `request.user` is the row of the caller.
pub data Request : Type 0 where
  assign : ℕ → String → Option ℕ → Option ℕ → String → Request
  revoke : ℕ → String → String → Request
  approve reject : ℕ → String → Request
  expire : Request
  -- any other request of a user
  visit : Request

module _ (env : Env) (caller : Caller) (user : Reviewer) where
  unfoldable pub handle_roles : Request → Action (Unit {0})
  unfolding assign_role revoke_role approve_request reject_request expire_pending_role_approvals
  handle_roles (assign target role effective_from effective_to reason) b =
      (assign_role env caller target role effective_from effective_to (some user.id) reason
          >> give tt)
        b
  handle_roles (revoke target role reason) b =
      revoke_role env caller target role reason (some user.id) b
  handle_roles (approve id note) b = approve_request env caller id user note b
  handle_roles (reject id note) b = reject_request env caller id user note b
  handle_roles visit b = ok (tt, b)
  handle_roles expire b = ok (tt, expire_pending_role_approvals env b)

abbrev pub later : ℕ → Book → Book
later seconds b = let t = b.trail in record b { trail = record t { clock = t.clock + seconds } }

pub record Event : Type 0 where
  pub seconds : ℕ
  pub caller : Caller
  pub user : Reviewer
  pub request : Request
  pub token_roles : List String

-- Every request but the task is authenticated, and what that writes stays.
abbrev pub is_task : Request → Bool
is_task expire = true
is_task _ = false

unfoldable pub sign_in : Env → Event → Book → Book
unfolding sync_roles
sign_in env e b =
    if is_task e.request
    then later e.seconds b
    else sync_roles env e.user.id e.token_roles (later e.seconds b)

-- The tables after one request, whether it is answered or refused, and after one and another.
unfoldable pub serve_roles_one : Env → Event → Book → Book
unfolding sign_in
serve_roles_one env e b = elim (handle_roles env e.caller e.user e.request (sign_in env e b)) [
  | ok (_, b') ↦ b'
  | err _ ↦ sign_in env e b
]

unfoldable pub serve_roles : Env → List Event → Book → Book
serve_roles env [] b = b
serve_roles env (e ∷ rest) b = serve_roles env rest (serve_roles_one env e b)
