-- ===== src/Users/Contract.antt =====
-- The changes that a committed request on roles makes, apart from the code that makes them.
use nbes_backend.Base.{
  ℕ, String, ◌≡◌, refl, inl, inr, Bool, true, false, Option, none, some, List, [], ◌∷◌, arith, ok,
  Option-cases, Bool-cases, Result-cases, subst,
}
use nbes_backend.Env.{Env}
use nbes_backend.Audit.{Trail, record_atomic, payload_of, publish}
use nbes_backend.SittingApp.World.{Caller}
use nbes_backend.Users.Model.{
  pending, approved, rejected, UserRole, Approval, Book, is_high_privilege,
}
use nbes_backend.Users.Roles.{
  holds, check_conflict, revoke_row, audit_role, publish_change, queue_role, grant_role,
  assign_directly, assign_role, revoke_role, given_date, Outcome,
}
use nbes_backend.Users.Approvals.{
  Reviewer, find_approval, save_approval_row, reviewed, is_requester, do_approve, do_reject,
  approve_request, reject_request, expire_all, expire_pending_role_approvals,
}
use nbes_backend.Users.Requests.{
  Request, assign, revoke, approve, reject, expire, visit, handle_roles,
}

-- One active assignment more.
abbrev pub IsGranted : ℕ → String → List UserRole → List UserRole → Type 0
IsGranted user role old [] = ⊥
IsGranted user role old (u ∷ rest) =
    (rest ≡ old) × (u.user ≡ user) × (u.role ≡ role) × (u.revoked_at ≡ none)

-- One pending approval more, asked for by `requester`.
abbrev pub IsAsked : ℕ → List Approval → List Approval → Type 0
IsAsked requester old [] = ⊥
IsAsked requester old (a ∷ rest) =
    (rest ≡ old) × (a.status ≡ pending) × (a.requested_by ≡ some requester)

abbrev pub is_approval : Request → Bool
is_approval (approve id note) = true
is_approval _ = false

-- A change of the roles of users; `approving` where it may be an approval.
pub data Change (approving : Bool) (b b' : Book) : Type 0 where
  -- a role of no high privilege, which the user does not hold and no rule forbids
  granted :
      (user : ℕ) (role : String)
      → is_high_privilege role ≡ false
      → holds user role b.user_roles ≡ false
      → check_conflict user role b.user_roles b.exclusions ≡ false
      → IsGranted user role b.user_roles b'.user_roles
      → b'.approvals ≡ b.approvals
      → Change approving b b'
  asked :
      (requester : ℕ)
      → IsAsked requester b.approvals b'.approvals
      → b'.user_roles ≡ b.user_roles
      → Change approving b b'
  removed :
      (user : ℕ) (role reason : String) (now : ℕ)
      → b'.user_roles ≡ revoke_row user role now reason b.user_roles
      → b'.approvals ≡ b.approvals
      → Change approving b b'
  -- a role that the user does not hold, by the approval of somebody other than the requester
  vouched :
      (id : ℕ) (a : Approval) (by : Reviewer) (note : String)
      → approving ≡ true
      → find_approval id b.approvals ≡ some a
      → a.status ≡ pending
      → is_requester by.id a.requested_by ≡ false
      → holds a.target_user a.role b.user_roles ≡ false
      → IsGranted a.target_user a.role b.user_roles b'.user_roles
      → b'.approvals ≡ save_approval_row (reviewed approved by note a) b.approvals
      → Change approving b b'
  refused :
      (id : ℕ) (a : Approval) (by : Reviewer) (note : String)
      → find_approval id b.approvals ≡ some a
      → a.status ≡ pending
      → b'.approvals ≡ save_approval_row (reviewed rejected by note a) b.approvals
      → b'.user_roles ≡ b.user_roles
      → Change approving b b'
  unchanged : b' ≡ b → Change approving b b'
  lapsed :
      (env : Env) (now : ℕ) (t : Trail)
      → b'.approvals ≡ (expire_all env now b.approvals t).0
      → b'.user_roles ≡ b.user_roles
      → Change approving b b'

module _ (env : Env) (caller : Caller) (by : Reviewer) (b : Book) {b' : Book} where
  direct_effect :
      (user : ℕ) (role : String) (start : ℕ) (end : Option ℕ) (reason : String) {o : Outcome}
      → assign_directly env caller user role start end (some by.id) reason b ≡ ok (o, b')
      → IsGranted user role b.user_roles b'.user_roles
        × (b'.approvals ≡ b.approvals)
        × (b'.exclusions ≡ b.exclusions)
  unfolding assign_directly grant_role audit_role publish_change record_atomic payload_of publish
  direct_effect user role start end reason h = ground arith

  queue_effect :
      (user : ℕ) (role : String) (start : ℕ) (end : Option ℕ) {o : Outcome}
      → queue_role env caller user role start end (some by.id) b ≡ ok (o, b')
      → IsAsked by.id b.approvals b'.approvals
        × (b'.user_roles ≡ b.user_roles)
        × (b'.exclusions ≡ b.exclusions)
  unfolding queue_role audit_role record_atomic payload_of publish
  queue_effect user role start end h = ground arith

  revoke_effect :
      (user : ℕ) (role reason : String)
      → handle_roles env caller by (revoke user role reason) b ≡ ok (tt, b')
      → (b'.user_roles ≡ revoke_row user role b.trail.clock reason b.user_roles)
        × (b'.approvals ≡ b.approvals)
        × (b'.exclusions ≡ b.exclusions)
  unfolding handle_roles revoke_role audit_role publish_change record_atomic payload_of publish
  revoke_effect user role reason h = ground arith

  approve_effect :
      (id : ℕ) (note : String) (a : Approval)
      → find_approval id b.approvals ≡ some a
      → handle_roles env caller by (approve id note) b ≡ ok (tt, b')
      → (a.status ≡ pending)
        × (is_requester by.id a.requested_by ≡ false)
        × (holds a.target_user a.role b.user_roles ≡ false)
        × IsGranted a.target_user a.role b.user_roles b'.user_roles
        × (b'.approvals ≡ save_approval_row (reviewed approved by note a) b.approvals)
        × (b'.exclusions ≡ b.exclusions)
  unfolding handle_roles approve_request do_approve grant_role audit_role publish_change
      record_atomic payload_of publish
  approve_effect id note a f h = ground arith

  reject_effect :
      (id : ℕ) (note : String) (a : Approval)
      → find_approval id b.approvals ≡ some a
      → handle_roles env caller by (reject id note) b ≡ ok (tt, b')
      → (a.status ≡ pending)
        × (b'.approvals ≡ save_approval_row (reviewed rejected by note a) b.approvals)
        × (b'.user_roles ≡ b.user_roles)
        × (b'.exclusions ≡ b.exclusions)
  unfolding handle_roles reject_request do_reject audit_role record_atomic payload_of publish
  reject_effect id note a f h = ground arith

  assign_effect :
      (user : ℕ) (role : String) (start end : Option ℕ) (reason : String)
      → handle_roles env caller by (assign user role start end reason) b ≡ ok (tt, b')
      → Change false b b' × (b'.exclusions ≡ b.exclusions)
  unfolding handle_roles assign_role
  assign_effect user role start end reason h =
      let day = given_date start b.trail.clock in
      elim (Bool-cases (is_high_privilege role)) [
        | inl e ↦ elim (Result-cases (queue_role env caller user role day end (some by.id) b)) [
          | inr (x, q) ↦ ground arith
          | inl ((o, b1), q) ↦
              let k : b1 ≡ b' = ground arith in
              let f = queue_effect user role day end {o = o} (
                subst (λ x. queue_role env caller user role day end (some by.id) b ≡ ok (o, x)) k
                  q) in
              (Change.asked by.id f.0 f.1, f.2)
        ]
        | inr e ↦
            elim (Result-cases
              (assign_directly env caller user role day end (some by.id) reason b)) [
                | inr (x, q) ↦ ground arith
                | inl ((o, b1), q) ↦
                    let k : b1 ≡ b' = ground arith in
                    let f = direct_effect user role day end reason {o = o} (
                      subst
                        (λ x.
                          assign_directly env caller user role day end (some by.id) reason b
                          ≡ ok (o, x))
                        k q) in
                    (Change.granted user role e (ground arith) (ground arith) f.0 f.1, f.2)
              ]
      ]

  -- Every request on roles that commits makes a change that the contract allows, and leaves the rules
  -- of mutual exclusion as they are.
  pub handle_roles-Change :
      (r : Request)
      → handle_roles env caller by r b ≡ ok (tt, b')
      → Change (is_approval r) b b' × (b'.exclusions ≡ b.exclusions)
  unfolding handle_roles expire_pending_role_approvals
  handle_roles-Change (assign user role start end reason) h =
      assign_effect user role start end reason h
  handle_roles-Change (revoke user role reason) h =
      let f = revoke_effect user role reason h in
      (Change.removed user role reason b.trail.clock f.0 f.1, f.2)
  handle_roles-Change (approve id note) h = elim (Option-cases (find_approval id b.approvals)) [
    | inl e ↦ absurd (unfold approve_request in cc (h, e))
    | inr (a, e) ↦
        let f = approve_effect id note a e h in
        (Change.vouched id a by note refl e f.0 f.1 f.2 f.3 f.4, f.5)
  ]
  handle_roles-Change (reject id note) h = elim (Option-cases (find_approval id b.approvals)) [
    | inl e ↦ absurd (unfold reject_request in cc (h, e))
    | inr (a, e) ↦
        let f = reject_effect id note a e h in (Change.refused id a by note e f.0 f.1 f.2, f.3)
  ]
  handle_roles-Change visit h = (Change.unchanged (ground arith), ground arith)
  handle_roles-Change expire h =
      (Change.lapsed env b.trail.clock b.trail (ground arith) (ground arith), ground arith)
