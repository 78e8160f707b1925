-- ===== src/Users/Vouchers.antt =====
-- The approvals that vouch for roles of high privilege, and what keeps them.
use nbes_backend.Base.{
  ℕ, ◌==◌, ◌≡◌, ◌≢◌, ◌⊎◌, sym, inl, inr, String, Bool, true, false, Option, none, some, List, [],
  ◌∷◌, arith, All, Bool-cases, subst,
}
use nbes_backend.Env.{Env}
use nbes_backend.Audit.{Trail}
use nbes_backend.Users.Model.{pending, approved, UserRole, Approval, Book, is_high_privilege}
use nbes_backend.Users.Approvals.{find_approval, save_approval_row, expire_one, expire_all}

-- Two different persons.
abbrev pub AreTwo : Option ℕ → Option ℕ → Type 0
AreTwo (some r) (some q) = q ≢ r
AreTwo _ _ = ⊥

-- An approval of the role for the user, reviewed by somebody else than its requester.
abbrev pub Vouches : ℕ → String → Approval → Type 0
Vouches user role a =
    (a.target_user ≡ user)
    × (a.role ≡ role)
    × (a.status ≡ approved)
    × AreTwo a.reviewed_by a.requested_by

unfoldable pub HasVoucher : ℕ → String → List Approval → Type 0
HasVoucher user role [] = ⊥
HasVoucher user role (a ∷ rest) = Vouches user role a ⊎ HasVoucher user role rest

-- An assignment of a role of high privilege has such an approval, or is one that `Token` allows: a role
-- that a token of the user has carried.
unfoldable pub VouchedIf : (ℕ → String → Type 0) → Bool → UserRole → List Approval → Type 0
VouchedIf Token true u approvals = HasVoucher u.user u.role approvals ⊎ Token u.user u.role
VouchedIf Token false u approvals = Unit

abbrev pub IsVouched : (ℕ → String → Type 0) → List Approval → UserRole → Type 0
IsVouched Token approvals u = VouchedIf Token (is_high_privilege u.role) u approvals

abbrev pub IsAskedFor : Approval → Type 0
IsAskedFor a = a.requested_by ≢ none

pub record IsVouchedFor (Token : ℕ → String → Type 0) (b : Book) : Type 0 where
  pub vouched : All (IsVouched Token b.approvals) b.user_roles
  -- every approval, pending or not, has a requester
  pub requested : All IsAskedFor b.approvals

-- What every voucher in the one list is in the other.
abbrev pub Kept : List Approval → List Approval → Type 0
Kept old new = (user : ℕ) (role : String) → HasVoucher user role old → HasVoucher user role new

pub IsVouched-Kept :
    (Token : ℕ → String → Type 0) (old new : List Approval) (us : List UserRole)
    → Kept old new
    → All (IsVouched Token old) us
    → All (IsVouched Token new) us
unfolding VouchedIf
IsVouched-Kept Token old new [] k h = tt
IsVouched-Kept Token old new (u ∷ us) k h =
    (one (is_high_privilege u.role) h.0, IsVouched-Kept Token old new us k h.1)
  where
    one : (t : Bool) → VouchedIf Token t u old → VouchedIf Token t u new
    one true v = elim v [ inl a ↦ inl (k u.user u.role a) | inr a ↦ inr a ]
    one false v = tt

found_approval :
    (id : ℕ) (a : Approval) (as' : List Approval) → find_approval id as' ≡ some a → a.id ≡ id
unfolding find_approval
found_approval id a [] h = ground arith
found_approval id a (x ∷ xs) h = ground (arith, found_approval id a xs)

unexpired :
    (env : Env) (now : ℕ) (a : Approval) (t : Trail)
    → a.status ≡ approved
    → (expire_one env now a t).0 ≡ a
unfolding expire_one
unexpired env now a t h = ground arith

same_requester :
    (env : Env) (now : ℕ) (a : Approval) (t : Trail)
    → (expire_one env now a t).0.requested_by ≡ a.requested_by
unfolding expire_one
same_requester env now a t = ground arith

-- The review of a pending row keeps the approvals that there are.
pub save-Kept :
    (id : ℕ) (a a' : Approval) (as' : List Approval)
    → find_approval id as' ≡ some a
    → a.status ≡ pending
    → a'.id ≡ a.id
    → Kept as' (save_approval_row a' as')
unfolding HasVoucher find_approval save_approval_row
save-Kept id a a' [] f p e user role h = absurd h
save-Kept id a a' (x ∷ xs) f p e user role h = elim (Bool-cases (x.id == id)) [
  | inl q ↦
      let k : x ≡ a = ground arith in
      let s : (x.id == a'.id) ≡ true = ground arith in
      elim h [ inl v ↦ absurd (cc (v.2, k, p)) | inr v ↦ rw s (inr v) ]
  | inr q ↦
      let g : find_approval id xs ≡ some a = ground arith in
      let s : (x.id == a'.id) ≡ false = ground (arith, found_approval id a xs g) in
      elim h [ inl v ↦ rw s (inl v) | inr v ↦ rw s (inr (save-Kept id a a' xs g p e user role v)) ]
]

pub expire-Kept :
    (env : Env) (now : ℕ) (as' : List Approval) (t : Trail) → Kept as' (expire_all env now as' t).0
unfolding HasVoucher expire_all
expire-Kept env now [] t user role h = absurd h
expire-Kept env now (a ∷ rest) t user role h = elim h [
  | inl v ↦ inl (subst (Vouches user role) (sym (unexpired env now a t v.2)) v)
  | inr v ↦ inr (expire-Kept env now rest (expire_one env now a t).1 user role v)
]

pub save_asked :
    (a : Approval) (as' : List Approval)
    → IsAskedFor a
    → All IsAskedFor as'
    → All IsAskedFor (save_approval_row a as')
unfolding save_approval_row
save_asked a [] q h = tt
save_asked a (x ∷ xs) q h = elim (Bool-cases (x.id == a.id)) [
  | inl e ↦ rw e (q, h.1)
  | inr e ↦ rw e (h.0, save_asked a xs q h.1)
]

pub expire_asked :
    (env : Env) (now : ℕ) (as' : List Approval) (t : Trail)
    → All IsAskedFor as'
    → All IsAskedFor (expire_all env now as' t).0
unfolding expire_all expire_one
expire_asked env now [] t h = tt
expire_asked env now (a ∷ rest) t h = (
  subst (λ r. r ≢ none) (sym (same_requester env now a t)) h.0,
  expire_asked env now rest (expire_one env now a t).1 h.1,
)

pub find_asked :
    (id : ℕ) (a : Approval) (as' : List Approval)
    → find_approval id as' ≡ some a
    → All IsAskedFor as'
    → IsAskedFor a
unfolding find_approval
find_asked id a [] f h = ground arith
find_asked id a (x ∷ xs) f h = elim (Bool-cases (x.id == id)) [
  | inl e ↦ let k : x ≡ a = ground arith in subst IsAskedFor k h.0
  | inr e ↦ find_asked id a xs (ground arith) h.1
]

-- The row that an approval saves is a voucher.
pub save-Vouches :
    (id : ℕ) (a a' : Approval) (as' : List Approval)
    → find_approval id as' ≡ some a
    → a'.id ≡ a.id
    → Vouches a'.target_user a'.role a'
    → HasVoucher a'.target_user a'.role (save_approval_row a' as')
unfolding HasVoucher find_approval save_approval_row
save-Vouches id a a' [] f e v = ground arith
save-Vouches id a a' (x ∷ xs) f e v = elim (Bool-cases (x.id == a'.id)) [
  | inl q ↦ rw q (inl v)
  | inr q ↦
      let g : find_approval id xs ≡ some a = ground (arith, found_approval id a (x ∷ xs) f) in
      rw q (inr (save-Vouches id a a' xs g e v))
]
