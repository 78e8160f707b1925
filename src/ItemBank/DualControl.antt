-- ===== src/ItemBank/DualControl.antt =====
-- Two persons behind every export: what a cosignature leaves, and what holds of the vault after any
-- calls and waits.
use nbes_backend.Base.{
  ℕ, suc, ◌+◌, ◌≤◌, ◌<◌, ◌==◌, ◌≡◌, ◌≢◌, refl, inl, inr, true, Option, none, some, List, [], ◌∷◌,
  arith, ok, length, Result-cases, Option-cases, Bool-cases, String, All, if◌then◌else◌,
}
use nbes_backend.Env.{Env}
use nbes_backend.Audit.{record_atomic, payload_of, publish}
use nbes_backend.ItemBank.Model.{User}
use nbes_backend.ItemBank.World.{find_user}
use nbes_backend.ItemBank.Vault.{
  ExportStatus, pending, executed, expired, VaultExportRequest, Vault, is_pending, find_export,
  user_by_id, save_export, is_vault_officer, audit_export, initiate_export, expire_export,
  execute_vault_cosign, VaultCall, initiate, cosign, handle_vault, wait, serve_vault_one,
  serve_vault,
}

-- The row `r` as its execution leaves it.
abbrev pub executed_by : ℕ → VaultExportRequest → VaultExportRequest
executed_by c r = record r { cosigner_id = some c; status = executed }

pub record Executed (env : Env) (sub : ℕ) (r : VaultExportRequest) (u o : User) (v v' : Vault)
    : Type 0 where
  pub is_open : r.status ≡ pending
  pub in_time : v.trail.clock ≤ r.expires_at
  pub requester_officer : is_vault_officer env o.keycloak_sub v ≡ true
  pub cosigner_officer : is_vault_officer env u.keycloak_sub v ≡ true
  pub two_persons : r.requester_id ≢ u.id
  pub rows : v'.exports ≡ save_export (executed_by u.id r) v.exports
  pub one_event : length v'.trail.events ≡ suc (length v.trail.events)
  pub later : v.trail.fresh ≤ v'.trail.fresh

module _ (env : Env) (v : Vault) {v' : Vault} where
  cosign_found :
      (id sub : ℕ) (u o : User) (r : VaultExportRequest)
      → find_user sub v.users ≡ some u
      → find_export id v.exports ≡ some r
      → user_by_id r.requester_id v.users ≡ some o
      → execute_vault_cosign env id sub v ≡ ok (tt, v')
      → Executed env sub r u o v v'
  unfolding execute_vault_cosign expire_export audit_export record_atomic payload_of publish
  cosign_found id sub u o r f g k h = record {
    is_open = ground arith;
    in_time = ground arith;
    requester_officer = ground arith;
    cosigner_officer = ground arith;
    two_persons = ground arith;
    rows = ground arith;
    one_event = ground arith;
    later = ground arith;
  }

  -- A cosignature that returns has found a pending request in its time, with a requester and a
  -- cosigner who are vault officers and two persons; it leaves the request executed, with the
  -- cosigner, and one audit row more.
  pub cosign_effect :
      (id sub : ℕ)
      → execute_vault_cosign env id sub v ≡ ok (tt, v')
      → (r : VaultExportRequest) × (u : User) × (o : User) × (find_export id v.exports ≡ some r)
        × (find_user sub v.users ≡ some u)
        × (user_by_id r.requester_id v.users ≡ some o)
        × Executed env sub r u o v v'
  unfolding execute_vault_cosign expire_export
  cosign_effect id sub h = elim (Option-cases (find_user sub v.users)) [
    | inl e ↦ ground arith
    | inr (u, f) ↦ elim (Option-cases (find_export id v.exports)) [
      | inl e ↦ ground arith
      | inr (r, g) ↦ elim (Option-cases (user_by_id r.requester_id v.users)) [
        | inl e ↦ ground arith
        | inr (o, k) ↦ (r, u, o, g, f, k, cosign_found id sub u o r f g k h)
      ]
    ]
  ]

-- A pending request has no cosigner, an executed one has another person than its requester, and none
-- is expired.
unfoldable pub Dual : ExportStatus → ℕ → Option ℕ → Type 0
Dual pending requester c = c ≡ none
Dual executed requester none = ⊥
Dual executed requester (some c) = requester ≢ c
Dual expired requester c = ⊥

abbrev IsDual : VaultExportRequest → Type 0
IsDual r = Dual r.status r.requester_id r.cosigner_id

-- Identifiers go down from below `n`: no two rows share one.
unfoldable pub Below : ℕ → List VaultExportRequest → Type 0
Below n [] = Unit
Below n (r ∷ rs) = (r.id < n) × Below r.id rs

unfoldable pub executed_count : List VaultExportRequest → ℕ
executed_count [] = 0
executed_count (r ∷ rs) = (if is_pending r.status then 0 else 1) + executed_count rs

pub record IsControlled (before : ℕ) (v : Vault) : Type 0 where
  pub dual : All IsDual v.exports
  pub distinct : Below v.trail.fresh v.exports
  -- the executed requests, one audit row each, on top of `before`
  pub audited : length v.trail.events ≡ before + executed_count v.exports

Below_mono : (m n : ℕ) (rs : List VaultExportRequest) → m ≤ n → Below m rs → Below n rs
unfolding Below
Below_mono m n [] l h = tt
Below_mono m n (r ∷ rs) l h = (omega (arith, h.0), h.1)

-- A row that is absent is not saved.
save_absent :
    (x : VaultExportRequest) (n : ℕ) (rs : List VaultExportRequest)
    → n ≤ x.id
    → Below n rs
    → save_export x rs ≡ rs
unfolding Below save_export
save_absent x n [] l h = refl
save_absent x n (r ∷ rs) l h =
    let rest = save_absent x r.id rs (omega (arith, h.0)) h.1 in ground (arith, h.0, rest)

found_id :
    (id : ℕ) {r : VaultExportRequest} (rs : List VaultExportRequest)
    → find_export id rs ≡ some r
    → r.id ≡ id
unfolding find_export
found_id id [] h = ground arith
found_id id {r} (x ∷ xs) h = elim (Bool-cases (x.id == id)) [
  | inl e ↦ ground arith
  | inr e ↦ found_id id {r = r} xs (ground arith)
]

module _ (u : ℕ) (r : VaultExportRequest) where
  saved-Below :
      (n : ℕ) (rs : List VaultExportRequest)
      → Below n rs
      → Below n (save_export (executed_by u r) rs)
  unfolding Below save_export
  saved-Below n [] h = tt
  saved-Below n (x ∷ xs) h = elim (Bool-cases (x.id == r.id)) [
    | inl e ↦ let k : r.id ≡ x.id = ground arith in rw (e, k) (h.0, saved-Below x.id xs h.1)
    | inr e ↦ rw e (h.0, saved-Below x.id xs h.1)
  ]

  saved-IsDual :
      (rs : List VaultExportRequest)
      → r.requester_id ≢ u
      → All IsDual rs
      → All IsDual (save_export (executed_by u r) rs)
  unfolding save_export Dual
  saved-IsDual [] d h = tt
  saved-IsDual (x ∷ xs) d h = elim (Bool-cases (x.id == r.id)) [
    | inl e ↦ rw e (d, saved-IsDual xs d h.1)
    | inr e ↦ rw e (h.0, saved-IsDual xs d h.1)
  ]

  saved_count :
      (id n : ℕ) (rs : List VaultExportRequest)
      → Below n rs
      → find_export id rs ≡ some r
      → r.status ≡ pending
      → executed_count (save_export (executed_by u r) rs) ≡ suc (executed_count rs)
  unfolding Below save_export find_export executed_count
  saved_count id n [] h f p = ground arith
  saved_count id n (x ∷ xs) h f p = elim (Bool-cases (x.id == id)) [
    | inl e ↦
        let k : x ≡ r = ground arith in
        let rest = save_absent (executed_by u r) x.id xs (rw k (omega arith)) h.1 in
        ground (arith, e, k, rest, p)
    | inr e ↦
        let g : find_export id xs ≡ some r = ground arith in
        let rest = saved_count id x.id xs h.1 g p in
        let i : r.id ≡ id = found_id id xs g in ground (arith, e, i, rest)
  ]

module _ (env : Env) (before : ℕ) where
  initiate_keeps :
      (sub : ℕ) (scope purpose : String) (v : Vault) {v' : Vault}
      → initiate_export env sub scope purpose v ≡ ok (tt, v')
      → IsControlled before v
      → IsControlled before v'
  unfolding initiate_export Dual Below executed_count
  initiate_keeps sub scope purpose v h c = record {
    dual = ground (arith, c.dual);
    distinct = ground (arith, c.distinct);
    audited = ground (arith, c.audited);
  }

  cosign_keeps :
      (id sub : ℕ) (v : Vault) {v' : Vault}
      → execute_vault_cosign env id sub v ≡ ok (tt, v')
      → IsControlled before v
      → IsControlled before v'
  cosign_keeps id sub v {v'} h c =
      let (r, u, o, g, f, k, e) = cosign_effect env v id sub h in
      record {
        dual = rw e.rows (saved-IsDual u.id r v.exports e.two_persons c.dual);
        distinct = rw e.rows (
            saved-Below u.id r v'.trail.fresh v.exports
              (Below_mono v.trail.fresh v'.trail.fresh v.exports e.later c.distinct));
        audited = rw e.rows (
            omega (
              arith,
              e.one_event,
              c.audited,
              saved_count u.id r id v.trail.fresh v.exports c.distinct g e.is_open,
            ));
      }

  wait_keeps :
      (seconds : ℕ) (v : Vault) → IsControlled before v → IsControlled before (wait seconds v)
  wait_keeps seconds v c = record { dual = c.dual; distinct = c.distinct; audited = c.audited }

  handle_keeps :
      (call : VaultCall) (v : Vault) {v' : Vault}
      → handle_vault env call v ≡ ok (tt, v')
      → IsControlled before v
      → IsControlled before v'
  unfolding handle_vault
  handle_keeps (initiate sub scope purpose) v h c = initiate_keeps sub scope purpose v h c
  handle_keeps (cosign id sub) v h c = cosign_keeps id sub v h c

  serve_one_keeps :
      (seconds : ℕ) (call : VaultCall) (v : Vault)
      → IsControlled before v
      → IsControlled before (serve_vault_one env (seconds, call) v)
  unfolding serve_vault_one
  serve_one_keeps seconds call v c =
      let k = wait_keeps seconds v c in
      elim (Result-cases (handle_vault env call (wait seconds v))) [
        | inl ((_, v'), e) ↦ rw (e, serve_vault_one) (handle_keeps call (wait seconds v) e k)
        | inr (x, e) ↦ rw (e, serve_vault_one) k
      ]

  -- Whatever calls are made, and whenever, every executed export has a cosigner other than its
  -- requester, no request has a cosigner before, none ever becomes expired, identifiers stay
  -- distinct, and the executed requests have one audit row each.
  pub vault-IsControlled :
      (calls : List (ℕ × VaultCall)) (v : Vault)
      → IsControlled before v
      → IsControlled before (serve_vault env calls v)
  unfolding serve_vault
  vault-IsControlled [] v c = c
  vault-IsControlled ((seconds, call) ∷ rest) v c =
      vault-IsControlled rest (serve_vault_one env (seconds, call) v)
        (serve_one_keeps seconds call v c)
