-- ===== src/ItemBank/Vault.antt =====
-- Exports from the vault under two persons' control: `initiate_export` and `cosign_export` of
-- apps/itembank/views.py, and `execute_vault_cosign` and `_assert_active_vault_officer` of
-- apps/itembank/services.py. Times are in seconds.
use nbes_backend.Base.{
  ℕ, ◌+◌, ◌*◌, ◌==◌, String, Bool, true, false, not, ◌&&◌, Option, none, some, List, [], ◌∷◌, any,
  str_eq, ltb, pos, length, ok, err, if◌then◌else◌,
}
use nbes_backend.Python.{number}
use nbes_backend.Python.Text.{codes}
use nbes_backend.Env.{Env}
use nbes_backend.Audit.{Trail, Entry, record_event}
use nbes_backend.Transaction.{Call, give, fail, read, ◌>>=◌, ◌>>◌, change, raise_if}
use nbes_backend.ItemBank.Model.{User, Member}
use nbes_backend.ItemBank.World.{find_user, has_sub}

pub data ExportStatus : Type 0 where
  pending executed expired : ExportStatus

pub record VaultExportRequest : Type 0 where
  pub id : ℕ
  pub scope : String
  pub purpose : String
  pub requester_id : ℕ
  pub cosigner_id : Option ℕ
  pub status : ExportStatus
  pub expires_at : ℕ

pub data VaultError : Type 0 where
  requester_not_found cosigner_not_found request_not_found : VaultError
  not_active : ExportStatus → VaultError
  window_closed requester_not_officer cosigner_not_officer self_signing : VaultError
  vault_crash vault_field_error : VaultError

-- `exports` newest first; `officers` is `settings.VAULT_DESIGNATED_OFFICER_SUBS`; `alerts` the
-- requests whose alert was enqueued on commit.
pub record Vault : Type 0 where
  pub exports : List VaultExportRequest
  pub users : List User
  pub members : List Member
  pub officers : Option (List String)
  pub alerts : List ℕ
  pub trail : Trail

abbrev pub Action : Type 0 → Type 0
Action = Call Vault VaultError

abbrev or_fail : {A : Type 0} → VaultError → Option A → Action A
or_fail e none = fail e
or_fail e (some a) = give a

abbrev pub is_pending : ExportStatus → Bool
is_pending pending = true
is_pending _ = false

-- `VaultExportRequest.objects.get(id=request_id)`
unfoldable pub find_export : ℕ → List VaultExportRequest → Option VaultExportRequest
find_export id [] = none
find_export id (r ∷ rs) = if r.id == id then some r else find_export id rs

-- `User.objects.get(id=...)`, the row that a foreign key refers to
unfoldable pub user_by_id : ℕ → List User → Option User
user_by_id id [] = none
user_by_id id (u ∷ us) = if u.id == id then some u else user_by_id id us

-- `req.save()`
unfoldable pub save_export : VaultExportRequest → List VaultExportRequest → List VaultExportRequest
save_export r [] = []
save_export r (x ∷ xs) = (if x.id == r.id then r else x) ∷ save_export r xs

module _ (env : Env) where
  -- `str(keycloak_sub)`
  abbrev pub sub_text : Option ℕ → String
  sub_text none = "None"
  sub_text (some s) = env.str_uuid s

  abbrev is_member : Option ℕ → List Member → Bool
  is_member sub members = any (λ (m : Member). m.is_active && has_sub m.keycloak_sub sub) members

  -- `_assert_active_vault_officer` returns: the subject is designated, or, where nobody is, belongs to
  -- an active member; the text "None" is no UUID, and the check is skipped then.
  unfoldable pub is_vault_officer : Option ℕ → Vault → Bool
  is_vault_officer sub v = elim v.officers [
    | some designated ↦ any (str_eq (sub_text sub)) designated
    | none ↦ elim sub [ none ↦ true | some s ↦ is_member (some s) v.members ]
  ]

  -- `AuditEvent.record` on the vault
  unfoldable pub audit_export : ℕ → VaultExportRequest → Action (Unit {0})
  unfolding record_event
  audit_export actor r v =
      let entry : Entry = record {
        actor_id = some actor;
        action = "VAULT_CONTENT_EXPORTED";
        entity_type = "vault";
        entity_id = env.str_uuid r.id;
        old_state = none;
        new_state = some (("scope_length", number (pos (length (codes r.scope)))) ∷ []);
        request_id = none;
        ip_address = none;
      } in
      elim (record_event env entry v.trail) [
        | ok t ↦ ok (tt, record v { trail = t })
        | err _ ↦ err vault_crash
      ]

  -- A row of the next identifier, open for 72 hours.
  unfoldable pub initiate_export : ℕ → String → String → Action (Unit {0})
  unfolding find_user
  initiate_export sub scope purpose = do
    -- the view answers a FieldError as a user that is not found
    raise_if (not env.user_has_sub) requester_not_found
    found ← read (λ v. find_user sub v.users)
    requester ← or_fail requester_not_found found
    trail ← read (λ v. v.trail)
    let r : VaultExportRequest = record {
      id = trail.fresh;
      scope = scope;
      purpose = purpose;
      requester_id = requester.id;
      cosigner_id = none;
      status = pending;
      expires_at = trail.clock + 72 * 3600;
    }
    change (λ v. record v {
      exports = r ∷ v.exports;
      alerts = r.id ∷ v.alerts;
      trail = record trail { fresh = trail.fresh + 1 };
    })

  -- The branch of a late call: the row is saved as expired, and the exception undoes that.
  unfoldable pub expire_export : VaultExportRequest → Action (Unit {0})
  unfolding save_export
  expire_export r = do
    change (λ v. record v { exports = save_export (record r { status = expired }) v.exports })
    fail window_closed

  unfoldable pub execute_vault_cosign : ℕ → ℕ → Action (Unit {0})
  unfolding find_user find_export user_by_id is_vault_officer expire_export save_export audit_export
  execute_vault_cosign request_id cosigner_sub = do
    raise_if (not env.user_has_sub) vault_field_error
    found ← read (λ v. find_user cosigner_sub v.users)
    cosigner ← or_fail cosigner_not_found found
    row ← read (λ v. find_export request_id v.exports)
    req ← or_fail request_not_found row
    raise_if (not (is_pending req.status)) (not_active req.status)
    clock ← read (λ v. v.trail.clock)
    if ltb req.expires_at clock then expire_export req else give tt
    owner ← read (λ v. user_by_id req.requester_id v.users)
    requester ← or_fail requester_not_found owner
    one ← read (is_vault_officer requester.keycloak_sub)
    raise_if (not one) requester_not_officer
    two ← read (is_vault_officer cosigner.keycloak_sub)
    raise_if (not two) cosigner_not_officer
    raise_if (req.requester_id == cosigner.id) self_signing
    change (λ v. record v {
      exports =
          save_export (record req { cosigner_id = some cosigner.id; status = executed }) v.exports;
    })
    audit_export cosigner_sub req

pub data VaultCall : Type 0 where
  initiate : ℕ → String → String → VaultCall
  cosign : ℕ → ℕ → VaultCall

unfoldable pub handle_vault : Env → VaultCall → Action (Unit {0})
unfolding initiate_export execute_vault_cosign
handle_vault env (initiate sub scope purpose) v = initiate_export env sub scope purpose v
handle_vault env (cosign id sub) v = execute_vault_cosign env id sub v

-- `seconds` later
abbrev pub wait : ℕ → Vault → Vault
wait seconds v = let t = v.trail in record v { trail = record t { clock = t.clock + seconds } }

-- The vault after one call, whether it is answered or refused, and after one and another, each with
-- the seconds that go by before it.
unfoldable pub serve_vault_one : Env → ℕ × VaultCall → Vault → Vault
serve_vault_one env (seconds, c) v = elim (handle_vault env c (wait seconds v)) [
  | ok (_, v') ↦ v'
  | err _ ↦ wait seconds v
]

unfoldable pub serve_vault : Env → List (ℕ × VaultCall) → Vault → Vault
serve_vault env [] v = v
serve_vault env (c ∷ rest) v = serve_vault env rest (serve_vault_one env c v)
