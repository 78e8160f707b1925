-- ===== src/Users/TwoPersons.antt =====
-- Two administrators behind every role of high privilege.
use nbes_backend.Base.{ℕ, map, ◌≡◌, inl, inr, String, List, All, Result-cases}
use nbes_backend.Env.{Env}
use nbes_backend.Users.Model.{Book}
use nbes_backend.Users.Requests.{Event, handle_roles, sign_in, serve_roles_one}
use nbes_backend.Users.Contract.{Change, is_approval, handle_roles-Change}

module _ (env : Env) where
  pub serve_roles_one-cases :
      (e : Event) (b : Book) (P : Book → Type 0)
      → ((b' : Book)
          → Change (is_approval e.request) (sign_in env e b) b'
          → b'.exclusions ≡ (sign_in env e b).exclusions
          → P b')
      → P (sign_in env e b)
      → P (serve_roles_one env e b)
  unfolding serve_roles_one
  serve_roles_one-cases e b P step same =
      elim (Result-cases (handle_roles env e.caller e.user e.request (sign_in env e b))) [
        | inl ((u, b'), q) ↦
            let c =
              handle_roles-Change env e.caller e.user (sign_in env e b) {b' = b'} e.request q in
            rw (q, serve_roles_one) (step b' c.0 c.1)
        | inr (x, q) ↦ rw (q, serve_roles_one) same
      ]

-- What the tokens of the events carry is allowed.
abbrev pub AreTokens : Env → (ℕ → String → Type 0) → List Event → Type 0
AreTokens env Token events =
    All (λ e. All (Token e.user.id) (map env.role_name e.token_roles)) events
