-- ===== src/SittingApp/Serve.antt =====
-- Requests one after another: a request that raises leaves the tables as they were.
use nbes_backend.Base.{◌≡◌, Bool, false, List, [], ◌∷◌, ok, err, Result-cases, inl, inr, All}
use nbes_backend.Env.{Env}
use nbes_backend.SittingApp.World.{World, Caller}
use nbes_backend.SittingApp.Requests.{Request, handle}
use nbes_backend.SittingApp.Commits.{Commit, is_resolution, handle-Commit}

module _ (env : Env) where
  -- The tables after one request, whether it is answered or refused.
  unfoldable pub serve_one : Caller × Request → World → World
  serve_one (caller, r) w = elim (handle env caller r w) [ ok (_, w') ↦ w' | err _ ↦ w ]

  unfoldable pub serve : List (Caller × Request) → World → World
  serve [] w = w
  serve (r ∷ rest) w = serve rest (serve_one r w)

  serve_one-cases :
      (caller : Caller) (r : Request) (w : World) (P : World → Type 0)
      → ((w' : World) → Commit env (is_resolution r) w w' → P w')
      → P w
      → P (serve_one (caller, r) w)
  unfolding serve_one
  serve_one-cases caller r w P step same = elim (Result-cases (handle env caller r w)) [
    | inl ((u, w'), e) ↦ rw (e, serve_one) (step w' (handle-Commit env caller w r e).1)
    | inr (x, e) ↦ rw (e, serve_one) same
  ]

  -- What every commit keeps holds after any requests.
  pub serve_induction :
      (P : World → Type 0)
      → ((resolved : Bool) (w w' : World) → Commit env resolved w w' → P w → P w')
      → (requests : List (Caller × Request)) (w : World) → P w
      → P (serve requests w)
  unfolding serve
  serve_induction P step [] w h = h
  serve_induction P step ((caller, r) ∷ rest) w h =
      serve_induction P step rest (serve_one (caller, r) w)
        (serve_one-cases caller r w P (λ w' c. step (is_resolution r) w w' c h) h)

  -- The same where no request carries a resolution.
  pub serve_induction_minor :
      (P : World → Type 0)
      → ((w w' : World) → Commit env false w w' → P w → P w')
      → (requests : List (Caller × Request)) (w : World)
      → All (λ q. is_resolution q.1 ≡ false) requests
      → P w
      → P (serve requests w)
  unfolding serve
  serve_induction_minor P step [] w plain h = h
  serve_induction_minor P step ((caller, r) ∷ rest) w plain h =
      serve_induction_minor P step rest (serve_one (caller, r) w) plain.1
        (serve_one-cases caller r w P (λ w' c. step w w' (rw plain.0 at c) h) h)
