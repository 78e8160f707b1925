-- ===== src/Committee/Requests.antt =====
-- The endpoints of apps/committee/views.py on one meeting: each loads its row afresh, calls its
-- service, and answers an exception with an error.
use nbes_backend.Base.{ℕ, String, Option, none, some, List, [], ◌∷◌, ok, err}
use nbes_backend.Python.{Dict}
use nbes_backend.Env.{Env}
use nbes_backend.Transaction.{give, fail, ◌>>◌}
use nbes_backend.SittingApp.World.{Caller}
use nbes_backend.Committee.Model.{Minutes, Meeting}
use nbes_backend.Committee.World.{not_found, Tables, Action}
use nbes_backend.Committee.Meetings.{
  publish_agenda, record_attendance, convene_meeting, adjourn_meeting, sign_minutes, issue_addendum,
}

pub data Request : Type 0 where
  agenda : List Dict → String → Request
  attendance : List ℕ → Request
  convene adjourn : Request
  sign_off : String → Request
  addendum : String → String → Request

module _ (env : Env) (caller : Caller) where
  -- The two endpoints under minutes, on the minutes of the path.
  unfoldable pub sign_found : String → Option Minutes → Meeting → Action (Unit {0})
  sign_found signature_ref none m = fail not_found
  sign_found signature_ref (some minutes) m =
      sign_minutes env caller minutes m signature_ref >> give tt

  unfoldable pub amend_found : String → String → Option Minutes → Action (Unit {0})
  amend_found content document_ref none = fail not_found
  amend_found content document_ref (some minutes) =
      issue_addendum env caller minutes content document_ref >> give tt

  unfoldable pub handle_meeting : Request → Action (Unit {0})
  handle_meeting (agenda items document_ref) w =
      (publish_agenda env caller w.meeting items document_ref >> give tt) w
  handle_meeting (attendance ids) w = (record_attendance env caller w.meeting ids >> give tt) w
  handle_meeting convene w = (convene_meeting env caller w.meeting >> give tt) w
  handle_meeting adjourn w = (adjourn_meeting env caller w.meeting >> give tt) w
  handle_meeting (sign_off signature_ref) w = sign_found signature_ref w.minutes w.meeting w
  handle_meeting (addendum content document_ref) w = amend_found content document_ref w.minutes w

-- The tables after one request, whether it is answered or refused, and after one and another.
unfoldable pub serve_meeting_one : Env → Caller × Request → Tables → Tables
serve_meeting_one env (caller, r) w = elim (handle_meeting env caller r w) [
  | ok (_, w') ↦ w'
  | err _ ↦ w
]

unfoldable pub serve_meeting : Env → List (Caller × Request) → Tables → Tables
serve_meeting env [] w = w
serve_meeting env (r ∷ rest) w = serve_meeting env rest (serve_meeting_one env r w)
