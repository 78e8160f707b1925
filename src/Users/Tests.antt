-- ===== src/Users/Tests.antt =====
-- A role of high privilege that takes two administrators, and the theorems about roles.
use nbes_backend.Base.{ℕ, String, ◌≡◌, refl, true, false, none, List, [], ◌∷◌}
use nbes_backend.Events.{infer_topic, outbox_row}
use nbes_backend.Audit.{is_state_change, publish, payload_of, record_atomic, record_event}
use nbes_backend.SittingApp.Fixtures.{demo, chair, empty_trail}
use nbes_backend.Users.Model.{Book}
use nbes_backend.Users.Roles.{
  holds, check_conflict, revoke_row, audit_role, publish_change, queue_role, grant_role,
  assign_directly, assign_role, revoke_role,
}
use nbes_backend.Users.SignIn.{drop_roles, dropped_events, add_role, add_roles, sync_roles}
use nbes_backend.Users.Approvals.{
  Reviewer, find_approval, save_approval_row, strip_dots, do_approve, do_reject, approve_request,
  reject_request, expire_one, expire_all, expire_pending_role_approvals,
}
use nbes_backend.Users.Requests.{
  sign_in, visit, Event, assign, revoke, approve, expire, handle_roles, serve_roles_one,
  serve_roles,
}

abbrev start : Book
start = record {
  roles =
      record { name = "director_general"; is_active = true }
      ∷ record { name = "item_writer"; is_active = true }
      ∷ record { name = "moderator"; is_active = true }
      ∷ [];
  exclusions =
      record { role_a = "item_writer"; role_b = "moderator" }
      ∷ record { role_a = "director_general"; role_b = "item_writer" }
      ∷ [];
  user_roles = [];
  changes = [];
  approvals = [];
  trail = empty_trail;
}

abbrev first_admin : Reviewer
first_admin = record { id = 1; email = "a" }

abbrev second_admin : Reviewer
second_admin = record { id = 2; email = "b" }

abbrev by_first : Event
by_first = record {
  seconds = 5;
  caller = chair;
  user = first_admin;
  request = assign 9 "director_general" none none "";
  token_roles = [];
}

-- The requester is refused, the other administrator is not.
abbrev two_steps : List Event
two_steps =
    by_first
    ∷ record {
      seconds = 5;
      caller = chair;
      user = first_admin;
      request = approve 0 "";
      token_roles = [];
    }
    ∷ record {
      seconds = 5;
      caller = chair;
      user = second_admin;
      request = approve 0 "";
      token_roles = [];
    }
    ∷ record {
      seconds = 200000;
      caller = chair;
      user = second_admin;
      request = expire;
      token_roles = [];
    }
    ∷ []

abbrev direct_steps : List Event
direct_steps =
    record {
      seconds = 0;
      caller = chair;
      user = first_admin;
      request = assign 9 "item_writer" none none "";
      token_roles = [];
    }
    ∷ record {
      seconds = 0;
      caller = chair;
      user = first_admin;
      request = assign 9 "moderator" none none "";
      token_roles = [];
    }
    ∷ record {
      seconds = 0;
      caller = chair;
      user = first_admin;
      request = revoke 9 "item_writer" "";
      token_roles = [];
    }
    ∷ record {
      seconds = 0;
      caller = chair;
      user = first_admin;
      request = assign 9 "moderator" none none "";
      token_roles = [];
    }
    ∷ []

unfoldable run_roles : List Event → Book
unfolding infer_topic outbox_row is_state_change publish payload_of record_atomic record_event holds
    check_conflict revoke_row audit_role publish_change queue_role grant_role assign_directly
    assign_role revoke_role find_approval save_approval_row strip_dots do_approve do_reject
    approve_request reject_request expire_one expire_all expire_pending_role_approvals handle_roles
    drop_roles dropped_events add_role add_roles sync_roles sign_in serve_roles_one serve_roles
run_roles events = serve_roles demo events start

becomes_director : holds 9 "director_general" (run_roles two_steps).user_roles ≡ true
unfolding run_roles
becomes_director = refl

-- Asked for before the user writes items, the role is approved against the rule.
abbrev around_the_rule : List Event
around_the_rule =
    by_first
    ∷ record {
      seconds = 0;
      caller = chair;
      user = first_admin;
      request = assign 9 "item_writer" none none "";
      token_roles = [];
    }
    ∷ record {
      seconds = 0;
      caller = chair;
      user = second_admin;
      request = approve 0 "";
      token_roles = [];
    }
    ∷ []

holds_one : holds 9 "director_general" (run_roles around_the_rule).user_roles ≡ true
unfolding run_roles
holds_one = refl

holds_other : holds 9 "item_writer" (run_roles around_the_rule).user_roles ≡ true
unfolding run_roles
holds_other = refl

moderates_at_last : holds 9 "item_writer" (run_roles direct_steps).user_roles ≡ false
unfolding run_roles
moderates_at_last = refl

-- A request of a user whose token says that he is a director.
abbrev by_director : Event
by_director = record {
  seconds = 0;
  caller = chair;
  user = record { id = 7; email = "d" };
  request = visit;
  token_roles = "director_general" ∷ [];
}

token_makes_director : holds 7 "director_general" (run_roles (by_director ∷ [])).user_roles ≡ true
unfolding run_roles
token_makes_director = refl

abbrev IsAllowed : ℕ → String → Type 0
IsAllowed user role = user ≡ 7
