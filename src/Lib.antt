-- ===== src/Lib.antt =====
-- The examination backend, modelled and verified: the app that configures, locks and amends the
-- cycles of the bar examination, the meetings of the committee, the item bank with its vault and the
-- construction of papers, the roles of users, and the audit trail and the outbox that they write to.
--
-- A cycle is what `create_sitting` creates, a row that its docstring calls an "examination cycle
-- configuration". The endpoints of its app (views.py) load the row and call a service (services.py);
-- a service checks, changes the tables (models.py), writes an audit row (apps/audit/models.py) and an
-- outbox row (shared/events.py), all in one transaction. Later phases read a cycle through
-- `get_sitting_snapshot`. A file name without a directory is one of the directory under apps whose
-- services.py defines `create_sitting`.
--
--   Base, Base/*          library names, native integers and lengths, results, decisions
--   Python, Python/Text   values of a JSON body or a column, and what the source does with them
--   Env                   Django, the standard library and the database driver, as parameters
--   Events                shared/events.py: `infer_topic`, the row that `publish` writes
--   Audit, Audit/Chain    apps/audit/models.py: `AuditEvent.record` and its hash chain
--   SittingApp/Model      models.py: the rows
--   SittingApp/World      the tables of one cycle, a service call as a function on them
--   SittingApp/Save       what `save` writes, with and without `update_fields`
--   SittingApp/Validate   the checks, up to `_validate_sitting_complete`
--   SittingApp/Snapshot   the live and the frozen snapshot
--   SittingApp/Lifecycle  `create_sitting` to `close_sitting`
--   SittingApp/Papers     `add_or_update_paper`, `remove_paper`
--   SittingApp/Amend      the two amendments
--   SittingApp/Requests   the endpoints of views.py that change a cycle
--   SittingApp/Serve      requests one after another
--   SittingApp/Commits, Deletion
--                         the contract of a request, and that the code meets it
--   SittingApp/Effects, AmendEffects, PaperEffects, Frame
--                         what each service leaves in the tables
--   SittingApp/Ready, Graph, Soundness, Stability, Audited, Pitfalls
--                         the theorems, by what they are about
--   SittingApp/Monitor, Deadline
--                         tasks.py: `monitor_t30_lock`, and what a run does to each cycle
--   SittingApp/Reminders, Reminders/Once
--                         tasks.py: `_send_reminder_atomic`, and that it sends once a day
--   SittingApp/Blueprint  `publish_blueprint_version`, and the numbers of versions
--   SittingApp/Fixtures, Tests, TaskTests
--                         runs on a concrete cycle
--   Transaction           a service call on tables of any type
--   Committee/Model, World, Meetings
--                         apps/committee/models.py and services.py, from `schedule_meeting` to
--                         `issue_addendum`, on the tables of one meeting
--   Committee/Attendance  `dict.fromkeys` and `set` on the attendees
--   Committee/Requests    the endpoints of apps/committee/views.py on one meeting
--   Committee/Contract, History
--                         the contract of a request, and what holds after any requests
--   Committee/Conflicts, Conflicts/Bars
--                         `declare_coi`, `review_coi`, `check_coi`, and what the query finds
--   Committee/Tests       a meeting from schedule to minutes
--   ItemBank/Model, World apps/itembank/models.py: the rows of one item, and its tables
--   ItemBank/Drafts       `create_or_update_item_draft`, `submit_item_for_review`,
--                         `restore_item_version`, and `has_mandatory_metadata` of workflow/guards.py
--   ItemBank/Review       `transition_item`, `process_suggestion_decision`, the conflict check,
--                         comments, and `get_nbes_role_names` of shared/rbac.py
--   ItemBank/Panel        `register_panel_vote`
--   ItemBank/Requests     the endpoints of apps/itembank/views.py on one item
--   ItemBank/Contract, History, Restore, Unresolved
--                         the theorems on items, by what they are about
--   ItemBank/Vault, DualControl
--                         exports from the vault, and the two persons behind each
--   ItemBank/Tests        runs on a concrete item and a concrete vault
--   PaperBank/Select      `_select_items_for_constraints`
--   PaperBank/Checks      the `_validate_` functions on papers and the cool-down
--   PaperBank/Construct   `create_manual_paper`, `log_vault_reads`
--   PaperBank/Draw, Generate
--                         `generate_paper_rule_based`, `submit_paper_for_approval`
--   PaperBank/Progress, Coverage, Choice, Manual, Variants, Rules
--                         the theorems on papers, by what they are about
--   PaperBank/Tests       papers from a bank of five items
--   Users/Model, Roles    apps/users/models.py and services.py: `assign_role`, `revoke_role`,
--                         `check_conflict`
--   Users/Approvals       `do_approve`, `do_reject` as apps/users/views.py calls them, and the task of
--                         apps/users/tasks.py
--   Users/SignIn          `_mirror_profile` of shared/auth.py: the roles that a token brings
--   Users/Requests        the endpoints that change roles, other authenticated requests, and the task,
--                         one after another
--   Users/Contract, Vouchers, TwoPersons, Exclusive
--                         the contract of a request, and the theorems on roles
--   Users/Tests           roles that take two administrators
--   Rbac/Lookup           shared/rbac.py: `permissions_for`, `has_permission` and their two caches
--   Rbac/Freshness        how old a cached answer can be
--   Rbac/Tests            a role taken away while it is cached
--
-- The state of the app's model is one cycle with its tables (`World`): the row, its papers, its lock
-- events newest first, its lock record, and the audit trail with the outbox. A service is a function
-- from tables to a result and tables, or to an exception, which leaves the tables as they were, as
-- `@transaction.atomic` does. An instance is a value of its own: `save` writes it to the row, so a
-- stale instance can be modelled. Field values that a JSON body sets stay what the body held until
-- the column converts them; the conversion, `str` and `isoformat` of values, `Decimal` and `int` of
-- texts, and SHA-256 are functions of `Env`. Decimals are counted in hundredths, as the columns do;
-- JSON floats are left out. Identifiers of `uuid4` are drawn from a counter, and `timezone.now` is
-- one reading for a call. All loops are structural but one: the selection of
-- items for a paper runs on fuel, a round for each item of the pool, and is proved to end with it.
--
-- The T-30 task works on a list of cycles that share the trail. A meeting has tables of its own
-- (`Tables`), the declarations of conflict theirs (`Declarations`),
-- and the versions of blueprints theirs (`Versions`). An item has its tables with the users, the
-- members and the declarations that its services read; the exports from the vault (`Vault`) and the
-- papers with their items and usages (`Bank`) have tables of their own, and so have the roles of
-- users (`Book`), for all users at once. A caller of the item bank is
-- the subject and the roles of a token (`Auth`); who may call an endpoint at all is not modelled.
--
-- The services of items and of the vault look users up by `keycloak_sub`. Whether the model of users has
-- that field depends on the settings (`user_has_sub` of `Env`): those of the repository name no
-- AUTH_USER_MODEL, and with the user of Django the lookup raises FieldError. The model covers both, and
-- ItemBank/Unresolved is about the second; the papers of apps/itembank/views.py depend on the same lookup
-- before their services are called. A deleted cycle is a flag of `World`, since later requests get a 404.
--
-- Calls run one at a time; row locks have no counterpart. Not modelled: permissions, serializers,
-- lists and the HTTP shape of answers; blueprint coverage and variants of a cycle; the loop of the
-- reminder task; the members and the tasks of the committee; of the item bank the metadata schemas,
-- uploads, searches and renderings of papers; of the users their profiles, creation and lists, and the
-- bulk import and bulk assignment, which write roles as well; and the
-- calls of the identity provider; the step-up of a login, and an outage of the database in the middle of
-- a lookup of permissions; the other apps.
pub mod Base
pub mod Python
pub mod Env
pub mod Events
pub mod Audit
pub mod SittingApp
pub mod Transaction
pub mod Committee
pub mod ItemBank
pub mod PaperBank
pub mod Users
pub mod Rbac
