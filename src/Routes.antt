-- ===== src/Routes.antt =====
-- apps/api/nps/work_api.py: the routes of documents, plans and jobs. A request sees one state of the
-- tables, and one that raises has committed nothing.
pub mod Documents
pub mod Plans
pub mod Jobs
pub mod Socket
use capstone_nps.Base.{ℕ, Option, none, some, List, Bool}
use capstone_nps.Base.Errors.{Result, ok, raise, resource_not_found, ◌>>=◌, ◌>>◌}
use capstone_nps.Base.Words.{Text}
use capstone_nps.Models.{Kind, Payload, Db}
use capstone_nps.Config.{Settings}
use capstone_nps.Jobs.Requests.{create_job, Request}
use capstone_nps.Auth.Scope.{authorize_project}
use capstone_nps.Contracts.{Role}
use capstone_nps.Jobs.Snapshot.{snapshot, Snapshot}
use capstone_nps.Auth.Accounts.{Accounts, User}
use capstone_nps.Jobs.Broker.{Broker}

-- What surrounds a request: the settings, the digest of jobs, the accounts and the actor, and what a new job
-- draws from outside: an id, a key, the time, and what other sessions commit meanwhile.
pub record Call : Type 0 where
  pub config : Settings
  pub sha256 : Kind → Payload → ℕ
  pub accounts : Accounts
  pub user : User
  pub new_id : ℕ
  pub new_key : Text
  pub now : ℕ
  pub others : List (Db → Db)

-- `row` is the row of the table that the id names, and `project_of` its column `project_id`.
unfoldable pub scoped {ℓ} :
    {A : Type ℓ}
    → Call
    → (project_of : A → ℕ) → (row : Option A) → List Role
    → (owner : Bool) → Result A
unfolding authorize_project
scoped call project_of none roles owner = raise resource_not_found 404
scoped call project_of (some row) roles owner = do
  project ← authorize_project call.accounts call.user (project_of row) roles owner
  ok row

abbrev pub request_of : Call → (project_id : ℕ) → Kind → Payload → Option Text → Request
request_of call project_id kind payload key = record {
  user = call.user.id;
  project_id = project_id;
  kind = kind;
  payload = payload;
  key = key;
  new_id = call.new_id;
  new_key = call.new_key;
  now = call.now;
}

-- `snapshot(db, create_job(…))`: the answer, with the tables and the queue hints after the request.
unfoldable pub submit :
    Call
    → (project_id : ℕ) → Kind
    → Payload
    → Option Text
    → Db
    → Broker
    → Result (Snapshot × Db × Broker)
unfolding create_job snapshot
submit call project_id kind payload key db b = do
  made ←
      create_job call.config call.sha256 (request_of call project_id kind payload key) call.others
        db b
  view ← snapshot made.1 made.0
  ok (view, made.1, made.2)

abbrev pub empty_payload : Payload
empty_payload = record {
  document_id = none;
  version_id = none;
  plan_id = none;
  plan_version = none;
  review_mode = none;
  artifact_id = none;
  slide_id = none;
  quarantine_key = none;
  extension = none;
  mime = none;
  size = none;
}
