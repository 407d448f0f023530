-- ===== src/Access.antt =====
-- Who is served by the routes that name a document, a plan, a job or an artifact
-- (apps/api/nps/work_api.py and artifacts.py).
use capstone_nps.Base.{
  ℕ, some, Option, List, Bool, ◌≡◌, [], false, true, ◌∷◌, inl, arith, inr, ◌++◌, ◌≢◌,
}
use capstone_nps.Routes.Documents.{
  document_detail, document_download, delete_document, upload_version, VersionView, new_plan,
  parse_result, document_versions, analyze, chunks, plans,
}
use capstone_nps.Routes.{scoped, Call}
use capstone_nps.Contracts.{Role, NormalizedDocument, SemanticChunk, SlidePlanContract}
use capstone_nps.Models.{
  Db, Document, find_document, DocumentVersion, Payload, SlidePlan, find_plan, Kind, GenerationJob,
  find_job, Step, Artifact, find_artifact,
}
use capstone_nps.Base.Errors.{Result, ◌>>=◌, ok, Result-cases, >>=-eq-ok}
use capstone_nps.Auth.Accounts.{Project}
use capstone_nps.Auth.Scope.Grants.{IsGranted, authorize_project-IsGranted}
use capstone_nps.Jobs.Broker.{Broker}
use capstone_nps.Jobs.Snapshot.{Snapshot}
use capstone_nps.Base.Words.{Text}
use capstone_nps.Routes.Plans.{plan_detail, plan_edit, plan_approve, generate_kind, plan_validate}
use capstone_nps.Plans.Review.{ReviewInput}
use capstone_nps.Routes.Jobs.{job_detail, job_cancel, job_retry}
use capstone_nps.Artifacts.{ArtifactView, download, FileResponse, detail}
use capstone_nps.Auth.Scope.{authorize_project}
use capstone_nps.Artifacts.Reviews.{review_artifact, regenerate}
use capstone_nps.Config.{Settings}
use capstone_nps.Routes.Socket.{poll_event, Poll, job_socket}
use capstone_nps.Routes.Socket.Sent.{job_socket-sent}

-- A route that has answered, by the project of the row that it names, and the roles and the ownership that
-- it asks for.
pub data Served (call : Call) (db : Db)
    : (project_id : ℕ) → List Role → (owner : Bool) → Type 0 where
  document_detail_ok :
      (id : ℕ) (row : Document) (answer : Document × Option VersionView)
      → find_document id db ≡ some row
      → document_detail call id db ≡ ok answer
      → Served call db row.project_id ([]) false
  document_versions_ok :
      (id : ℕ) (row : Document) (answer : List VersionView)
      → find_document id db ≡ some row
      → document_versions call id db ≡ ok answer
      → Served call db row.project_id ([]) false
  document_download_ok :
      (id : ℕ) (version : Option ℕ) (row : Document) (answer : DocumentVersion × Db)
      → find_document id db ≡ some row
      → document_download call id version db ≡ ok answer
      → Served call db row.project_id ([]) false
  delete_document_ok :
      (id : ℕ) (row : Document) (answer : Db)
      → find_document id db ≡ some row
      → delete_document call id db ≡ ok answer
      → Served call db row.project_id ([]) true
  upload_version_ok :
      (id : ℕ) (file : Result Payload) (b : Broker) (row : Document)
      (answer : Snapshot × Db × Broker)
      → find_document id db ≡ some row
      → upload_version call id file db b ≡ ok answer
      → Served call db row.project_id ([]) false
  analyze_ok :
      (id : ℕ) (key : Option Text) (b : Broker) (row : Document) (answer : Snapshot × Db × Broker)
      → find_document id db ≡ some row
      → analyze call id key db b ≡ ok answer
      → Served call db row.project_id ([]) false
  new_plan_ok :
      (id : ℕ) (key : Option Text) (b : Broker) (row : Document) (answer : Snapshot × Db × Broker)
      → find_document id db ≡ some row
      → new_plan call id key db b ≡ ok answer
      → Served call db row.project_id ([]) false
  parse_result_ok :
      (id : ℕ) (row : Document) (answer : NormalizedDocument)
      → find_document id db ≡ some row
      → parse_result call id db ≡ ok answer
      → Served call db row.project_id ([]) false
  chunks_ok :
      (id : ℕ) (row : Document) (answer : List SemanticChunk)
      → find_document id db ≡ some row
      → chunks call id db ≡ ok answer
      → Served call db row.project_id ([]) false
  plans_ok :
      (id : ℕ) (row : Document) (answer : List SlidePlan)
      → find_document id db ≡ some row
      → plans call id db ≡ ok answer
      → Served call db row.project_id ([]) false
  plan_detail_ok :
      (id : ℕ) (row : SlidePlan) (answer : SlidePlan)
      → find_plan id db ≡ some row
      → plan_detail call id db ≡ ok answer
      → Served call db row.project_id ([]) false
  plan_edit_ok :
      (id : ℕ) (edited : SlidePlanContract) (row : SlidePlan) (answer : SlidePlan × Db)
      → find_plan id db ≡ some row
      → plan_edit call id edited db ≡ ok answer
      → Served call db row.project_id ([]) false
  plan_validate_ok :
      (id : ℕ) (row : SlidePlan) (answer : ℕ)
      → find_plan id db ≡ some row
      → plan_validate call id db ≡ ok answer
      → Served call db row.project_id ([]) false
  plan_approve_ok :
      (id : ℕ) (input : ReviewInput) (row : SlidePlan) (answer : SlidePlan × Db)
      → find_plan id db ≡ some row
      → plan_approve call id input db ≡ ok answer
      → Served call db row.project_id (Role.reviewer ∷ []) false
  generate_ok :
      (id : ℕ) (kind : Kind) (key : Option Text) (b : Broker) (row : SlidePlan)
      (answer : Snapshot × Db × Broker)
      → find_plan id db ≡ some row
      → generate_kind call id kind key db b ≡ ok answer
      → Served call db row.project_id ([]) false
  job_detail_ok :
      (id : ℕ) (row : GenerationJob) (answer : Snapshot)
      → find_job id db ≡ some row
      → job_detail call id db ≡ ok answer
      → Served call db row.project_id ([]) false
  job_cancel_ok :
      (id : ℕ) (row : GenerationJob) (answer : Snapshot × Db)
      → find_job id db ≡ some row
      → job_cancel call id db ≡ ok answer
      → Served call db row.project_id ([]) false
  job_retry_ok :
      (id : ℕ) (resume : Option Step) (b : Broker) (row : GenerationJob)
      (answer : Snapshot × Db × Broker)
      → find_job id db ≡ some row
      → job_retry call id resume db b ≡ ok answer
      → Served call db row.project_id ([]) false
  job_socket_ok :
      (config : Settings) (origin : Option Text) (in_time : Bool) (id : ℕ) (before : List Poll)
      (poll : Poll) (row : GenerationJob)
      → find_job id db ≡ some row
      → poll.call ≡ ok call
      → poll.db ≡ db
      → (job_socket config origin in_time id (before ++ poll ∷ [])).0
        ≢ (job_socket config origin in_time id before).0
      → Served call db row.project_id ([]) false
  artifact_detail_ok :
      (id : ℕ) (row : Artifact) (answer : Artifact × List ArtifactView)
      → find_artifact id db ≡ some row
      → detail call id db ≡ ok answer
      → Served call db row.project_id ([]) false
  artifact_download_ok :
      (id : ℕ) (version : Option ℕ) (row : Artifact) (answer : FileResponse × Db)
      → find_artifact id db ≡ some row
      → download call id version db ≡ ok answer
      → Served call db row.project_id ([]) false
  artifact_review_ok :
      (id : ℕ) (input : ReviewInput) (approval : Bool) (row : Artifact) (answer : ArtifactView × Db)
      → find_artifact id db ≡ some row
      → review_artifact call id input approval db ≡ ok answer
      → Served call db row.project_id (Role.reviewer ∷ []) false
  artifact_regenerate_ok :
      (id : ℕ) (slide_id : ℕ) (key : Option Text) (b : Broker) (row : Artifact)
      (answer : Snapshot × Db × Broker)
      → find_artifact id db ≡ some row
      → regenerate call id slide_id key db b ≡ ok answer
      → Served call db row.project_id ([]) false

-- The answer of a poll is that of `job_detail`.
answered_poll :
    (id : ℕ) (poll : Poll) (call : Call) (db : Db) (event : Snapshot)
    → poll.call ≡ ok call
    → poll.db ≡ db
    → poll_event id poll ≡ ok event
    → job_detail call id db ≡ ok event
unfolding poll_event
answered_poll id poll call db event accepted tables answer = ground arith

served_row {κ} :
    {A : Type κ} (call : Call) (project_of : A → ℕ) (found : Option A) (roles : List Role)
    (owner : Bool) (row : A) {answer : A}
    → found ≡ some row
    → scoped call project_of found roles owner ≡ ok answer
    → (project : Project) × IsGranted call.accounts call.user (project_of row) roles owner project
unfolding scoped
served_row call project_of found roles owner row there h =
    elim (Result-cases (authorize_project call.accounts call.user (project_of row) roles owner)) [
      | inl (e, refused) ↦ absurd (ground arith)
      | inr (project, passed) ↦ (
        project,
        authorize_project-IsGranted call.accounts call.user (project_of row) roles owner passed,
      )
    ]

served_call {κ} :
    {A : Type κ} {B : Type 0} (call : Call) (project_of : A → ℕ) (found : Option A)
    (roles : List Role) (owner : Bool) (row : A) (next : A → Result B) {answer : B}
    → found ≡ some row
    → (scoped call project_of found roles owner >>= next) ≡ ok answer
    → (project : Project) × IsGranted call.accounts call.user (project_of row) roles owner project
served_call call project_of found roles owner row next there h =
    let (answer, passed, _) = >>=-eq-ok (scoped call project_of found roles owner) next h in
    served_row call project_of found roles owner row there passed

-- No route that names a document, a plan, a job or an artifact answers a stranger: whoever gets an answer is a
-- member of the project that the named row belongs to, and that project is of an organization in the user's
-- scope; an event that the WebSocket of a job sends at a poll counts as an answer to the user of that poll; reviews and approvals are answered to Reviewers alone, and the deletion of a document to the owner of
-- the project or an administrator.
pub Served-IsGranted :
    (call : Call) (db : Db) (project_id : ℕ) (roles : List Role) (owner : Bool)
    → Served call db project_id roles owner
    → (project : Project) × IsGranted call.accounts call.user project_id roles owner project
unfolding document_detail document_versions document_download delete_document upload_version analyze
    new_plan parse_result chunks plans plan_edit plan_validate plan_approve generate_kind job_detail
    job_cancel job_retry detail download review_artifact regenerate
Served-IsGranted call db _ _ _ (document_detail_ok id row answer there h) =
    served_call call _ (find_document id db) ([]) false row _ there h
Served-IsGranted call db _ _ _ (document_versions_ok id row answer there h) =
    served_call call _ (find_document id db) ([]) false row _ there h
Served-IsGranted call db _ _ _ (document_download_ok id version row answer there h) =
    served_call call _ (find_document id db) ([]) false row _ there h
Served-IsGranted call db _ _ _ (delete_document_ok id row answer there h) =
    served_call call _ (find_document id db) ([]) true row _ there h
Served-IsGranted call db _ _ _ (upload_version_ok id file b row answer there h) =
    served_call call _ (find_document id db) ([]) false row _ there h
Served-IsGranted call db _ _ _ (analyze_ok id key b row answer there h) =
    served_call call _ (find_document id db) ([]) false row _ there h
Served-IsGranted call db _ _ _ (new_plan_ok id key b row answer there h) =
    served_call call _ (find_document id db) ([]) false row _ there h
Served-IsGranted call db _ _ _ (parse_result_ok id row answer there h) =
    served_call call _ (find_document id db) ([]) false row _ there h
Served-IsGranted call db _ _ _ (chunks_ok id row answer there h) =
    served_call call _ (find_document id db) ([]) false row _ there h
Served-IsGranted call db _ _ _ (plans_ok id row answer there h) =
    served_call call _ (find_document id db) ([]) false row _ there h
Served-IsGranted call db _ _ _ (plan_detail_ok id row answer there h) =
    served_row call (λ (p : SlidePlan). p.project_id) (find_plan id db) [] false row there h
Served-IsGranted call db _ _ _ (plan_edit_ok id edited row answer there h) =
    served_call call _ (find_plan id db) ([]) false row _ there h
Served-IsGranted call db _ _ _ (plan_validate_ok id row answer there h) =
    served_call call _ (find_plan id db) ([]) false row _ there h
Served-IsGranted call db _ _ _ (plan_approve_ok id input row answer there h) =
    served_call call _ (find_plan id db) (Role.reviewer ∷ []) false row _ there h
Served-IsGranted call db _ _ _ (generate_ok id kind key b row answer there h) =
    served_call call _ (find_plan id db) ([]) false row _ there h
Served-IsGranted call db _ _ _ (job_detail_ok id row answer there h) =
    served_call call _ (find_job id db) ([]) false row _ there h
Served-IsGranted call db _ _ _ (job_cancel_ok id row answer there h) =
    served_call call _ (find_job id db) ([]) false row _ there h
Served-IsGranted call db _ _ _ (job_retry_ok id resume b row answer there h) =
    served_call call _ (find_job id db) ([]) false row _ there h
Served-IsGranted call db _ _ _
      (job_socket_ok config origin in_time id before poll row there accepted tables sent) =
    let (event, answer) = job_socket-sent config origin in_time id before poll sent in
    served_call call _ (find_job id db) ([]) false row _ there
      (answered_poll id poll call db event accepted tables answer)
Served-IsGranted call db _ _ _ (artifact_detail_ok id row answer there h) =
    served_call call _ (find_artifact id db) ([]) false row _ there h
Served-IsGranted call db _ _ _ (artifact_download_ok id version row answer there h) =
    served_call call _ (find_artifact id db) ([]) false row _ there h
Served-IsGranted call db _ _ _ (artifact_review_ok id input approval row answer there h) =
    served_call call _ (find_artifact id db) (Role.reviewer ∷ []) false row _ there h
Served-IsGranted call db _ _ _ (artifact_regenerate_ok id slide_id key b row answer there h) =
    served_call call _ (find_artifact id db) ([]) false row _ there h
