-- ===== src/Models.antt =====
-- apps/api/nps/models.py: the tables that the modelled code reads and writes, as lists of rows in
-- the order of insertion, and the primitive reads and writes on them.
-- An id is a number. `updated_at`, which only views show, is left out.
mod Documents
pub mod Reads
pub use Documents.*
unfoldable pub use Documents.{
  ApprovalStatus-discrete, approval_status_eq, QaStatus-discrete, qa_status_eq,
}
use capstone_nps.Base.{Eq, ℕ, Bool, Option, none, some, List, ◌==◌, ◌&&◌, decided_eq, nat_eq}
use capstone_nps.Base.Errors.{Code}
use capstone_nps.Base.Rows.{first, update}
use capstone_nps.Base.Words.{Text}
use capstone_nps.Config.{ReviewMode}
use capstone_nps.Contracts.{JobState, PlannedSlide, SlidePlanContract, SemanticChunk}

pub data Kind : Type 0 where
  upload analyze plan ppt image video template design_reference : Kind

pub data Step : Type 0 where
  security_scan design_learn parse chunk llm_summary llm_key_messages llm_outline : Step
  llm llm_visual plan_validate image ppt ppt_qa video final_qa : Step

unfoldable pub Step-discrete : Discrete Step
Step-discrete = hlevel

instance unfoldable pub step_eq : Eq Step
unfolding Step-discrete
step_eq = decided_eq Step-discrete

-- The JSON column `payload`, by the keys that the modelled code looks up.
pub record Payload : Type 0 where
  pub document_id : Option ℕ
  pub version_id : Option ℕ
  pub plan_id : Option ℕ
  pub plan_version : Option ℕ
  pub review_mode : Option ReviewMode
  pub artifact_id : Option ℕ
  pub slide_id : Option ℕ
  pub quarantine_key : Option Text
  pub extension : Option Extension
  pub mime : Option Text
  pub size : Option ℕ

-- A step's output, a dict of which the code reads `qa_status`; `body` is the rest, serialised.
pub record Output : Type 0 where
  pub qa_status : Option QaStatus
  pub body : Text

pub record GenerationJob : Type 0 where
  pub id : ℕ
  pub created_at : ℕ
  pub project_id : ℕ
  pub requested_by : ℕ
  pub kind : Kind
  pub state : JobState
  pub step : Step
  pub progress : ℕ
  pub seq : ℕ
  pub payload : Payload
  pub result : Output
  pub error_code : Option Code
  pub idempotency_key : Text
  pub fingerprint : ℕ
  pub priority : ℕ
  pub estimated_vram_mb : ℕ
  pub required_capability : Text
  pub cancel_requested : Bool
  pub retry_count : ℕ
  pub resume_from_step : Option Step
  pub worker_id : Option ℕ
  pub lease_until : Option ℕ

pub record JobStep : Type 0 where
  pub job_id : ℕ
  pub step_type : Step
  pub state : JobState
  pub attempts : ℕ
  pub output : Output
  pub error_code : Option Code

-- A chunk's contents are the dump of a `SemanticChunk`; the link to the parse result is left out.
pub record Chunk : Type 0 where
  pub id : ℕ
  pub version_id : ℕ
  pub contents : SemanticChunk

pub data PlanStatus : Type 0 where
  validated draft approved rejected : PlanStatus

-- `data` is the column `contents` here.
pub record SlidePlan : Type 0 where
  pub id : ℕ
  pub project_id : ℕ
  pub document_id : ℕ
  pub version : ℕ
  pub status : PlanStatus
  pub contents : SlidePlanContract
  pub approved_version : Option ℕ

pub record Slide : Type 0 where
  pub plan_id : ℕ
  pub slide_id : ℕ
  pub version : ℕ
  pub contents : PlannedSlide

pub data Decision : Type 0 where
  approve reject request_change : Decision

pub data Target : Type 0 where
  plan artifact : Target

pub record Review : Type 0 where
  pub project_id : ℕ
  pub target_type : Target
  pub target_id : ℕ
  pub version : ℕ
  pub reviewer_id : ℕ
  pub decision : Decision
  pub comment : Text

pub record Approval : Type 0 where
  pub project_id : ℕ
  pub target_type : Target
  pub target_id : ℕ
  pub version : ℕ
  pub approver_id : ℕ

-- A value of the JSON column `detail`.
pub data Detail : Type 0 where
  number : ℕ → Detail
  words : Text → Detail
  step : Step → Detail

pub data AuditResult : Type 0 where
  success denied : AuditResult

-- The organization is the actor's, and the correlation id is drawn from outside: the two columns are left
-- out.
pub record AuditEvent : Type 0 where
  pub actor_id : ℕ
  pub project_id : ℕ
  pub action : Text
  pub target : ℕ
  pub outcome : AuditResult
  pub detail : List (Text × Detail)

pub record Db : Type 0 where
  pub jobs : List GenerationJob
  pub steps : List JobStep
  pub plans : List SlidePlan
  pub chunks : List Chunk
  pub slides : List Slide
  pub reviews : List Review
  pub approvals : List Approval
  pub audits : List AuditEvent
  pub documents : List Document
  pub versions : List DocumentVersion
  pub parses : List ParseResult
  pub artifacts : List Artifact
  pub artifact_versions : List ArtifactVersion
  pub templates : List Template

-- `db.get(GenerationJob, id)`
unfoldable pub find_job : ℕ → Db → Option GenerationJob
find_job id db = first (λ j. j.id == id) db.jobs

-- The columns that `f` writes; the key of a row is not among them.
abbrev pub keep_job : (GenerationJob → GenerationJob) → GenerationJob → GenerationJob
keep_job f j = record (f j) { id = j.id }

-- `UPDATE generation_jobs SET … WHERE id = …`
unfoldable pub update_job : ℕ → (GenerationJob → GenerationJob) → Db → Db
update_job id f db = record db { jobs = update (λ j. j.id == id) (keep_job f) db.jobs }

abbrev pub is_step : ℕ → Step → JobStep → Bool
is_step job_id name s = s.job_id == job_id && s.step_type == name

-- `select(JobStep).where(job_id == …, step_type == …)`
unfoldable pub find_step : ℕ → Step → Db → Option JobStep
find_step job_id name db = first (is_step job_id name) db.steps

abbrev pub keep_step : (JobStep → JobStep) → JobStep → JobStep
keep_step f s = record (f s) { job_id = s.job_id; step_type = s.step_type }

unfoldable pub update_step : ℕ → Step → (JobStep → JobStep) → Db → Db
update_step job_id name f db = record db {
  steps = update (is_step job_id name) (keep_step f) db.steps;
}

-- `db.get(SlidePlan, id)`
unfoldable pub find_plan : ℕ → Db → Option SlidePlan
find_plan id db = first (λ p. p.id == id) db.plans

abbrev pub keep_plan : (SlidePlan → SlidePlan) → SlidePlan → SlidePlan
keep_plan f p = record (f p) { id = p.id }

unfoldable pub update_plan_row : ℕ → (SlidePlan → SlidePlan) → Db → Db
update_plan_row id f db = record db { plans = update (λ p. p.id == id) (keep_plan f) db.plans }

-- `db.get(Document, id)` and its like.
unfoldable pub find_document : ℕ → Db → Option Document
find_document id db = first (λ d. d.id == id) db.documents

unfoldable pub find_version : ℕ → Db → Option DocumentVersion
find_version id db = first (λ v. v.id == id) db.versions

unfoldable pub find_artifact : ℕ → Db → Option Artifact
find_artifact id db = first (λ a. a.id == id) db.artifacts

unfoldable pub find_artifact_version : ℕ → Db → Option ArtifactVersion
find_artifact_version id db = first (λ v. v.id == id) db.artifact_versions

unfoldable pub find_template : ℕ → Db → Option Template
find_template id db = first (λ t. t.id == id) db.templates
