-- ===== src/Jobs/Requests.antt =====
-- The requests on jobs in jobs.py: `create_job`, `cancel_job`, `retry_job`. A request that raises has
-- committed nothing, so its result is the exception alone.
pub mod Evolve
pub mod Idempotency
pub mod Answered
pub mod Create
use capstone_nps.Base.{
  ℕ, ◌+◌, Bool, true, false, not, ◌&&◌, Option, none, some, List, [], ◌∷◌, ◌++◌, map, ◌==◌,
  contains, length, nat_eq, ltb, leb, if◌then◌else◌,
}
use capstone_nps.Base.Errors.{
  Result, ok, err, other, raise_if, ◌>>=◌, ◌>>◌, idempotency_invalid, idempotency_conflict,
  job_not_cancellable, job_not_retryable, job_retry_exhausted, job_resume_invalid,
  job_resume_prerequisite, job_resume_completed_step,
}
use capstone_nps.Base.Rows.{first}
use capstone_nps.Base.Words.{Text, text, text_eq}
use capstone_nps.Auth.Audit.{audit}
use capstone_nps.Config.{Settings, ReviewMode, review_mode_eq}
use capstone_nps.Contracts.{JobState, queued, succeeded, failed, cancelled, retrying}
use capstone_nps.Contracts.Equality.{job_state_eq}
use capstone_nps.Models.{
  Kind, Step, step_eq, Payload, Output, GenerationJob, JobStep, Detail, Db, find_step, update_job,
}
use capstone_nps.Jobs.{pipelines, first_step, is_terminal, is_waiting, transition}
use capstone_nps.Jobs.Broker.{Broker, enqueue}

-- `kind in {"ppt", "video", "image"}`
abbrev is_generation : Kind → Bool
is_generation Kind.ppt = true
is_generation Kind.video = true
is_generation Kind.image = true
is_generation _ = false

unfoldable pub with_review_mode : Settings → Kind → Payload → Payload
with_review_mode config kind payload =
    if is_generation kind then record payload { review_mode = some config.review_mode } else payload

-- The arguments of `create_job`, with what the code draws from outside: a fresh id for the row, a
-- fresh key (`uid()`) and the time.
pub record Request : Type 0 where
  pub user : ℕ
  pub project_id : ℕ
  pub kind : Kind
  pub payload : Payload
  pub key : Option Text
  pub new_id : ℕ
  pub new_key : Text
  pub now : ℕ

-- `key or uid()`: the empty key counts as none.
unfoldable pub key_of : Request → Text
key_of r = elim r.key [ none ↦ r.new_key | some k ↦ if text_eq.beq k [] then r.new_key else k ]

-- The columns of the table's unique constraint.
abbrev pub is_keyed : (project_id user : ℕ) → Text → GenerationJob → Bool
is_keyed project_id user key j =
    j.project_id == project_id && j.requested_by == user && j.idempotency_key == key

unfoldable pub find_keyed : (project_id user : ℕ) → Text → Db → Option GenerationJob
find_keyed project_id user key db = first (is_keyed project_id user key) db.jobs

abbrev pub empty_output : Output
empty_output = record { qa_status = none; body = [] }

unfoldable pub new_job : Request → Payload → (fingerprint : ℕ) → GenerationJob
unfolding key_of
new_job r payload fingerprint = record {
  id = r.new_id;
  created_at = r.now;
  project_id = r.project_id;
  requested_by = r.user;
  kind = r.kind;
  state = queued;
  step = first_step r.kind;
  progress = 0;
  seq = 1;
  payload = payload;
  result = empty_output;
  error_code = none;
  idempotency_key = key_of r;
  fingerprint = fingerprint;
  priority = 0;
  estimated_vram_mb = 0;
  required_capability = text "cpu";
  cancel_requested = false;
  retry_count = 0;
  resume_from_step = none;
  worker_id = none;
  lease_until = none;
}

abbrev pub new_step : (job_id : ℕ) → Step → JobStep
new_step job_id name = record {
  job_id = job_id;
  step_type = name;
  state = queued;
  attempts = 0;
  output = empty_output;
  error_code = none;
}

is_bypass : Payload → Bool
unfolding review_mode_eq
is_bypass payload = elim payload.review_mode [
  | none ↦ false
  | some m ↦ m == ReviewMode.prototype_pass
]

-- The audit of a prototype bypass; `payload["plan_id"]` may be missing.
audit_bypass : GenerationJob → Db → Result Db
unfolding is_bypass
audit_bypass job db =
    if is_bypass job.payload
    then elim job.payload.plan_id [
      | none ↦ err other
      | some plan_id ↦ elim job.payload.plan_version [
        | none ↦ err other
        | some plan_version ↦ ok (
            audit job.requested_by (text "PROTOTYPE_REVIEW_BYPASS") job.id job.project_id
              ((text "plan_id", Detail.number plan_id)
                ∷ (text "plan_version", Detail.number plan_version)
                ∷ [])
              db)
      ]
    ]
    else ok db

-- The rows that `create_job` commits.
unfoldable pub insert_job : GenerationJob → Db → Result Db
unfolding audit_bypass
insert_job job db = audit_bypass job (
    audit job.requested_by (text "JOB_CREATE") job.id job.project_id [] (record db {
      jobs = db.jobs ++ job ∷ [];
      steps = db.steps ++ map (new_step job.id) (pipelines job.kind);
    }))

-- `sha256` is the digest of the serialised kind and payload.
module _ (config : Settings) (sha256 : Kind → Payload → ℕ) (r : Request) where
  abbrev pub payload_of : Payload
  payload_of = with_review_mode config r.kind r.payload

  pub reuse : GenerationJob → Db → Broker → Result (GenerationJob × Db × Broker)
  reuse existing db b = do
    raise_if (not (existing.fingerprint == sha256 r.kind payload_of)) idempotency_conflict 409
    ok (existing, db, b)

  pub insert : Db → Broker → Result (GenerationJob × Db × Broker)
  insert db b = do
    let job = new_job r payload_of (sha256 r.kind payload_of)
    db' ← insert_job job db
    ok (job, db', enqueue job b)

  -- Each function of the list is what other sessions commit between the SELECT and the INSERT of one
  -- attempt; when their rows take the key, the INSERT fails and the call starts again.
  unfoldable pub create_attempts :
      List (Db → Db) → Db → Broker → Result (GenerationJob × Db × Broker)
  unfolding reuse insert
  create_attempts [] db b = elim (find_keyed r.project_id r.user (key_of r) db) [
    | some existing ↦ reuse existing db b
    | none ↦ insert db b
  ]
  create_attempts (others ∷ rest) db b =
      let again = create_attempts rest (others db) b in
      elim (find_keyed r.project_id r.user (key_of r) db) [
        | some existing ↦ reuse existing db b
        | none ↦ elim (find_keyed r.project_id r.user (key_of r) (others db)) [
          | some rival ↦ again
          | none ↦ insert (others db) b
        ]
      ]

  unfoldable pub create_job : List (Db → Db) → Db → Broker → Result (GenerationJob × Db × Broker)
  create_job others db b = do
    raise_if (ltb 100 (length (key_of r))) idempotency_invalid 422
    create_attempts others db b

-- Each request writes the columns that it has changed, on the row as it is at the commit.
abbrev commit_cancel : (user : ℕ) → GenerationJob → (GenerationJob → GenerationJob) → Db → Db
commit_cancel user job write db =
    audit user (text "JOB_CANCEL") job.id job.project_id [] (update_job job.id write db)

unfoldable pub cancel_job : (user : ℕ) → GenerationJob → Db → Result (GenerationJob × Db)
unfolding transition
cancel_job user job db = do
  raise_if (is_terminal job.state) job_not_cancellable 409
  let asked = record job { cancel_requested = true }
  if is_waiting asked.state
      then (do
        job' ← transition asked cancelled
        let write = λ (row : GenerationJob). record row {
          cancel_requested = true;
          state = job'.state;
          seq = job'.seq;
        }
        ok (job', commit_cancel user job' write db))
      else (do
        let job' = record asked { seq = asked.seq + 1 }
        let write = λ (row : GenerationJob). record row { cancel_requested = true; seq = job'.seq }
        ok (job', commit_cancel user job' write db))

-- `pipeline[: pipeline.index(resume)]`
unfoldable pub steps_before : Step → List Step → List Step
unfolding step_eq
steps_before name [] = []
steps_before name (s ∷ rest) =
    let before = s ∷ steps_before name rest in if s == name then [] else before

-- `any(steps[s].state != "SUCCEEDED" for s in …)`; a step without its row raises.
unfoldable pub any_unfinished : (job_id : ℕ) → List Step → Db → Result Bool
unfolding job_state_eq
any_unfinished job_id [] db = ok false
any_unfinished job_id (s ∷ rest) db =
    let later = any_unfinished job_id rest db in
    elim (find_step job_id s db) [
      | none ↦ err other
      | some row ↦ if not (row.state == succeeded) then ok true else later
    ]

step_state : (job_id : ℕ) → Step → Db → Result JobState
step_state job_id name db = elim (find_step job_id name db) [
  | none ↦ err other
  | some row ↦ ok row.state
]

-- `resume or job.step`
abbrev pub resume_of : Option Step → GenerationJob → Step
resume_of none job = job.step
resume_of (some s) job = s

-- The job as `retry_job` changes it before its transition, and the columns that it commits.
abbrev pub resumed : GenerationJob → Step → GenerationJob
resumed job name = record job {
  step = name;
  resume_from_step = some name;
  retry_count = job.retry_count + 1;
  cancel_requested = false;
  error_code = none;
  worker_id = none;
  lease_until = none;
}

abbrev pub write_retried : GenerationJob → GenerationJob → GenerationJob
write_retried job' row = record row {
  step = job'.step;
  resume_from_step = job'.resume_from_step;
  retry_count = job'.retry_count;
  cancel_requested = false;
  error_code = none;
  worker_id = none;
  lease_until = none;
  state = job'.state;
  seq = job'.seq;
}

-- `retry_job` from its check of the state on, with the step to resume at.
unfoldable pub retry_at :
    (user : ℕ) → GenerationJob → Step → Db → Broker → Result (GenerationJob × Db × Broker)
unfolding transition step_state
retry_at user job name db b = do
  raise_if (not (contains job.state (failed ∷ cancelled ∷ []))) job_not_retryable 409
  raise_if (leb 3 job.retry_count) job_retry_exhausted 409
  raise_if (not (contains name (pipelines job.kind))) job_resume_invalid 422
  unfinished ← any_unfinished job.id (steps_before name (pipelines job.kind)) db
  raise_if unfinished job_resume_prerequisite 409
  state ← step_state job.id name db
  raise_if (state == succeeded) job_resume_completed_step 409
  job' ← transition (resumed job name) retrying
  ok (
    job',
    audit user (text "JOB_RETRY") job'.id job'.project_id ((text "step", Detail.step name) ∷ [])
        (update_job job'.id (write_retried job') db),
    enqueue job' b,
  )

-- A request to resume at a name that is no step at all is refused like one of another pipeline.
unfoldable pub retry_job :
    (user : ℕ) → GenerationJob → Option Step → Db → Broker → Result (GenerationJob × Db × Broker)
unfolding retry_at
retry_job user job resume db b = retry_at user job (resume_of resume job) db b
