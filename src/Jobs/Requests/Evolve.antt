-- ===== src/Jobs/Requests/Evolve.antt =====
-- The requests keep what Jobs/Evolution states.
use capstone_nps.Base.{
  ℕ, ◌≡◌, refl, ◌≢◌, ◌<◌, ◌⊎◌, contains, true, false, Option, some, arith, nat_eq, if◌then◌else◌,
  ◌+◌, Option-cases, ==_iff, inl, inr, [], ◌∷◌,
}
use capstone_nps.Base.Errors.{ok}
use capstone_nps.Contracts.{succeeded, failed, cancelled, retrying}
use capstone_nps.Base.Words.{text}
use capstone_nps.Auth.Audit.{audit}
use capstone_nps.Contracts.Equality.{job_state_eq}
use capstone_nps.Models.{
  JobStep, Detail, find_step, step_eq, Step, GenerationJob, Db, find_job, update_job, keep_job,
}
use capstone_nps.Jobs.{pipelines, is_waiting, is_terminal}
use capstone_nps.Jobs.Broker.{Broker}
use capstone_nps.Jobs.Evolution.{
  Evolves, Evolves-trans, Evolves-of_jobs, Evolves-update_job, JobEvolves,
}
use capstone_nps.Jobs.Machine.{moved}
use capstone_nps.Jobs.Requests.{
  cancel_job, retry_at, retry_job, any_unfinished, steps_before, resume_of, write_retried, resumed,
}

Evolves-audited :
    (actor : ℕ) (action : _) (target project : ℕ) (detail : _) (x y : Db)
    → Evolves x y
    → Evolves x (audit actor action target project detail y)
unfolding audit
Evolves-audited actor action target project detail x y h =
    Evolves-trans x y _ h (Evolves-of_jobs y _ refl)

abbrev write_cancelled : (seq : ℕ) → GenerationJob → GenerationJob
write_cancelled seq row = record row { cancel_requested = true; state = cancelled; seq = seq }

abbrev write_asked : (seq : ℕ) → GenerationJob → GenerationJob
write_asked seq row = record row { cancel_requested = true; seq = seq }

pub cancel_job-eq-ok :
    (user : ℕ) (job : GenerationJob) (db : Db) {job' : GenerationJob} {db' : Db}
    → cancel_job user job db ≡ ok (job', db')
    → (is_terminal job.state ≡ false)
      × (db'
          ≡ audit user (text "JOB_CANCEL") job.id job.project_id [] (
              update_job job.id
                (if is_waiting job.state
                  then write_cancelled (job.seq + 1)
                  else write_asked (job.seq + 1))
                db))
unfolding cancel_job
cancel_job-eq-ok user job db h = ground arith

cancel_row :
    (job : GenerationJob)
    → is_terminal job.state ≡ false
    → JobEvolves job (
        keep_job
          (if is_waiting job.state
            then write_cancelled (job.seq + 1)
            else write_asked (job.seq + 1))
          job)
cancel_row job h = ground arith

-- A granted cancellation of a job, read as it stands, leaves every job in the tables: with its identity,
-- kind, payload, project, requester, key and digest, with no smaller event number, with at most three
-- retries unless it had more, and still SUCCEEDED or WAITING_REVIEW if it was.
pub cancel_job-Evolves :
    (user : ℕ) (job : GenerationJob) (db : Db) {job' : GenerationJob} {db' : Db}
    → find_job job.id db ≡ some job
    → cancel_job user job db ≡ ok (job', db')
    → Evolves db db'
cancel_job-Evolves user job db found h =
    let (live, written) = cancel_job-eq-ok user job db h in
    rw written (
      Evolves-audited user _ _ _ _ db _ (
        Evolves-update_job job.id _ db
          (λ row e. let same : row ≡ job = cc in rw same (cancel_row job live))))

abbrev pub retried : GenerationJob → Step → GenerationJob
retried job name = moved (resumed job name) retrying

-- What a granted retry has checked, and what it writes.
pub record IsRetry (user : ℕ) (job : GenerationJob) (name : Step) (db db' : Db) : Type 0 where
  pub stopped : (job.state ≡ failed) ⊎ (job.state ≡ cancelled)
  pub attempts_left : job.retry_count < 3
  pub in_pipeline : contains name (pipelines job.kind) ≡ true
  pub prerequisites : any_unfinished job.id (steps_before name (pipelines job.kind)) db ≡ ok false
  pub resumed : (row : JobStep) × (find_step job.id name db ≡ some row) × (row.state ≢ succeeded)
  pub written :
      db'
      ≡ audit user
          (text "JOB_RETRY")
          job.id
          job.project_id
          ((text "step", Detail.step name) ∷ [])
          (update_job job.id (write_retried (retried job name)) db)

-- A retry that is granted to resume at a step was of a FAILED or CANCELLED job with fewer than three
-- retries; the step is in the job's pipeline, has its row and has not SUCCEEDED, and each step before it
-- has; and the tables change in the audit and in that job's row, which starts over at the step, RETRYING,
-- with one more retry and the next event number.
pub retry_at-eq-ok :
    (user : ℕ) (job : GenerationJob) (name : Step) (db : Db) (b : Broker) {job' : GenerationJob}
    {db' : Db} {b' : Broker}
    → retry_at user job name db b ≡ ok (job', db', b')
    → IsRetry user job name db db'
unfolding retry_at
retry_at-eq-ok user job name db b h = elim (Option-cases (find_step job.id name db)) [
  | inl missing ↦ absurd (ground arith)
  | inr (row, there) ↦ record {
    stopped = ground (arith, ==_iff job.state failed, ==_iff job.state cancelled);
    attempts_left = ground arith;
    in_pipeline = ground arith;
    prerequisites = ground arith;
    resumed = (row, there, ground (arith, ==_iff row.state succeeded));
    written = ground arith;
  }
]

retry_row :
    (job : GenerationJob) (name : Step)
    → (job.state ≡ failed) ⊎ (job.state ≡ cancelled)
    → job.retry_count < 3
    → JobEvolves job (keep_job (write_retried (retried job name)) job)
retry_row job name stopped h = ground arith

-- A granted retry of a job, read as it stands, leaves every job in the tables: with its identity, kind,
-- payload, project, requester, key and digest, with no smaller event number, with at most three retries
-- unless it had more, and still SUCCEEDED or WAITING_REVIEW if it was.
pub retry_job-Evolves :
    (user : ℕ) (job : GenerationJob) (resume : Option Step) (db : Db) (b : Broker)
    {job' : GenerationJob} {db' : Db} {b' : Broker}
    → find_job job.id db ≡ some job
    → retry_job user job resume db b ≡ ok (job', db', b')
    → Evolves db db'
unfolding retry_job
retry_job-Evolves user job resume db b found h =
    let r = retry_at-eq-ok user job (resume_of resume job) db b h in
    rw r.written (
      Evolves-audited user _ _ _ _ db _ (
        Evolves-update_job job.id _ db (λ row e.
          let same : row ≡ job = cc in
          rw same (retry_row job (resume_of resume job) r.stopped r.attempts_left))))
