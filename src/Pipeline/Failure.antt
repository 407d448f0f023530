-- ===== src/Pipeline/Failure.antt =====
-- The `except` block of `execute_step` on a running job.

use capstone_nps.Pipeline.{fail_step, code_of}
use capstone_nps.Base.{
  ℕ, some, if◌then◌else◌, ◌==◌, ◌≡◌, none, Bool-cases, ◌&&◌, inl, ==_refl, ◌+◌, inr, nat_eq,
}
use capstone_nps.Base.Errors.{Code, Exception, job_cancelled, ok, code_eq}
use capstone_nps.Contracts.{JobState, failed, running, cancelled}
use capstone_nps.Models.{
  JobStep, Db, Step, GenerationJob, find_job, update_step, update_job, find_step, keep_job,
  keep_step, step_eq,
}
use capstone_nps.Models.Reads.{find_step-update_job, find_job-update_job, find_step-update_step}
use capstone_nps.Jobs.Machine.{transition_running}

abbrev pub stopped_state : Code → JobState
stopped_state code = if code == job_cancelled then cancelled else failed

abbrev pub stopped_step : Code → JobStep → JobStep
stopped_step code s = record s { state = failed; error_code = some code }

abbrev pub stopped_job : Code → (seq : ℕ) → GenerationJob → GenerationJob
stopped_job code seq row = record row {
  error_code = some code;
  state = stopped_state code;
  seq = seq;
  worker_id = none;
  lease_until = none;
}

-- A failing step of a running job ends in FAILED, or in CANCELLED for JOB_CANCELLED, and keeps the code
-- in the job and in the step; no other row changes.
pub fail_step-running :
    (id : ℕ) (name : Step) (e : Exception) (db : Db) (fresh : GenerationJob) (row : JobStep)
    → find_job id db ≡ some fresh
    → fresh.state ≡ running
    → find_step id name db ≡ some row
    → fail_step id name e db
      ≡ ok (
          update_step id name
            (stopped_step (code_of e))
            (update_job id (stopped_job (code_of e) (fresh.seq + 1)) db))
unfolding fail_step
fail_step-running id name e db fresh row found runs there = rw (
  fail_step,
  found,
  there,
  transition_running (record fresh { error_code = some (code_of e) }) _ runs,
)

-- A row of the step `name` of the job `id`.
abbrev pub HasRow : ℕ → Db → Step → Type 0
HasRow id db name = (row : JobStep) × (find_step id name db ≡ some row)

pub HasRow-update_step :
    (id : ℕ) (n : Step) (k : ℕ) (m : Step) (f : JobStep → JobStep) (db : Db)
    → HasRow id db n
    → HasRow id (update_step k m f db) n
HasRow-update_step id n k m f db (row, there) = elim (Bool-cases (id == k && n == m)) [
  | inl same ↦ (keep_step f row, rw (find_step-update_step, same, there))
  | inr differ ↦ (row, rw (find_step-update_step, differ) there)
]

pub HasRow-update_job :
    (id : ℕ) (n : Step) (k : ℕ) (f : GenerationJob → GenerationJob) (db : Db)
    → HasRow id db n
    → HasRow id (update_job k f db) n
HasRow-update_job id n k f db (row, there) = (row, rw find_step-update_job there)

pub find_job-update_job_self :
    (id : ℕ) (f : GenerationJob → GenerationJob) (db : Db) (a : GenerationJob)
    → find_job id db ≡ some a
    → find_job id (update_job id f db) ≡ some (keep_job f a)
find_job-update_job_self id f db a h = rw (find_job-update_job, ==_refl id, h)
