-- ===== src/Pipeline/Progress.antt =====
-- One call of `execute_step` while no other session works on the job: the step fails, or the job goes on
-- to the next step of its pipeline, or it ends.
use capstone_nps.Pipeline.{
  Run, advance, write_success, needs_review, write_advance, attempt, index_of, after_commit,
  is_scan, write_last, write_next, recheck_plan, code_of, check_cancelled,
}
use capstone_nps.Config.{Settings}
use capstone_nps.Base.{
  ℕ, ◌≡◌, suc, some, ◌*◌, if◌then◌else◌, get_elem?, ◌/◌, ◌+◌, none, length, ◌∙◌, inl, arith, inr,
  Option-cases, Bool-cases, ◌==◌, ap, false, true, subst, refl,
}
use capstone_nps.Models.{
  Db, Output, GenerationJob, Step, find_job, update_step, update_job, keep_job,
}
use capstone_nps.Base.Errors.{
  Code, ok, Result-cases, Exception, job_cancelled, err, domain_error, other, step_failed, raise_if,
}
use capstone_nps.Contracts.{running, queued, waiting_review, succeeded}
use capstone_nps.Jobs.Machine.{moved, transition_running}
use capstone_nps.Pipeline.Failure.{
  HasRow, stopped_job, HasRow-update_step, HasRow-update_job, find_job-update_job_self,
}
use capstone_nps.Jobs.{pipelines}
use capstone_nps.Models.Reads.{find_step-same, find_job-update_step, find_job-same}
use capstone_nps.Jobs.Broker.{Broker, enqueue}
use capstone_nps.Contracts.Equality.{job_state_eq}

-- No other session commits, the handler adds rows to other tables only, and the quarantined file can be
-- removed.
pub record IsQuiet (run : Run) : Type 0 where
  pub during : (db : Db) → run.during db ≡ db
  pub late : (db : Db) → run.late db ≡ db
  pub jobs :
      (output : Output) (rows : Db → Db)
      → run.outcome ≡ ok (output, rows)
      → (db : Db) → (rows db).jobs ≡ db.jobs
  pub steps :
      (output : Output) (rows : Db → Db)
      → run.outcome ≡ ok (output, rows)
      → (db : Db) → (rows db).steps ≡ db.steps
  pub cleanup : run.cleanup ≡ ok tt

abbrev done_job : ℕ → GenerationJob → GenerationJob
done_job i job = record job {
  progress = suc i * 100 / length (pipelines job.kind);
  worker_id = none;
  lease_until = none;
}

-- The job after the last step of its pipeline, and after any other.
abbrev pub finished_job : Settings → ℕ → Output → GenerationJob → GenerationJob
finished_job config i output job =
    record (moved (done_job i job)
      (if needs_review config job.kind output then waiting_review else succeeded)) {
        result = output;
      }

abbrev pub next_job : ℕ → Step → GenerationJob → GenerationJob
next_job i next job = moved (record (done_job i job) { step = next }) queued

module _ (config : Settings) (i : ℕ) (output : Output) (job : GenerationJob) where
  advance-last :
      job.state ≡ running
      → get_elem? (pipelines job.kind) (suc i) ≡ none
      → advance config i output job ≡ ok (finished_job config i output job)
  unfolding advance
  advance-last runs last = rw (advance, last, transition_running (done_job i job) _ runs)

  advance-next :
      (next : Step)
      → job.state ≡ running
      → get_elem? (pipelines job.kind) (suc i) ≡ some next
      → advance config i output job ≡ ok (next_job i next job)
  unfolding advance
  advance-next next runs more =
      rw (advance, more, transition_running (record (done_job i job) { step = next }) _ runs)

  pub advance-ok :
      job.state ≡ running → (job' : GenerationJob) × (advance config i output job ≡ ok job')
  advance-ok runs = elim (Option-cases (get_elem? (pipelines job.kind) (suc i))) [
    | inl last ↦ (finished_job config i output job, advance-last runs last)
    | inr (next, more) ↦ (next_job i next job, advance-next next runs more)
  ]

write_advance-last :
    (i : ℕ) (j row : GenerationJob)
    → get_elem? (pipelines j.kind) (suc i) ≡ none
    → write_advance i j row ≡ write_last j row
write_advance-last i j row last = rw (write_advance, last)

write_advance-next :
    (i : ℕ) (next : Step) (j row : GenerationJob)
    → get_elem? (pipelines j.kind) (suc i) ≡ some next
    → write_advance i j row ≡ write_next j row
write_advance-next i next j row more = rw (write_advance, more)

-- Why the step of a job fails, and with which code: somebody has asked to cancel the job; or the handler
-- raised, a `DomainError` with its code or any other exception; or, after a handler that returned, the second
-- look at the plan raised.
pub data Stops (config : Settings) (run : Run) (job : GenerationJob) (db : Db) : Code → Type 0 where
  asked : job.cancel_requested ≡ true → Stops config run job db job_cancelled
  raised :
      (code : Code) (status : ℕ)
      → job.cancel_requested ≡ false
      → run.outcome ≡ err (domain_error code status)
      → Stops config run job db code
  crashed :
      job.cancel_requested ≡ false → run.outcome ≡ err other → Stops config run job db step_failed
  stale :
      (made : Output × (Db → Db)) (code : Code) (status : ℕ)
      → job.cancel_requested ≡ false
      → run.outcome ≡ ok made
      → recheck_plan config job db ≡ err (domain_error code status)
      → Stops config run job db code
  lost :
      (made : Output × (Db → Db))
      → job.cancel_requested ≡ false
      → run.outcome ≡ ok made
      → recheck_plan config job db ≡ err other
      → Stops config run job db step_failed

-- The step went well: nobody asked to cancel, the handler returned the output, and the second look passed.
pub record Passes (config : Settings) (run : Run) (job : GenerationJob) (db : Db) (output : Output)
    : Type 0 where
  pub unasked : job.cancel_requested ≡ false
  pub rows : Db → Db
  pub returned : run.outcome ≡ ok (output, rows)
  pub current : recheck_plan config job db ≡ ok tt

-- What becomes of a running job whose step is the `i`-th of its pipeline.
pub data Fate (config : Settings) (run : Run) (i : ℕ) (job : GenerationJob) (db : Db)
    (after : GenerationJob) : Type 0 where
  stopped :
      (code : Code)
      → Stops config run job db code
      → after ≡ stopped_job code (job.seq + 1) job
      → Fate config run i job db after
  finished :
      (output : Output)
      → Passes config run job db output
      → get_elem? (pipelines job.kind) (suc i) ≡ none
      → after ≡ finished_job config i output job
      → Fate config run i job db after
  advanced :
      (output : Output) (next : Step)
      → Passes config run job db output
      → get_elem? (pipelines job.kind) (suc i) ≡ some next
      → after ≡ next_job i next job
      → Fate config run i job db after

pub record Outcome (config : Settings) (run : Run) (i : ℕ) (job : GenerationJob) (db db' : Db)
    : Type 0 where
  pub after : GenerationJob
  pub found : find_job job.id db' ≡ some after
  pub rows : (n : Step) → HasRow job.id db n → HasRow job.id db' n
  pub fate : Fate config run i job db after

module _ (config : Settings) (run : Run) (quiet : IsQuiet run) where
  -- The commit of a step that went well.
  abbrev pub success : ℕ → Output → (Db → Db) → GenerationJob → GenerationJob → Db → Db
  success i output rows job job' db =
      update_step job.id job.step (write_success output)
        (update_job job.id (write_advance i job') (rows db))

  pub success-found :
      (i : ℕ) (output : Output) (rows : Db → Db) (job job' : GenerationJob) (db : Db)
      → run.outcome ≡ ok (output, rows)
      → find_job job.id db ≡ some job
      → find_job job.id (success i output rows job job' db)
        ≡ some (keep_job (write_advance i job') job)
  success-found i output rows job job' db went found = rw find_job-update_step (
      find_job-update_job_self job.id (write_advance i job') (rows db) job
        (find_job-same job.id db (rows db) (quiet.jobs output rows went db) ∙ found))

  pub success-rows :
      (i : ℕ) (output : Output) (rows : Db → Db) (job job' : GenerationJob) (db : Db) (n : Step)
      → run.outcome ≡ ok (output, rows)
      → HasRow job.id db n
      → HasRow job.id (success i output rows job job' db) n
  success-rows i output rows job job' db n went (row, there) =
      HasRow-update_step job.id n job.id job.step (write_success output) _ (
        HasRow-update_job job.id n job.id (write_advance i job') (rows db)
          (row, find_step-same job.id n db (rows db) (quiet.steps output rows went db) ∙ there))

  -- What a `try` block that reached its commit has done.
  pub record Success (i : ℕ) (job job' : GenerationJob) (db db' : Db) : Type 0 where
    pub output : Output
    pub rows : Db → Db
    pub went : run.outcome ≡ ok (output, rows)
    pub made : advance config i output job ≡ ok job'
    pub written : db' ≡ success i output rows job job' (run.late (run.during db))

  pub attempt-Success :
      (i : ℕ) (job job' : GenerationJob) (db db' : Db)
      → index_of job.step (pipelines job.kind) ≡ some i
      → attempt config run job db ≡ ok (job', db')
      → Success i job job' db db'
  unfolding attempt
  attempt-Success i job job' db db' here h = elim (Result-cases run.outcome) [
    | inl (e, bad) ↦ absurd (ground arith)
    | inr ((output, rows), went) ↦ record {
      output = output;
      rows = rows;
      went = went;
      made = ground arith;
      written = ground arith;
    }
  ]

  -- What the `try` block asks of the tables, where they hold the job and nobody changes them.
  asked_flag :
      (job : GenerationJob) (db : Db)
      → find_job job.id db ≡ some job
      → check_cancelled job.id db ≡ raise_if job.cancel_requested job_cancelled 409
  unfolding check_cancelled
  asked_flag job db found = rw (check_cancelled, found) refl

  asked_again :
      (job : GenerationJob) (db : Db)
      → find_job job.id db ≡ some job
      → check_cancelled job.id (run.during db) ≡ raise_if job.cancel_requested job_cancelled 409
  asked_again job db found = ap (check_cancelled job.id) (quiet.during db) ∙ asked_flag job db found

  looked_again :
      (job : GenerationJob) (db : Db)
      → recheck_plan config job (run.during db) ≡ recheck_plan config job db
  looked_again job db = ap (recheck_plan config job) (quiet.during db)

  pub attempt-Passes :
      (i : ℕ) (job job' : GenerationJob) (db db' : Db) (output : Output) (rows : Db → Db)
      → find_job job.id db ≡ some job
      → index_of job.step (pipelines job.kind) ≡ some i
      → run.outcome ≡ ok (output, rows)
      → attempt config run job db ≡ ok (job', db')
      → Passes config run job db output
  unfolding attempt
  attempt-Passes i job job' db db' output rows found here went h =
      let before = asked_flag job db found in
      let between = asked_again job db found in
      let look = looked_again job db in
      elim (Bool-cases job.cancel_requested) [
        | inl wanted ↦ absurd (ground arith)
        | inr unasked ↦ elim (Result-cases (recheck_plan config job db)) [
          | inl (e, bad) ↦ absurd (ground arith)
          | inr (_, current) ↦ record {
            unasked = unasked;
            rows = rows;
            returned = went;
            current = current;
          }
        ]
      ]

  -- A `try` block that raised has stopped for one of the reasons.
  pub attempt-Stops :
      (i : ℕ) (job : GenerationJob) (db : Db) (e : Exception)
      → find_job job.id db ≡ some job
      → job.state ≡ running
      → index_of job.step (pipelines job.kind) ≡ some i
      → attempt config run job db ≡ err e
      → Stops config run job db (code_of e)
  unfolding attempt
  attempt-Stops i job db e found runs here h =
      let before = asked_flag job db found in
      let between = asked_again job db found in
      let look = looked_again job db in
      elim (Bool-cases job.cancel_requested) [
        | inl wanted ↦
            let it : domain_error job_cancelled 409 ≡ e = ground arith in
            subst (λ x. Stops config run job db (code_of x)) it (asked wanted)
        | inr unasked ↦ elim (Result-cases run.outcome) [
          | inl (domain_error code status, bad) ↦
              let it : domain_error code status ≡ e = ground arith in
              subst (λ x. Stops config run job db (code_of x)) it (raised code status unasked bad)
          | inl (other, bad) ↦
              let it : other ≡ e = ground arith in
              subst (λ x. Stops config run job db (code_of x)) it (crashed unasked bad)
          | inr (made, went) ↦ elim (Result-cases (recheck_plan config job db)) [
            | inl (domain_error code status, bad) ↦
                let it : domain_error code status ≡ e = ground arith in
                subst (λ x. Stops config run job db (code_of x)) it
                  (stale made code status unasked went bad)
            | inl (other, bad) ↦
                let it : other ≡ e = ground arith in
                subst (λ x. Stops config run job db (code_of x)) it (lost made unasked went bad)
            | inr (_, current) ↦
                let (job', moves) = advance-ok config i made.0 job runs in absurd (ground arith)
          ]
        ]
      ]

  abbrev pub hinted : GenerationJob → Broker → Broker
  hinted job b = if job.state == queued then enqueue job b else b

  pub after_commit_quiet :
      (name : Step) (job : GenerationJob) (db : Db) (b : Broker)
      → after_commit config run name job db b ≡ (ok tt, db, hinted job b)
  unfolding after_commit
  after_commit_quiet name job db b = elim (Bool-cases (is_scan name)) [
    | inl scan ↦ rw (scan, quiet.cleanup)
    | inr plain ↦ rw plain
  ]

  -- The rows before the step's commit are those that its start committed.
  pub settled : (db : Db) → run.late (run.during db) ≡ db
  settled db = rw (quiet.during, quiet.late)

  pub Fate-made :
      (i : ℕ) (output : Output) (job job' : GenerationJob) (db : Db)
      → job.state ≡ running
      → Passes config run job db output
      → advance config i output job ≡ ok job'
      → Fate config run i job db (keep_job (write_advance i job') job)
  Fate-made i output job job' db runs passes made =
      elim (Option-cases (get_elem? (pipelines job.kind) (suc i))) [
        | inl last ↦
            let same : job' ≡ finished_job config i output job =
              cc (advance-last config i output job runs last) in
            finished output passes last (
              rw same (
                ap (λ (r : GenerationJob). record r { id = job.id })
                  (write_advance-last i (finished_job config i output job) job last)))
        | inr (next, more) ↦
            let same : job' ≡ next_job i next job =
              cc (advance-next config i output job next runs more) in
            advanced output next passes more (
              rw same (
                ap (λ (r : GenerationJob). record r { id = job.id })
                  (write_advance-next i next (next_job i next job) job more)))
      ]
