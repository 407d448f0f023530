-- ===== src/Pipeline.antt =====
-- `execute_step` and `run_until_terminal` of apps/api/nps/pipeline.py. The step handlers (`do_step`)
-- are a parameter: a run of one says what it returned or raised and which rows it added.
pub mod Index
pub mod Termination
pub mod Outcome
pub mod Progress
pub mod Failure
pub mod Evolve
pub mod Steps
use capstone_nps.Base.{
  ℕ, zero, suc, ◌+◌, ◌*◌, ◌/◌, Bool, true, false, not, ◌&&◌, ◌||◌, Option, none, some, List, [],
  ◌∷◌, ◌==◌, length, get_elem?, nat_eq, if◌then◌else◌,
}
use capstone_nps.Base.Errors.{
  Code, code_eq, Exception, domain_error, other, Result, ok, err, raise_if, ◌>>=◌, ◌>>◌,
  job_cancelled, step_failed, plan_version_changed,
}
use capstone_nps.Config.{Settings, prototype_review_pass}
use capstone_nps.Contracts.{JobState, queued, running, waiting_review, succeeded, failed, cancelled}
use capstone_nps.Contracts.Equality.{job_state_eq}
use capstone_nps.Models.{
  Kind, Step, step_eq, QaStatus, Output, GenerationJob, JobStep, Db, find_job, find_step, find_plan,
  update_job, update_step,
}
use capstone_nps.Plans.Gate.{require_approved}
use capstone_nps.Jobs.{pipelines, is_terminal, is_waiting, transition}
use capstone_nps.Jobs.Broker.{Broker, enqueue}

-- What comes from outside in one call of `execute_step`: the handler's outcome, with the rows that it
-- adds in the transaction; what other sessions commit until the handler has ended (`during`) and then
-- until the step's own commit (`late`); and how the removal of the quarantined file ends.
pub record Run : Type 0 where
  pub outcome : Result (Output × (Db → Db))
  pub during : Db → Db
  pub late : Db → Db
  pub cleanup : Result (Unit {0})

-- The inner function `cancelled`: an independent read of the committed flag.
unfoldable pub check_cancelled : (job_id : ℕ) → Db → Result (Unit {0})
check_cancelled job_id db = elim (find_job job_id db) [
  | none ↦ ok tt
  | some j ↦ raise_if j.cancel_requested job_cancelled 409
]

-- The second look at the approval and the version of the job's plan.
unfoldable pub recheck_plan : Settings → GenerationJob → Db → Result (Unit {0})
unfolding require_approved
recheck_plan config job db = elim job.payload.plan_id [
  | none ↦ ok tt
  | some plan_id ↦ elim (find_plan plan_id db) [
    | none ↦ err other
    | some plan ↦ do
      require_approved config plan
      elim job.payload.plan_version [
        | none ↦ err other
        | some version ↦ raise_if (not (plan.version == version)) plan_version_changed 409
      ]
  ]
]

-- `pipeline.index(name)`
unfoldable pub index_of : Step → List Step → Option ℕ
unfolding step_eq
index_of name [] = none
index_of name (s ∷ rest) =
    let later : Option ℕ = elim (index_of name rest) [ none ↦ none | some i ↦ some (suc i) ] in
    if s == name then some 0 else later

-- `kind in {"analyze", "plan"}`
abbrev makes_plan : Kind → Bool
makes_plan Kind.analyze = true
makes_plan Kind.plan = true
makes_plan _ = false

abbrev is_qa_fail : Option QaStatus → Bool
is_qa_fail (some QaStatus.fail) = true
is_qa_fail _ = false

unfoldable pub needs_review : Settings → Kind → Output → Bool
unfolding prototype_review_pass
needs_review config kind output =
    makes_plan kind && not (prototype_review_pass config) || is_qa_fail output.qa_status

-- The job after a completed step: `i` is the index of the step in the pipeline.
unfoldable pub advance : Settings → ℕ → Output → GenerationJob → Result GenerationJob
advance config i output job = do
  let pipeline = pipelines job.kind
  let done = record job {
    progress = suc i * 100 / length pipeline;
    worker_id = none;
    lease_until = none;
  }
  elim (get_elem? pipeline (suc i)) [
    | none ↦ do
      job' ←
          transition done
            (if needs_review config job.kind output then waiting_review else succeeded)
      ok (record job' { result = output })
    | some next ↦ transition (record done { step = next }) queued
  ]

-- The columns that the step's commit writes.
abbrev write_next : GenerationJob → GenerationJob → GenerationJob
write_next j row = record row {
  progress = j.progress;
  step = j.step;
  state = j.state;
  seq = j.seq;
  worker_id = j.worker_id;
  lease_until = j.lease_until;
}

abbrev write_last : GenerationJob → GenerationJob → GenerationJob
write_last j row = record row {
  progress = j.progress;
  state = j.state;
  seq = j.seq;
  result = j.result;
  worker_id = j.worker_id;
  lease_until = j.lease_until;
}

abbrev pub write_advance : ℕ → GenerationJob → GenerationJob → GenerationJob
write_advance i j row = elim (get_elem? (pipelines j.kind) (suc i)) [
  | none ↦ write_last j row
  | some next ↦ write_next j row
]

abbrev pub write_success : Output → JobStep → JobStep
write_success output s = record s { output = output; state = succeeded; error_code = none }

abbrev pub code_of : Exception → Code
code_of (domain_error code status) = code
code_of other = step_failed

-- The `except` block, on the rows as they are after the rollback.
unfoldable pub fail_step : (job_id : ℕ) → Step → Exception → Db → Result Db
fail_step job_id name e db = elim (find_job job_id db) [
  | none ↦ err other
  | some fresh ↦ elim (find_step job_id name db) [
    | none ↦ err other
    | some row ↦ do
      let code = code_of e
      j ←
          transition (record fresh { error_code = some code })
            (if code == job_cancelled then cancelled else failed)
      ok (
          update_step job_id name (λ s. record s { state = failed; error_code = some code })
            (update_job job_id
              (λ r. record r {
                error_code = some code;
                state = j.state;
                seq = j.seq;
                worker_id = none;
                lease_until = none;
              })
              db))
  ]
]

-- What a call returns or raises, with the committed rows.
abbrev settle : Db → Broker → Result Db → Result (Unit {0}) × Db × Broker
settle db b (ok db') = (ok tt, db', b)
settle db b (err e) = (err e, db, b)

-- `step_name == "SECURITY_SCAN"`
abbrev pub is_scan : Step → Bool
is_scan Step.security_scan = true
is_scan _ = false

-- The commit that starts the step.
abbrev pub begin_step : GenerationJob → Db → Db
begin_step job db =
    update_step job.id job.step (λ s. record s { state = running; attempts = s.attempts + 1 })
      (update_job job.id (λ r. record r { state = job.state; seq = job.seq }) db)

module _ (config : Settings) (run : Run) where
  -- The `try` block up to its commit, from the rows that the start of the step has committed.
  pub attempt : GenerationJob → Db → Result (GenerationJob × Db)
  attempt job db = do
    check_cancelled job.id db
    (output, rows) ← run.outcome
    check_cancelled job.id (run.during db)
    recheck_plan config job (run.during db)
    elim (index_of job.step (pipelines job.kind)) [
      | none ↦ err other
      | some i ↦ do
        job' ← advance config i output job
        ok (
          job',
          update_step job.id job.step (write_success output)
              (update_job job.id (write_advance i job') (rows (run.late (run.during db)))),
        )
    ]

  -- The end of the `try` block, after its commit.
  pub after_commit : Step → GenerationJob → Db → Broker → Result (Unit {0}) × Db × Broker
  unfolding job_state_eq
  after_commit name job db b =
      let hinted = if job.state == queued then enqueue job b else b in
      if is_scan name
      then elim run.cleanup [
        | ok _ ↦ (ok tt, db, hinted)
        | err e ↦ settle db b (fail_step job.id name e db)
      ]
      else (ok tt, db, hinted)

  pub try_step : GenerationJob → Db → Broker → Result (Unit {0}) × Db × Broker
  unfolding attempt after_commit
  try_step job db b = elim (attempt job db) [
    | ok (job', db') ↦ after_commit job.step job' db' b
    | err e ↦
        let failing = run.late (run.during db) in
        settle failing b (fail_step job.id job.step e failing)
  ]

  pub start_step : GenerationJob → Db → Broker → Result (Unit {0}) × Db × Broker
  unfolding try_step job_state_eq
  start_step job db b =
      if not (job.state == running) then (ok tt, db, b) else elim (find_step job.id job.step db) [
        | none ↦ (err other, db, b)
        | some row ↦ try_step job (begin_step job db) b
      ]

  unfoldable pub execute_step : (job_id : ℕ) → Db → Broker → Result (Unit {0}) × Db × Broker
  unfolding start_step
  execute_step job_id db b = elim (find_job job_id db) [
    | none ↦ (err other, db, b)
    | some job ↦
        if is_waiting job.state
        then elim (transition job running) [
          | err e ↦ (err e, db, b)
          | ok started ↦ start_step started db b
        ]
        else start_step job db b
  ]

module _ (config : Settings) (runs : ℕ → Run) where
  -- The loop of `run_until_terminal`; `runs n` is the run with `n` more rounds to come, and past the
  -- last round the code raises `RuntimeError`.
  unfoldable pub run_rounds : ℕ → (job_id : ℕ) → Db → Broker → Result GenerationJob × Db × Broker
  run_rounds zero job_id db b = (err other, db, b)
  run_rounds (suc n) job_id db b = elim (find_job job_id db) [
    | none ↦ (err other, db, b)
    | some job ↦ elim (is_terminal job.state) [
      | true ↦ (ok job, db, b)
      | false ↦
          let (done, db', b') = execute_step config (runs n) job_id db b in
          elim done [ err e ↦ (err e, db', b') | ok _ ↦ run_rounds n job_id db' b' ]
    ]
  ]

  unfoldable pub run_until_terminal :
      (job_id : ℕ) → Db → Broker → Result GenerationJob × Db × Broker
  unfolding run_rounds
  run_until_terminal = run_rounds 30
