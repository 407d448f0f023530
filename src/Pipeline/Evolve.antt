-- ===== src/Pipeline/Evolve.antt =====
-- `execute_step` keeps what Jobs/Evolution states, whatever the handler returns or raises.

use capstone_nps.Config.{Settings}
use capstone_nps.Base.{
  ℕ, ◌≡◌, some, Option-cases, Bool-cases, inl, arith, inr, ◌==◌, ◌∙◌, ◌+◌, refl, ap, subst, sym,
  ==_iff,
}
use capstone_nps.Pipeline.{
  Run, start_step, try_step, attempt, index_of, settle, fail_step, write_advance, code_of,
  write_success, execute_step, begin_step,
}
use capstone_nps.Models.{GenerationJob, Db, find_job, JobStep, find_step}
use capstone_nps.Pipeline.Progress.{
  IsQuiet, Fate, Success, stopped, success, settled, finished, after_commit_quiet, advanced,
  attempt-Success, Fate-made, Passes, attempt-Passes,
}
use capstone_nps.Base.Errors.{Exception, ok, Result-cases}
use capstone_nps.Jobs.Broker.{Broker}
use capstone_nps.Contracts.{running}
use capstone_nps.Jobs.Evolution.{
  JobEvolves, Evolves, Evolves-of_jobs, Evolves-refl, Evolves-trans, Evolves-update_job,
  Evolves-update_step, JobEvolves-refl,
}
use capstone_nps.Jobs.{pipelines, is_waiting}
use capstone_nps.Pipeline.Outcome.{begun}
use capstone_nps.Pipeline.Failure.{
  fail_step-running, stopped_job, stopped_step, HasRow, HasRow-update_step, HasRow-update_job,
  find_job-update_job_self,
}
use capstone_nps.Models.Reads.{find_job-same, find_job-update_step, find_job_self}
use capstone_nps.Jobs.Machine.{transition_waiting, moved}
use capstone_nps.Contracts.Equality.{job_state_eq}

module _ (config : Settings) (run : Run) (i : ℕ) (job : GenerationJob) (db : Db)
    (after : GenerationJob) where
  Fate-JobEvolves : job.state ≡ running → Fate config run i job db after → JobEvolves job after
  Fate-JobEvolves runs (stopped code why e) = rw e (ground arith)
  Fate-JobEvolves runs (finished output passes last e) = rw e (ground arith)
  Fate-JobEvolves runs (advanced output next passes more e) = rw e (ground arith)

module _ (config : Settings) (run : Run) (quiet : IsQuiet run) where
  fail_step-Evolves :
      (job : GenerationJob) (e : Exception) (db : Db) (b : Broker) (row : JobStep)
      → find_job job.id db ≡ some job
      → job.state ≡ running
      → find_step job.id job.step db ≡ some row
      → Evolves db (settle db b (fail_step job.id job.step e db)).1
  fail_step-Evolves job e db b row found runs there =
      rw (fail_step-running job.id job.step e db job row found runs there) (
        Evolves-trans db _ _
          (Evolves-update_job job.id (stopped_job (code_of e) (job.seq + 1)) db
            (λ r h. let same : r ≡ job = cc in rw same (ground arith)))
          (Evolves-update_step job.id job.step (stopped_step (code_of e)) _))

  Success-Evolves :
      (i : ℕ) (job job' : GenerationJob) (db d : Db)
      → find_job job.id db ≡ some job
      → job.state ≡ running
      → (s : Success config run quiet i job job' db d) → Passes config run job db s.output
      → Evolves db d
  Success-Evolves i job job' db d found runs s passes =
      let written : d ≡ success config run quiet i s.output s.rows job job' db =
        rw (settled config run quiet) at s.written in
      let added = Evolves-of_jobs db (s.rows db) (quiet.jobs s.output s.rows s.went db) in
      let there =
        find_job-same job.id db (s.rows db) (quiet.jobs s.output s.rows s.went db) ∙ found in
      rw written (
        Evolves-trans db _ _ added (
          Evolves-trans (s.rows db) _ _
            (Evolves-update_job job.id (write_advance i job') (s.rows db) (λ r h.
              let same : r ≡ job = cc in
              rw same (
                Fate-JobEvolves config run i job db _ runs
                  (Fate-made config run quiet i s.output job job' db runs passes s.made))))
            (Evolves-update_step job.id job.step (write_success s.output) _)))

  attempt-index :
      (job : GenerationJob) (db : Db) {job' : GenerationJob} {d : Db}
      → attempt config run job db ≡ ok (job', d)
      → (i : ℕ) × (index_of job.step (pipelines job.kind) ≡ some i)
  unfolding attempt
  attempt-index job db h = elim (Option-cases (index_of job.step (pipelines job.kind))) [
    | inl gone ↦ absurd (ground arith)
    | inr here ↦ here
  ]

  try_step-Evolves :
      (job : GenerationJob) (db : Db) (b : Broker) (row : JobStep)
      → find_job job.id db ≡ some job
      → job.state ≡ running
      → find_step job.id job.step db ≡ some row
      → Evolves db (try_step config run job db b).1
  unfolding try_step
  try_step-Evolves job db b row found runs there = elim (Result-cases (attempt config run job db)) [
    | inl (e, bad) ↦
        rw (try_step, bad, settled config run quiet)
          (fail_step-Evolves job e db b row found runs there)
    | inr ((job', d), good) ↦
        let (i, here) = attempt-index job db {job' = job'} {d = d} good in
        let s = attempt-Success config run quiet i job job' db d here good in
        rw (try_step, good, after_commit_quiet config run quiet job.step job' d b)
          (Success-Evolves i job job' db d found runs s (
            attempt-Passes config run quiet i job job' db d s.output s.rows found here s.went good))
  ]

  start_step-Evolves :
      (job row : GenerationJob) (db : Db) (b : Broker)
      → find_job job.id db ≡ some row
      → begun job row ≡ job
      → JobEvolves row job
      → Evolves db (start_step config run job db b).1
  unfolding start_step
  start_step-Evolves job row db b found same evolves = elim (Bool-cases (job.state == running)) [
    | inr idle ↦ rw (start_step, idle) (Evolves-refl db)
    | inl runs ↦ elim (Option-cases (find_step job.id job.step db)) [
      | inl gone ↦ rw (start_step, runs, gone) (Evolves-refl db)
      | inr (step_row, there) ↦
          let d = begin_step job db in
          let has : HasRow job.id d job.step =
            HasRow-update_step job.id job.step job.id job.step _ _
              (HasRow-update_job job.id job.step job.id _ db (step_row, there)) in
          let now : find_job job.id d ≡ some job =
            rw find_job-update_step
              (find_job-update_job_self job.id (λ r. begun job r) db row found ∙ ap some same) in
          let starts : Evolves db d =
            Evolves-trans db _ d
              (Evolves-update_job job.id (λ r. begun job r) db
                (λ r h. let it : r ≡ row = cc in rw it (subst (JobEvolves row) (sym same) evolves)))
              (Evolves-update_step job.id job.step _ _) in
          rw (start_step, runs, there)
            (Evolves-trans db d _ starts
              (try_step-Evolves job d b has.0 now ((==_iff job.state running).0 runs) has.1))
    ]
  ]

  -- Whatever the handler returns or raises, a call of `execute_step` while no other session is at work
  -- leaves every job in the tables: with its identity, kind, payload, project, requester, key and digest,
  -- with no smaller event number, with at most three retries unless it had more, and still SUCCEEDED or
  -- WAITING_REVIEW if it was.
  pub execute_step-Evolves :
      (id : ℕ) (db : Db) (b : Broker) → Evolves db (execute_step config run id db b).1
  unfolding execute_step
  execute_step-Evolves id db b = elim (Option-cases (find_job id db)) [
    | inl gone ↦ rw (execute_step, gone) (Evolves-refl db)
    | inr (job, found) ↦
        let here : find_job job.id db ≡ some job = find_job_self id db job found in
        elim (Bool-cases (is_waiting job.state)) [
          | inl waits ↦
              rw (execute_step, found, waits, transition_waiting job waits)
                (start_step-Evolves (moved job running) job db b here refl (ground arith))
          | inr busy ↦
              rw (execute_step, found, busy)
                (start_step-Evolves job job db b here refl (JobEvolves-refl job))
        ]
  ]
