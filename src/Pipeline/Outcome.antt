-- ===== src/Pipeline/Outcome.antt =====
-- `execute_step` put together: a call on a job that waits or runs returns, and its outcome is one of the
-- fates of Pipeline/Progress.
use capstone_nps.Pipeline.Progress.{
  Passes, Fate, attempt-Stops, attempt-Passes, Stops, raised, crashed, stale, lost, asked, finished,
  advanced,
}
use capstone_nps.Pipeline.{
  recheck_plan, Run, try_step, start_step, index_of, settle, after_commit, fail_step, begin_step,
  attempt, code_of, write_advance, execute_step, recheck_plan,
}
use capstone_nps.Config.{Settings}
use capstone_nps.Pipeline.Progress.{
  IsQuiet, Outcome, Success, success, settled, hinted, after_commit_quiet, attempt-Success,
  success-found, success-rows, Fate-made, stopped, Fate, Passes, Stops, attempt-Stops, finished,
  asked, attempt-Passes, raised, advanced, crashed, stale, lost,
}
use capstone_nps.Base.{
  ℕ, ◌≡◌, some, inl, inr, ◌∙◌, ap, ◌+◌, refl, if◌then◌else◌, true, ◌⊎◌, Bool-cases, arith, false,
  sym,
}
use capstone_nps.Models.{
  Output, find_plan, GenerationJob, Db, JobStep, find_job, find_step, update_step, keep_job,
  update_job, Output, find_plan,
}
use capstone_nps.Base.Errors.{Code, Result, Exception, ok, Result-cases, Code}
use capstone_nps.Jobs.Broker.{Broker}
use capstone_nps.Contracts.{running}
use capstone_nps.Pipeline.Failure.{
  HasRow, HasRow-update_step, stopped_step, HasRow-update_job, find_job-update_job_self,
  stopped_job, fail_step-running,
}
use capstone_nps.Jobs.{pipelines, is_waiting}
use capstone_nps.Models.Reads.{find_job-update_step}
use capstone_nps.Jobs.Machine.{moved, transition_waiting}

-- The job as the step starts.
abbrev pub started_job : GenerationJob → GenerationJob
started_job job = if is_waiting job.state then moved job running else job

-- What the start of a step leaves in the row of its job.
abbrev pub begun : (job row : GenerationJob) → GenerationJob
begun job row = record row { state = job.state; seq = job.seq }

module _ (config : Settings) (run : Run) (quiet : IsQuiet run) where
  -- A call that returned, and what it did to the job.
  pub record Ran (i : ℕ) (job : GenerationJob) (db : Db) (call : Result (Unit {0}) × Db × Broker)
      : Type 0 where
    pub final : Db
    pub broker : Broker
    pub returned : call ≡ (ok tt, final, broker)
    pub outcome : Outcome config run i job db final

  Ran-failed :
      (i : ℕ) (job : GenerationJob) (db : Db) (b : Broker) (e : Exception) (row : JobStep)
      → find_job job.id db ≡ some job
      → job.state ≡ running
      → find_step job.id job.step db ≡ some row
      → Stops config run job db (code_of e)
      → Ran i job db (
          settle
            (run.late (run.during db))
            b
            (fail_step job.id job.step e (run.late (run.during db))))
  Ran-failed i job db b e row found runs there why = rw (settled config run quiet) (record {
    final =
        update_step job.id job.step (stopped_step (code_of e))
          (update_job job.id (stopped_job (code_of e) (job.seq + 1)) db);
    broker = b;
    returned = rw (fail_step-running job.id job.step e db job row found runs there);
    outcome = record {
      after = stopped_job (code_of e) (job.seq + 1) job;
      found =
          rw find_job-update_step
            (find_job-update_job_self job.id (stopped_job (code_of e) (job.seq + 1)) db job found);
      rows = λ n has.
          HasRow-update_step job.id n job.id job.step _ _
            (HasRow-update_job job.id n job.id _ db has);
      fate = stopped (code_of e) why refl;
    };
  })

  Ran-committed :
      (i : ℕ) (job job' : GenerationJob) (db d : Db) (b : Broker)
      → find_job job.id db ≡ some job
      → job.state ≡ running
      → (s : Success config run quiet i job job' db d) → Passes config run job db s.output
      → Ran i job db (after_commit config run job.step job' d b)
  Ran-committed i job job' db d b found runs s passes =
      let written : d ≡ success config run quiet i s.output s.rows job job' db =
        rw (settled config run quiet) at s.written in
      record {
        final = d;
        broker = hinted config run quiet job' b;
        returned = after_commit_quiet config run quiet job.step job' d b;
        outcome = record {
          after = keep_job (write_advance i job') job;
          found =
              rw written
                (success-found config run quiet i s.output s.rows job job' db s.went found);
          rows = λ n has.
              rw written (success-rows config run quiet i s.output s.rows job job' db n s.went has);
          fate = Fate-made config run quiet i s.output job job' db runs passes s.made;
        };
      }

  Ran-try :
      (i : ℕ) (job : GenerationJob) (db : Db) (b : Broker) (row : JobStep)
      → find_job job.id db ≡ some job
      → job.state ≡ running
      → find_step job.id job.step db ≡ some row
      → index_of job.step (pipelines job.kind) ≡ some i
      → Ran i job db (try_step config run job db b)
  unfolding try_step
  Ran-try i job db b row found runs there here = elim (Result-cases (attempt config run job db)) [
    | inl (e, bad) ↦
        rw (try_step, bad)
          (Ran-failed i job db b e row found runs there
            (attempt-Stops config run quiet i job db e found runs here bad))
    | inr ((job', d), good) ↦
        let s = attempt-Success config run quiet i job job' db d here good in
        rw (try_step, good)
          (Ran-committed i job job' db d b found runs s (
            attempt-Passes config run quiet i job job' db d s.output s.rows found here s.went good))
  ]

  recheck_plan-begun :
      (job : GenerationJob) (db : Db)
      → recheck_plan config job (begin_step job db) ≡ recheck_plan config job db
  unfolding recheck_plan find_plan update_job update_step
  recheck_plan-begun job db = refl

  Stops-begun :
      (job : GenerationJob) (db : Db) (code : Code)
      → Stops config run job (begin_step job db) code
      → Stops config run job db code
  Stops-begun job db _ (asked h) = asked h
  Stops-begun job db _ (raised code status u h) = raised code status u h
  Stops-begun job db _ (crashed u h) = crashed u h
  Stops-begun job db _ (stale made code status u h k) =
      stale made code status u h (sym (recheck_plan-begun job db) ∙ k)
  Stops-begun job db _ (lost made u h k) = lost made u h (sym (recheck_plan-begun job db) ∙ k)

  Passes-begun :
      (job : GenerationJob) (db : Db) (output : Output)
      → Passes config run job (begin_step job db) output
      → Passes config run job db output
  Passes-begun job db output p = record {
    unasked = p.unasked;
    rows = p.rows;
    returned = p.returned;
    current = sym (recheck_plan-begun job db) ∙ p.current;
  }

  -- What decides the fate is the same before the step's first commit.
  Fate-begun :
      (i : ℕ) (job : GenerationJob) (db : Db) (after : GenerationJob)
      → Fate config run i job (begin_step job db) after
      → Fate config run i job db after
  Fate-begun i job db after (stopped code why e) = stopped code (Stops-begun job db code why) e
  Fate-begun i job db after (finished output passes last e) =
      finished output (Passes-begun job db output passes) last e
  Fate-begun i job db after (advanced output next passes more e) =
      advanced output next (Passes-begun job db output passes) more e

  Ran-start :
      (i : ℕ) (job row : GenerationJob) (db : Db) (b : Broker)
      → find_job job.id db ≡ some row
      → begun job row ≡ job
      → job.state ≡ running
      → HasRow job.id db job.step
      → index_of job.step (pipelines job.kind) ≡ some i
      → Ran i job db (start_step config run job db b)
  unfolding start_step
  Ran-start i job row db b found same runs (step_row, there) here =
      let d = begin_step job db in
      let has : HasRow job.id d job.step =
        HasRow-update_step job.id job.step job.id job.step _ _
          (HasRow-update_job job.id job.step job.id _ db (step_row, there)) in
      let now : find_job job.id d ≡ some job =
        rw find_job-update_step
          (find_job-update_job_self job.id (λ r. begun job r) db row found ∙ ap some same) in
      let ran = Ran-try i job d b has.0 now runs has.1 here in
      record {
        final = ran.final;
        broker = ran.broker;
        returned = rw (start_step, runs, there) ran.returned;
        outcome = record {
          after = ran.outcome.after;
          found = ran.outcome.found;
          rows = λ n h. ran.outcome.rows n (
              HasRow-update_step job.id n job.id job.step _ _
                (HasRow-update_job job.id n job.id _ db h));
          fate = Fate-begun i job db ran.outcome.after ran.outcome.fate;
        };
      }

  call_waiting :
      (job : GenerationJob) (db : Db) (b : Broker)
      → find_job job.id db ≡ some job
      → is_waiting job.state ≡ true
      → execute_step config run job.id db b ≡ start_step config run (moved job running) db b
  unfolding execute_step
  call_waiting job db b found waits = rw (execute_step, found, waits, transition_waiting job waits)

  call_running :
      (job : GenerationJob) (db : Db) (b : Broker)
      → find_job job.id db ≡ some job
      → is_waiting job.state ≡ false
      → execute_step config run job.id db b ≡ start_step config run job db b
  unfolding execute_step
  call_running job db b found runs = rw (execute_step, found, runs)

  -- While no other session is at work: on a job that waits or runs, at the `i`-th step of its pipeline,
  -- `execute_step` returns, no row of a step is gone, and the job has the fate that the run decides. If
  -- somebody had asked to cancel it, it is CANCELLED with JOB_CANCELLED. If the handler raised, or after it
  -- the second look at the plan did, it is FAILED with the code of the `DomainError` (CANCELLED where that
  -- is JOB_CANCELLED), or with STEP_FAILED for any other exception. If the handler returned an output and the
  -- second look passed, then after the last step it is SUCCEEDED or WAITING_REVIEW with just this output, and
  -- after any other step QUEUED for the next one.
  pub execute_step-Ran :
      (i : ℕ) (job : GenerationJob) (db : Db) (b : Broker)
      → find_job job.id db ≡ some job
      → (is_waiting job.state ≡ true) ⊎ (job.state ≡ running)
      → HasRow job.id db job.step
      → index_of job.step (pipelines job.kind) ≡ some i
      → Ran i (started_job job) db (execute_step config run job.id db b)
  execute_step-Ran i job db b found live has here = elim (Bool-cases (is_waiting job.state)) [
    | inl waits ↦
        rw (waits, call_waiting job db b found waits)
          (Ran-start i (moved job running) job db b found refl refl has here)
    | inr still ↦
        rw (still, call_running job db b found still)
          (Ran-start i job job db b found refl (ground arith) has here)
  ]
