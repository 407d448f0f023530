-- ===== src/Tests/Jobs.antt =====
-- The job machine and the pipeline at concrete inputs.
use mathlib.Core.Option
use capstone_nps.Tests.Samples.{config, job, db, broker, good_run, running_db, running_job, from_ok}
use capstone_nps.Pipeline.Outcome.{Ran, started_job, execute_step-Ran}
use capstone_nps.Jobs.{pipelines, transition}
use capstone_nps.Models.{
  find_step, find_job, step_eq, Step-discrete, Step, Kind, Output, Db, update_step, update_job,
  GenerationJob,
}
use capstone_nps.Pipeline.Termination.{Ends, IsReady, run_until_terminal-Ends}
use capstone_nps.Pipeline.Progress.{IsQuiet}
use capstone_nps.Pipeline.{
  index_of, run_until_terminal, execute_step, recheck_plan, advance, Run, check_cancelled,
}
use capstone_nps.Base.{refl, ◌≡◌, inl, some, ap, map, ◌∷◌, [], All, Option}
use capstone_nps.Pipeline.Failure.{HasRow}
use capstone_nps.Jobs.Requests.{new_step}
use capstone_nps.Base.Errors.{ok, raise, job_invalid_transition}
use capstone_nps.Contracts.{succeeded, queued}
use capstone_nps.Jobs.Machine.{transition_exact}
use capstone_nps.Contracts.Equality.{job_state_eq}
use capstone_nps.Jobs.Leases.{recover_expired}
use capstone_nps.Jobs.Leases.Recovery.{lost}
use capstone_nps.Jobs.Snapshot.{Snapshot, snapshot, StepView, Shows, snapshot-Shows}
use capstone_nps.Jobs.Broker.{enqueue}

same_rows :
    {output : Output} {rows : Db → Db}
    → good_run.outcome ≡ ok (output, rows)
    → rows ≡ (λ (d : Db). d)
same_rows e = cc

pub good_run-IsQuiet : IsQuiet good_run
good_run-IsQuiet = record {
  during = λ d. refl;
  late = λ d. refl;
  jobs = λ output rows e d. ap (λ (g : Db → Db). (g d).jobs) (same_rows e);
  steps = λ output rows e d. ap (λ (g : Db → Db). (g d).steps) (same_rows e);
  cleanup = refl;
}

has_scan : HasRow 1 db Step.security_scan
unfolding find_step step_eq Step-discrete
has_scan = (new_step 1 Step.security_scan, refl)

has_learn : HasRow 1 db Step.design_learn
unfolding find_step step_eq Step-discrete
has_learn = (new_step 1 Step.design_learn, refl)

job_found : find_job 1 db ≡ some job
unfolding find_job
job_found = refl

scan_index : index_of Step.security_scan (pipelines Kind.design_reference) ≡ some 0
unfolding index_of pipelines step_eq Step-discrete
scan_index = refl

job-IsReady : IsReady 0 job db
unfolding pipelines
job-IsReady = record {
  found = job_found;
  live = inl refl;
  here = scan_index;
  rows = (has_scan, (has_learn, tt));
}

run_until_terminal-Ends_example : Ends 1 (run_until_terminal config (λ n. good_run) 1 db broker)
run_until_terminal-Ends_example =
    run_until_terminal-Ends config (λ n. good_run) (λ n. good_run-IsQuiet) 0 job db broker
      job-IsReady

execute_step-Ran_example :
    Ran config good_run good_run-IsQuiet 0
      (started_job job)
      db
      (execute_step config good_run 1 db broker)
execute_step-Ran_example =
    execute_step-Ran config good_run good_run-IsQuiet 0 job db broker job_found (inl refl) has_scan
      scan_index

transition_exact_example : transition job succeeded ≡ raise job_invalid_transition 409
unfolding job_state_eq
transition_exact_example = transition_exact job succeeded

fail_found : find_job 1 running_db ≡ some running_job
unfolding find_job
fail_found = refl

fail_row : find_step 1 Step.security_scan running_db ≡ some (new_step 1 Step.security_scan)
unfolding find_step step_eq Step-discrete
fail_row = refl

-- A step that outlives its lease: a recovery round fails the job before the step's commit, which then makes
-- it QUEUED for the next step.
abbrev outlived : Run
outlived = record good_run { late = λ d. from_ok d (recover_expired 60 d) }

abbrev lost_row : GenerationJob
lost_row = lost 2 running_job

failed_by_then : find_job 1 (from_ok running_db (recover_expired 60 running_db)) ≡ some lost_row
unfolding find_job recover_expired find_step step_eq update_step update_job
failed_by_then = refl

abbrev late_job : Option GenerationJob
late_job = find_job 1 (execute_step config outlived 1 running_db broker).1

overwritten : Option.map (λ (j : GenerationJob). j.state) late_job ≡ some queued
unfolding execute_step check_cancelled find_job find_step recheck_plan advance pipelines transition
    index_of step_eq Step-discrete update_step update_job recover_expired enqueue
overwritten = refl

snapshot-Shows_example :
    (view : Snapshot) × (snapshot db job ≡ ok view)
    × (map (λ (v : StepView). v.step) view.steps ≡ Step.security_scan ∷ Step.design_learn ∷ [])
    × All (Shows 1 db) view.steps
unfolding pipelines
snapshot-Shows_example = snapshot-Shows db job (has_scan, (has_learn, tt))
