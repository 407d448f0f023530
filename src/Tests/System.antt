-- ===== src/Tests/System.antt =====
-- A run of the job core: a job is made, a worker takes the older one and runs its step.
use capstone_nps.System.{Reaches, Reaches-Evolves, then, here, Action}
use capstone_nps.Models.{Db, GenerationJob, find_job, find_step, update_job, update_step, step_eq}
use capstone_nps.Jobs.Requests.{
  create_job, key_of, create_attempts, find_keyed, insert_job, new_job, with_review_mode,
}
use capstone_nps.Jobs.Evolution.{Evolves}
use capstone_nps.Tests.Samples.{
  db, config, digest_of, from_ok, good_run, job, live_broker, worker, request,
}
use capstone_nps.Jobs.Broker.{Broker, heartbeat, get_worker, enqueue}
use capstone_nps.Pipeline.{execute_step, check_cancelled, recheck_plan, advance, index_of}
use capstone_nps.Jobs.Leases.{claim, order_by, lease}
use capstone_nps.Base.{refl, [], ◌≡◌}
use capstone_nps.Jobs.Leases.Exclusive.{alone}
use capstone_nps.Auth.Audit.{audit}
use capstone_nps.Tests.Jobs.{good_run-IsQuiet}
use capstone_nps.Jobs.Leases.Expired.{IdsUnique}
use capstone_nps.Base.Errors.{ok}
use capstone_nps.Jobs.{pipelines, routing}

abbrev created : GenerationJob × Db × Broker
created = from_ok (job, db, live_broker) (create_job config digest_of request [] db live_broker)

created_lem : create_job config digest_of request [] db live_broker ≡ ok created
unfolding create_job key_of create_attempts find_keyed insert_job new_job with_review_mode
created_lem = refl

abbrev taken : Db × Broker
taken = (
  (claim config 31 worker alone created.1 created.2).1,
  (claim config 31 worker alone created.1 created.2).2,
)

abbrev ran : Db × Broker
ran = (
  (execute_step config good_run 1 taken.0 taken.1).1,
  (execute_step config good_run 1 taken.0 taken.1).2,
)

created_unique : IdsUnique created.1.jobs
unfolding create_job key_of create_attempts find_keyed insert_job new_job with_review_mode audit
created_unique = (refl, (refl, tt))

taken_unique : IdsUnique taken.0.jobs
unfolding create_job key_of create_attempts find_keyed insert_job new_job with_review_mode audit
    claim heartbeat order_by pipelines routing lease get_worker enqueue
taken_unique = (refl, (refl, tt))

ran_unique : IdsUnique ran.0.jobs
unfolding create_job key_of create_attempts find_keyed insert_job new_job with_review_mode audit
    claim heartbeat order_by pipelines routing lease get_worker enqueue execute_step check_cancelled
    recheck_plan advance find_job find_step update_job update_step step_eq index_of
ran_unique = (refl, (refl, tt))

run_of_core : Reaches config digest_of db live_broker ran.0 ran.1
run_of_core =
    then taken.0 taken.1 ran.0 ran.1
      (then created.1 created.2 taken.0 taken.1
        (then db live_broker created.1 created.2 here
          (Action.created request created.0 created.1 created.2 created_lem) created_unique)
        (Action.claimed 31 worker) taken_unique)
      (Action.executed good_run 1 good_run-IsQuiet) ran_unique

Reaches-Evolves_example : Evolves db ran.0
Reaches-Evolves_example =
    Reaches-Evolves config digest_of db live_broker ran.0 ran.1 (refl, tt) run_of_core
