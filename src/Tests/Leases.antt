-- ===== src/Tests/Leases.antt =====
-- Claims and recovery at concrete inputs.
use capstone_nps.Base.{refl, List, ◌≡◌, Option, ◌≢◌, ◌∷◌, [], some, arith}
use capstone_nps.Base.Errors.{Result, ok}
use capstone_nps.Models.{Db, find_job, GenerationJob, find_step, step_eq, Step-discrete}
use capstone_nps.Jobs.Leases.{claim, recover_expired, claim_loop, lease, order_by}
use capstone_nps.Jobs.Leases.Sound.{IsClaim, claim-IsClaim}
use capstone_nps.Jobs.Broker.{heartbeat, Broker, get_worker}
use capstone_nps.Tests.Samples.{
  config, job, db, from_ok, worker, running_db, live_broker, running_job,
}
use capstone_nps.Jobs.Leases.Exclusive.{alone, claim_loop_exclusive}
use capstone_nps.Jobs.{pipelines, routing}
use mathlib.Core.Option
use capstone_nps.Jobs.Leases.Expired.{recovered, find_job-recover_expired}
use capstone_nps.Jobs.Leases.Renewal.{renew, renew-survives}
use capstone_nps.Jobs.Leases.Renewal.{renewed}

abbrev claimed : Result (Option GenerationJob) × Db × Broker
claimed = claim config 31 worker alone db live_broker

abbrev leased : GenerationJob
leased = lease 4 151 job

claimed_lem : claim config 31 worker alone db live_broker ≡ (ok (some leased), claimed.1, claimed.2)
unfolding claim heartbeat order_by pipelines routing lease get_worker
claimed_lem = refl

claim-IsClaim_example : IsClaim config 31 worker db live_broker leased
claim-IsClaim_example = claim-IsClaim config 31 worker db live_broker claimed_lem

abbrev second : GenerationJob
second = record job { id = 2 }

abbrev two_db : Db
two_db = record db { jobs = job ∷ second ∷ [] }

abbrev rows : List GenerationJob
rows = job ∷ second ∷ []

abbrev taken_once : Db
taken_once = (claim_loop 4 151 alone rows two_db).1

abbrev taken_twice : Db
taken_twice = (claim_loop 5 151 alone rows taken_once).1

first_taken : claim_loop 4 151 alone rows two_db ≡ (ok (some (lease 4 151 job)), taken_once)
unfolding claim_loop
first_taken = refl

second_taken :
    claim_loop 5 151 alone rows taken_once ≡ (ok (some (lease 5 151 second)), taken_twice)
unfolding claim_loop
second_taken = refl

claim_loop_exclusive_example : (lease 5 151 second).id ≢ (lease 4 151 job).id
claim_loop_exclusive_example =
    claim_loop_exclusive 4 151 rows 5 151 rows two_db first_taken second_taken

abbrev recovered_db : Db
recovered_db = from_ok db (recover_expired 60 running_db)

recovered_lem : recover_expired 60 running_db ≡ ok recovered_db
unfolding recover_expired find_step step_eq Step-discrete
recovered_lem = refl

find_job-recover_expired_example :
    find_job 1 recovered_db ≡ Option.map (recovered 60) (find_job 1 running_db)
find_job-recover_expired_example = find_job-recover_expired 60 1 running_db (refl, tt) recovered_lem

running_found : find_job 1 running_db ≡ some running_job
unfolding find_job
running_found = refl

abbrev saved_db : Db
saved_db = from_ok db (recover_expired 100 (renew config 40 4 1 running_db))

saved_lem : recover_expired 100 (renew config 40 4 1 running_db) ≡ ok saved_db
unfolding recover_expired renew
saved_lem = refl

renew-survives_example : find_job 1 saved_db ≡ some (renewed 160 running_job)
renew-survives_example =
    renew-survives config 40 100 4 1 running_db running_job (refl, tt) running_found refl
      (omega arith) saved_lem
