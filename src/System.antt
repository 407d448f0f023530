-- ===== src/System.antt =====
-- The job core as a whole: what requests, workers and recovery rounds do to the tables, one commit after
-- the other. Requests are those of apps/api/nps/jobs.py, and a worker's round (apps/api/nps/worker.py) is
-- `recover_expired`, `claim` and `execute_step`.

use capstone_nps.Config.{Settings}
use capstone_nps.Models.{Kind, Payload, Db, GenerationJob, find_job, Step}
use capstone_nps.Base.{ℕ, [], ◌≡◌, some, arith, Option}
use capstone_nps.Jobs.Requests.{create_job, Request, cancel_job, retry_job}
use capstone_nps.Jobs.Broker.{Broker, heartbeat}
use capstone_nps.Jobs.Leases.Expired.{IdsUnique}
use capstone_nps.Jobs.Evolution.{Evolves, Evolves-refl, Evolves-trans}
use capstone_nps.Jobs.Requests.Evolve.{cancel_job-Evolves, retry_job-Evolves}
use capstone_nps.Base.Errors.{ok}
use capstone_nps.Jobs.Leases.Evolve.{claim-Evolves, recover_expired-Evolves}
use capstone_nps.Jobs.Requests.Create.{create_attempts_cases, reused, inserted, insert_job-Evolves}
use capstone_nps.Pipeline.Evolve.{execute_step-Evolves}
use capstone_nps.Jobs.{Queue}
use capstone_nps.Base.Words.{Text}
use capstone_nps.Jobs.Leases.{Worker, claim, recover_expired}
use capstone_nps.Jobs.Leases.Exclusive.{alone}
use capstone_nps.Pipeline.{Run, execute_step}
use capstone_nps.Pipeline.Progress.{IsQuiet}
use capstone_nps.Jobs.Leases.Renewal.{renew, renew-Evolves}

-- A finished call and the tables that it leaves. Each call has the tables for itself: no other session is at
-- work during it.
pub data Action (config : Settings) (sha256 : Kind → Payload → ℕ) (db : Db) (b : Broker)
    : Db → Broker → Type 0 where
  created :
      (r : Request) (job : GenerationJob) (db' : Db) (b' : Broker)
      → create_job config sha256 r [] db b ≡ ok (job, db', b')
      → Action config sha256 db b db' b'
  withdrawn :
      (user : ℕ) (job job' : GenerationJob) (db' : Db)
      → find_job job.id db ≡ some job
      → cancel_job user job db ≡ ok (job', db')
      → Action config sha256 db b db' b
  retried :
      (user : ℕ) (job job' : GenerationJob) (resume : Option Step) (db' : Db) (b' : Broker)
      → find_job job.id db ≡ some job
      → retry_job user job resume db b ≡ ok (job', db', b')
      → Action config sha256 db b db' b'
  beat :
      (now worker_id : ℕ) (queue : Queue) (capability : Text) (free_vram : ℕ)
      → Action config sha256 db b db (heartbeat now worker_id queue capability free_vram b).1
  claimed :
      (now : ℕ) (w : Worker)
      → Action config sha256 db b
          (claim config now w alone db b).1
          (claim config now w alone db b).2
  executed :
      (run : Run) (id : ℕ)
      → IsQuiet run
      → Action config sha256 db b
          (execute_step config run id db b).1
          (execute_step config run id db b).2
  renewed : (now worker_id id : ℕ) → Action config sha256 db b (renew config now worker_id id db) b
  recovered :
      (now : ℕ) (db' : Db) → recover_expired now db ≡ ok db' → Action config sha256 db b db' b

-- A sequence of actions. The database enforces the primary key of the jobs on every commit.
pub data Reaches (config : Settings) (sha256 : Kind → Payload → ℕ) (db : Db) (b : Broker)
    : Db → Broker → Type 0 where
  here : Reaches config sha256 db b db b
  then :
      (d : Db) (c : Broker) (db' : Db) (b' : Broker)
      → Reaches config sha256 db b d c
      → Action config sha256 d c db' b'
      → IdsUnique db'.jobs
      → Reaches config sha256 db b db' b'

module _ (config : Settings) (sha256 : Kind → Payload → ℕ) where
  create_job-Evolves :
      (r : Request) (db : Db) (b : Broker) {job : GenerationJob} {db' : Db} {b' : Broker}
      → create_job config sha256 r [] db b ≡ ok (job, db', b')
      → Evolves db db'
  unfolding create_job
  create_job-Evolves r db b {job} {db'} {b'} h =
      elim (create_attempts_cases config sha256 r db b {job = job} {db' = db'} {b' = b'}
        (ground arith)) [
          | reused there same unchanged idle ↦ rw unchanged (Evolves-refl db)
          | inserted fresh made added hinted ↦ insert_job-Evolves job db added
        ]

  Action-Evolves :
      (db : Db) (b : Broker) (db' : Db) (b' : Broker)
      → IdsUnique db.jobs
      → Action config sha256 db b db' b'
      → Evolves db db'
  Action-Evolves db b db' b' u (created r job _ _ h) =
      create_job-Evolves r db b {job = job} {db' = db'} {b' = b'} h
  Action-Evolves db b db' b' u (withdrawn user job job' _ found h) =
      cancel_job-Evolves user job db {job' = job'} found h
  Action-Evolves db b db' b' u (retried user job job' resume _ _ found h) =
      retry_job-Evolves user job resume db b {job' = job'} {db' = db'} {b' = b'} found h
  Action-Evolves db b db' b' u (beat now worker_id queue capability free_vram) = Evolves-refl db
  Action-Evolves db b db' b' u (claimed now w) = claim-Evolves config now w db b u
  Action-Evolves db b db' b' u (executed run id quiet) =
      execute_step-Evolves config run quiet id db b
  Action-Evolves db b db' b' u (renewed now worker_id id) = renew-Evolves config now worker_id id db
  Action-Evolves db b db' b' u (recovered now _ h) = recover_expired-Evolves now db u h

  Reaches-unique :
      (db : Db) (b : Broker) (db' : Db) (b' : Broker)
      → IdsUnique db.jobs
      → Reaches config sha256 db b db' b'
      → IdsUnique db'.jobs
  Reaches-unique db b db' b' u here = u
  Reaches-unique db b db' b' u (then d c _ _ before action unique) = unique

  -- From tables in which no two jobs share an id, over any sequence of requests, heartbeats, renewals of
  -- leases, claims, executed steps and recovery rounds, each with the tables for itself, no job is lost:
  -- every job keeps its identity, kind, payload, project, requester, key and digest; its event number
  -- never falls; it has at most three retries unless it began with more; and once it is SUCCEEDED or
  -- WAITING_REVIEW it stays so.
  pub Reaches-Evolves :
      (db : Db) (b : Broker) (db' : Db) (b' : Broker)
      → IdsUnique db.jobs
      → Reaches config sha256 db b db' b'
      → Evolves db db'
  Reaches-Evolves db b db' b' u here = Evolves-refl db
  Reaches-Evolves db b db' b' u (then d c _ _ before action unique) =
      Evolves-trans db d db' (Reaches-Evolves db b d c u before)
        (Action-Evolves d c db' b' (Reaches-unique db b d c u before) action)
