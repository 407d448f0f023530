-- ===== src/Jobs/Leases.antt =====
-- `claim` and `recover_expired` of jobs.py: a worker takes a job under a lease, and a job whose lease
-- has run out is failed.
pub mod Exclusive
pub mod Evolve
pub mod Expired
pub mod Recovery
pub mod Renewal
pub mod Sound
use capstone_nps.Base.{
  ℕ, ◌+◌, min, Bool, true, false, not, ◌&&◌, ◌||◌, Option, none, some, List, [], ◌∷◌, ◌==◌, take,
  nat_eq, ltb, leb, if◌then◌else◌,
}
use capstone_nps.Base.Errors.{Result, ok, err, other, ◌>>=◌, worker_lost}
use capstone_nps.Base.Rows.{select, first, update}
use capstone_nps.Base.Words.{Text, text_eq}
use capstone_nps.Config.{Settings}
use capstone_nps.Contracts.{JobState, running, failed, cancelled}
use capstone_nps.Contracts.Equality.{job_state_eq}
use capstone_nps.Models.{GenerationJob, JobStep, Db, find_step, update_job, update_step}
use capstone_nps.Jobs.{Queue, routing, is_waiting, transition}
use capstone_nps.Jobs.Broker.{Broker, Heartbeat, queue_eq, get_worker, zrem}

-- `ORDER BY priority DESC, created_at`
pub before : GenerationJob → GenerationJob → Bool
before a b =
    ltb b.priority a.priority || (a.priority == b.priority && leb a.created_at b.created_at)

pub place : GenerationJob → List GenerationJob → List GenerationJob
unfolding before
place a [] = a ∷ []
place a (b ∷ rest) = let later = b ∷ place a rest in if before a b then a ∷ b ∷ rest else later

unfoldable pub order_by : List GenerationJob → List GenerationJob
unfolding place
order_by [] = []
order_by (a ∷ rest) = place a (order_by rest)

pub record Worker : Type 0 where
  pub worker_id : ℕ
  pub queue : Queue
  pub capability : Text
  pub free_vram : ℕ

-- The WHERE clause of the SELECT.
unfoldable pub is_candidate : Worker → Heartbeat → GenerationJob → Bool
unfolding queue_eq
is_candidate w beat j =
    is_waiting j.state
    && routing j.step == w.queue
    && text_eq.beq j.required_capability w.capability
    && leb j.estimated_vram_mb (min w.free_vram beat.free_vram_mb)

unfoldable pub candidates : Worker → Heartbeat → Db → List GenerationJob
unfolding is_candidate order_by
candidates w beat db = take 20 (order_by (select (is_candidate w beat) db.jobs))

-- The condition of the UPDATE that takes a job.
abbrev pub is_open : ℕ → GenerationJob → Bool
is_open id j = j.id == id && is_waiting j.state

unfoldable pub lease : (worker_id until : ℕ) → GenerationJob → GenerationJob
lease worker_id until j = record j {
  state = running;
  worker_id = some worker_id;
  seq = j.seq + 1;
  lease_until = some until;
}

-- `transition(job, "CANCELLED")` on the row as it was selected, and its commit.
pub cancel_candidate : GenerationJob → Db → Result Db
unfolding transition
cancel_candidate j db = do
  j' ← transition j cancelled
  ok (update_job j.id (λ row. record row { state = j'.state; seq = j'.seq }) db)

-- The loop over the selected rows. `others id` is what other sessions commit before the candidate `id`
-- is tried; the result is the row that was taken, refreshed.
unfoldable pub claim_loop :
    (worker_id until : ℕ)
    → (ℕ → Db → Db)
    → List GenerationJob
    → Db
    → Result (Option GenerationJob) × Db
unfolding cancel_candidate lease
claim_loop worker_id until others [] db = (ok none, db)
claim_loop worker_id until others (j ∷ rest) db =
    let now = others j.id db in
    let taken = record now { jobs = update (is_open j.id) (lease worker_id until) now.jobs } in
    let next = λ (d : Db). claim_loop worker_id until others rest d in
    if j.cancel_requested
    then elim (cancel_candidate j now) [ err e ↦ (err e, now) | ok d ↦ next d ]
    else elim (first (is_open j.id) now.jobs) [
      | none ↦ next now
      | some row ↦ (ok (some (lease worker_id until row)), taken)
    ]

-- The job's hint is dropped once its lease is committed.
drop_hint :
    Queue
    → Result (Option GenerationJob) × Db
    → Broker
    → Result (Option GenerationJob) × Db × Broker
unfolding zrem
drop_hint queue (ok (some job), db) b =
    let (sent, b') = zrem queue job.id b in (sent >>= λ _. ok (some job), db, b')
drop_hint queue (r, db) b = (r, db, b)

module _ (config : Settings) (now : ℕ) (w : Worker) (others : ℕ → Db → Db) where
  claim_with : Result (Option Heartbeat) → Db → Broker → Result (Option GenerationJob) × Db × Broker
  unfolding claim_loop drop_hint queue_eq candidates
  claim_with (err e) db b = (err e, db, b)
  claim_with (ok none) db b = (ok none, db, b)
  claim_with (ok (some beat)) db b =
      if not (beat.queue == w.queue) || not (text_eq.beq beat.capability w.capability)
      then (ok none, db, b)
      else drop_hint w.queue
          (claim_loop w.worker_id (now + config.worker_lease_seconds) others (candidates w beat db)
            db)
          b

  -- The session may have committed before an exception, so the tables come back beside it.
  unfoldable pub claim : Db → Broker → Result (Option GenerationJob) × Db × Broker
  unfolding claim_with
  claim db b = let (found, b') = get_worker now w.worker_id b in claim_with found db b'

-- `state == "RUNNING" and lease_until < utcnow()`; no lease is no hit.
unfoldable pub is_expired : (now : ℕ) → GenerationJob → Bool
unfolding job_state_eq
is_expired now j =
    j.state == running && elim j.lease_until [ none ↦ false | some until ↦ ltb until now ]

-- One round of the loop, on the row as it was selected.
unfoldable pub expire : GenerationJob → Db → Result Db
unfolding transition
expire j db = do
  j' ← transition (record j { error_code = some worker_lost }) failed
  elim (find_step j.id j.step db) [
    | none ↦ err other
    | some row ↦ ok (
        update_step j.id j.step (λ s. record s { state = failed; error_code = some worker_lost })
          (update_job j.id
            (λ row. record row {
              error_code = j'.error_code;
              state = j'.state;
              seq = j'.seq;
              worker_id = none;
              lease_until = none;
            })
            db))
  ]

unfoldable pub expire_all : List GenerationJob → Db → Result Db
unfolding expire
expire_all [] db = ok db
expire_all (j ∷ rest) db = expire j db >>= λ d. expire_all rest d

-- All rounds are one transaction: an exception leaves the tables as they were.
unfoldable pub recover_expired : (now : ℕ) → Db → Result Db
unfolding is_expired expire_all
recover_expired now db = expire_all (select (is_expired now) db.jobs) db
