-- ===== src/Jobs/Broker.antt =====
-- The calls of Redis in jobs.py. Each command may fail: `outages` says which of the coming commands
-- do, and past its end all succeed. No code reads the queues; they are hints.
use capstone_nps.Base.{
  ℕ, ◌+◌, Bool, true, not, ◌&&◌, Option, List, [], ◌∷◌, ◌==◌, decided_eq, Eq, nat_eq, ltb,
  if◌then◌else◌,
}
use capstone_nps.Base.Errors.{Result, ok, err, other}
use capstone_nps.Base.Rows.{first, select}
use capstone_nps.Base.Words.{Text}
use capstone_nps.Models.{GenerationJob}
use capstone_nps.Jobs.{Queue, routing}

unfoldable pub Queue-discrete : Discrete Queue
Queue-discrete = hlevel

instance unfoldable pub queue_eq : Eq Queue
unfolding Queue-discrete
queue_eq = decided_eq Queue-discrete

-- An entry of a sorted set; its score is computed from the priority and the time of creation.
pub record Hint : Type 0 where
  pub queue : Queue
  pub job_id : ℕ
  pub priority : ℕ
  pub created_at : ℕ

-- The value of the key `worker:<id>`, which Redis drops at `expires`.
pub record Heartbeat : Type 0 where
  pub worker_id : ℕ
  pub queue : Queue
  pub capability : Text
  pub free_vram_mb : ℕ
  pub ts : ℕ
  pub expires : ℕ

pub record Broker : Type 0 where
  pub outages : List Bool
  pub hints : List Hint
  pub workers : List Heartbeat

-- Whether the next command succeeds.
connect : List Bool → Bool × List Bool
connect [] = (true, [])
connect (down ∷ rest) = (not down, rest)

is_hint : Queue → ℕ → Hint → Bool
unfolding queue_eq
is_hint queue id h = h.queue == queue && h.job_id == id

-- `zrem`; raises when Redis does not answer.
unfoldable pub zrem : Queue → ℕ → Broker → Result (Unit {0}) × Broker
unfolding connect is_hint
zrem queue id b =
    let (up, rest) = connect b.outages in
    if up
    then (
      ok tt,
      record {
        outages = rest;
        hints = select (λ h. not (is_hint queue id h)) b.hints;
        workers = b.workers;
      },
    )
    else (err other, record b { outages = rest })

-- `enqueue`: `zadd` replaces the entry of the job, and a failed write is passed over.
unfoldable pub enqueue : GenerationJob → Broker → Broker
unfolding connect is_hint
enqueue job b =
    let (up, rest) = connect b.outages in
    let queue = routing job.step in
    if up
    then record {
      outages = rest;
      hints =
          record {
            queue = queue;
            job_id = job.id;
            priority = job.priority;
            created_at = job.created_at;
          }
          ∷ select (λ h. not (is_hint queue job.id h)) b.hints;
      workers = b.workers;
    }
    else record b { outages = rest }

-- `heartbeat`: `set(..., ex=20)`; a failed write raises.
unfoldable pub heartbeat :
    (now worker_id : ℕ) → Queue → Text → ℕ → Broker → Result (Unit {0}) × Broker
unfolding connect
heartbeat now worker_id queue capability free_vram b =
    let (up, rest) = connect b.outages in
    if up
    then (
      ok tt,
      record {
        outages = rest;
        hints = b.hints;
        workers =
            record {
              worker_id = worker_id;
              queue = queue;
              capability = capability;
              free_vram_mb = free_vram;
              ts = now;
              expires = now + 20;
            }
            ∷ select (λ w. not (w.worker_id == worker_id)) b.workers;
      },
    )
    else (err other, record b { outages = rest })

-- `r.get("worker:" + worker_id)`
unfoldable pub get_worker : (now worker_id : ℕ) → Broker → Result (Option Heartbeat) × Broker
unfolding connect
get_worker now worker_id b =
    let (up, rest) = connect b.outages in
    if up
    then (
      ok (first (λ w. w.worker_id == worker_id && ltb now w.expires) b.workers),
      record b { outages = rest },
    )
    else (err other, record b { outages = rest })
