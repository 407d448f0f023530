-- ===== src/Jobs/Leases/Sound.antt =====
-- `claim`: what holds of the worker and of the job that it is given.
use mathlib.Core.List.{Memᴰ}
use capstone_nps.Base.Membership.{All-select, All-take, All-mem}
use capstone_nps.Jobs.Leases.{
  claim_loop, lease, candidates, Worker, order_by, place, drop_hint, is_open, is_candidate, before,
  claim_with, claim,
}
use capstone_nps.Config.{Settings}
use capstone_nps.Models.{GenerationJob, Db}
use capstone_nps.Base.{
  ℕ, ◌≡◌, List, All, false, ◌∷◌, ◌<◌, true, [], some, Bool-cases, arith, Option, inl, inr, ◌≤◌, ◌+◌,
  ◌==◌, ==_iff, Bool, ◌&&◌, refl, ltb, none, nat_eq, nat_beq_iff,
}
use capstone_nps.Jobs.Broker.{Heartbeat, Broker, queue_eq, get_worker}
use capstone_nps.Contracts.{running}
use capstone_nps.Jobs.{Queue, is_waiting, routing}
use capstone_nps.Jobs.Leases.Exclusive.{alone, Round-cases, skipped, missed, took}
use capstone_nps.Base.Errors.{Result, ok, err}
use capstone_nps.Base.Rows.{first_selected, first}
use capstone_nps.Base.Words.{text_eq, text_beq_iff}

module _ (P : GenerationJob → Type 0) where
  pub All-place :
      (a : GenerationJob) (js : List GenerationJob) → P a → All P js → All P (place a js)
  unfolding place
  All-place a [] p h = (p, tt)
  All-place a (b ∷ js) p h = elim (Bool-cases (before a b)) [
    | inl first_one ↦ rw first_one (p, h)
    | inr later ↦ rw later (h.0, All-place a js p h.1)
  ]

  pub All-order_by : (js : List GenerationJob) → All P js → All P (order_by js)
  unfolding order_by
  All-order_by [] h = tt
  All-order_by (j ∷ js) h = All-place j (order_by js) h.0 (All-order_by js h.1)

-- The candidates are rows of the table that the worker may run.
All-candidates :
    (w : Worker) (beat : Heartbeat) (db : Db)
    → All (λ j. Memᴰ j db.jobs × (is_candidate w beat j ≡ true)) (candidates w beat db)
unfolding candidates
All-candidates w beat db = All-take _ 20 _ (
    All-order_by _ _
      (All-select (λ j. Memᴰ j db.jobs) (is_candidate w beat) db.jobs (All-mem db.jobs)))

-- The candidate `j` was taken as `a`.
pub record IsTaken (worker_id until : ℕ) (j a : GenerationJob) : Type 0 where
  pub wanted : j.cancel_requested ≡ false
  pub same : a.id ≡ j.id
  pub runs : a.state ≡ running
  pub owner : a.worker_id ≡ some worker_id
  pub lease : a.lease_until ≡ some until

module _ (P : GenerationJob → Type 0) (worker_id until : ℕ) where
  lease-IsTaken :
      (j row a : GenerationJob)
      → j.cancel_requested ≡ false
      → is_open j.id row ≡ true
      → a ≡ lease worker_id until row
      → IsTaken worker_id until j a
  unfolding lease
  lease-IsTaken j row a wanted opened made = rw made (ground arith)

  claim_loop-IsTaken :
      (js : List GenerationJob) (db : Db) {a : GenerationJob} {db' : Db}
      → All P js
      → claim_loop worker_id until alone js db ≡ (ok (some a), db')
      → (j : GenerationJob) × P j × IsTaken worker_id until j a
  unfolding claim_loop
  claim_loop-IsTaken [] db all h = cc
  claim_loop-IsTaken (j ∷ js) db all h = elim (Round-cases worker_id until j js db h) [
    | skipped d done rest ↦ claim_loop-IsTaken js d all.1 rest
    | missed wanted gone rest ↦ claim_loop-IsTaken js db all.1 rest
    | took row wanted there made written ↦ (
      j,
      all.0,
      lease-IsTaken j row _ wanted (first_selected (is_open j.id) db.jobs row there) made,
    )
  ]

-- What a worker that holds a job has shown: a living heartbeat of the queue and the capability that it
-- asks for, and a job of its queue that needs no more than it has.
pub record IsClaim (config : Settings) (now : ℕ) (w : Worker) (db : Db) (b : Broker)
    (a : GenerationJob) : Type 0 where
  pub beat : Heartbeat
  pub recorded : Memᴰ beat b.workers
  pub own : beat.worker_id ≡ w.worker_id
  pub alive : now < beat.expires
  pub serves : beat.queue ≡ w.queue
  pub able : beat.capability ≡ w.capability
  pub row : GenerationJob
  pub stored : Memᴰ row db.jobs
  pub waiting : is_waiting row.state ≡ true
  pub routed : routing row.step ≡ w.queue
  pub capability : row.required_capability ≡ w.capability
  pub fits_worker : row.estimated_vram_mb ≤ w.free_vram
  pub fits_heartbeat : row.estimated_vram_mb ≤ beat.free_vram_mb
  pub taken : IsTaken w.worker_id (now + config.worker_lease_seconds) row a

module _ (config : Settings) (now : ℕ) (w : Worker) where
  drop_hint-eq-ok :
      (queue : Queue) (r : Result (Option GenerationJob) × Db) (b : Broker) {a : GenerationJob}
      {db' : Db} {b' : Broker}
      → drop_hint queue r b ≡ (ok (some a), db', b')
      → r ≡ (ok (some a), db')
  unfolding drop_hint
  drop_hint-eq-ok queue (r, db) b h = ground arith

  -- The `WHERE` clause, as facts.
  candidate_facts :
      (beat : Heartbeat) (j : GenerationJob)
      → is_candidate w beat j ≡ true
      → (is_waiting j.state ≡ true)
        × (routing j.step ≡ w.queue)
        × (j.required_capability ≡ w.capability)
        × (j.estimated_vram_mb ≤ w.free_vram)
        × (j.estimated_vram_mb ≤ beat.free_vram_mb)
  unfolding is_candidate
  candidate_facts beat j h =
      ground
        (arith, ==_iff (routing j.step) w.queue, text_beq_iff j.required_capability w.capability)

  loop_of_claim :
      (beat : Heartbeat) (db : Db) (b : Broker) {a : GenerationJob} {db' : Db} {b' : Broker}
      → claim_with config now w alone (ok (some beat)) db b ≡ (ok (some a), db', b')
      → (beat.queue ≡ w.queue)
        × (beat.capability ≡ w.capability)
        × (drop_hint w.queue
              (claim_loop w.worker_id
                (now + config.worker_lease_seconds)
                alone
                (candidates w beat db)
                db)
              b
            ≡ (ok (some a), db', b'))
  unfolding claim_with
  loop_of_claim beat db b h =
      ground (arith, ==_iff beat.queue w.queue, text_beq_iff beat.capability w.capability)

  claimed_of_beat :
      (beat : Heartbeat) (db : Db) (b₀ b : Broker) {a : GenerationJob} {db' : Db} {b' : Broker}
      → Memᴰ beat b₀.workers
      → beat.worker_id ≡ w.worker_id
      → now < beat.expires
      → claim_with config now w alone (ok (some beat)) db b ≡ (ok (some a), db', b')
      → IsClaim config now w db b₀ a
  claimed_of_beat beat db b₀ b {a} {db'} {b'} recorded own alive h =
      let (serves, able, ran) = loop_of_claim beat db b h in
      let loop = drop_hint-eq-ok w.queue _ b {a = a} {db' = db'} {b' = b'} ran in
      let (row, (stored, fit), taken) =
        claim_loop-IsTaken _ w.worker_id _ (candidates w beat db) db (All-candidates w beat db)
          loop in
      let (waiting, routed, capable, fits_worker, fits_heartbeat) = candidate_facts beat row fit in
      record {
        beat = beat;
        recorded = recorded;
        own = own;
        alive = alive;
        serves = serves;
        able = able;
        row = row;
        stored = stored;
        waiting = waiting;
        routed = routed;
        capability = capable;
        fits_worker = fits_worker;
        fits_heartbeat = fits_heartbeat;
        taken = taken;
      }

  first-Memᴰ :
      (p : Heartbeat → Bool) (beats : List Heartbeat) (beat : Heartbeat)
      → first p beats ≡ some beat
      → Memᴰ beat beats
  first-Memᴰ p [] beat h = cc
  first-Memᴰ p (x ∷ xs) beat h = elim (Bool-cases (p x)) [
    | inl hit ↦ Memᴰ.head (ground arith)
    | inr miss ↦ Memᴰ.tail (first-Memᴰ p xs beat (ground arith))
  ]

  abbrev is_alive : Heartbeat → Bool
  is_alive beat = beat.worker_id == w.worker_id && ltb now beat.expires

  get_worker-found :
      (b b₁ : Broker) (beat : Heartbeat)
      → get_worker now w.worker_id b ≡ (ok (some beat), b₁)
      → first is_alive b.workers ≡ some beat
  unfolding get_worker
  get_worker-found b b₁ beat h = ground arith

  is_alive-own : (beat : Heartbeat) → is_alive beat ≡ true → beat.worker_id ≡ w.worker_id
  is_alive-own beat h = ground (arith, nat_beq_iff beat.worker_id w.worker_id)

  is_alive-lt : (beat : Heartbeat) → is_alive beat ≡ true → now < beat.expires
  is_alive-lt beat h = ground arith

  IsClaim-from :
      (found : Result (Option Heartbeat)) (db : Db) (b b₁ : Broker) {a : GenerationJob} {db' : Db}
      {b' : Broker}
      → get_worker now w.worker_id b ≡ (found, b₁)
      → claim_with config now w alone found db b₁ ≡ (ok (some a), db', b')
      → IsClaim config now w db b a
  unfolding claim_with
  IsClaim-from (err e) db b b₁ read h = cc
  IsClaim-from (ok none) db b b₁ read h = cc
  IsClaim-from (ok (some beat)) db b b₁ read h =
      let hit = get_worker-found b b₁ beat read in
      claimed_of_beat beat db b b₁ (first-Memᴰ is_alive b.workers beat hit)
        (is_alive-own beat (first_selected is_alive b.workers beat hit))
        (is_alive-lt beat (first_selected is_alive b.workers beat hit)) h

  -- With no other session at work, a worker is given a job only while its heartbeat is alive and serves
  -- the queue and capability that it asks for; the job is a waiting row, routed to that queue, that
  -- needs no more memory than the worker and its heartbeat have and that nobody has asked to cancel; and
  -- it is handed over running, in the worker's name, with a lease that ends `worker_lease_seconds` later.
  pub claim-IsClaim :
      (db : Db) (b : Broker) {a : GenerationJob} {db' : Db} {b' : Broker}
      → claim config now w alone db b ≡ (ok (some a), db', b')
      → IsClaim config now w db b a
  unfolding claim
  claim-IsClaim db b h = IsClaim-from _ db b _ refl h
