-- ===== src/Jobs/Leases/Evolve.antt =====
-- `claim` and `recover_expired` keep what Jobs/Evolution states.

use capstone_nps.Jobs.Leases.{
  order_by, candidates, is_candidate, Worker, place, before, lease, cancel_candidate, claim_loop,
  is_open, recover_expired, claim, drop_hint, claim_with, is_expired,
}
use capstone_nps.Base.{
  ℕ, List, take, ◌∷◌, Bool, suc, All, ◌≢◌, Bool-cases, ◌≡◌, [], zero, inl, true, some, inr, arith,
  sym, ◌==◌, nat_eq, subst, ◌+◌, Option, Option-cases, not, refl, ◌||◌, none,
}
use capstone_nps.Models.{GenerationJob, find_job, Db, update_job}
use capstone_nps.Jobs.Leases.Expired.{
  IdsUnique, absent_ne, all-IsFound, recovered, find_job-recover_expired,
}
use capstone_nps.Base.Rows.{select, select_hit, select_miss, first, update}
use capstone_nps.Jobs.Leases.Sound.{All-order_by, All-place}
use capstone_nps.Jobs.Broker.{Heartbeat, Broker, queue_eq}
use capstone_nps.Base.Membership.{All-take, All-weaken, All-select}
use capstone_nps.Jobs.{is_waiting, Queue}
use capstone_nps.Models.Reads.{find_job-update_job}
use capstone_nps.Base.Errors.{ok, Result-cases, Result, err, Exception}
use capstone_nps.Jobs.Evolution.{
  Evolves, JobEvolves, Evolves-update_job, Evolves-refl, JobEvolves-refl, Evolves-trans,
}
use capstone_nps.Jobs.Leases.Exclusive.{cancel_candidate-eq-ok, alone, withdrawn}
use capstone_nps.Config.{Settings}
use capstone_nps.Base.Words.{text_eq}

abbrev pub Distinct : List GenerationJob → Type 0
Distinct [] = Unit
Distinct (j ∷ js) = All (λ (x : GenerationJob). x.id ≢ j.id) js × Distinct js

IdsUnique-Distinct : (js : List GenerationJob) → IdsUnique js → Distinct js
IdsUnique-Distinct [] u = tt
IdsUnique-Distinct (j ∷ js) u = (absent_ne j js u.0, IdsUnique-Distinct js u.1)

Distinct-select :
    (p : GenerationJob → Bool) (js : List GenerationJob) → Distinct js → Distinct (select p js)
Distinct-select p [] d = tt
Distinct-select p (j ∷ js) d = elim (Bool-cases (p j)) [
  | inl hit ↦ rw (select_hit p j js hit) (
    All-weaken _ (λ (x : GenerationJob). x.id ≢ j.id) (λ x h. h.0) (select p js)
        (All-select (λ (x : GenerationJob). x.id ≢ j.id) p js d.0),
    Distinct-select p js d.1,
  )
  | inr miss ↦ rw (select_miss p j js miss) (Distinct-select p js d.1)
]

Distinct-place :
    (a : GenerationJob) (js : List GenerationJob)
    → All (λ (x : GenerationJob). x.id ≢ a.id) js
    → Distinct js
    → Distinct (place a js)
unfolding place
Distinct-place a [] n d = (tt, tt)
Distinct-place a (b ∷ js) n d = elim (Bool-cases (before a b)) [
  | inl first_one ↦ rw first_one (n, d)
  | inr later ↦ rw later (
    All-place (λ (x : GenerationJob). x.id ≢ b.id) a js (λ same. n.0 (sym same)) d.0,
    Distinct-place a js n.1 d.1,
  )
]

Distinct-order_by : (js : List GenerationJob) → Distinct js → Distinct (order_by js)
unfolding order_by
Distinct-order_by [] d = tt
Distinct-order_by (j ∷ js) d =
    Distinct-place j (order_by js) (All-order_by (λ (x : GenerationJob). x.id ≢ j.id) js d.0)
      (Distinct-order_by js d.1)

Distinct-take : (n : ℕ) (js : List GenerationJob) → Distinct js → Distinct (take n js)
Distinct-take zero js d = tt
Distinct-take (suc n) [] d = tt
Distinct-take (suc n) (j ∷ js) d =
    (All-take (λ (x : GenerationJob). x.id ≢ j.id) n js d.0, Distinct-take n js d.1)

-- The candidates are as they stand in the table, and all different.
abbrev Ready : List GenerationJob → Db → Type 0
Ready js db = Distinct js × All (λ j. (find_job j.id db ≡ some j) × (is_waiting j.state ≡ true)) js

candidate_waits :
    (w : Worker) (beat : Heartbeat) (j : GenerationJob)
    → is_candidate w beat j ≡ true
    → is_waiting j.state ≡ true
unfolding is_candidate
candidate_waits w beat j h = ground arith

Ready-candidates :
    (w : Worker) (beat : Heartbeat) (db : Db) → IdsUnique db.jobs → Ready (candidates w beat db) db
unfolding candidates find_job
Ready-candidates w beat db u = (
  Distinct-take 20 _ (
      Distinct-order_by _
        (Distinct-select (is_candidate w beat) db.jobs (IdsUnique-Distinct db.jobs u))),
  All-take _ 20 _ (
      All-order_by _ _ (
        All-weaken _ _ (λ j h. (h.0, candidate_waits w beat j h.1))
          (select (is_candidate w beat) db.jobs)
          (All-select (λ j. first (λ y. y.id == j.id) db.jobs ≡ some j) (is_candidate w beat)
            db.jobs (all-IsFound db.jobs u)))),
)

still_ready :
    (j : GenerationJob) (f : GenerationJob → GenerationJob) (js : List GenerationJob) (db : Db)
    → All (λ (x : GenerationJob). x.id ≢ j.id) js
    → All (λ x. (find_job x.id db ≡ some x) × (is_waiting x.state ≡ true)) js
    → All (λ x. (find_job x.id (update_job j.id f db) ≡ some x) × (is_waiting x.state ≡ true)) js
still_ready j f [] db n h = tt
still_ready j f (x ∷ js) db n h = (
  (ground (arith, find_job-update_job x.id j.id f db, h.0.0, n.0), h.0.1),
  still_ready j f js db n.1 h.1,
)

Evolves-cancel_candidate :
    (j : GenerationJob) (db : Db) {d : Db}
    → find_job j.id db ≡ some j
    → is_waiting j.state ≡ true
    → cancel_candidate j db ≡ ok d
    → Evolves db d
Evolves-cancel_candidate j db found waits h = rw (cancel_candidate-eq-ok j db h) (
    Evolves-update_job j.id (withdrawn (j.seq + 1)) db
      (λ r e. let same : r ≡ j = cc in rw same (ground arith)))

module _ (worker_id until : ℕ) where
  -- The row of a job after a lease of the id `id`.
  find_job-leased :
      (id k : ℕ) (js : List GenerationJob) (a : GenerationJob)
      → first (λ j. j.id == k) js ≡ some a
      → (b : GenerationJob) × (first
            (λ j. j.id == k)
            (update (is_open id) (lease worker_id until) js)
          ≡ some b)
        × JobEvolves a b
  unfolding lease
  find_job-leased id k [] a h = cc
  find_job-leased id k (j ∷ js) a h = elim (Bool-cases (is_open id j)) [
    | inl opened ↦ elim (Bool-cases (j.id == k)) [
      | inl same ↦
          let it : j ≡ a = ground arith in
          (
            lease worker_id until j,
            rw opened (ground arith),
            subst (λ x. JobEvolves x (lease worker_id until j)) it (ground arith),
          )
      | inr differ ↦
          let (b, there, evolves) = find_job-leased id k js a (ground arith) in
          (b, rw opened (ground arith), evolves)
    ]
    | inr shut ↦ elim (Bool-cases (j.id == k)) [
      | inl same ↦ (a, rw shut (ground arith), JobEvolves-refl a)
      | inr differ ↦
          let (b, there, evolves) = find_job-leased id k js a (ground arith) in
          (b, rw shut (ground arith), evolves)
    ]
  ]

  loop-skipped :
      (j : GenerationJob) (rest : List GenerationJob) (db : Db) {d : Db}
      → j.cancel_requested ≡ true
      → cancel_candidate j db ≡ ok d
      → claim_loop worker_id until alone (j ∷ rest) db ≡ claim_loop worker_id until alone rest d
  unfolding claim_loop
  loop-skipped j rest db asked done = ground arith

  loop-raised :
      (j : GenerationJob) (rest : List GenerationJob) (db : Db) {e : Exception}
      → j.cancel_requested ≡ true
      → cancel_candidate j db ≡ err e
      → (claim_loop worker_id until alone (j ∷ rest) db).1 ≡ db
  unfolding claim_loop
  loop-raised j rest db asked bad = ground arith

  claim_loop-Evolves :
      (js : List GenerationJob) (db : Db)
      → Ready js db
      → Evolves db (claim_loop worker_id until alone js db).1
  unfolding claim_loop find_job
  claim_loop-Evolves [] db ready = Evolves-refl db
  claim_loop-Evolves (j ∷ rest) db ready = elim (Bool-cases j.cancel_requested) [
    | inl asked ↦ elim (Result-cases (cancel_candidate j db)) [
      | inl (e, bad) ↦ rw (loop-raised j rest db asked bad) (Evolves-refl db)
      | inr (d, done) ↦
          let ready' : Ready rest d = (
            ready.0.1,
            rw (cancel_candidate-eq-ok j db done)
                (still_ready j (withdrawn (j.seq + 1)) rest db ready.0.0 ready.1.1),
          ) in
          rw (loop-skipped j rest db asked done) (
            Evolves-trans db d _ (Evolves-cancel_candidate j db ready.1.0.0 ready.1.0.1 done)
              (claim_loop-Evolves rest d ready'))
    ]
    | inr wanted ↦ elim (Option-cases (first (is_open j.id) db.jobs)) [
      | inl gone ↦ rw (wanted, gone) (claim_loop-Evolves rest db (ready.0.1, ready.1.1))
      | inr (row, there) ↦
          rw (wanted, there) (record { at = λ k a h. find_job-leased j.id k db.jobs a h })
    ]
  ]

module _ (config : Settings) (now : ℕ) (w : Worker) where
  drop_hint-same :
      (queue : Queue) (r : Result (Option GenerationJob) × Db) (b : Broker)
      → (drop_hint queue r b).1 ≡ r.1
  unfolding drop_hint
  drop_hint-same queue (ok (some job), db) b = refl
  drop_hint-same queue (ok none, db) b = refl
  drop_hint-same queue (err e, db) b = refl

  claim_with-Evolves :
      (found : Result (Option Heartbeat)) (db : Db) (b : Broker)
      → IdsUnique db.jobs
      → Evolves db (claim_with config now w alone found db b).1
  unfolding claim_with
  claim_with-Evolves (err e) db b u = Evolves-refl db
  claim_with-Evolves (ok none) db b u = Evolves-refl db
  claim_with-Evolves (ok (some beat)) db b u =
      elim (Bool-cases
        (not (beat.queue == w.queue) || not (text_eq.beq beat.capability w.capability))) [
          | inl other_worker ↦ rw other_worker (Evolves-refl db)
          | inr mine ↦
              rw (mine, drop_hint-same)
                (claim_loop-Evolves w.worker_id (now + config.worker_lease_seconds)
                  (candidates w beat db) db (Ready-candidates w beat db u))
        ]

  pub claim-Evolves :
      (db : Db) (b : Broker) → IdsUnique db.jobs → Evolves db (claim config now w alone db b).1
  unfolding claim
  claim-Evolves db b u = claim_with-Evolves _ db _ u

pub recover_expired-Evolves :
    (now : ℕ) (db : Db) {db' : Db}
    → IdsUnique db.jobs
    → recover_expired now db ≡ ok db'
    → Evolves db db'
unfolding is_expired
recover_expired-Evolves now db u h = record {
  at = λ k a found. (recovered now a, rw (find_job-recover_expired now k db u h, found), row a);
}
  where
    row : (a : GenerationJob) → JobEvolves a (recovered now a)
    row a = ground arith
