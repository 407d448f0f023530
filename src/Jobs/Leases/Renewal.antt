-- ===== src/Jobs/Leases/Renewal.antt =====
-- The heartbeat thread of apps/api/nps/worker.py renews the lease of the job at hand; a lease that is
-- renewed in time keeps the job from `recover_expired`.
use mathlib.Core.Option
use capstone_nps.Base.{
  option_eq, ℕ, List, some, ◌≤◌, Bool, ◌∷◌, ◌+◌, ◌==◌, ◌≡◌, arith, Bool-cases, ◌&&◌, none, inl,
  nat_eq, inr, [], true, ==_iff, refl, ◌∙◌, ap, subst,
}
use capstone_nps.Jobs.Leases.{is_expired, recover_expired}
use capstone_nps.Config.{Settings}
use capstone_nps.Models.{find_job, Db, GenerationJob}
use capstone_nps.Base.Rows.{first, update}
use capstone_nps.Jobs.Leases.Expired.{IdsUnique, find_job-recover_expired}
use capstone_nps.Jobs.Leases.Expired.{recovered}
use capstone_nps.Base.Errors.{ok}
use capstone_nps.Jobs.Evolution.{Evolves, JobEvolves, JobEvolves-refl}

abbrev pub is_held : (worker_id id : ℕ) → GenerationJob → Bool
is_held worker_id id j = j.id == id && j.worker_id == some worker_id

abbrev pub renewed : (until : ℕ) → GenerationJob → GenerationJob
renewed until j = record j { lease_until = some until }

-- The UPDATE in `pulse`.
unfoldable pub renew : Settings → (now worker_id id : ℕ) → Db → Db
unfolding option_eq
renew config now worker_id id db = record db {
  jobs = update (is_held worker_id id) (renewed (now + config.worker_lease_seconds)) db.jobs;
}

module _ (worker_id id until : ℕ) where
  absent-renewed :
      (k : ℕ) (js : List GenerationJob)
      → first (λ x. x.id == k) js ≡ none
      → first (λ x. x.id == k) (update (is_held worker_id id) (renewed until) js) ≡ none
  absent-renewed k [] h = refl
  absent-renewed k (j ∷ js) h = ground (arith, absent-renewed k js)

  renewed-IdsUnique :
      (js : List GenerationJob)
      → IdsUnique js
      → IdsUnique (update (is_held worker_id id) (renewed until) js)
  renewed-IdsUnique [] u = tt
  renewed-IdsUnique (j ∷ js) u = elim (Bool-cases (is_held worker_id id j)) [
    | inl held ↦ rw held (absent-renewed j.id js u.0, renewed-IdsUnique js u.1)
    | inr other_job ↦ rw other_job (absent-renewed j.id js u.0, renewed-IdsUnique js u.1)
  ]

  found-renewed :
      (js : List GenerationJob) (a : GenerationJob)
      → first (λ x. x.id == id) js ≡ some a
      → a.worker_id ≡ some worker_id
      → first (λ x. x.id == id) (update (is_held worker_id id) (renewed until) js)
        ≡ some (renewed until a)
  found-renewed [] a h own = cc
  found-renewed (j ∷ js) a h own = elim (Bool-cases (j.id == id)) [
    | inl same ↦
        let it : j ≡ a = ground arith in
        let held : is_held worker_id id j ≡ true =
          ground (arith, same, ==_iff j.worker_id (some worker_id), it) in
        rw held (ground arith)
    | inr differ ↦ ground (arith, found-renewed js a)
  ]

-- The lease is not over before its end.
live_lease :
    (later until : ℕ) (a : GenerationJob)
    → later ≤ until
    → recovered later (renewed until a) ≡ renewed until a
unfolding is_expired
live_lease later until a h = ground arith

-- Where no two jobs share an id, a worker's renewal keeps its job: a round of `recover_expired` that comes
-- no later than the renewed lease ends, and succeeds, leaves the job as it was, with the new end of its
-- lease.
pub renew-survives :
    (config : Settings) (now later worker_id id : ℕ) (db : Db) (a : GenerationJob) {db' : Db}
    → IdsUnique db.jobs
    → find_job id db ≡ some a
    → a.worker_id ≡ some worker_id
    → later ≤ now + config.worker_lease_seconds
    → recover_expired later (renew config now worker_id id db) ≡ ok db'
    → find_job id db' ≡ some (renewed (now + config.worker_lease_seconds) a)
unfolding renew find_job
renew-survives config now later worker_id id db a u found own soon h =
    let until = now + config.worker_lease_seconds in
    find_job-recover_expired later id (renew config now worker_id id db)
      (renewed-IdsUnique worker_id id until db.jobs u) h
    ∙ (ap (Option.map (recovered later)) (found-renewed worker_id id until db.jobs a found own)
        ∙ ap some (live_lease later until a soon))

row-renewed :
    (worker_id id until k : ℕ) (js : List GenerationJob) (a : GenerationJob)
    → first (λ x. x.id == k) js ≡ some a
    → (b : GenerationJob) × (first
          (λ x. x.id == k)
          (update (is_held worker_id id) (renewed until) js)
        ≡ some b)
      × JobEvolves a b
row-renewed worker_id id until k [] a h = cc
row-renewed worker_id id until k (j ∷ js) a h = elim (Bool-cases (j.id == k)) [
  | inl same ↦
      let it : j ≡ a = ground arith in
      elim (Bool-cases (is_held worker_id id j)) [
        | inl held ↦ (
          renewed until j,
          rw held (ground arith),
          subst (λ x. JobEvolves x (renewed until j)) it (ground arith),
        )
        | inr other_job ↦ (a, rw other_job (ground arith), JobEvolves-refl a)
      ]
  | inr differ ↦
      let (b, there, evolves) = row-renewed worker_id id until k js a (ground arith) in
      (b, ground arith, evolves)
]

pub renew-Evolves :
    (config : Settings) (now worker_id id : ℕ) (db : Db)
    → Evolves db (renew config now worker_id id db)
unfolding renew find_job
renew-Evolves config now worker_id id db = record {
  at = λ k a h. row-renewed worker_id id (now + config.worker_lease_seconds) k db.jobs a h;
}
