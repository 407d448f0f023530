-- ===== src/Jobs/Evolution.antt =====
-- What every operation on jobs keeps: a job's identity, its place among the finished jobs, the order
-- of its event numbers and the bound on its retries.

use native.Mathlib.Nat.{le_trans}
use capstone_nps.Base.{
  ℕ, ◌≤◌, max, ◌≡◌, refl, sym, ◌∙◌, subst, Bool, true, false, some, inl, inr, ◌==◌, ==_iff, arith,
  nat_eq, Bool-cases,
}
use capstone_nps.Contracts.{JobState, succeeded, waiting_review}
use capstone_nps.Models.{
  Step, GenerationJob, JobStep, Db, find_job, update_job, keep_job, update_step,
}
use capstone_nps.Models.Reads.{find_job-update_job}

-- `succeeded` and `waiting_review` are the ends that no request reopens.
abbrev pub is_final : JobState → Bool
is_final succeeded = true
is_final waiting_review = true
is_final _ = false

pub record JobEvolves (a b : GenerationJob) : Type 0 where
  pub id : b.id ≡ a.id
  pub kind : b.kind ≡ a.kind
  pub payload : b.payload ≡ a.payload
  pub project_id : b.project_id ≡ a.project_id
  pub requested_by : b.requested_by ≡ a.requested_by
  pub idempotency_key : b.idempotency_key ≡ a.idempotency_key
  pub fingerprint : b.fingerprint ≡ a.fingerprint
  pub seq : a.seq ≤ b.seq
  pub retry_count : b.retry_count ≤ max a.retry_count 3
  pub final : is_final a.state ≡ true → b.state ≡ a.state

pub JobEvolves-refl : (a : GenerationJob) → JobEvolves a a
JobEvolves-refl a = ground arith

pub JobEvolves-trans : (a b c : GenerationJob) → JobEvolves a b → JobEvolves b c → JobEvolves a c
JobEvolves-trans a b c p q = record {
  id = q.id ∙ p.id;
  kind = q.kind ∙ p.kind;
  payload = q.payload ∙ p.payload;
  project_id = q.project_id ∙ p.project_id;
  requested_by = q.requested_by ∙ p.requested_by;
  idempotency_key = q.idempotency_key ∙ p.idempotency_key;
  fingerprint = q.fingerprint ∙ p.fingerprint;
  seq = le_trans p.seq q.seq;
  retry_count = omega (arith, p.retry_count, q.retry_count);
  final = λ h. q.final (subst (λ s. is_final s ≡ true) (sym (p.final h)) h) ∙ p.final h;
}

-- Every job of `db` is still there in `db'`, and has evolved.
pub record Evolves (db db' : Db) : Type 0 where
  pub at :
      (k : ℕ) (a : GenerationJob)
      → find_job k db ≡ some a
      → (b : GenerationJob) × (find_job k db' ≡ some b) × JobEvolves a b

pub Evolves-refl : (db : Db) → Evolves db db
Evolves-refl db = record { at = λ k a h. (a, h, JobEvolves-refl a) }

pub Evolves-trans : (x y z : Db) → Evolves x y → Evolves y z → Evolves x z
Evolves-trans x y z p q = record {
  at = λ k a h.
      let (b, hb, pab) = p.at k a h in
      let (c, hc, qbc) = q.at k b hb in (c, hc, JobEvolves-trans a b c pab qbc);
}

-- A write to another table.
pub Evolves-of_jobs : (db db' : Db) → db'.jobs ≡ db.jobs → Evolves db db'
unfolding find_job
Evolves-of_jobs db db' e = record { at = λ k a h. (a, rw e h, JobEvolves-refl a) }

pub Evolves-update_step :
    (id : ℕ) (name : Step) (f : JobStep → JobStep) (db : Db) → Evolves db (update_step id name f db)
unfolding update_step
Evolves-update_step id name f db = Evolves-of_jobs db _ refl

-- A write to the row of a job.
pub Evolves-update_job :
    (id : ℕ) (f : GenerationJob → GenerationJob) (db : Db)
    → ((job : GenerationJob) → find_job id db ≡ some job → JobEvolves job (keep_job f job))
    → Evolves db (update_job id f db)
Evolves-update_job id f db e = record {
  at = λ k a h. elim (Bool-cases (k == id)) [
    | inl same ↦
        let found : find_job id db ≡ some a =
          subst (λ n. find_job n db ≡ some a) ((==_iff k id).0 same) h in
        (keep_job f a, rw (find_job-update_job, same, h), e a found)
    | inr differ ↦ (a, rw (find_job-update_job, differ) h, JobEvolves-refl a)
  ];
}
