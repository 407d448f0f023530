-- ===== src/Models/Reads.antt =====
-- What a read of the tables returns after a write.
use mathlib.Core.Option
use capstone_nps.Base.{
  ℕ, ◌≡◌, refl, ◌&&◌, ◌==◌, arith, nat_eq, ==_iff, if◌then◌else◌, List, [], ◌∷◌, some, subst, sym,
}
use capstone_nps.Base.Rows.{first, update, first_selected}
use capstone_nps.Models.{
  Step, step_eq, GenerationJob, JobStep, Db, find_job, update_job, keep_job, find_step, update_step,
  keep_step, find_plan, update_plan_row, SlidePlan, keep_plan,
}

-- A job is found as it was written last.
pub find_job-update_job :
    (k id : ℕ) (f : GenerationJob → GenerationJob) (db : Db)
    → find_job k (update_job id f db)
      ≡ (if k == id then Option.map (keep_job f) (find_job k db) else find_job k db)
unfolding find_job update_job
find_job-update_job k id f db = rows db.jobs
  where
    rows :
        (js : List GenerationJob)
        → first (λ j. j.id == k) (update (λ j. j.id == id) (keep_job f) js) ≡ (
            if k == id
            then Option.map (keep_job f) (first (λ j. j.id == k) js)
            else first (λ j. j.id == k) js)
    rows [] = ground arith
    rows (j ∷ js) = ground (arith, rows js)

pub find_job-update_step :
    (k id : ℕ) (name : Step) (f : JobStep → JobStep) (db : Db)
    → find_job k (update_step id name f db) ≡ find_job k db
unfolding find_job update_step
find_job-update_step k id name f db = refl

pub find_step-update_job :
    (k id : ℕ) (name : Step) (f : GenerationJob → GenerationJob) (db : Db)
    → find_step k name (update_job id f db) ≡ find_step k name db
unfolding find_step update_job
find_step-update_job k id name f db = refl

pub find_step-update_step :
    (k id : ℕ) (n m : Step) (f : JobStep → JobStep) (db : Db)
    → find_step k n (update_step id m f db) ≡ (
        if k == id && n == m then Option.map (keep_step f) (find_step k n db) else find_step k n db)
unfolding find_step update_step
find_step-update_step k id n m f db = rows db.steps
  where
    rows :
        (ss : List JobStep)
        → first
            (λ s. s.job_id == k && s.step_type == n)
            (update (λ s. s.job_id == id && s.step_type == m) (keep_step f) ss)
          ≡ (if k == id && n == m
              then Option.map (keep_step f) (first (λ s. s.job_id == k && s.step_type == n) ss)
              else first (λ s. s.job_id == k && s.step_type == n) ss)
    rows [] = ground arith
    rows (s ∷ ss) = ground (arith, rows ss, ==_iff s.step_type n, ==_iff s.step_type m, ==_iff n m)

-- A read of a table sees that table alone.
pub find_job-same : (k : ℕ) (db db' : Db) → db'.jobs ≡ db.jobs → find_job k db' ≡ find_job k db
unfolding find_job
find_job-same k db db' e = rw e

pub find_step-same :
    (k : ℕ) (n : Step) (db db' : Db) → db'.steps ≡ db.steps → find_step k n db' ≡ find_step k n db
unfolding find_step
find_step-same k n db db' e = rw e

pub find_plan-update_plan_row :
    (k id : ℕ) (f : SlidePlan → SlidePlan) (db : Db)
    → find_plan k (update_plan_row id f db)
      ≡ (if k == id then Option.map (keep_plan f) (find_plan k db) else find_plan k db)
unfolding find_plan update_plan_row
find_plan-update_plan_row k id f db = rows db.plans
  where
    rows :
        (ps : List SlidePlan)
        → first (λ p. p.id == k) (update (λ p. p.id == id) (keep_plan f) ps) ≡ (
            if k == id
            then Option.map (keep_plan f) (first (λ p. p.id == k) ps)
            else first (λ p. p.id == k) ps)
    rows [] = ground arith
    rows (p ∷ ps) = ground (arith, rows ps)

pub find_plan-same : (k : ℕ) (db db' : Db) → db'.plans ≡ db.plans → find_plan k db' ≡ find_plan k db
unfolding find_plan
find_plan-same k db db' e = rw e

-- A job is found under its own id.
pub find_job_self :
    (k : ℕ) (db : Db) (j : GenerationJob) → find_job k db ≡ some j → find_job j.id db ≡ some j
unfolding find_job
find_job_self k db j h =
    subst (λ n. first (λ x. x.id == n) db.jobs ≡ some j)
      (sym ((==_iff j.id k).0 (first_selected (λ x. x.id == k) db.jobs j h))) h
