-- ===== src/Jobs/Snapshot.antt =====
-- `snapshot` of jobs.py: the view of a job that the API returns. The time of the last change and the mock
-- flags of the settings are left out. The table holds one row for a job and a step, so that the dict of
-- rows by step is the lookup in the table.
use capstone_nps.Base.{none, some, ℕ, List, Option, All, ◌≡◌, map, ◌∷◌, ap, [], refl}
use capstone_nps.Base.Errors.{◌>>=◌, Result, ok, Code, err, other}
use capstone_nps.Models.{Db, Step, Kind, JobStep, GenerationJob, find_step, Output}
use capstone_nps.Contracts.{JobState}
use capstone_nps.Jobs.{pipelines}

pub record StepView : Type 0 where
  pub step : Step
  pub state : JobState
  pub attempts : ℕ
  pub error_code : Option Code

pub record Snapshot : Type 0 where
  pub job_id : ℕ
  pub project_id : ℕ
  pub kind : Kind
  pub document_id : Option ℕ
  pub state : JobState
  pub step : Step
  pub progress : ℕ
  pub seq : ℕ
  pub error_code : Option Code
  pub result : Output
  pub retry_count : ℕ
  pub steps : List StepView

-- A step without its row raises.
unfoldable pub step_views : (job_id : ℕ) → List Step → Db → Result (List StepView)
step_views job_id [] db = ok []
step_views job_id (name ∷ rest) db =
    let later = step_views job_id rest db in
    elim (find_step job_id name db) [
      | none ↦ err other
      | some row ↦ do
        views ← later
        ok (
            record {
              step = name;
              state = row.state;
              attempts = row.attempts;
              error_code = row.error_code;
            }
            ∷ views)
    ]

unfoldable pub snapshot : Db → GenerationJob → Result Snapshot
unfolding step_views
snapshot db job = do
  views ← step_views job.id (pipelines job.kind) db
  ok (record {
    job_id = job.id;
    project_id = job.project_id;
    kind = job.kind;
    document_id = job.payload.document_id;
    state = job.state;
    step = job.step;
    progress = job.progress;
    seq = job.seq;
    error_code = job.error_code;
    result = job.result;
    retry_count = job.retry_count;
    steps = views;
  })

-- The view of one step is its row.
abbrev pub Shows : (job_id : ℕ) → Db → StepView → Type 0
Shows job_id db v =
    (row : JobStep) × (find_step job_id v.step db ≡ some row)
    × (v.state ≡ row.state)
    × (v.attempts ≡ row.attempts)

step_views-Shows :
    (job_id : ℕ) (names : List Step) (db : Db)
    → All (λ n. (row : JobStep) × (find_step job_id n db ≡ some row)) names
    → (views : List StepView) × (step_views job_id names db ≡ ok views)
      × (map (λ (v : StepView). v.step) views ≡ names)
      × All (Shows job_id db) views
unfolding step_views
step_views-Shows job_id [] db h = ([], refl, refl, tt)
step_views-Shows job_id (name ∷ rest) db ((row, there), more) =
    let (views, made, order, shown) = step_views-Shows job_id rest db more in
    (
      record {
        step = name;
        state = row.state;
        attempts = row.attempts;
        error_code = row.error_code;
      }
          ∷ views,
      rw (step_views, there, made),
      ap (λ ns. name ∷ ns) order,
      ((row, there, refl, refl), shown),
    )

-- The snapshot of a job whose steps all have their rows is made, and lists exactly the steps of the job's
-- pipeline, in order, each with the state and the attempts of its row.
pub snapshot-Shows :
    (db : Db) (job : GenerationJob)
    → All (λ n. (row : JobStep) × (find_step job.id n db ≡ some row)) (pipelines job.kind)
    → (view : Snapshot) × (snapshot db job ≡ ok view)
      × (map (λ (v : StepView). v.step) view.steps ≡ pipelines job.kind)
      × All (Shows job.id db) view.steps
unfolding snapshot
snapshot-Shows db job rows =
    let (views, made, order, shown) = step_views-Shows job.id (pipelines job.kind) db rows in
    (
      record {
        job_id = job.id;
        project_id = job.project_id;
        kind = job.kind;
        document_id = job.payload.document_id;
        state = job.state;
        step = job.step;
        progress = job.progress;
        seq = job.seq;
        error_code = job.error_code;
        result = job.result;
        retry_count = job.retry_count;
        steps = views;
      },
      rw (snapshot, made),
      order,
      shown,
    )
