-- ===== src/Routes/Jobs.antt =====
-- The routes of jobs and queues in work_api.py.
use capstone_nps.Base.{
  ℕ, List, map, ◌∷◌, Option, if◌then◌else◌, [], Bool, ◌==◌, contains, leb, ◌+◌, false, nat_eq, none,
  some, take,
}
use capstone_nps.Contracts.{JobState}
use capstone_nps.Jobs.Snapshot.{snapshot, Snapshot}
use capstone_nps.Routes.{Call, scoped}
use capstone_nps.Auth.Scope.{org_scope, authorize_project, require_admin}
use capstone_nps.Contracts.Equality.{job_state_eq}
use capstone_nps.Models.{GenerationJob, Db, find_job, Step}
use capstone_nps.Jobs.Requests.{retry_job, cancel_job}
use capstone_nps.Auth.Accounts.{Accounts, Project}
use capstone_nps.Base.Errors.{Result, ok, ◌>>=◌, ◌>>◌, raise, queue_unavailable, err, other}
use capstone_nps.Jobs.Broker.{Broker}
use capstone_nps.Base.Rows.{select}

abbrev pub scoped_job : Call → (job_id : ℕ) → Db → Result GenerationJob
scoped_job call job_id db =
    scoped call (λ (j : GenerationJob). j.project_id) (find_job job_id db) [] false

-- `order_by(created_at.desc())`, with equal times in the order of insertion.
abbrev place_newest : GenerationJob → List GenerationJob → List GenerationJob
place_newest j [] = j ∷ []
place_newest j (k ∷ rest) =
    let later = place_newest j rest in
    if leb k.created_at j.created_at then j ∷ k ∷ rest else k ∷ later

abbrev newest_first : List GenerationJob → List GenerationJob
newest_first [] = []
newest_first (j ∷ rest) = place_newest j (newest_first rest)

unfoldable pub snapshots : List GenerationJob → Db → Result (List Snapshot)
unfolding snapshot
snapshots [] db = ok []
snapshots (j ∷ rest) db =
    let later = snapshots rest db in (do view ← snapshot db j; views ← later; ok (view ∷ views))

unfoldable pub jobs : Call → (project_id : ℕ) → Db → Result (List Snapshot)
unfolding authorize_project snapshots
jobs call project_id db = do
  project ← authorize_project call.accounts call.user project_id [] false
  snapshots
      (take 100 (newest_first (select (λ (j : GenerationJob). j.project_id == project_id) db.jobs)))
      db

unfoldable pub job_detail : Call → (job_id : ℕ) → Db → Result Snapshot
unfolding scoped snapshot
job_detail call job_id db = do job ← scoped_job call job_id db; snapshot db job

unfoldable pub job_cancel : Call → (job_id : ℕ) → Db → Result (Snapshot × Db)
unfolding scoped cancel_job snapshot
job_cancel call job_id db = do
  job ← scoped_job call job_id db
  done ← cancel_job call.user.id job db
  view ← snapshot done.1 done.0
  ok (view, done.1)

unfoldable pub job_retry :
    Call
    → (job_id : ℕ) → (resume_from_step : Option Step) → Db
    → Broker
    → Result (Snapshot × Db × Broker)
unfolding scoped retry_job snapshot
job_retry call job_id resume_from_step db b = do
  job ← scoped_job call job_id db
  done ← retry_job call.user.id job resume_from_step db b
  view ← snapshot done.1 done.0
  ok (view, done.1, done.2)

-- `{j.state for j in rows}`
abbrev pub states_of : List GenerationJob → List JobState
states_of [] = []
states_of (j ∷ rest) =
    let seen = states_of rest in if contains j.state seen then seen else j.state ∷ seen

-- `sum(j.state == state for j in rows)`
abbrev pub count_state : JobState → List GenerationJob → ℕ
count_state state [] = 0
count_state state (j ∷ rest) = (if j.state == state then 1 else 0) + count_state state rest

unfoldable pub counts : List GenerationJob → List (JobState × ℕ)
unfolding job_state_eq
counts rows = map (λ state. (state, count_state state rows)) (states_of rows)

-- The jobs of the projects of the administrator's organizations.
abbrev in_projects : List ℕ → Accounts → GenerationJob → Bool
in_projects scope accounts j = contains j.project_id (
    map (λ (p : Project). p.id)
      (select (λ (p : Project). contains p.org_id scope) accounts.projects))

-- `workers` is what the broker returns, or none when a command raises.
unfoldable pub queues :
    {A : Type 0} → Call → (workers : Option A) → Db → Result (A × List (JobState × ℕ))
unfolding org_scope counts require_admin
queues call workers db = do
  require_admin call.user false
  elim workers [
    | none ↦ raise queue_unavailable 503
    | some seen ↦ elim (org_scope call.accounts call.user) [
      | none ↦ err other
      | some scope ↦ ok (seen, counts (select (in_projects scope call.accounts) db.jobs))
    ]
  ]
