-- ===== src/Pipeline/Termination.antt =====
-- `run_until_terminal` ends within its thirty rounds.
use capstone_nps.Pipeline.{
  run_rounds, Run, index_of, execute_step, needs_review, run_until_terminal,
}
use capstone_nps.Base.Errors.{Result, ok, Code, err}
use capstone_nps.Config.{Settings}
use capstone_nps.Base.{
  ℕ, ◌≡◌, true, length, some, ◌⊎◌, suc, All, ◌<◌, ◌+◌, zero, false, arith, Bool, if◌then◌else◌,
  subst, ap, sym, ◌∙◌, inl, refl,
}
use capstone_nps.Models.{GenerationJob, Db, find_job}
use capstone_nps.Jobs.{is_waiting, pipelines, is_terminal}
use capstone_nps.Pipeline.Progress.{IsQuiet, Outcome, stopped, finished, advanced}
use capstone_nps.Jobs.Broker.{Broker}
use capstone_nps.Contracts.{running, waiting_review, succeeded}
use capstone_nps.Pipeline.Failure.{HasRow, stopped_state}
use capstone_nps.Pipeline.Index.{
  lt-of_get, get_of_index, index_of_get, pipelines-Distinct, length-pipelines,
}
use capstone_nps.Pipeline.Outcome.{execute_step-Ran, started_job}
use capstone_nps.Base.Membership.{All-get, All-weaken}

abbrev pub Live : GenerationJob → Type 0
Live job = (is_waiting job.state ≡ true) ⊎ (job.state ≡ running)

-- What the loop needs of a job: it waits or runs, its step is the `i`-th of its pipeline, and each step of
-- the pipeline has its row.
pub record IsReady (i : ℕ) (job : GenerationJob) (db : Db) : Type 0 where
  pub found : find_job job.id db ≡ some job
  pub live : Live job
  pub here : index_of job.step (pipelines job.kind) ≡ some i
  pub rows : All (HasRow job.id db) (pipelines job.kind)

-- The loop has returned the job `id`, as the tables that it leaves hold it, and that job has ended.
pub record Ends (id : ℕ) (call : Result GenerationJob × Db × Broker) : Type 0 where
  pub final : GenerationJob
  pub db : Db
  pub broker : Broker
  pub returned : call ≡ (ok final, db, broker)
  pub stored : find_job id db ≡ some final
  pub ended : is_terminal final.state ≡ true

Live-not_terminal : (job : GenerationJob) → Live job → is_terminal job.state ≡ false
Live-not_terminal job live = ground arith

started_id : (job : GenerationJob) → (started_job job).id ≡ job.id
started_id job = ground arith

started_kind : (job : GenerationJob) → (started_job job).kind ≡ job.kind
started_kind job = ground arith

started_rows :
    (job : GenerationJob) (db : Db)
    → All (HasRow job.id db) (pipelines job.kind)
    → All (HasRow (started_job job).id db) (pipelines (started_job job).kind)
started_rows job db rows =
    subst (λ k. All (HasRow (started_job job).id db) (pipelines k)) (sym (started_kind job))
      (subst (λ k. All (HasRow k db) (pipelines job.kind)) (sym (started_id job)) rows)

stopped_terminal : (code : Code) → is_terminal (stopped_state code) ≡ true
stopped_terminal code = ground arith

finished_terminal :
    (review : Bool) → is_terminal (if review then waiting_review else succeeded) ≡ true
finished_terminal review = ground arith

module _ (config : Settings) (runs : ℕ → Run) (quiet : (n : ℕ) → IsQuiet (runs n)) where
  Ends-terminal :
      (n : ℕ) (id : ℕ) (job : GenerationJob) (db : Db) (b : Broker)
      → find_job id db ≡ some job
      → is_terminal job.state ≡ true
      → Ends id (run_rounds config runs (suc n) id db b)
  unfolding run_rounds
  Ends-terminal n id job db b found ended = record {
    final = job;
    db = db;
    broker = b;
    returned = rw (run_rounds, found, ended);
    stored = found;
    ended = ended;
  }

  Ends-over :
      (n : ℕ) (id : ℕ) (job : GenerationJob) (db : Db) (b : Broker)
      → 0 < n
      → find_job id db ≡ some job
      → is_terminal job.state ≡ true
      → Ends id (run_rounds config runs n id db b)
  Ends-over zero id job db b some_left found ended = elim some_left [ ]
  Ends-over (suc n) id job db b some_left found ended = Ends-terminal n id job db b found ended

  -- The rest of the loop after the call of `execute_step` in a round.
  abbrev go_on : ℕ → ℕ → Result (Unit {0}) × Db × Broker → Result GenerationJob × Db × Broker
  go_on n id c = elim c.0 [ err e ↦ (err e, c.1, c.2) | ok _ ↦ run_rounds config runs n id c.1 c.2 ]

  -- A round that runs a step goes on with what the step has left.
  round_of_Live :
      (n : ℕ) (job : GenerationJob) (db : Db) (b : Broker) (db' : Db) (b' : Broker)
      → find_job job.id db ≡ some job
      → Live job
      → execute_step config (runs n) job.id db b ≡ (ok tt, db', b')
      → run_rounds config runs (suc n) job.id db b ≡ run_rounds config runs n job.id db' b'
  unfolding run_rounds
  round_of_Live n job db b db' b' found live ran =
      rw (run_rounds, found, Live-not_terminal job live) (ap (go_on n job.id) ran)

  -- What the step has left, with what the loop needs of it.
  data Next (n i : ℕ) (job : GenerationJob) (db' : Db) : Type 0 where
    over :
        (after : GenerationJob)
        → find_job job.id db' ≡ some after
        → is_terminal after.state ≡ true
        → Next n i job db'
    further :
        (after : GenerationJob)
        → after.id ≡ job.id
        → after.kind ≡ job.kind
        → IsReady (suc i) after db'
        → Next n i job db'

  Next-of_Outcome :
      (n i : ℕ) (job : GenerationJob) (db db' : Db)
      → All (HasRow job.id db) (pipelines job.kind)
      → Outcome config (runs n) i job db db'
      → Next n i job db'
  Next-of_Outcome n i job db db' rows o = elim o.fate [
    | stopped code why same ↦ over o.after o.found (rw same (stopped_terminal code))
    | finished output passes last same ↦
        over o.after o.found (rw same (finished_terminal (needs_review config job.kind output)))
    | advanced output next passes more same ↦
        let here =
          index_of_get (pipelines job.kind) (suc i) next (pipelines-Distinct job.kind) more in
        further o.after (rw same) (rw same) (
          subst (λ a. IsReady (suc i) a db') (sym same)
            (record {
              found = o.found ∙ ap some same;
              live = inl refl;
              here = here;
              rows = All-weaken _ _ o.rows (pipelines job.kind) rows;
            }))
  ]

  run_rounds-Ends :
      (n i : ℕ) (job : GenerationJob) (db : Db) (b : Broker)
      → IsReady i job db
      → length (pipelines job.kind) < n + i
      → Ends job.id (run_rounds config runs n job.id db b)
  run_rounds-Ends zero i job db b ready enough = absurd (
      omega (
        arith,
        lt-of_get (pipelines job.kind) i job.step
            (get_of_index (pipelines job.kind) i job.step ready.here),
      ))
  run_rounds-Ends (suc n) i job db b ready enough =
      let here = get_of_index (pipelines job.kind) i job.step ready.here in
      let ran =
        execute_step-Ran config (runs n) (quiet n) i job db b ready.found ready.live
          (All-get _ (pipelines job.kind) i job.step ready.rows here) ready.here in
      let bound = lt-of_get (pipelines job.kind) i job.step here in
      rw (round_of_Live n job db b ran.final ran.broker ready.found ready.live ran.returned)
        (elim (Next-of_Outcome n i (started_job job) db ran.final (started_rows job db ready.rows)
          ran.outcome) [
            | over after found ended ↦
                Ends-over n job.id after ran.final ran.broker (omega arith)
                  (subst (λ k. find_job k ran.final ≡ some after) (started_id job) found) ended
            | further after id kind ready' ↦
                let room : length (pipelines after.kind) < n + suc i =
                  subst (λ k. length (pipelines k) < n + suc i) (sym (kind ∙ started_kind job))
                    (omega arith) in
                subst (λ k. Ends k (run_rounds config runs n k ran.final ran.broker))
                  (id ∙ started_id job)
                  (run_rounds-Ends n (suc i) after ran.final ran.broker ready' room)
          ])

  -- While no other session is at work, and whatever the steps return or raise, a job that waits or runs,
  -- whose step is in its pipeline and whose steps all have their rows, is brought to an end by
  -- `run_until_terminal`: the call returns the job's row as the tables then hold it, in a terminal state, and never
  -- raises "pipeline did not terminate".
  pub run_until_terminal-Ends :
      (i : ℕ) (job : GenerationJob) (db : Db) (b : Broker)
      → IsReady i job db
      → Ends job.id (run_until_terminal config runs job.id db b)
  unfolding run_until_terminal
  run_until_terminal-Ends i job db b ready =
      run_rounds-Ends 30 i job db b ready (omega (arith, length-pipelines job.kind))
