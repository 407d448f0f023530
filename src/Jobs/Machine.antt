-- ===== src/Jobs/Machine.antt =====
-- `transition` of jobs.py: what a change of state does, and which changes are refused.
use capstone_nps.Base.{
  ◌+◌, ◌≡◌, refl, Bool, true, false, not, ◌&&◌, ◌||◌, if◌then◌else◌, contains, arith, ==_iff, ◌==◌,
  ◌∙◌,
}
use capstone_nps.Base.Errors.{ok, raise, job_invalid_transition}
use capstone_nps.Contracts.{JobState, running, failed, cancelled, retrying}
use capstone_nps.Contracts.Equality.{job_state_eq}
use capstone_nps.Models.{GenerationJob}
use capstone_nps.Jobs.{transition, transitions, is_waiting}
use capstone_nps.Jobs.Evolution.{is_final}

abbrev pub moved : GenerationJob → JobState → GenerationJob
moved job s = record job { state = s; seq = job.seq + 1 }

abbrev is_running : JobState → Bool
is_running running = true
is_running _ = false

abbrev is_cancelled : JobState → Bool
is_cancelled cancelled = true
is_cancelled _ = false

abbrev is_retrying : JobState → Bool
is_retrying retrying = true
is_retrying _ = false

abbrev is_stopped : JobState → Bool
is_stopped failed = true
is_stopped cancelled = true
is_stopped _ = false

-- What `transition` accepts: the present state, any end of a running step, a start or a cancellation
-- of a waiting job, and a retry of a failed or cancelled job.
abbrev pub is_move : JobState → JobState → Bool
is_move a b =
    a == b
    || is_running a
    || is_waiting a && (is_running b || is_cancelled b)
    || is_stopped a && is_retrying b

accepts : (a b : JobState) → (not (b == a) && not (contains b (transitions a))) ≡ not (is_move a b)
unfolding job_state_eq
accepts a b = ground arith

transition_of :
    (job : GenerationJob) (s : JobState) (m : Bool)
    → is_move job.state s ≡ m
    → transition job s ≡ (if m then ok (moved job s) else raise job_invalid_transition 409)
unfolding transition
transition_of job s true h = rw (accepts job.state s, h)
transition_of job s false h = rw (accepts job.state s, h)

-- `transition` accepts exactly the present state, any end of a RUNNING step, the start or the cancellation
-- of a waiting job, and the retry of a FAILED or CANCELLED one. It then writes the state and the next event
-- number and nothing else; otherwise it raises JOB_INVALID_TRANSITION with 409.
pub transition_exact :
    (job : GenerationJob) (s : JobState)
    → transition job s
      ≡ (if is_move job.state s then ok (moved job s) else raise job_invalid_transition 409)
transition_exact job s = transition_of job s (is_move job.state s) refl

pub transition-moved :
    (job : GenerationJob) (s : JobState) {job' : GenerationJob}
    → transition job s ≡ ok job'
    → job' ≡ moved job s
transition-moved job s h = ground (arith, transition_exact job s)

pub is_final-no_move : (a b : JobState) → is_final a ≡ true → is_move a b ≡ true → b ≡ a
is_final-no_move a b f m = ground (arith, ==_iff a b)

-- A running job may go to any state but its own by a move.
pub transition_running :
    (job : GenerationJob) (s : JobState) → job.state ≡ running → transition job s ≡ ok (moved job s)
transition_running job s h = transition_exact job s ∙ rw (moves_of_running job.state s h)
  where
    moves_of_running : (a b : JobState) → a ≡ running → is_move a b ≡ true
    moves_of_running a b e = ground arith

pub transition_waiting :
    (job : GenerationJob)
    → is_waiting job.state ≡ true
    → transition job running ≡ ok (moved job running)
transition_waiting job h = transition_exact job running ∙ rw (moves_of_waiting job.state h)
  where
    moves_of_waiting : (a : JobState) → is_waiting a ≡ true → is_move a running ≡ true
    moves_of_waiting a e = ground arith
