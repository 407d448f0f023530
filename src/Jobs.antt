-- ===== src/Jobs.antt =====
-- apps/api/nps/jobs.py: the job's state machine, and the queue hints in Redis.
pub mod Broker
pub mod Evolution
pub mod Machine
pub mod Requests
pub mod Leases
pub mod Snapshot
use capstone_nps.Base.{ℕ, suc, ◌+◌, Bool, true, false, not, ◌&&◌, List, [], ◌∷◌, ◌==◌, contains}
use capstone_nps.Base.Errors.{Result, ok, job_invalid_transition, raise_if, ◌>>◌}
use capstone_nps.Contracts.{
  JobState, queued, running, waiting_review, succeeded, failed, cancelled, retrying,
}
use capstone_nps.Contracts.Equality.{job_state_eq}
use capstone_nps.Models.{Kind, Step, GenerationJob}

-- `PIPELINES`
unfoldable pub pipelines : Kind → List Step
pipelines Kind.upload = Step.security_scan ∷ []
pipelines Kind.analyze =
    Step.parse ∷ Step.chunk ∷ Step.llm_summary ∷ Step.llm_key_messages ∷ Step.llm_outline ∷ Step.llm
    ∷ Step.llm_visual ∷ Step.plan_validate ∷ []
pipelines Kind.plan =
    Step.llm_summary ∷ Step.llm_key_messages ∷ Step.llm_outline ∷ Step.llm ∷ Step.llm_visual
    ∷ Step.plan_validate ∷ []
pipelines Kind.ppt = Step.image ∷ Step.ppt ∷ Step.ppt_qa ∷ []
pipelines Kind.image = Step.image ∷ []
pipelines Kind.video = Step.image ∷ Step.video ∷ Step.final_qa ∷ []
pipelines Kind.template = Step.security_scan ∷ []
pipelines Kind.design_reference = Step.security_scan ∷ Step.design_learn ∷ []

-- `PIPELINES[kind][0]`
abbrev pub first_step : Kind → Step
first_step Kind.upload = Step.security_scan
first_step Kind.analyze = Step.parse
first_step Kind.plan = Step.llm_summary
first_step Kind.ppt = Step.image
first_step Kind.image = Step.image
first_step Kind.video = Step.image
first_step Kind.template = Step.security_scan
first_step Kind.design_reference = Step.security_scan

pub data Queue : Type 0 where
  document llm image ppt video : Queue

-- `ROUTING`
unfoldable pub routing : Step → Queue
routing Step.security_scan = Queue.document
routing Step.design_learn = Queue.document
routing Step.parse = Queue.document
routing Step.chunk = Queue.document
routing Step.llm_summary = Queue.llm
routing Step.llm_key_messages = Queue.llm
routing Step.llm_outline = Queue.llm
routing Step.llm = Queue.llm
routing Step.llm_visual = Queue.llm
routing Step.plan_validate = Queue.llm
routing Step.image = Queue.image
routing Step.ppt = Queue.ppt
routing Step.ppt_qa = Queue.ppt
routing Step.video = Queue.video
routing Step.final_qa = Queue.video

-- `state in TERMINAL`
abbrev pub is_terminal : JobState → Bool
is_terminal succeeded = true
is_terminal failed = true
is_terminal cancelled = true
is_terminal waiting_review = true
is_terminal _ = false

-- `state in {"QUEUED", "RETRYING"}`
abbrev pub is_waiting : JobState → Bool
is_waiting queued = true
is_waiting retrying = true
is_waiting _ = false

-- `TRANSITIONS`
abbrev pub transitions : JobState → List JobState
transitions queued = running ∷ cancelled ∷ []
transitions retrying = running ∷ cancelled ∷ []
transitions running = queued ∷ succeeded ∷ failed ∷ cancelled ∷ waiting_review ∷ retrying ∷ []
transitions failed = retrying ∷ []
transitions cancelled = retrying ∷ []
transitions waiting_review = []
transitions succeeded = []

unfoldable pub transition : GenerationJob → JobState → Result GenerationJob
unfolding job_state_eq
transition job state = do
  raise_if (not (state == job.state) && not (contains state (transitions job.state)))
      job_invalid_transition 409
  ok (record job { state = state; seq = job.seq + 1 })
