-- ===== src/Tests/Routes.antt =====
-- Generations and sockets at concrete inputs.
use capstone_nps.Models.{
  Kind, GenerationJob, ArtifactVersion, Db, ApprovalStatus, find_job, find_artifact_version,
  find_step, step_eq, Document, find_document,
}
use capstone_nps.Base.{none, List, ℕ, ◌∷◌, ◌≡◌, [], refl, some, true, false, length, ◌≤◌, arith}
use capstone_nps.Routes.Socket.Events.{last_seen, IsOpen, Differ, socket_loop-current}
use capstone_nps.Jobs.Snapshot.{Snapshot}
use capstone_nps.Routes.Socket.{poll_event, Poll, socket_loop, Receive, still_open}
use capstone_nps.Routes.Plans.{generation, plan_payload}
use capstone_nps.Routes.Plans.Granted.{IsGeneration, generation-IsGeneration}
use capstone_nps.Tests.Artifacts.{version, deck}
use capstone_nps.Tests.Samples.{job, db, from_ok, no_view, broker, empty_db}
use capstone_nps.Tests.Plans.{plan_db, plan}
use capstone_nps.Jobs.Broker.{Broker}
use capstone_nps.Tests.Api.{call}
use capstone_nps.Base.Errors.{ok, raise, ppt_review_required, resource_not_found}
use capstone_nps.Jobs.Requests.{
  key_of, create_attempts, find_keyed, insert_job, new_job, with_review_mode,
}
use capstone_nps.Jobs.{pipelines}
use capstone_nps.Auth.Audit.{audit}
use capstone_nps.Routes.Documents.{document_detail, delete_document}
use capstone_nps.Auth.Accounts.{Project}
use capstone_nps.Auth.Scope.Grants.{IsGranted}
use capstone_nps.Base.Words.{text}
use capstone_nps.Access.{Served-IsGranted, delete_document_ok}
use capstone_nps.Routes.{request_of}

-- The approved plan with a deck that has been reviewed.
abbrev reviewed_version : ArtifactVersion
reviewed_version = record version { approval_status = ApprovalStatus.reviewed }

abbrev video_db : Db
video_db = record plan_db { artifacts = deck ∷ []; artifact_versions = reviewed_version ∷ [] }

abbrev video_job : Snapshot × Db × Broker
video_job =
    from_ok (no_view, video_db, broker) (generation call plan Kind.video none video_db broker)

video_job_lem : generation call plan Kind.video none video_db broker ≡ ok video_job
unfolding generation find_artifact_version key_of create_attempts find_keyed insert_job new_job
    with_review_mode pipelines find_step audit step_eq
video_job_lem = refl

video_key : length (key_of (request_of call 2 Kind.video (plan_payload plan) none)) ≤ 100
unfolding key_of
video_key = ground arith

without_deck : generation call plan Kind.video none plan_db broker ≡ raise ppt_review_required 409
unfolding generation
without_deck = refl

generation-IsGeneration_example :
    IsGeneration call plan Kind.video none video_db video_job.0 video_job.1
generation-IsGeneration_example =
    generation-IsGeneration call plan Kind.video none video_db broker video_key video_job_lem

-- A job of project 7, polled three times.
abbrev polled_job : GenerationJob
polled_job = record job { project_id = 7 }

abbrev polled_db : (seq : ℕ) → Db
polled_db seq = record db { jobs = record polled_job { seq = seq } ∷ [] }

abbrev poll : (seq : ℕ) → Poll
poll seq = record { call = ok call; db = polled_db seq; receive = Receive.timeout }

abbrev event : (seq : ℕ) → Snapshot
event seq = from_ok no_view (poll_event 1 (poll seq))

abbrev polls : List Poll
polls = poll 1 ∷ poll 1 ∷ poll 2 ∷ []

polls-IsOpen : IsOpen 1 polls (event 1 ∷ event 1 ∷ event 2 ∷ [])
unfolding poll_event find_job pipelines find_step step_eq
polls-IsOpen = (refl, (λ e. cc), (refl, (λ e. cc), (refl, (λ e. cc), refl)))

socket_loop-current_example :
    (last_seen none (socket_loop 1 none polls).0
      ≡ last_seen none (event 1 ∷ event 1 ∷ event 2 ∷ []))
    × Differ none (socket_loop 1 none polls).0
    × ((socket_loop 1 none polls).1 ≡ still_open)
socket_loop-current_example =
    socket_loop-current 1 none polls (event 1 ∷ event 1 ∷ event 2 ∷ []) polls-IsOpen

abbrev kept_document : Document
kept_document = record {
  id = 5;
  project_id = 7;
  title = text "t";
  current_version_id = none;
  deleted = false;
}

abbrev document_db : Db
document_db = record empty_db { documents = kept_document ∷ [] }

abbrev hidden_db : Db
hidden_db = from_ok document_db (delete_document call 5 document_db)

deleted_lem : delete_document call 5 document_db ≡ ok hidden_db
unfolding delete_document find_document
deleted_lem = refl

then_gone : document_detail call 5 hidden_db ≡ raise resource_not_found 404
unfolding document_detail delete_document find_document audit
then_gone = refl

document-found : find_document 5 document_db ≡ some kept_document
unfolding find_document
document-found = refl

Served-IsGranted_example : (project : Project) × IsGranted call.accounts call.user 7 [] true project
Served-IsGranted_example =
    Served-IsGranted call document_db 7 [] true
      (delete_document_ok 5 kept_document hidden_db document-found deleted_lem)
