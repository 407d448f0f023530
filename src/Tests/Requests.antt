-- ===== src/Tests/Requests.antt =====
-- The requests on jobs at concrete inputs.
use capstone_nps.Base.{refl, ◌++◌, ◌∷◌, ◌≡◌, [], none, arith, length, ◌≤◌}
use capstone_nps.Models.{Db, GenerationJob, Step, find_step, step_eq, Step-discrete}
use capstone_nps.Jobs.Requests.Idempotency.{
  KeyUnique, KeepsKeys, create_job-KeyUnique, resend, create_job_again,
}
use capstone_nps.Jobs.Requests.{
  create_job, find_keyed, create_attempts, retry_job, any_unfinished, retry_at, key_of,
  steps_before, insert_job, new_job, with_review_mode,
}
use capstone_nps.Tests.Samples.{
  failed_db, failed_job, config, job, db, from_ok, request, broker, digest_of,
}
use capstone_nps.Jobs.Broker.{Broker}
use capstone_nps.Base.Words.{text}
use capstone_nps.Base.Errors.{ok, raise, idempotency_conflict}
use capstone_nps.Jobs.{pipelines}
use capstone_nps.Jobs.Requests.Answered.{IsAnswer, create_job-IsAnswer}

abbrev created : GenerationJob × Db × Broker
created = from_ok (job, db, broker) (create_job config digest_of request [] db broker)

created_lem : create_job config digest_of request [] db broker ≡ ok created
unfolding create_job key_of create_attempts find_keyed insert_job new_job with_review_mode
created_lem = refl

create_job_again_example :
    create_job config digest_of (resend request 10 (text "v") 41) [] created.1 created.2
    ≡ ok created
create_job_again_example =
    create_job_again config digest_of request (text "k2") 10 (text "v") 41 db broker refl
      (ground arith) created_lem

keeps_keys : KeepsKeys (λ d. d)
keeps_keys d u = u

db-KeyUnique : KeyUnique db.jobs
db-KeyUnique = (refl, tt)

created_beside : create_job config digest_of request ((λ d. d) ∷ []) db broker ≡ ok created
unfolding create_job key_of create_attempts find_keyed insert_job new_job with_review_mode
created_beside = refl

create_job-KeyUnique_example : KeyUnique created.1.jobs
create_job-KeyUnique_example =
    create_job-KeyUnique config digest_of request ((λ d. d) ∷ []) db broker (keeps_keys, tt)
      db-KeyUnique created_beside

-- Another session that sends the same key for other work.
abbrev rival : GenerationJob
rival = record job { id = 8; idempotency_key = text "k2" }

abbrev take_key : Db → Db
take_key d = record d { jobs = d.jobs ++ rival ∷ [] }

request_key : length (key_of request) ≤ 100
unfolding key_of
request_key = ground arith

beaten :
    create_job config digest_of request (take_key ∷ []) db broker ≡ raise idempotency_conflict 409
unfolding create_job key_of create_attempts find_keyed with_review_mode
beaten = refl

create_job-IsAnswer_example :
    IsAnswer config digest_of request
      (take_key ∷ [])
      db
      (create_job config digest_of request (take_key ∷ []) db broker)
create_job-IsAnswer_example =
    create_job-IsAnswer config digest_of request (take_key ∷ []) db broker request_key

abbrev retried_once : GenerationJob × Db × Broker
retried_once = from_ok (job, db, broker) (retry_job 3 failed_job none failed_db broker)

retried_once_lem : retry_job 3 failed_job none failed_db broker ≡ ok retried_once
unfolding retry_job any_unfinished steps_before find_step pipelines step_eq Step-discrete
retried_once_lem = refl

retried_at_lem : retry_at 3 failed_job Step.security_scan failed_db broker ≡ ok retried_once
unfolding retry_job
retried_at_lem = retried_once_lem
