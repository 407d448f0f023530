-- ===== src/Jobs/Requests/Create.antt =====
-- `create_job`: what it inserts, the key that stays unique, and the request that is sent again.
use capstone_nps.Jobs.Requests.{
  create_attempts, insert_job, Request, payload_of, find_keyed, key_of, new_job, insert, reuse,
}
use capstone_nps.Config.{Settings}
use capstone_nps.Models.{find_job, GenerationJob, Kind, Db, Payload}
use capstone_nps.Auth.Audit.{audit}
use capstone_nps.Base.{
  ℕ, [], ◌≡◌, some, none, Option-cases, inl, ◌++◌, ◌∷◌, inr, arith, nat_beq_iff,
}
use capstone_nps.Jobs.Broker.{Broker, enqueue}
use capstone_nps.Base.Errors.{ok}
use capstone_nps.Jobs.Evolution.{Evolves, JobEvolves-refl}
use capstone_nps.Base.Rows.{first-append_some}

pub jobs-insert_job :
    (job : GenerationJob) (db : Db) {db' : Db}
    → insert_job job db ≡ ok db'
    → db'.jobs ≡ db.jobs ++ job ∷ []
unfolding insert_job audit
jobs-insert_job job db h = ground arith

pub insert_job-Evolves :
    (job : GenerationJob) (db : Db) {db' : Db} → insert_job job db ≡ ok db' → Evolves db db'
unfolding find_job
insert_job-Evolves job db h = record {
  at = λ k a found. (
    a,
    rw (jobs-insert_job job db h) (first-append_some _ db.jobs (job ∷ []) a found),
    JobEvolves-refl a,
  );
}

module _ (config : Settings) (sha256 : Kind → Payload → ℕ) (r : Request) where
  abbrev pub digest : ℕ
  digest = sha256 r.kind (payload_of config sha256 r)

  -- The two ways in which an attempt succeeds.
  pub data Created (db : Db) (b : Broker) (job : GenerationJob) (db' : Db) (b' : Broker)
      : Type 0 where
    reused :
        find_keyed r.project_id r.user (key_of r) db ≡ some job
        → job.fingerprint ≡ digest
        → db' ≡ db
        → b' ≡ b
        → Created db b job db' b'
    inserted :
        find_keyed r.project_id r.user (key_of r) db ≡ none
        → job ≡ new_job r (payload_of config sha256 r) digest
        → insert_job job db ≡ ok db'
        → b' ≡ enqueue job b
        → Created db b job db' b'

  pub insert-eq-ok :
      (db : Db) (b : Broker) {job : GenerationJob} {db' : Db} {b' : Broker}
      → insert config sha256 r db b ≡ ok (job, db', b')
      → (job ≡ new_job r (payload_of config sha256 r) digest)
        × (insert_job job db ≡ ok db')
        × (b' ≡ enqueue job b)
  unfolding insert
  insert-eq-ok db b h = ground arith

  Created-of_insert :
      (db : Db) (b : Broker) {job : GenerationJob} {db' : Db} {b' : Broker}
      → find_keyed r.project_id r.user (key_of r) db ≡ none
      → insert config sha256 r db b ≡ ok (job, db', b')
      → Created db b job db' b'
  Created-of_insert db b fresh h =
      let (made, added, hinted) = insert-eq-ok db b h in inserted fresh made added hinted

  pub reuse-eq-ok :
      (db : Db) (b : Broker) (old : GenerationJob) {job : GenerationJob} {db' : Db} {b' : Broker}
      → reuse config sha256 r old db b ≡ ok (job, db', b')
      → (job ≡ old) × (old.fingerprint ≡ digest) × (db' ≡ db) × (b' ≡ b)
  unfolding reuse
  reuse-eq-ok db b old h = ground (arith, nat_beq_iff old.fingerprint digest)

  Created-of_reuse :
      (db : Db) (b : Broker) (old : GenerationJob) {job : GenerationJob} {db' : Db} {b' : Broker}
      → find_keyed r.project_id r.user (key_of r) db ≡ some old
      → reuse config sha256 r old db b ≡ ok (job, db', b')
      → Created db b job db' b'
  Created-of_reuse db b old there h =
      let (same, digests, unchanged, idle) = reuse-eq-ok db b old h in
      reused (cc) (rw same digests) unchanged idle

  -- With no other session at work, a granted request either returns the job that has its key and
  -- digest and changes nothing, or inserts a new one.
  pub create_attempts_cases :
      (db : Db) (b : Broker) {job : GenerationJob} {db' : Db} {b' : Broker}
      → create_attempts config sha256 r [] db b ≡ ok (job, db', b')
      → Created db b job db' b'
  unfolding create_attempts
  create_attempts_cases db b h =
      elim (Option-cases (find_keyed r.project_id r.user (key_of r) db)) [
        | inl fresh ↦ Created-of_insert db b fresh (ground arith)
        | inr (old, there) ↦ Created-of_reuse db b old there (ground arith)
      ]
