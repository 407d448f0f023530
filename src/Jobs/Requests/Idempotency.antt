-- ===== src/Jobs/Requests/Idempotency.antt =====
-- `create_job` under its idempotency key: sent again, and at every attempt.
use capstone_nps.Jobs.Requests.{
  create_job, create_attempts, is_keyed, Request, find_keyed, key_of, insert, reuse, new_job,
}
use capstone_nps.Models.{GenerationJob, Kind, Payload, Db}
use capstone_nps.Base.{
  List, ◌∷◌, Bool, ◌≡◌, false, none, ◌++◌, arith, [], refl, ℕ, All, Option-cases, some, inl, inr,
  nat_eq, true, ◌≢◌,
}
use capstone_nps.Base.Rows.{first, first-append_none}
use capstone_nps.Base.Words.{text_beq_iff, Text}
use capstone_nps.Config.{Settings}
use capstone_nps.Jobs.Broker.{Broker}
use capstone_nps.Base.Errors.{ok}
use capstone_nps.Jobs.Requests.Create.{
  insert-eq-ok, jobs-insert_job, reuse-eq-ok, digest, create_attempts_cases, Created, reused,
  inserted,
}

-- No two rows share project, requester and key: the table's unique constraint.
abbrev pub KeyUnique : List GenerationJob → Type 0
KeyUnique [] = Unit
KeyUnique (j ∷ js) =
    (first (is_keyed j.project_id j.requested_by j.idempotency_key) js ≡ none) × KeyUnique js

is_keyed-sym :
    (x j : GenerationJob)
    → is_keyed x.project_id x.requested_by x.idempotency_key j ≡ false
    → is_keyed j.project_id j.requested_by j.idempotency_key x ≡ false
is_keyed-sym x j h = ground (
  arith,
  text_beq_iff x.idempotency_key j.idempotency_key,
  text_beq_iff j.idempotency_key x.idempotency_key,
)

first-none-append_one :
    (p : GenerationJob → Bool) (js : List GenerationJob) (x : GenerationJob)
    → first p js ≡ none
    → p x ≡ false
    → first p (js ++ x ∷ []) ≡ none
first-none-append_one p [] x h e = ground arith
first-none-append_one p (j ∷ js) x h e = ground (arith, first-none-append_one p js x)

first-none_head :
    (p : GenerationJob → Bool) (j : GenerationJob) (js : List GenerationJob)
    → first p (j ∷ js) ≡ none
    → p j ≡ false
first-none_head p j js h = ground arith

first-none_tail :
    (p : GenerationJob → Bool) (j : GenerationJob) (js : List GenerationJob)
    → first p (j ∷ js) ≡ none
    → first p js ≡ none
first-none_tail p j js h = ground arith

KeyUnique-append_one :
    (js : List GenerationJob) (x : GenerationJob)
    → KeyUnique js
    → first (is_keyed x.project_id x.requested_by x.idempotency_key) js ≡ none
    → KeyUnique (js ++ x ∷ [])
KeyUnique-append_one [] x u h = (refl, tt)
KeyUnique-append_one (j ∷ js) x u h = (
  first-none-append_one (is_keyed j.project_id j.requested_by j.idempotency_key) js x u.0 (
      is_keyed-sym x j
        (first-none_head (is_keyed x.project_id x.requested_by x.idempotency_key) j js h)),
  KeyUnique-append_one js x u.1
      (first-none_tail (is_keyed x.project_id x.requested_by x.idempotency_key) j js h),
)

-- What other sessions commit keeps the constraint too: the database refuses anything else.
abbrev pub KeepsKeys : (Db → Db) → Type 0
KeepsKeys others = (db : Db) → KeyUnique db.jobs → KeyUnique (others db).jobs

module _ (config : Settings) (sha256 : Kind → Payload → ℕ) (r : Request) where
  insert-KeyUnique :
      (db : Db) (b : Broker) {job : GenerationJob} {db' : Db} {b' : Broker}
      → KeyUnique db.jobs
      → find_keyed r.project_id r.user (key_of r) db ≡ none
      → insert config sha256 r db b ≡ ok (job, db', b')
      → KeyUnique db'.jobs
  unfolding find_keyed new_job
  insert-KeyUnique db b u fresh h =
      let (made, added, _) = insert-eq-ok config sha256 r db b h in
      rw (jobs-insert_job _ db added) (rw made (KeyUnique-append_one db.jobs _ u fresh))

  create_attempts-KeyUnique :
      (others : List (Db → Db)) (db : Db) (b : Broker) {job : GenerationJob} {db' : Db}
      {b' : Broker}
      → All KeepsKeys others
      → KeyUnique db.jobs
      → create_attempts config sha256 r others db b ≡ ok (job, db', b')
      → KeyUnique db'.jobs
  unfolding create_attempts
  create_attempts-KeyUnique [] db b {job} {db'} {b'} k u h =
      elim (Option-cases (find_keyed r.project_id r.user (key_of r) db)) [
        | inl fresh ↦ insert-KeyUnique db b {job = job} {db' = db'} {b' = b'} u fresh (ground arith)
        | inr (old, there) ↦
            let (_, _, unchanged, _) =
              reuse-eq-ok config sha256 r db b old {job = job} {db' = db'} {b' = b'}
                (ground arith) in
            rw unchanged u
      ]
  create_attempts-KeyUnique (o ∷ rest) db b {job} {db'} {b'} k u h =
      elim (Option-cases (find_keyed r.project_id r.user (key_of r) db)) [
        | inl fresh ↦ elim (Option-cases (find_keyed r.project_id r.user (key_of r) (o db))) [
          | inl still ↦
              insert-KeyUnique (o db) b {job = job} {db' = db'} {b' = b'} (k.0 db u) still
                (ground arith)
          | inr (rival, taken) ↦
              create_attempts-KeyUnique rest (o db) b {job = job} {db' = db'} {b' = b'} k.1
                (k.0 db u) (ground arith)
        ]
        | inr (old, there) ↦
            let (_, _, unchanged, _) =
              reuse-eq-ok config sha256 r db b old {job = job} {db' = db'} {b' = b'}
                (ground arith) in
            rw unchanged u
      ]

  -- Whatever other sessions commit meanwhile, as long as the database keeps the constraint for them, a
  -- granted `create_job` leaves at most one job for each project, requester and key.
  pub create_job-KeyUnique :
      (others : List (Db → Db)) (db : Db) (b : Broker) {job : GenerationJob} {db' : Db}
      {b' : Broker}
      → All KeepsKeys others
      → KeyUnique db.jobs
      → create_job config sha256 r others db b ≡ ok (job, db', b')
      → KeyUnique db'.jobs
  unfolding create_job
  create_job-KeyUnique others db b {job} {db'} {b'} k u h =
      create_attempts-KeyUnique others db b {job = job} {db' = db'} {b' = b'} k u (ground arith)

  first_keyed-append :
      (js : List GenerationJob) (x : GenerationJob)
      → first (is_keyed r.project_id r.user (key_of r)) js ≡ none
      → is_keyed r.project_id r.user (key_of r) x ≡ true
      → first (is_keyed r.project_id r.user (key_of r)) (js ++ x ∷ []) ≡ some x
  first_keyed-append js x h e = rw (first-append_none _ js (x ∷ []) h) (ground arith)

  new_job-keyed :
      (payload : Payload) (fingerprint : ℕ)
      → is_keyed r.project_id r.user (key_of r) (new_job r payload fingerprint) ≡ true
  unfolding new_job
  new_job-keyed payload fingerprint = ground (arith, text_beq_iff (key_of r) (key_of r))

  fingerprint-new_job :
      (payload : Payload) (fingerprint : ℕ)
      → (new_job r payload fingerprint).fingerprint ≡ fingerprint
  unfolding new_job
  fingerprint-new_job payload fingerprint = refl

  -- After a granted request the tables hold the job under the request's key, with its digest.
  pub Created-found :
      (db : Db) (b : Broker) {job : GenerationJob} {db' : Db} {b' : Broker}
      → Created config sha256 r db b job db' b'
      → (find_keyed r.project_id r.user (key_of r) db' ≡ some job)
        × (job.fingerprint ≡ digest config sha256 r)
  unfolding find_keyed
  Created-found db b (reused there same unchanged idle) = (rw unchanged there, same)
  Created-found db b {job} (inserted fresh made added idle) = (
    rw (jobs-insert_job job db added)
        (first_keyed-append db.jobs job fresh (rw made (new_job-keyed _ _))),
    rw made (fingerprint-new_job _ _),
  )

-- The same request sent again: only what the code draws from outside differs.
abbrev pub resend : Request → (new_id : ℕ) → (new_key : Text) → (now : ℕ) → Request
resend r new_id new_key now = record r { new_id = new_id; new_key = new_key; now = now }

module _ (config : Settings) (sha256 : Kind → Payload → ℕ) (r : Request) where
  key_of-resend :
      (key : Text) (new_id : ℕ) (new_key : Text) (now : ℕ)
      → r.key ≡ some key
      → key ≢ []
      → key_of (resend r new_id new_key now) ≡ key_of r
  unfolding key_of
  key_of-resend [] new_id new_key now given named = absurd (named refl)
  key_of-resend (c ∷ key) new_id new_key now given named = rw given

  -- A granted request that named its key, sent again with nothing in between, gives the job of the first
  -- time and changes neither the tables nor the queue hints.
  pub create_job_again :
      (key : Text) (new_id : ℕ) (new_key : Text) (now : ℕ) (db : Db) (b : Broker)
      {job : GenerationJob} {db' : Db} {b' : Broker}
      → r.key ≡ some key
      → key ≢ []
      → create_job config sha256 r [] db b ≡ ok (job, db', b')
      → create_job config sha256 (resend r new_id new_key now) [] db' b' ≡ ok (job, db', b')
  unfolding create_job create_attempts reuse
  create_job_again key new_id new_key now db b {job} {db'} {b'} given named h =
      let (there, same) = Created-found config sha256 r db b (
        create_attempts_cases config sha256 r db b {job = job} {db' = db'} {b' = b'}
          (ground arith)) in
      ground (arith, key_of-resend key new_id new_key now)
