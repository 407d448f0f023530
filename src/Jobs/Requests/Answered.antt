-- ===== src/Jobs/Requests/Answered.antt =====
-- What `create_job` answers while other sessions are at work.
use mathlib.Core.List.{Memᴰ}
use capstone_nps.Base.{
  none, some, List, ◌≡◌, ◌∷◌, ℕ, ◌⊎◌, [], refl, length, Option-cases, inl, ◌≤◌, Bool-cases, inr,
  ltb, ◌==◌, ◌≢◌, false, nat_beq_iff, arith, nat_eq, true,
}
use capstone_nps.Jobs.Requests.{
  audit_bypass, is_bypass, insert, insert_job, Request, create_job, reuse, create_attempts, new_job,
  find_keyed, key_of, payload_of,
}
use capstone_nps.Config.{Settings, ReviewMode, review_mode_eq, ReviewMode-discrete}
use capstone_nps.Models.{Payload, GenerationJob, Db, Kind}
use capstone_nps.Base.Errors.{
  Exception, err, Result, other, ok, domain_error, idempotency_conflict, Result-cases,
}
use capstone_nps.Jobs.Broker.{Broker, enqueue}
use capstone_nps.Jobs.Requests.Create.{digest, inserted}
use capstone_nps.Jobs.Requests.Idempotency.{Created-found}

-- The tables that the attempts look at, one after the other.
abbrev pub passed : List (Db → Db) → Db → List Db
passed [] db = db ∷ []
passed (o ∷ rest) db = db ∷ passed rest (o db)

passed-here : (others : List (Db → Db)) (db : Db) → Memᴰ db (passed others db)
passed-here [] db = Memᴰ.head refl
passed-here (o ∷ rest) db = Memᴰ.head refl

-- No plan stands in the payload of a job that is to go without reviews.
abbrev pub LacksPlan : Payload → Type 0
LacksPlan payload =
    (payload.review_mode ≡ some ReviewMode.prototype_pass)
    × ((payload.plan_id ≡ none) ⊎ (payload.plan_version ≡ none))

is_bypass-IsSome :
    (payload : Payload)
    → is_bypass payload ≡ true
    → payload.review_mode ≡ some ReviewMode.prototype_pass
unfolding is_bypass review_mode_eq ReviewMode-discrete
is_bypass-IsSome payload h = elim (Option-cases payload.review_mode) [
  | inl none_given ↦ absurd (ground arith)
  | inr (ReviewMode.strict, given) ↦ absurd (ground arith)
  | inr (ReviewMode.prototype_pass, given) ↦ given
]

audit_bypass-err :
    (job : GenerationJob) (db : Db) (e : Exception)
    → audit_bypass job db ≡ err e
    → (e ≡ other) × LacksPlan job.payload
unfolding audit_bypass
audit_bypass-err job db e h = elim (Bool-cases (is_bypass job.payload)) [
  | inr strict ↦ absurd (ground arith)
  | inl bypass ↦
      let mode = is_bypass-IsSome job.payload bypass in
      elim (Option-cases job.payload.plan_id) [
        | inl without ↦ (ground arith, (mode, inl without))
        | inr (plan_id, named) ↦ elim (Option-cases job.payload.plan_version) [
          | inl without ↦ (ground arith, (mode, inr without))
          | inr (version, at) ↦ absurd (ground arith)
        ]
      ]
]

insert_job-err :
    (job : GenerationJob) (db : Db) (e : Exception)
    → insert_job job db ≡ err e
    → (e ≡ other) × LacksPlan job.payload
unfolding insert_job
insert_job-err job db e h = audit_bypass-err job _ e h

module _ (config : Settings) (sha256 : Kind → Payload → ℕ) (r : Request) where
  -- A returned job is the one that the tables now hold under the request's key, and is for the same work: the new
  -- job of the request, or one that stood there at one of the attempts. A conflict was met: at one of the attempts a job for other work stood under the key. Any other exception
  -- comes from a payload without the plan that its review mode asks for.
  abbrev pub IsAnswer :
      (others : List (Db → Db)) → Db → Result (GenerationJob × Db × Broker) → Type 0
  IsAnswer others db (ok (job, db', b')) =
      (find_keyed r.project_id r.user (key_of r) db' ≡ some job)
      × (job.fingerprint ≡ digest config sha256 r)
      × ((job ≡ new_job r (payload_of config sha256 r) (digest config sha256 r))
          ⊎ ((seen : Db) × Memᴰ seen (passed others db)
              × (find_keyed r.project_id r.user (key_of r) seen ≡ some job)))
  IsAnswer others db (err (domain_error code status)) =
      (code ≡ idempotency_conflict)
      × (status ≡ 409)
      × (seen : Db) × (rival : GenerationJob) × Memᴰ seen (passed others db)
      × (find_keyed r.project_id r.user (key_of r) seen ≡ some rival)
      × (rival.fingerprint ≢ digest config sha256 r)
  IsAnswer others db (err other) = LacksPlan (payload_of config sha256 r)

  reuse-IsAnswer :
      (others : List (Db → Db)) (db : Db) (b : Broker) (existing : GenerationJob)
      → find_keyed r.project_id r.user (key_of r) db ≡ some existing
      → IsAnswer others db (reuse config sha256 r existing db b)
  unfolding reuse
  reuse-IsAnswer others db b existing there =
      elim (Bool-cases (existing.fingerprint == digest config sha256 r)) [
        | inl same ↦
            rw (reuse, same)
              (
                there,
                (nat_beq_iff existing.fingerprint (digest config sha256 r)).0 same,
                inr (db, passed-here others db, there),
              )
        | inr differs ↦
            rw (reuse, differs)
              (
                refl,
                refl,
                db,
                existing,
                passed-here others db,
                there,
                (λ e. ground (arith, nat_beq_iff existing.fingerprint (digest config sha256 r))),
              )
      ]

  insert-IsAnswer :
      (others : List (Db → Db)) (before db : Db) (b : Broker)
      → find_keyed r.project_id r.user (key_of r) db ≡ none
      → IsAnswer others before (insert config sha256 r db b)
  unfolding insert new_job
  insert-IsAnswer others before db b fresh =
      let job = new_job r (payload_of config sha256 r) (digest config sha256 r) in
      elim (Result-cases (insert_job job db)) [
        | inl (e, refused) ↦
            let (it, lacks) = insert_job-err job db e refused in rw (insert, refused, it) lacks
        | inr (db', added) ↦
            rw (insert, added)
              (let (there, same) =
                  Created-found config sha256 r db b {job = job} {db' = db'} {b' = enqueue job b}
                    (inserted fresh refl added refl) in
                (there, same, inl refl))
      ]

  IsAnswer-later :
      (o : Db → Db) (rest : List (Db → Db)) (db : Db) (call : Result (GenerationJob × Db × Broker))
      → IsAnswer rest (o db) call
      → IsAnswer (o ∷ rest) db call
  IsAnswer-later o rest db (ok (job, db', b')) (there, same, inl made) = (there, same, inl made)
  IsAnswer-later o rest db (ok (job, db', b')) (there, same, inr (seen, m, found)) =
      (there, same, inr (seen, Memᴰ.tail m, found))
  IsAnswer-later o rest db (err (domain_error code status)) (c, s, seen, rival, m, f, d) =
      (c, s, seen, rival, Memᴰ.tail m, f, d)
  IsAnswer-later o rest db (err other) h = h

  create_attempts-IsAnswer :
      (others : List (Db → Db)) (db : Db) (b : Broker)
      → IsAnswer others db (create_attempts config sha256 r others db b)
  unfolding create_attempts
  create_attempts-IsAnswer [] db b =
      elim (Option-cases (find_keyed r.project_id r.user (key_of r) db)) [
        | inl fresh ↦ rw (create_attempts, fresh) (insert-IsAnswer [] db db b fresh)
        | inr (old, there) ↦ rw (create_attempts, there) (reuse-IsAnswer [] db b old there)
      ]
  create_attempts-IsAnswer (o ∷ rest) db b =
      elim (Option-cases (find_keyed r.project_id r.user (key_of r) db)) [
        | inl fresh ↦ elim (Option-cases (find_keyed r.project_id r.user (key_of r) (o db))) [
          | inl still ↦
              rw (create_attempts, fresh, still) (insert-IsAnswer (o ∷ rest) db (o db) b still)
          | inr (rival, taken) ↦
              rw (create_attempts, fresh, taken)
                (IsAnswer-later o rest db (create_attempts config sha256 r rest (o db) b)
                  (create_attempts-IsAnswer rest (o db) b))
        ]
        | inr (old, there) ↦ rw (create_attempts, there) (reuse-IsAnswer (o ∷ rest) db b old there)
      ]

  -- Whatever other sessions commit between the attempts, a request with a key of at most 100 characters is
  -- answered truly. If it gets a job, the tables then hold just this job under the request's key, it is for the
  -- same work, and either it is the queued job that the request asks for, or it stood under the key at one of the
  -- attempts. If it raises a `DomainError`, that is IDEMPOTENCY_CONFLICT with 409, and the
  -- tables that one of the attempts looked at held a job for other work under the key. It raises anything else
  -- only for a payload that waives reviews and names no plan or no version.
  pub create_job-IsAnswer :
      (others : List (Db → Db)) (db : Db) (b : Broker)
      → length (key_of r) ≤ 100
      → IsAnswer others db (create_job config sha256 r others db b)
  unfolding create_job
  create_job-IsAnswer others db b short =
      let fits : ltb 100 (length (key_of r)) ≡ false = ground arith in
      rw (create_job, fits) (create_attempts-IsAnswer others db b)
