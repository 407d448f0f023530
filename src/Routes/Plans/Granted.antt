-- ===== src/Routes/Plans/Granted.antt =====
-- What a granted request for a generation has shown.
use mathlib.Core.List.{Memᴰ}
use capstone_nps.Models.{
  ApprovalStatus, ArtifactType, PlanStatus, ApprovalStatus-discrete, approval_status_eq, Artifact,
  ArtifactVersion, find_artifact_version,
}
use capstone_nps.Base.{
  nat_eq, option_eq, ℕ, Option, ◌≡◌, inl, arith, inr, Bool, if◌then◌else◌, true, ◌⊎◌, any,
  Bool-cases, some, List, ==_iff, false, length, Option-cases, ◌≤◌, All, contains, ◌∷◌, refl, [],
  subst, nat_beq_iff,
}
use capstone_nps.Routes.{submit, Call, request_of}
use capstone_nps.Models.{Kind, Payload, Db, GenerationJob, SlidePlan}
use capstone_nps.Base.Words.{Text}
use capstone_nps.Jobs.Broker.{Broker}
use capstone_nps.Jobs.Snapshot.{Snapshot, snapshot}
use capstone_nps.Base.Errors.{ok, Result-cases}
use capstone_nps.Jobs.Requests.{create_job, find_keyed, key_of, with_review_mode, new_job}
use capstone_nps.Routes.Plans.{
  require_reviewed_deck, generation, is_video, plan_payload, is_reviewed_deck, is_deck,
  is_reviewed_for,
}
use capstone_nps.Config.{Settings, prototype_review_pass}
use capstone_nps.Plans.Gate.{require_approved, plan_status_eq}
use capstone_nps.Plans.Edit.{validate_plan, of_versions}
use capstone_nps.Contracts.Validation.{is_valid}
use capstone_nps.Contracts.{queued}
use capstone_nps.Jobs.Requests.Answered.{passed}
use capstone_nps.Plans.Approval.{validate_plan-eq-ok}
use capstone_nps.Chunking.Evidence.Grounded.{SlideGrounded}
use capstone_nps.Jobs.Requests.Answered.{IsAnswer, create_job-IsAnswer}

pub submit-eq-ok :
    (call : Call) (project_id : ℕ) (kind : Kind) (payload : Payload) (key : Option Text) (db : Db)
    (b : Broker) {view : Snapshot} {db' : Db} {b' : Broker}
    → submit call project_id kind payload key db b ≡ ok (view, db', b')
    → (job : GenerationJob) × (create_job call.config call.sha256
          (request_of call project_id kind payload key)
          call.others
          db
          b
        ≡ ok (job, db', b'))
      × (snapshot db' job ≡ ok view)
unfolding submit
submit-eq-ok call project_id kind payload key db b {view} {db'} {b'} h =
    elim (Result-cases (
      create_job call.config call.sha256 (request_of call project_id kind payload key) call.others
        db b)) [
          | inl (e, refused) ↦ absurd (ground arith)
          | inr ((job, d, c), made) ↦ elim (Result-cases (snapshot d job)) [
            | inl (e, refused) ↦ absurd (ground arith)
            | inr (v, seen) ↦ (job, ground arith, ground arith)
          ]
        ]

-- A deck of the plan whose current version has been reviewed or approved and was made from the plan's version.
pub record IsDeckOf (plan : SlidePlan) (db : Db) (a : Artifact) : Type 0 where
  pub of_plan : a.plan_id ≡ plan.id
  pub deck : a.type ≡ ArtifactType.pptx
  pub version_id : ℕ
  pub version : ArtifactVersion
  pub current : a.current_version_id ≡ some version_id
  pub stored : find_artifact_version version_id db ≡ some version
  pub reviewed :
      (version.approval_status ≡ ApprovalStatus.reviewed)
      ⊎ (version.approval_status ≡ ApprovalStatus.approved)
  pub made_from : version.provenance.plan_version ≡ some plan.version

-- The job that a request leads to: its digest is that of a payload which names the plan in its version, and
-- either it is a new one with this payload, or it stood under the request's key before.
pub record IsJobFor (call : Call) (plan : SlidePlan) (kind : Kind) (key : Option Text) (db db' : Db)
    (job : GenerationJob) : Type 0 where
  pub payload : Payload
  pub names_plan : payload.plan_id ≡ some plan.id
  pub names_version : payload.plan_version ≡ some plan.version
  pub same_work : job.fingerprint ≡ call.sha256 kind payload
  pub stored :
      find_keyed plan.project_id call.user.id
        (key_of (request_of call plan.project_id kind payload key))
        db'
      ≡ some job
  pub origin :
      ((job.payload ≡ payload) × (job.kind ≡ kind) × (job.state ≡ queued))
      ⊎ ((seen : Db) × Memᴰ seen (passed call.others db)
          × (find_keyed plan.project_id call.user.id
                (key_of (request_of call plan.project_id kind payload key))
                seen
              ≡ some job))

-- What stands between a plan and its pictures, deck and video.
pub record IsGeneration (call : Call) (plan : SlidePlan) (kind : Kind) (key : Option Text) (db : Db)
    (view : Snapshot) (db' : Db) : Type 0 where
  pub approved :
      (prototype_review_pass call.config ≡ true)
      ⊎ ((plan.status ≡ PlanStatus.approved) × (plan.approved_version ≡ some plan.version))
  pub valid : is_valid plan.contents ≡ true
  pub grounded :
      All
        (SlideGrounded plan.contents (of_versions plan.contents.document_versions db.chunks))
        plan.contents.slides
  pub reviewed :
      (is_video kind ≡ false)
      ⊎ ((prototype_review_pass call.config ≡ true)
          ⊎ ((a : Artifact) × Memᴰ a db.artifacts × IsDeckOf plan db a))
  pub job : GenerationJob
  pub made : IsJobFor call plan kind key db db' job
  pub shown : snapshot db' job ≡ ok view

approved_cases :
    (config : Settings) (plan : SlidePlan)
    → require_approved config plan ≡ ok tt
    → (prototype_review_pass config ≡ true)
      ⊎ ((plan.status ≡ PlanStatus.approved) × (plan.approved_version ≡ some plan.version))
unfolding require_approved
approved_cases config plan h = elim (Bool-cases (prototype_review_pass config)) [
  | inl waived ↦ inl waived
  | inr strict ↦ inr (
    ground (arith, ==_iff plan.status PlanStatus.approved),
    (==_iff plan.approved_version (some plan.version)).0 (ground arith),
  )
]

any-Memᴰ {ℓ} :
    {A : Type ℓ} (p : A → Bool) (xs : List A) → any p xs ≡ true → (x : A) × Memᴰ x xs × (p x ≡ true)
any-Memᴰ p [] h = cc
any-Memᴰ p (x ∷ xs) h = elim (Bool-cases (p x)) [
  | inl hit ↦ (x, Memᴰ.head refl, hit)
  | inr miss ↦ let (y, there, hit) = any-Memᴰ p xs (ground arith) in (y, Memᴰ.tail there, hit)
]

status_cases :
    (s : ApprovalStatus)
    → contains s (ApprovalStatus.reviewed ∷ ApprovalStatus.approved ∷ []) ≡ true
    → (s ≡ ApprovalStatus.reviewed) ⊎ (s ≡ ApprovalStatus.approved)
unfolding approval_status_eq ApprovalStatus-discrete
status_cases ApprovalStatus.draft h = cc
status_cases ApprovalStatus.reviewed h = inl refl
status_cases ApprovalStatus.approved h = inr refl

is_deck_lem : (t : ArtifactType) → is_deck t ≡ true → t ≡ ArtifactType.pptx
is_deck_lem ArtifactType.pptx h = refl
is_deck_lem ArtifactType.mp4 h = cc

is_reviewed_deck-IsDeckOf :
    (plan : SlidePlan) (db : Db) (a : Artifact)
    → is_reviewed_deck plan db a ≡ true
    → IsDeckOf plan db a
unfolding is_reviewed_for
is_reviewed_deck-IsDeckOf plan db a h = elim (Option-cases a.current_version_id) [
  | inl without ↦ absurd (ground arith)
  | inr (id, current) ↦ elim (Option-cases (find_artifact_version id db)) [
    | inl gone ↦ absurd (ground arith)
    | inr (v, stored) ↦ record {
      of_plan = ground (arith, nat_beq_iff a.plan_id plan.id);
      deck = is_deck_lem a.type (ground arith);
      version_id = id;
      version = v;
      current = current;
      stored = stored;
      reviewed = status_cases v.approval_status (ground arith);
      made_from = (==_iff v.provenance.plan_version (some plan.version)).0 (ground arith);
    }
  ]
]

video_gate :
    (config : Settings) (plan : SlidePlan) (db : Db) (asked : Bool)
    → (if asked then require_reviewed_deck config plan db else ok tt) ≡ ok tt
    → (asked ≡ false)
      ⊎ ((prototype_review_pass config ≡ true)
          ⊎ ((a : Artifact) × Memᴰ a db.artifacts × IsDeckOf plan db a))
unfolding require_reviewed_deck
video_gate config plan db false h = inl refl
video_gate config plan db true h = elim (Bool-cases (prototype_review_pass config)) [
  | inl prototype ↦ inr (inl prototype)
  | inr strict ↦
      let (a, there, hit) = any-Memᴰ (is_reviewed_deck plan db) db.artifacts (ground arith) in
      inr (inr (a, there, is_reviewed_deck-IsDeckOf plan db a hit))
]

-- The plan in the payload that is sent.
payload_names_plan :
    (config : Settings) (kind : Kind) (payload : Payload)
    → ((with_review_mode config kind payload).plan_id ≡ payload.plan_id)
      × ((with_review_mode config kind payload).plan_version ≡ payload.plan_version)
unfolding with_review_mode
payload_names_plan config kind payload = (ground arith, ground arith)

created_for :
    (call : Call) (plan : SlidePlan) (kind : Kind) (key : Option Text) (db : Db) (b : Broker)
    {job : GenerationJob} {db' : Db} {b' : Broker}
    → length (key_of (request_of call plan.project_id kind (plan_payload plan) key)) ≤ 100
    → create_job call.config call.sha256
        (request_of call plan.project_id kind (plan_payload plan) key)
        call.others
        db
        b
      ≡ ok (job, db', b')
    → IsJobFor call plan kind key db db' job
unfolding key_of new_job
created_for call plan kind key db b {job} {db'} {b'} short made =
    let r = request_of call plan.project_id kind (plan_payload plan) key in
    let (stored, same, origin) =
      subst (IsAnswer call.config call.sha256 r call.others db) made
        (create_job-IsAnswer call.config call.sha256 r call.others db b short) in
    let (plan_id, plan_version) = payload_names_plan call.config kind (plan_payload plan) in
    record {
      payload = with_review_mode call.config kind (plan_payload plan);
      names_plan = plan_id;
      names_version = plan_version;
      same_work = same;
      stored = stored;
      origin = elim origin [
        | inl new ↦ inl (rw new refl, rw new refl, rw new refl)
        | inr before ↦ inr before
      ];
    }

-- A granted request for pictures, a deck or a video, under a key of at most 100 characters, has passed every
-- gate: the plan is approved in its present version, or the settings waive reviews; its contents are valid and
-- each reference of its slides names a chunk that supports it; for a video, some deck of the plan has been
-- reviewed in its current version and was made from the plan's present version, or the settings waive reviews.
-- What is shown is a job that the tables hold under the request's key, for work on the plan in that version: a
-- new queued job of the kind, or one that stood there before.
pub generation-IsGeneration :
    (call : Call) (plan : SlidePlan) (kind : Kind) (key : Option Text) (db : Db) (b : Broker)
    {view : Snapshot} {db' : Db} {b' : Broker}
    → length (key_of (request_of call plan.project_id kind (plan_payload plan) key)) ≤ 100
    → generation call plan kind key db b ≡ ok (view, db', b')
    → IsGeneration call plan kind key db view db'
unfolding generation
generation-IsGeneration call plan kind key db b {view} {db'} {b'} short h =
    elim (Result-cases (require_approved call.config plan)) [
      | inl (e, refused) ↦ absurd (ground arith)
      | inr (_, approved) ↦ elim (Result-cases (validate_plan db plan)) [
        | inl (e, refused) ↦ absurd (ground arith)
        | inr (slides, checked) ↦
            elim (Result-cases
              (if is_video kind then require_reviewed_deck call.config plan db else ok tt)) [
                | inl (e, refused) ↦ absurd (ground arith)
                | inr (_, reviewed) ↦
                    let (valid, grounded) = validate_plan-eq-ok db plan checked in
                    let (job, made, shown) =
                      submit-eq-ok call plan.project_id kind (plan_payload plan) key db b
                        {view = view} {db' = db'} {b' = b'} (ground arith) in
                    record {
                      approved = approved_cases call.config plan approved;
                      valid = valid;
                      grounded = grounded;
                      reviewed = video_gate call.config plan db (is_video kind) reviewed;
                      job = job;
                      made = created_for call plan kind key db b short made;
                      shown = shown;
                    }
              ]
      ]
    ]
