-- ===== src/Artifacts/Persist/Written.antt =====
-- What `persist_artifact` writes: one row of a version, and the reference of its artifact.
use capstone_nps.Base.{
  none, some, List, ◌==◌, ◌++◌, ◌∷◌, [], ◌≡◌, arith, Option-cases, nat_beq_iff, inl, inr,
  Bool-cases, nat_eq, refl, ◌+◌,
}
use capstone_nps.Artifacts.Persist.{
  target_artifact, persist_artifact, add_artifact_version, PersistDraw, PlanProvenance, Extra,
  Persisted, set_current_version, latest_number, template_for, provenance_of,
}
use capstone_nps.Models.{
  Artifact, find_artifact, GenerationJob, SlidePlan, ArtifactType, QaStatus, Db, ArtifactVersion,
  ApprovalStatus,
}
use capstone_nps.Base.Rows.{first, update, first_selected}
use capstone_nps.Auth.Audit.{audit}
use capstone_nps.Auth.Accounts.{Accounts}
use capstone_nps.Base.Words.{Text}
use capstone_nps.Base.Errors.{ok, Result-cases}

-- An appended row is found, or one before it with the same id.
appended-found :
    (a : Artifact) (rows : List Artifact)
    → (b : Artifact) × (first (λ (x : Artifact). x.id == a.id) (rows ++ a ∷ []) ≡ some b)
appended-found a [] = (a, ground (arith, nat_beq_iff a.id a.id))
appended-found a (r ∷ rows) = elim (Bool-cases (r.id == a.id)) [
  | inl same ↦ (r, rw same refl)
  | inr differs ↦ let (b, there) = appended-found a rows in (b, rw differs there)
]

-- The row of the artifact is there.
pub target_artifact-found :
    (draw : PersistDraw) (job : GenerationJob) (plan : SlidePlan) (kind : ArtifactType) (db : Db)
    → (a : Artifact) × (find_artifact
          (target_artifact draw job plan kind db).0.id
          (target_artifact draw job plan kind db).1
        ≡ some a)
unfolding target_artifact find_artifact
target_artifact-found draw job plan kind db =
    let made =
      appended-found
        (record {
          id = draw.artifact_id;
          project_id = plan.project_id;
          plan_id = plan.id;
          type = kind;
          current_version_id = none;
        })
        db.artifacts in
    elim (Option-cases job.payload.artifact_id) [
      | inl unnamed ↦ rw unnamed made
      | inr (id, named) ↦ elim (Option-cases (find_artifact id db)) [
        | inl gone ↦ rw (target_artifact, named, gone) made
        | inr (found, there) ↦
            let itself : found.id ≡ id =
              (nat_beq_iff found.id id).0
                (first_selected (λ (x : Artifact). x.id == id) db.artifacts found there) in
            rw (target_artifact, named, there, itself) (found, there)
      ]
    ]

-- What is written: one row of a version, and the artifact's reference to it.
pub persist_artifact-written :
    (accounts : Accounts) (read : Text → PlanProvenance) (draw : PersistDraw) (job : GenerationJob)
    (plan : SlidePlan) (kind : ArtifactType) (key : Text) (qa : QaStatus) (extra : Extra) (db : Db)
    {out : Persisted} {db' : Db}
    → persist_artifact accounts read draw job plan kind key qa extra db ≡ ok (out, db')
    → let target = target_artifact draw job plan kind db in
      (v : ArtifactVersion) × (db'.artifact_versions ≡ target.1.artifact_versions ++ v ∷ [])
      × (db'.artifacts
          ≡ update
              (λ (a : Artifact). a.id == v.artifact_id)
              (set_current_version v.id)
              target.1.artifacts)
      × (v.version ≡ latest_number v.artifact_id target.1.artifact_versions + 1)
      × (v.artifact_id ≡ target.0.id)
      × (v.id ≡ draw.version_id)
      × (v.qa_status ≡ qa)
      × (v.approval_status ≡ ApprovalStatus.draft)
      × (out.artifact_id ≡ target.0.id)
      × (out.version_id ≡ draw.version_id)
unfolding persist_artifact add_artifact_version audit
persist_artifact-written accounts read draw job plan kind key qa extra db {out} {db'} done =
    elim (Result-cases (template_for accounts read plan db)) [
      | inl (e, refused) ↦ absurd (ground arith)
      | inr (template, chosen) ↦ elim (Result-cases draw.qa_key) [
        | inl (e, unwritten) ↦ absurd (ground arith)
        | inr (qa_key, written_key) ↦ elim (Result-cases draw.file) [
          | inl (e, unread) ↦ absurd (ground arith)
          | inr (file, read_it) ↦
              let target = target_artifact draw job plan kind db in
              (
                record {
                  id = draw.version_id;
                  artifact_id = target.0.id;
                  version = latest_number target.0.id target.1.artifact_versions + 1;
                  storage_key = key;
                  sha256 = file.0;
                  size = file.1;
                  job_id = job.id;
                  qa_status = qa;
                  approval_status = ApprovalStatus.draft;
                  provenance = provenance_of accounts read job plan template qa_key extra;
                },
                ground arith,
                ground arith,
                refl,
                refl,
                refl,
                refl,
                refl,
                ground arith,
                ground arith,
              )
        ]
      ]
    ]
