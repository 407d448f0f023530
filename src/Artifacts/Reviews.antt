-- ===== src/Artifacts/Reviews.antt =====
-- `review`, its two routes, and `regenerate` of artifacts.py.
pub mod Gate
pub mod Checked
use capstone_nps.Base.{
  ℕ, none, some, Bool, ◌++◌, true, ◌==◌, false, Option, nat_eq, ◌∷◌, [], if◌then◌else◌, ◌&&◌, not,
  contains, map,
}
use capstone_nps.Base.Errors.{
  ◌>>=◌, ◌>>◌, Result, err, other, raise_if, version_conflict, ok, qa_failed, slide_not_found,
}
use capstone_nps.Artifacts.{version_public, ArtifactView, scoped_artifact, is_pass}
use capstone_nps.Models.{
  ApprovalStatus, ArtifactVersion, Artifact, SlidePlan, Decision, ArtifactType, Payload, Kind, Db,
  Target, find_plan, Detail,
}
use capstone_nps.Routes.{scoped, Call, submit}
use capstone_nps.Plans.Review.{ReviewInput, approves}
use capstone_nps.Plans.Gate.{require_approved}
use capstone_nps.Auth.Audit.{audit}
use capstone_nps.Routes.Plans.{plan_payload, require_reviewed_deck, current_of, is_deck}
use capstone_nps.Base.Rows.{update}
use capstone_nps.Base.Words.{Text, text}
use capstone_nps.Contracts.{Role, PlannedSlide}
use capstone_nps.Jobs.Broker.{Broker}
use capstone_nps.Jobs.Snapshot.{Snapshot}

abbrev pub status_of : Decision → (approval : Bool) → ApprovalStatus
status_of Decision.approve true = ApprovalStatus.approved
status_of Decision.approve false = ApprovalStatus.reviewed
status_of _ approval = ApprovalStatus.draft

abbrev pub write_status : ApprovalStatus → ArtifactVersion → ArtifactVersion
write_status status v = record v { approval_status = status }

-- The rows of the review, and of the approval when there is one.
unfoldable pub add_artifact_review :
    (user : ℕ) → Artifact → ArtifactVersion → ReviewInput → (approval : Bool) → Db → Db
add_artifact_review user artifact version input approval db = record db {
  reviews =
      db.reviews
      ++ record {
        project_id = artifact.project_id;
        target_type = Target.artifact;
        target_id = version.id;
        version = version.version;
        reviewer_id = user;
        decision = input.decision;
        comment = input.comment;
      }
        ∷ [];
  approvals =
      if approves input.decision && approval
      then db.approvals
        ++ record {
          project_id = artifact.project_id;
          target_type = Target.artifact;
          target_id = version.id;
          version = version.version;
          approver_id = user;
        }
          ∷ []
      else db.approvals;
}

abbrev pub update_artifact_version : ℕ → (ArtifactVersion → ArtifactVersion) → Db → Db
update_artifact_version id f db = record db {
  artifact_versions = update (λ (v : ArtifactVersion). v.id == id) f db.artifact_versions;
}

-- An artifact without a current version raises.
unfoldable pub review :
    (user : ℕ) → Artifact → ReviewInput → (approval : Bool) → Db → Result (ArtifactView × Db)
unfolding add_artifact_review version_public audit
review user artifact input approval db = elim (current_of artifact db) [
  | none ↦ err other
  | some version ↦ do
    raise_if (not (input.version == version.version)) version_conflict 409
    raise_if (approves input.decision && not (is_pass version.qa_status)) qa_failed 409
    let written = write_status (status_of input.decision approval) version
    ok (
      version_public written,
      audit user (if approval then text "APPROVE" else text "REVIEW") version.id artifact.project_id
          ((text "version", Detail.number version.version) ∷ [])
          (add_artifact_review user artifact version input approval (
            update_artifact_version version.id (write_status (status_of input.decision approval))
              db)),
    )
]

unfoldable pub review_artifact :
    Call → (artifact_id : ℕ) → ReviewInput → (approval : Bool) → Db → Result (ArtifactView × Db)
unfolding scoped review
review_artifact call artifact_id input approval db = do
  artifact ← scoped_artifact call artifact_id (Role.reviewer ∷ []) db
  review call.user.id artifact input approval db

abbrev pub approve_artifact :
    Call → (artifact_id : ℕ) → ReviewInput → Db → Result (ArtifactView × Db)
approve_artifact call artifact_id input db = review_artifact call artifact_id input true db

abbrev pub kind_of : ArtifactType → Kind
kind_of ArtifactType.pptx = Kind.ppt
kind_of ArtifactType.mp4 = Kind.video

abbrev pub regenerate_payload : SlidePlan → Artifact → (slide_id : ℕ) → Payload
regenerate_payload plan artifact slide_id = record (plan_payload plan) {
  artifact_id = some artifact.id;
  slide_id = some slide_id;
}

-- The plan of an artifact without its row raises.
unfoldable pub regenerate :
    Call
    → (artifact_id slide_id : ℕ) → (key : Option Text) → Db
    → Broker
    → Result (Snapshot × Db × Broker)
unfolding scoped require_approved require_reviewed_deck submit
regenerate call artifact_id slide_id key db b = do
  artifact ← scoped_artifact call artifact_id [] db
  elim (find_plan artifact.plan_id db) [
    | none ↦ err other
    | some plan ↦ do
      require_approved call.config plan
      if is_deck artifact.type then ok tt else require_reviewed_deck call.config plan db
      raise_if
          (not (contains slide_id (map (λ (s : PlannedSlide). s.slide_id) plan.contents.slides)))
          slide_not_found 404
      submit call artifact.project_id (kind_of artifact.type)
          (regenerate_payload plan artifact slide_id) key db b
  ]
