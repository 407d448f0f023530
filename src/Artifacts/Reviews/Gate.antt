-- ===== src/Artifacts/Reviews/Gate.antt =====
-- What a review of a deck does to the gate in front of a video.
use mathlib.Core.Option
use capstone_nps.Base.{
  ℕ, some, ◌≡◌, Bool, if◌then◌else◌, true, ◌==◌, List, arith, nat_beq_iff, nat_eq, ◌∷◌, ◌∙◌, [],
  Option-cases, option_eq, sym, inl, refl, inr, ◌&&◌, false,
}
use capstone_nps.Artifacts.Reviews.{
  review, add_artifact_review, update_artifact_version, write_status, status_of,
}
use capstone_nps.Models.{
  Artifact, find_artifact_version, ApprovalStatus, Db, ArtifactVersion, approval_status_eq,
  SlidePlan, ApprovalStatus-discrete, Decision,
}
use capstone_nps.Plans.Review.{ReviewInput, approves}
use capstone_nps.Auth.Audit.{audit}
use capstone_nps.Artifacts.{ArtifactView, is_pass}
use capstone_nps.Routes.Plans.{current_of, is_reviewed_for, is_reviewed_deck, is_deck}
use capstone_nps.Base.Errors.{ok}
use capstone_nps.Base.Rows.{first, update, first_selected}

-- A version is read as it was written last.
pub find_artifact_version-update :
    (k id : ℕ) (status : ApprovalStatus) (db : Db)
    → find_artifact_version k (update_artifact_version id (write_status status) db) ≡ (
        if k == id
        then Option.map (write_status status) (find_artifact_version k db)
        else find_artifact_version k db)
unfolding find_artifact_version
find_artifact_version-update k id status db = rows db.artifact_versions
  where
    rows :
        (vs : List ArtifactVersion)
        → first (λ v. v.id == k) (update (λ v. v.id == id) (write_status status) vs) ≡ (
            if k == id
            then Option.map (write_status status) (first (λ v. v.id == k) vs)
            else first (λ v. v.id == k) vs)
    rows [] = ground arith
    rows (v ∷ vs) = ground (arith, rows vs)

-- The tables that a granted review leaves, and what it asked for.
pub record IsReviewed (user : ℕ) (artifact : Artifact) (input : ReviewInput) (approval : Bool)
    (db : Db) (version : ArtifactVersion) (db' : Db) : Type 0 where
  pub current : input.version ≡ version.version
  pub passed : approves input.decision ≡ true → is_pass version.qa_status ≡ true
  pub written :
      (k : ℕ)
      → find_artifact_version k db' ≡ (
          if k == version.id
          then Option.map
              (write_status (status_of input.decision approval))
              (find_artifact_version k db)
          else find_artifact_version k db)

-- A read of the versions sees that table alone.
find_artifact_version-same :
    (k : ℕ) (db db' : Db)
    → db'.artifact_versions ≡ db.artifact_versions
    → find_artifact_version k db' ≡ find_artifact_version k db
unfolding find_artifact_version
find_artifact_version-same k db db' e = rw e

pub review-IsReviewed :
    (user : ℕ) (artifact : Artifact) (input : ReviewInput) (approval : Bool) (db : Db)
    (version : ArtifactVersion) {view : ArtifactView} {db' : Db}
    → current_of artifact db ≡ some version
    → review user artifact input approval db ≡ ok (view, db')
    → IsReviewed user artifact input approval db version db'
unfolding review add_artifact_review audit
review-IsReviewed user artifact input approval db version {view} {db'} there h = record {
  current = ground (arith, nat_beq_iff input.version version.version);
  passed = λ asked. ground arith;
  written = λ k.
      find_artifact_version-same k
        (update_artifact_version version.id (write_status (status_of input.decision approval)) db)
        db' (ground arith)
      ∙ find_artifact_version-update k version.id (status_of input.decision approval) db;
}

pub current_found :
    (artifact : Artifact) (db : Db) (version : ArtifactVersion)
    → current_of artifact db ≡ some version
    → (id : ℕ) × (artifact.current_version_id ≡ some id)
      × (find_artifact_version id db ≡ some version)
      × (version.id ≡ id)
unfolding find_artifact_version
current_found artifact db version h = elim (Option-cases artifact.current_version_id) [
  | inl without ↦ absurd (ground arith)
  | inr (id, has) ↦
      let there : first (λ (v : ArtifactVersion). v.id == id) db.artifact_versions ≡ some version =
        ground arith in
      (
        id,
        has,
        there,
        (nat_beq_iff version.id id).0 (
            first_selected (λ (v : ArtifactVersion). v.id == id) db.artifact_versions version
              there),
      )
]

-- The current version after the review.
current_of-review :
    (user : ℕ) (artifact : Artifact) (input : ReviewInput) (approval : Bool) (db : Db)
    (version : ArtifactVersion) (db' : Db)
    → current_of artifact db ≡ some version
    → IsReviewed user artifact input approval db version db'
    → current_of artifact db' ≡ some (write_status (status_of input.decision approval) version)
current_of-review user artifact input approval db version db' h done =
    let (id, has, there, same) = current_found artifact db version h in
    rw (has, done.written id, there, (nat_beq_iff id version.id).1 (sym same)) refl

is_reviewed_for-written :
    (plan : SlidePlan) (decision : Decision) (approval : Bool) (version : ArtifactVersion)
    → is_reviewed_for plan (write_status (status_of decision approval) version)
      ≡ (approves decision && version.provenance.plan_version == some plan.version)
unfolding is_reviewed_for approval_status_eq ApprovalStatus-discrete option_eq
is_reviewed_for-written plan Decision.approve true version = refl
is_reviewed_for-written plan Decision.approve false version = refl
is_reviewed_for-written plan Decision.reject approval version = refl
is_reviewed_for-written plan Decision.request_change approval version = refl

-- After a granted review, the artifact opens the gate in front of a plan's videos exactly when it is a deck
-- of that plan, its current version was made from the plan's present version, and the review approved; a
-- review that rejects or asks for a change closes it again for this deck, whatever it was before.
pub review-is_reviewed_deck :
    (user : ℕ) (artifact : Artifact) (input : ReviewInput) (approval : Bool) (plan : SlidePlan)
    (db : Db) (version : ArtifactVersion) {view : ArtifactView} {db' : Db}
    → current_of artifact db ≡ some version
    → review user artifact input approval db ≡ ok (view, db')
    → is_reviewed_deck plan db' artifact ≡ (
        artifact.plan_id == plan.id
        && is_deck artifact.type
        && approves input.decision
        && version.provenance.plan_version == some plan.version)
unfolding option_eq
review-is_reviewed_deck user artifact input approval plan db version {view} {db'} there h =
    rw
      (
        current_of-review user artifact input approval db version db' there
            (review-IsReviewed user artifact input approval db version {view = view} there h),
        is_reviewed_for-written plan input.decision approval version,
      )
      (ground arith)
