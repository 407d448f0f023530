-- ===== src/Artifacts/Reviews/Checked.antt =====
-- Reviewed and approved versions of artifacts have passed their checks.
use capstone_nps.Base.{
  ℕ, some, Bool, ◌≡◌, ◌≢◌, true, refl, none, Option-cases, subst, inl, sym, inr, Bool-cases, ◌==◌,
  nat_beq_iff, ◌∙◌, nat_eq,
}
use capstone_nps.Models.{
  Decision, Db, Artifact, ArtifactVersion, find_artifact_version, ApprovalStatus,
}
use capstone_nps.Plans.Review.{ReviewInput, approves}
use capstone_nps.Artifacts.{ArtifactView, is_pass}
use capstone_nps.Artifacts.Reviews.{status_of, review, write_status}
use capstone_nps.Base.Errors.{ok, err, other}
use capstone_nps.Routes.Plans.{current_of}
use capstone_nps.Artifacts.Reviews.Gate.{review-IsReviewed, current_found}

-- No version but a draft that has not passed, as far as the table can be read.
abbrev pub IsChecked : Db → Type 0
IsChecked db =
    (k : ℕ) (v : ArtifactVersion)
    → find_artifact_version k db ≡ some v
    → v.approval_status ≢ ApprovalStatus.draft
    → is_pass v.qa_status ≡ true

status_of-draft :
    (decision : Decision) (approval : Bool)
    → status_of decision approval ≢ ApprovalStatus.draft
    → approves decision ≡ true
status_of-draft Decision.approve approval h = refl
status_of-draft Decision.reject approval h = absurd (h refl)
status_of-draft Decision.request_change approval h = absurd (h refl)

no_version_raises :
    (user : ℕ) (artifact : Artifact) (input : ReviewInput) (approval : Bool) (db : Db)
    → current_of artifact db ≡ none
    → review user artifact input approval db ≡ err other
unfolding review
no_version_raises user artifact input approval db h = rw (review, h) refl

-- The version that the review has written.
written_passed :
    (decision : Decision) (approval : Bool) (version v : ArtifactVersion)
    → (approves decision ≡ true → is_pass version.qa_status ≡ true)
    → write_status (status_of decision approval) version ≡ v
    → v.approval_status ≢ ApprovalStatus.draft
    → is_pass v.qa_status ≡ true
written_passed decision approval version v passed it status =
    subst (λ (w : ArtifactVersion). is_pass w.qa_status ≡ true) it
      (passed (
        status_of-draft decision approval (
          subst (λ (w : ArtifactVersion). w.approval_status ≢ ApprovalStatus.draft) (sym it)
            status)))

-- Reviews keep it: whoever reviews or approves which artifact, a version that is REVIEWED or APPROVED
-- afterwards has passed its checks, if that was so before.
pub review-IsChecked :
    (user : ℕ) (artifact : Artifact) (input : ReviewInput) (approval : Bool) (db : Db)
    {view : ArtifactView} {db' : Db}
    → IsChecked db
    → review user artifact input approval db ≡ ok (view, db')
    → IsChecked db'
review-IsChecked user artifact input approval db {view} {db'} checked h k v found status =
    elim (Option-cases (current_of artifact db)) [
      | inl without ↦ let raised = no_version_raises user artifact input approval db without in cc
      | inr (version, there) ↦
          let done =
            review-IsReviewed user artifact input approval db version {view = view} there h in
          elim (Bool-cases (k == version.id)) [
            | inl same ↦
                let (id, _, read, own) = current_found artifact db version there in
                let it : find_artifact_version k db ≡ some version =
                  subst (λ n. find_artifact_version n db ≡ some version)
                    (sym ((nat_beq_iff k version.id).0 same ∙ own)) read in
                let written = done.written k in
                written_passed input.decision approval version v done.passed
                  (cc (rw (same, it) at written)) status
            | inr differ ↦ checked k v (sym (done.written k ∙ rw differ refl) ∙ found) status
          ]
    ]
