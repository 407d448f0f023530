-- ===== src/Tests/Artifacts.antt =====
-- Reviews of artifacts, generations and the choice of themes at concrete inputs.
use capstone_nps.Tests.Plans.{plan}
use capstone_nps.Base.{
  option_eq, none, some, Bool-cases, true, ◌≡◌, ◌==◌, ◌∷◌, [], false, inl, refl, inr, nat_eq, arith,
  ap, sym,
}
use capstone_nps.Models.{
  Db, find_artifact_version, Artifact, ArtifactVersion, Provenance, Decision, approval_status_eq,
  ArtifactType, ApprovalStatus-discrete, QaStatus, ApprovalStatus,
}
use capstone_nps.Artifacts.Reviews.{review}
use capstone_nps.Plans.Review.{ReviewInput}
use capstone_nps.Routes.Plans.{is_reviewed_deck, current_of}
use capstone_nps.Artifacts.Reviews.Checked.{IsChecked, review-IsChecked}
use capstone_nps.Artifacts.{ArtifactView, version_public}
use capstone_nps.Tests.Samples.{from_ok, empty_db}
use capstone_nps.Base.Words.{text}
use capstone_nps.Base.Errors.{ok}
use capstone_nps.Config.{review_mode_eq, ReviewMode-discrete}
use capstone_nps.Artifacts.Reviews.Gate.{review-is_reviewed_deck}

abbrev pub provenance : Provenance
provenance = record {
  official_template = some true;
  mock = some false;
  video_mock = none;
  review_mode = none;
  plan_version = some 3;
  qa_key = some (text "qa/1.json");
  storyboard = none;
}

abbrev pub version : ArtifactVersion
version = record {
  id = 31;
  artifact_id = 30;
  version = 2;
  storage_key = text "artifacts/a.pptx";
  sha256 = 9;
  size = 100;
  job_id = 1;
  qa_status = QaStatus.pass;
  approval_status = ApprovalStatus.draft;
  provenance = provenance;
}

abbrev pub deck : Artifact
deck = record {
  id = 30;
  project_id = 7;
  plan_id = 20;
  type = ArtifactType.pptx;
  current_version_id = some 31;
}

abbrev pub deck_db : Db
deck_db = record empty_db { artifacts = deck ∷ []; artifact_versions = version ∷ [] }

abbrev approval_input : ReviewInput
approval_input = record { decision = Decision.approve; comment = []; version = 2 }

abbrev reviewed : ArtifactView × Db
reviewed = from_ok (version_public version, deck_db) (review 3 deck approval_input true deck_db)

deck-current : current_of deck deck_db ≡ some version
unfolding find_artifact_version
deck-current = refl

reviewed_lem : review 3 deck approval_input true deck_db ≡ ok reviewed
unfolding review find_artifact_version
reviewed_lem = refl

review-is_reviewed_deck_example : is_reviewed_deck plan reviewed.1 deck ≡ true
unfolding option_eq
review-is_reviewed_deck_example =
    review-is_reviewed_deck 3 deck approval_input true plan deck_db version deck-current
      reviewed_lem

deck_db-IsChecked : IsChecked deck_db
unfolding find_artifact_version
deck_db-IsChecked k v found status = elim (Bool-cases (31 == k)) [
  | inl same ↦ absurd (
      status
        let it : version ≡ v = ground arith in
          ap (λ (w : ArtifactVersion). w.approval_status) (sym it))
  | inr differ ↦ absurd (ground arith)
]

review-IsChecked_example : IsChecked reviewed.1
review-IsChecked_example =
    review-IsChecked 3 deck approval_input true deck_db deck_db-IsChecked reviewed_lem

eligible_run : reviewed.0.official_eligible ≡ true
unfolding review find_artifact_version approval_status_eq ApprovalStatus-discrete review_mode_eq
    ReviewMode-discrete
eligible_run = refl
