-- ===== src/Artifacts.antt =====
-- apps/api/nps/artifacts.py: what the API shows of artifacts, their reviews and their regeneration.
pub mod Persist
pub mod Reviews
use mathlib.Core.Option
use capstone_nps.Base.{
  ℕ, none, some, Option, List, map, ◌∷◌, Bool, not, if◌then◌else◌, ◌&&◌, [], true, contains, false,
  leb, ◌==◌, nat_eq,
}
use capstone_nps.Base.Errors.{◌>>=◌, ◌>>◌, Result, ok, raise, err, other, auth_forbidden, raise_if}
use capstone_nps.Models.{
  Provenance, Scene, Storyboard, ArtifactVersion, QaStatus, Db, ApprovalStatus, Artifact,
  approval_status_eq, find_artifact, find_artifact_version, Detail,
}
use capstone_nps.Auth.Scope.{authorize_project}
use capstone_nps.Base.Words.{Text, text, text_eq}
use capstone_nps.Config.{review_mode_eq, ReviewMode}
use capstone_nps.Routes.{scoped, Call}
use capstone_nps.Auth.Audit.{audit}
use capstone_nps.Base.Rows.{select}
use capstone_nps.Contracts.{Role}

-- `version.provenance.get(name, default)`
abbrev get {ℓ} : {A : Type ℓ} → Option A → A → A
get none default = default
get (some a) default = a

abbrev pub is_pass : QaStatus → Bool
is_pass QaStatus.pass = true
is_pass QaStatus.fail = false

unfoldable pub eligible : ArtifactVersion → Bool
unfolding review_mode_eq approval_status_eq
eligible version =
    is_pass version.qa_status
    && version.approval_status == ApprovalStatus.approved
    && get version.provenance.official_template false
    && not (get version.provenance.mock true)
    && not (get version.provenance.video_mock false)
    && not (get version.provenance.review_mode ReviewMode.strict == ReviewMode.prototype_pass)

-- `k not in {"storage_key", "preview_key"}`
abbrev pub is_shown : Text → Bool
is_shown k = not (contains k (text "storage_key" ∷ text "preview_key" ∷ []))

abbrev pub shown_scene : Scene → Scene
shown_scene scene = select (λ (k, _). is_shown k) scene

abbrev pub shown_storyboard : Storyboard → Storyboard
shown_storyboard storyboard = record storyboard { scenes = map shown_scene storyboard.scenes }

unfoldable pub shown_provenance : Provenance → Provenance
shown_provenance provenance = record provenance {
  qa_key = none;
  storyboard = Option.map shown_storyboard provenance.storyboard;
}

-- The columns that `serialize` shows of a version, and its eligibility.
pub record ArtifactView : Type 0 where
  pub id : ℕ
  pub artifact_id : ℕ
  pub version : ℕ
  pub sha256 : ℕ
  pub size : ℕ
  pub job_id : ℕ
  pub qa_status : QaStatus
  pub approval_status : ApprovalStatus
  pub provenance : Provenance
  pub official_eligible : Bool

unfoldable pub version_public : ArtifactVersion → ArtifactView
unfolding eligible shown_provenance
version_public version = record {
  id = version.id;
  artifact_id = version.artifact_id;
  version = version.version;
  sha256 = version.sha256;
  size = version.size;
  job_id = version.job_id;
  qa_status = version.qa_status;
  approval_status = version.approval_status;
  provenance = shown_provenance version.provenance;
  official_eligible = eligible version;
}

-- The loop of `artifact_list`: artifacts without a current version are left out, and a current version
-- without its row raises.
unfoldable pub list_artifacts : List Artifact → Db → Result (List (Artifact × ArtifactView))
unfolding version_public
list_artifacts [] db = ok []
list_artifacts (a ∷ rest) db =
    let later = list_artifacts rest db in
    elim a.current_version_id [
      | none ↦ later
      | some id ↦ elim (find_artifact_version id db) [
        | none ↦ err other
        | some v ↦ do views ← later; ok ((a, version_public v) ∷ views)
      ]
    ]

unfoldable pub artifact_list :
    Call → (project_id : ℕ) → Db → Result (List (Artifact × ArtifactView))
unfolding authorize_project list_artifacts
artifact_list call project_id db = do
  project ← authorize_project call.accounts call.user project_id [] false
  list_artifacts (select (λ (a : Artifact). a.project_id == project_id) db.artifacts) db

abbrev pub scoped_artifact : Call → (artifact_id : ℕ) → List Role → Db → Result Artifact
scoped_artifact call artifact_id roles db =
    scoped call (λ (a : Artifact). a.project_id) (find_artifact artifact_id db) roles false

-- `order_by(ArtifactVersion.version.desc())`; the versions of an artifact differ.
abbrev place_latest : ArtifactVersion → List ArtifactVersion → List ArtifactVersion
place_latest v [] = v ∷ []
place_latest v (w ∷ rest) =
    let later = place_latest v rest in if leb w.version v.version then v ∷ w ∷ rest else w ∷ later

abbrev latest_first : List ArtifactVersion → List ArtifactVersion
latest_first [] = []
latest_first (v ∷ rest) = place_latest v (latest_first rest)

unfoldable pub detail : Call → (artifact_id : ℕ) → Db → Result (Artifact × List ArtifactView)
unfolding scoped version_public
detail call artifact_id db = do
  artifact ← scoped_artifact call artifact_id [] db
  ok (
    artifact,
    map version_public (
        latest_first
          (select (λ (v : ArtifactVersion). v.artifact_id == artifact.id) db.artifact_versions)),
  )

-- What the answer of a download is made of.
pub record FileResponse : Type 0 where
  pub storage_key : Text
  pub version : ℕ
  pub artifact_state : ApprovalStatus
  pub official_eligible : Bool

unfoldable pub download :
    Call → (artifact_id : ℕ) → (version_id : Option ℕ) → Db → Result (FileResponse × Db)
unfolding scoped eligible audit
download call artifact_id version_id db = do
  artifact ← scoped_artifact call artifact_id [] db
  let wanted : Option ℕ = elim version_id [ none ↦ artifact.current_version_id | some id ↦ some id ]
  let found : Option ArtifactVersion = elim wanted [
    | none ↦ none
    | some id ↦ find_artifact_version id db
  ]
  elim found [
    | none ↦ raise auth_forbidden 403
    | some version ↦ do
      raise_if (not (version.artifact_id == artifact.id)) auth_forbidden 403
      ok (
        record {
          storage_key = version.storage_key;
          version = version.version;
          artifact_state = version.approval_status;
          official_eligible = eligible version;
        },
        audit call.user.id (text "ARTIFACT_DOWNLOAD") artifact.id artifact.project_id
            ((text "version", Detail.number version.version) ∷ []) db,
      )
  ]
