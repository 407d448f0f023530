-- ===== src/Artifacts/Persist.antt =====
-- `template_for` and `persist_artifact` of apps/api/nps/ppt.py, and `plan_theme` of themes.py: the rows that
-- the last step of a deck or a video leaves.
pub mod Current
pub mod Written
use capstone_nps.Base.{
  ℕ, none, some, Option, List, Bool, ◌∷◌, if◌then◌else◌, ◌++◌, [], ◌==◌, max, ◌+◌, false, nat_eq,
  not,
}
use capstone_nps.Base.Errors.{◌>>=◌, ◌>>◌, Result, ok, raise, template_not_found}
use capstone_nps.Models.{
  find_artifact, QaStatus, Artifact, ArtifactVersion, ThemeConfig, GenerationJob, Storyboard, Db,
  Provenance, SlidePlan, Template, ArtifactType, ApprovalStatus, Detail,
}
use capstone_nps.Auth.Audit.{audit}
use capstone_nps.Auth.Accounts.{Accounts}
use capstone_nps.Config.{ReviewMode}
use capstone_nps.Base.Words.{Text, text}
use capstone_nps.Themes.{scoped_template, visible_templates, is_editorial}
use capstone_nps.Base.Rows.{update, first}
use capstone_nps.Pipeline.Steps.{require}
use capstone_nps.Routes.Plans.{find_project}

-- What the dict `provenance` of a plan says. Its keys that a version's own do not replace are `carried`.
pub record PlanProvenance : Type 0 where
  pub theme_id : Option ℕ
  pub theme_policy : Option ThemeConfig
  pub carried : Provenance

-- What `persist_artifact` is given: a report's status, and the keys of `extra`.
pub record Extra : Type 0 where
  pub storyboard : Option Storyboard
  pub video_mock : Option Bool

-- What one call draws from outside: the ids of its new rows, the key of the report that is written, and the
-- digest and the size of the file.
pub record PersistDraw : Type 0 where
  pub artifact_id : ℕ
  pub version_id : ℕ
  pub qa_key : Result Text
  pub file : Result (ℕ × ℕ)

pub record Persisted : Type 0 where
  pub artifact_id : ℕ
  pub version_id : ℕ
  pub qa_status : QaStatus
  pub official_eligible : Bool

abbrev orelse {ℓ} : {A : Type ℓ} → Option A → Option A → Option A
orelse none b = b
orelse (some a) b = some a

-- `read` gives the dict of a serialised provenance.
module _ (accounts : Accounts) (read : Text → PlanProvenance) where
  unfoldable pub plan_theme : SlidePlan → Db → Result (Option Template)
  unfolding scoped_template
  plan_theme plan db = elim (read plan.contents.provenance).theme_id [
    | none ↦ ok none
    | some ident ↦ do
      project ← require (find_project plan.project_id accounts)
      selected ← scoped_template db ident project.org_id
      ok (some selected)
  ]

  -- The template of a plan without a frozen style.
  unfoldable pub legacy_template : SlidePlan → Db → Result Template
  unfolding scoped_template visible_templates
  legacy_template plan db = do
    project ← require (find_project plan.project_id accounts)
    own ← elim project.template_id [
      | none ↦ ok none
      | some ident ↦ do template ← scoped_template db ident project.org_id; ok (some template)
    ]
    let legacy : Option Template =
        first (λ (t : Template). not (is_editorial t)) (visible_templates db project.org_id)
    let chosen : Option Template = elim own [
      | none ↦ legacy
      | some template ↦ if is_editorial template then legacy else some template
    ]
    elim chosen [ none ↦ raise template_not_found 404 | some template ↦ ok template ]

  unfoldable pub template_for : SlidePlan → Db → Result Template
  unfolding plan_theme legacy_template
  template_for plan db = do
    selected ← plan_theme plan db
    elim selected [
      | none ↦ legacy_template plan db
      | some theme ↦ do
        policy ← require (read plan.contents.provenance).theme_policy
        ok (record theme { official_flag = false; storage_key = none; config = policy })
    ]

  unfoldable pub provenance_of :
      GenerationJob → SlidePlan → Template → (qa_key : Text) → Extra → Provenance
  provenance_of job plan template qa_key extra =
      let carried = (read plan.contents.provenance).carried in
      record {
        official_template = some template.official_flag;
        mock = some plan.contents.mock;
        video_mock = orelse extra.video_mock carried.video_mock;
        review_mode = some (elim job.payload.review_mode [ none ↦ ReviewMode.strict | some m ↦ m ]);
        plan_version = some plan.version;
        qa_key = some qa_key;
        storyboard = orelse extra.storyboard carried.storyboard;
      }

-- The artifact that the job names, and a new one where it names none or the row is not there.
unfoldable pub target_artifact :
    PersistDraw → GenerationJob → SlidePlan → ArtifactType → Db → Artifact × Db
unfolding find_artifact
target_artifact draw job plan kind db =
    let fresh : Artifact = record {
      id = draw.artifact_id;
      project_id = plan.project_id;
      plan_id = plan.id;
      type = kind;
      current_version_id = none;
    } in
    let created : Artifact × Db = (fresh, record db { artifacts = db.artifacts ++ fresh ∷ [] }) in
    elim job.payload.artifact_id [
      | none ↦ created
      | some id ↦ elim (find_artifact id db) [ none ↦ created | some found ↦ (found, db) ]
    ]

-- `func.max(version) or 0`
abbrev pub latest_number : (artifact_id : ℕ) → List ArtifactVersion → ℕ
latest_number artifact_id [] = 0
latest_number artifact_id (v ∷ rest) =
    let later = latest_number artifact_id rest in
    if v.artifact_id == artifact_id then max v.version later else later

abbrev pub set_current_version : (version_id : ℕ) → Artifact → Artifact
set_current_version version_id a = record a { current_version_id = some version_id }

-- The insertion of the version, and the write to the artifact.
unfoldable pub add_artifact_version : ArtifactVersion → Db → Db
add_artifact_version version db = record db {
  artifact_versions = db.artifact_versions ++ version ∷ [];
  artifacts =
      update (λ (a : Artifact). a.id == version.artifact_id) (set_current_version version.id)
        db.artifacts;
}

unfoldable pub persist_artifact :
    Accounts
    → (read : Text → PlanProvenance) → PersistDraw
    → GenerationJob
    → SlidePlan
    → ArtifactType
    → (key : Text) → (qa : QaStatus) → Extra
    → Db
    → Result (Persisted × Db)
unfolding template_for provenance_of target_artifact add_artifact_version audit
persist_artifact accounts read draw job plan kind key qa extra db = do
  template ← template_for accounts read plan db
  let target = target_artifact draw job plan kind db
  let number = latest_number target.0.id target.1.artifact_versions + 1
  qa_key ← draw.qa_key
  file ← draw.file
  let version : ArtifactVersion = record {
    id = draw.version_id;
    artifact_id = target.0.id;
    version = number;
    storage_key = key;
    sha256 = file.0;
    size = file.1;
    job_id = job.id;
    qa_status = qa;
    approval_status = ApprovalStatus.draft;
    provenance = provenance_of accounts read job plan template qa_key extra;
  }
  ok (
    record {
      artifact_id = target.0.id;
      version_id = version.id;
      qa_status = qa;
      official_eligible = false;
    },
    audit job.requested_by (text "ARTIFACT_GENERATE") target.0.id target.0.project_id
        ((text "version", Detail.number number) ∷ []) (add_artifact_version version target.1),
  )
