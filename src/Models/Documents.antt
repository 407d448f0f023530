-- ===== src/Models/Documents.antt =====
-- apps/api/nps/models.py: documents, parse results and artifacts.
use capstone_nps.Base.{Eq, ℕ, Bool, Option, List, decided_eq}
use capstone_nps.Base.Words.{Text}
use capstone_nps.Config.{ReviewMode}
use capstone_nps.Contracts.{NormalizedDocument}

-- The keys of `MIMES` in upload.py.
pub data Extension : Type 0 where
  pdf docx xlsx hwpx hwp pptx : Extension

pub data ScanStatus : Type 0 where
  clean unclean : ScanStatus

pub data ScanMode : Type 0 where
  mock clamav : ScanMode

pub record Document : Type 0 where
  pub id : ℕ
  pub project_id : ℕ
  pub title : Text
  pub current_version_id : Option ℕ
  pub deleted : Bool

-- A digest is a number.
pub record DocumentVersion : Type 0 where
  pub id : ℕ
  pub document_id : ℕ
  pub version : ℕ
  pub sha256 : ℕ
  pub size : ℕ
  pub mime : Text
  pub extension : Extension
  pub storage_key : Text
  pub scan_status : ScanStatus
  pub scan_mode : ScanMode

-- `contents` is the column `data`.
pub record ParseResult : Type 0 where
  pub id : ℕ
  pub document_version_id : ℕ
  pub contents : NormalizedDocument
  pub storage_key : Text

pub data QaStatus : Type 0 where
  pass fail : QaStatus

pub data ArtifactType : Type 0 where
  pptx mp4 : ArtifactType

pub data ApprovalStatus : Type 0 where
  draft reviewed approved : ApprovalStatus

unfoldable pub ApprovalStatus-discrete : Discrete ApprovalStatus
ApprovalStatus-discrete = hlevel

instance unfoldable pub approval_status_eq : Eq ApprovalStatus
unfolding ApprovalStatus-discrete
approval_status_eq = decided_eq ApprovalStatus-discrete

unfoldable pub QaStatus-discrete : Discrete QaStatus
QaStatus-discrete = hlevel

instance unfoldable pub qa_status_eq : Eq QaStatus
unfolding QaStatus-discrete
qa_status_eq = decided_eq QaStatus-discrete

pub record Artifact : Type 0 where
  pub id : ℕ
  pub project_id : ℕ
  pub plan_id : ℕ
  pub type : ArtifactType
  pub current_version_id : Option ℕ

-- The dict of a scene, its values serialised.
abbrev pub Scene : Type 0
Scene = List (Text × Text)

-- `rest` is what the code carries along.
pub record Storyboard : Type 0 where
  pub scenes : List Scene
  pub rest : Text

-- The JSON column `provenance`, by the keys that the modelled code looks up.
pub record Provenance : Type 0 where
  pub official_template : Option Bool
  pub mock : Option Bool
  pub video_mock : Option Bool
  pub review_mode : Option ReviewMode
  pub plan_version : Option ℕ
  pub qa_key : Option Text
  pub storyboard : Option Storyboard

-- `qa_report` is only shown, and is left out.
pub record ArtifactVersion : Type 0 where
  pub id : ℕ
  pub artifact_id : ℕ
  pub version : ℕ
  pub storage_key : Text
  pub sha256 : ℕ
  pub size : ℕ
  pub job_id : ℕ
  pub qa_status : QaStatus
  pub approval_status : ApprovalStatus
  pub provenance : Provenance

-- The JSON column `config` of a template, by the keys that the modelled code looks up.
pub record ThemeConfig : Type 0 where
  pub design_engine : Option Text
  pub source : Option Text
  pub slug : Option Text
  pub tags : List Text
  pub reference_sha256 : Option ℕ

pub record Template : Type 0 where
  pub id : ℕ
  pub created_at : ℕ
  pub org_id : Option ℕ
  pub name : Text
  pub version : Text
  pub config : ThemeConfig
  pub storage_key : Option Text
  pub official_flag : Bool
