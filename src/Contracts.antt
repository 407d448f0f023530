-- ===== src/Contracts.antt =====
-- apps/api/nps/contracts.py: the data that the parser, the planner and the API exchange. A UUID is
-- a number here: the code only compares UUIDs. An `int` that cannot be negative is a ℕ.
pub mod Equality
pub mod Validation
use capstone_nps.Base.{ℕ, Bool, Option, List}
use capstone_nps.Base.Words.{Text}

pub data Role : Type 0 where
  user reviewer org_admin system_admin : Role

pub data JobState : Type 0 where
  queued running waiting_review succeeded failed cancelled retrying : JobState

pub record SourceLocation : Type 0 where
  pub page : Option ℕ
  pub section : Text
  pub paragraph : Option ℕ
  pub table : Option ℕ
  pub sheet : Option Text

pub data NodeType : Type 0 where
  heading paragraph table image : NodeType

-- `merges` is carried along and never read.
pub record Node : Type 0 where
  pub node_id : ℕ
  pub type : NodeType
  pub text : Text
  pub source_location : SourceLocation
  pub cells : List (List Text)
  pub rows : ℕ
  pub cols : ℕ
  pub header : Bool
  pub image_key : Option Text
  pub image_sha256 : Option Text

pub record Section : Type 0 where
  pub section_id : Text
  pub heading : Text
  pub nodes : List Node

-- `metadata` is carried along, and `schema_version` has one value.
pub record NormalizedDocument : Type 0 where
  pub sections : List Section
  pub parser_version : Text
  pub warnings : List Text

pub record Evidence : Type 0 where
  pub document_version_id : ℕ
  pub chunk_id : ℕ
  pub page : Option ℕ
  pub section : Text
  pub node_ids : List ℕ

pub record SemanticChunk : Type 0 where
  pub chunk_id : ℕ
  pub document_id : ℕ
  pub version_id : ℕ
  pub section_id : Text
  pub text : Text
  pub token_count : ℕ
  pub source_location : SourceLocation
  pub previous_chunk_id : Option ℕ
  pub next_chunk_id : Option ℕ
  pub table_refs : List ℕ
  pub image_refs : List ℕ
  pub security_class : Text

pub data VisualMode : Type 0 where
  preserve generate no_visual controlnet ip_adapter : VisualMode

pub data ControlNet : Type 0 where
  canny depth : ControlNet

pub record VisualPlan : Type 0 where
  pub mode : VisualMode
  pub workflow : Text
  pub controlnet : Option ControlNet
  pub ip_adapter : Bool
  pub seed : ℕ
  pub prompt : Text

pub data BlockType : Type 0 where
  text table chart image : BlockType

pub record ContentBlock : Type 0 where
  pub type : BlockType
  pub text : Text
  pub cells : List (List Text)
  pub source_refs : List Evidence

pub data LayoutType : Type 0 where
  title_content table chart image cover key_points process comparison : LayoutType

pub record PlannedSlide : Type 0 where
  pub slide_id : ℕ
  pub version : ℕ
  pub order : ℕ
  pub layout_type : LayoutType
  pub title : Text
  pub content_blocks : List ContentBlock
  pub source_refs : List Evidence
  pub visual_plan : VisualPlan

-- `provenance` is a dict that the plan only carries along; it stands as its serialised text. The fields
-- `schema_version` and `audience` have one value each and are left out.
pub record SlidePlanContract : Type 0 where
  pub plan_id : ℕ
  pub document_versions : List ℕ
  pub title : Text
  pub slides : List PlannedSlide
  pub mock : Bool
  pub provenance : Text
