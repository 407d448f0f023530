-- ===== src/Tests/Plans.antt =====
-- Plans, their edits and reviews at concrete inputs.

use capstone_nps.Base.Words.{text}
use capstone_nps.Contracts.{
  VisualPlan, SlidePlanContract, ContentBlock, SourceLocation, Evidence, SemanticChunk,
  PlannedSlide, BlockType, LayoutType, VisualMode,
}
use capstone_nps.Models.{
  find_plan, Db, SlidePlan, PlanStatus, Decision, update_plan_row, GenerationJob, Kind, Step,
}
use capstone_nps.Plans.Review.{ReviewInput, review_plan}
use capstone_nps.Chunking.Evidence.{validate_evidence}
use capstone_nps.Plans.Edit.{
  update_plan, validate_plan, save_slides, next_version, slide_row, get_slide, of_versions,
  is_version,
}
use capstone_nps.Chunking.Evidence.Grounded.{ChunksUnique, SlideGrounded, validate_evidence_iff}
use capstone_nps.Base.{some, none, ◌∷◌, ◌≡◌, [], false, refl, ◌↔◌, All, true, arith, if◌then◌else◌}
use capstone_nps.Tests.Samples.{from_ok, db, job, config, no_payload}
use capstone_nps.Base.Errors.{ok, raise, plan_version_changed, plan_review_required}
use capstone_nps.Pipeline.{recheck_plan}
use capstone_nps.Plans.Gate.{require_approved, gate}
use capstone_nps.Contracts.Validation.{is_valid}
use capstone_nps.Plans.Versions.{IsNewest, NoReturn}
use capstone_nps.Plans.History.{IsRecorded}
use capstone_nps.Plans.Recorded.{update_plan-history}
use capstone_nps.Auth.Audit.{audit}
use capstone_nps.Base.Rows.{first}
use capstone_nps.Plans.Decisions.{review_plan-gate, review_plan-recheck, update_plan-recheck}
use capstone_nps.Plans.Approval.{update_plan-reopens}
use capstone_nps.Config.{prototype_review_pass}

abbrev location : SourceLocation
location = record {
  page = some 1;
  section = text "s";
  paragraph = none;
  table = none;
  sheet = none;
}

abbrev chunk : SemanticChunk
chunk = record {
  chunk_id = 70;
  document_id = 5;
  version_id = 6;
  section_id = text "s";
  text = text "words";
  token_count = 1;
  source_location = location;
  previous_chunk_id = none;
  next_chunk_id = none;
  table_refs = [];
  image_refs = [];
  security_class = text "c";
}

abbrev reference : Evidence
reference = record {
  document_version_id = 6;
  chunk_id = 70;
  page = some 1;
  section = text "s";
  node_ids = [];
}

abbrev block : ContentBlock
block = record {
  type = BlockType.text;
  text = text "words";
  cells = [];
  source_refs = reference ∷ [];
}

abbrev visual : VisualPlan
visual = record {
  mode = VisualMode.no_visual;
  workflow = text "w";
  controlnet = none;
  ip_adapter = false;
  seed = 42;
  prompt = [];
}

abbrev pub slide : PlannedSlide
slide = record {
  slide_id = 30;
  version = 1;
  order = 1;
  layout_type = LayoutType.title_content;
  title = text "t";
  content_blocks = block ∷ [];
  source_refs = reference ∷ [];
  visual_plan = visual;
}

abbrev pub contents : SlidePlanContract
contents = record {
  plan_id = 20;
  document_versions = 6 ∷ [];
  title = text "p";
  slides = slide ∷ [];
  mock = false;
  provenance = [];
}

abbrev pub plan : SlidePlan
plan = record {
  id = 20;
  project_id = 2;
  document_id = 5;
  version = 3;
  status = PlanStatus.approved;
  contents = contents;
  approved_version = some 3;
}

abbrev pub plan_db : Db
plan_db = record db {
  plans = plan ∷ [];
  chunks = record { id = 70; version_id = 6; contents = chunk } ∷ [];
  slides = slide_row 20 slide ∷ [];
}

abbrev edit : SlidePlanContract
edit = record contents { slides = record slide { title = text "u" } ∷ [] }

abbrev input : ReviewInput
input = record { decision = Decision.approve; comment = []; version = 4 }

plan_found : find_plan 20 plan_db ≡ some plan
unfolding find_plan
plan_found = refl

chunks_unique : ChunksUnique (chunk ∷ [])
chunks_unique = (tt, tt)

validate_evidence_iff_example :
    (validate_evidence contents (chunk ∷ []) ≡ ok 1)
    ↔ All (SlideGrounded contents (chunk ∷ [])) (slide ∷ [])
validate_evidence_iff_example = validate_evidence_iff contents (chunk ∷ []) chunks_unique

abbrev pub edited : SlidePlan × Db
edited = from_ok (plan, plan_db) (update_plan 3 plan edit plan_db)

edited_lem : update_plan 3 plan edit plan_db ≡ ok edited
unfolding update_plan validate_plan save_slides next_version
edited_lem = refl

edited_slides : edited.0.contents.slides ≡ record slide { title = text "u"; version = 2 } ∷ []
unfolding update_plan validate_plan save_slides next_version
edited_slides = refl

update_plan-reopens_example :
    (find_plan 20 edited.1 ≡ some edited.0)
    × (edited.0.version ≡ 4)
    × (is_valid edited.0.contents ≡ true)
    × All
        (SlideGrounded edited.0.contents
          (of_versions edited.0.contents.document_versions plan_db.chunks))
        edited.0.contents.slides
    × (require_approved config edited.0 ≡ gate config false)
update_plan-reopens_example = update_plan-reopens config 3 plan edit plan_db plan_found edited_lem

edited_found : find_plan edited.0.id edited.1 ≡ some edited.0
unfolding update_plan validate_plan save_slides next_version find_plan update_plan_row audit
edited_found = refl

abbrev pub approved : SlidePlan × Db
approved = from_ok (plan, plan_db) (review_plan 4 edited.0 input edited.1)

pub approved_lem : review_plan 4 edited.0 input edited.1 ≡ ok approved
unfolding update_plan validate_plan save_slides next_version update_plan_row audit review_plan
approved_lem = refl

review_plan-gate_example :
    (find_plan edited.0.id approved.1 ≡ some approved.0)
    × (approved.0.version ≡ 4)
    × (require_approved config approved.0 ≡ gate config true)
review_plan-gate_example =
    review_plan-gate config 4 edited.0 input edited.1 edited_found approved_lem

abbrev plan_job : GenerationJob
plan_job = record job {
  kind = Kind.ppt;
  step = Step.ppt;
  payload = record no_payload { plan_id = some 20; plan_version = some 3 };
}

update_plan-recheck_example :
    recheck_plan config plan_job edited.1
    ≡ raise
        (if prototype_review_pass config then plan_version_changed else plan_review_required)
        409
update_plan-recheck_example =
    update_plan-recheck config 3 plan edit plan_db plan_job plan_found refl refl edited_lem

review_plan-recheck_example :
    recheck_plan config plan_job approved.1 ≡ raise plan_version_changed 409
review_plan-recheck_example =
    review_plan-recheck config 3 4 plan edit input plan_db plan_job plan_found refl refl edited_lem
      approved_lem refl

recorded : All (IsRecorded 20 plan_db) (slide ∷ [])
recorded = (refl, tt)

newest : All (IsNewest 20 plan_db) (slide ∷ [])
newest = (λ v above. ground arith, tt)

no_return : All (NoReturn 20 (slide ∷ []) plan_db) edit.slides
unfolding get_slide
no_return = (λ gone. cc, tt)

update_plan-history_example :
    All (IsRecorded 20 edited.1) edited.0.contents.slides
    × All (IsNewest 20 edited.1) edited.0.contents.slides
update_plan-history_example =
    update_plan-history 3 plan edit plan_db recorded newest no_return edited_lem

slide_kept : get_slide 30 (slide ∷ []) ≡ some slide
unfolding get_slide
slide_kept = refl

-- A plan whose slide was taken out by one edit and comes back, with other contents, by the next: it starts
-- at version 1 again, whose row still holds the old contents.
abbrev emptied : SlidePlan
emptied = record plan {
  contents = record contents { slides = record slide { slide_id = 31 } ∷ [] };
}

abbrev returned : SlidePlan × Db
returned = from_ok (plan, plan_db) (update_plan 3 emptied edit plan_db)

returned_stale :
    (first (is_version 20 30 1) returned.1.slides ≡ some (slide_row 20 slide))
    × (returned.0.contents.slides ≡ record slide { title = text "u"; version = 1 } ∷ [])
unfolding update_plan validate_plan save_slides next_version update_plan_row audit
returned_stale = (refl, refl)
