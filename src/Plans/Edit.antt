-- ===== src/Plans/Edit.antt =====
-- `validate_plan`, `save_slides` and `update_plan` of plans.py. A plan is the ORM object as it was read;
-- the functions return it as they leave it, with the tables.
use capstone_nps.Base.Errors.{◌>>=◌, ◌>>◌, raise_if, plan_identity_immutable, ok}
use capstone_nps.Base.Words.{text, text_eq}
use capstone_nps.Models.{SlidePlan, Db, Slide, Chunk, PlanStatus, Detail, update_plan_row}
use capstone_nps.Contracts.Validation.{model_validate}
use capstone_nps.Contracts.{PlannedSlide, SlidePlanContract, SemanticChunk}
use capstone_nps.Base.{
  List, ℕ, ◌+◌, Option, map, ◌∷◌, none, Bool, some, [], ◌==◌, if◌then◌else◌, ◌++◌, ◌&&◌, contains,
  nat_eq, not,
}
use capstone_nps.Contracts.Equality.{planned_slide_eq}
use capstone_nps.Chunking.Evidence.{validate_evidence}
use capstone_nps.Base.Rows.{first}
use capstone_nps.Base.Errors.{Result}
use capstone_nps.Auth.Audit.{audit}

abbrev pub of_versions : List ℕ → List Chunk → List SemanticChunk
of_versions versions [] = []
of_versions versions (c ∷ rest) =
    let later = of_versions versions rest in
    if contains c.version_id versions then c.contents ∷ later else later

unfoldable pub validate_plan : Db → SlidePlan → Result ℕ
unfolding model_validate validate_evidence
validate_plan db plan = do
  parsed ← model_validate plan.contents
  validate_evidence parsed (of_versions parsed.document_versions db.chunks)

abbrev pub is_version : (plan_id slide_id version : ℕ) → Slide → Bool
is_version plan_id slide_id version s =
    s.plan_id == plan_id && s.slide_id == slide_id && s.version == version

abbrev pub slide_row : (plan_id : ℕ) → PlannedSlide → Slide
slide_row plan_id slide = record {
  plan_id = plan_id;
  slide_id = slide.slide_id;
  version = slide.version;
  contents = slide;
}

-- One round of the loop; the SELECT sees the rows that earlier rounds have added.
unfoldable pub save_slide : (plan_id : ℕ) → PlannedSlide → Db → Db
save_slide plan_id slide db =
    elim (first (is_version plan_id slide.slide_id slide.version) db.slides) [
      | some existing ↦ db
      | none ↦ record db { slides = db.slides ++ slide_row plan_id slide ∷ [] }
    ]

unfoldable pub save_rows : (plan_id : ℕ) → List PlannedSlide → Db → Db
unfolding save_slide
save_rows plan_id [] db = db
save_rows plan_id (slide ∷ rest) db = save_rows plan_id rest (save_slide plan_id slide db)

unfoldable pub save_slides : SlidePlan → Db → Db
unfolding save_rows
save_slides plan db = save_rows plan.id plan.contents.slides db

-- `old_slides.get(id)`: of two slides with one id, the dict holds the later.
unfoldable pub get_slide : (slide_id : ℕ) → List PlannedSlide → Option PlannedSlide
get_slide id [] = none
get_slide id (s ∷ rest) = elim (get_slide id rest) [
  | some later ↦ some later
  | none ↦ if s.slide_id == id then some s else none
]

-- A slide without its `version`.
abbrev pub unversioned : PlannedSlide → PlannedSlide
unversioned s = record s { version = 0 }

unfoldable pub next_version : List PlannedSlide → PlannedSlide → ℕ
unfolding get_slide planned_slide_eq
next_version old_slides slide = elim (get_slide slide.slide_id old_slides) [
  | none ↦ 1
  | some old ↦ if unversioned slide == unversioned old then old.version else old.version + 1
]

abbrev pub renumbered : List PlannedSlide → PlannedSlide → PlannedSlide
renumbered old_slides slide = record slide { version = next_version old_slides slide }

abbrev pub updated_contents : SlidePlanContract → SlidePlanContract → SlidePlanContract
updated_contents old edit = record edit {
  mock = old.mock;
  provenance = old.provenance;
  slides = map (renumbered old.slides) edit.slides;
}

abbrev pub edited_plan : SlidePlan → SlidePlanContract → SlidePlan
edited_plan plan contents = record plan {
  contents = contents;
  version = plan.version + 1;
  status = PlanStatus.draft;
  approved_version = none;
}

abbrev pub write_draft : SlidePlan → SlidePlan → SlidePlan
write_draft plan row = record row {
  contents = plan.contents;
  version = plan.version;
  status = plan.status;
  approved_version = plan.approved_version;
}

unfoldable pub update_plan :
    (user : ℕ) → SlidePlan → SlidePlanContract → Db → Result (SlidePlan × Db)
update_plan user plan edit db = do
  raise_if (not (edit.plan_id == plan.id)) plan_identity_immutable 422
  parsed ← model_validate plan.contents
  raise_if (not (text_eq.beq edit.document_versions parsed.document_versions))
      plan_identity_immutable 422
  let contents = updated_contents plan.contents edit
  slides ← validate_plan db (record plan { contents = contents })
  let plan' = edited_plan plan contents
  ok (
    plan',
    audit user (text "PLAN_UPDATE") plan'.id plan'.project_id
        ((text "version", Detail.number plan'.version) ∷ [])
        (save_slides plan' (update_plan_row plan'.id (write_draft plan') db)),
  )
