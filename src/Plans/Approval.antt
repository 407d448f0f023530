-- ===== src/Plans/Approval.antt =====
-- What an edit and a review do to the approval of a plan, and to the gate in front of generation.

use capstone_nps.Base.Errors.{ok, Result-cases}
use capstone_nps.Base.Words.{text_beq_iff}
use capstone_nps.Plans.Edit.{
  validate_plan, save_slide, save_rows, update_plan, save_slides, updated_contents, edited_plan,
  of_versions, write_draft,
}
use capstone_nps.Models.{SlidePlan, Db, update_plan_row, Detail, find_plan}
use capstone_nps.Config.{Settings}
use capstone_nps.Base.{
  ℕ, List, ◌≡◌, ◌∷◌, arith, Bool-cases, ◌∙◌, [], inr, true, All, refl, inl, ap, some, ◌+◌, false,
  ==_refl,
}
use capstone_nps.Contracts.Validation.{model_validate, is_valid}
use capstone_nps.Contracts.{SlidePlanContract, PlannedSlide}
use capstone_nps.Base.Words.{text}
use capstone_nps.Auth.Audit.{audit}
use capstone_nps.Chunking.Evidence.Grounded.{SlideGrounded, validate_evidence-eq-ok}
use capstone_nps.Plans.Gate.{require_approved, plan_status_eq, gate, require_approved_of}
use capstone_nps.Models.Reads.{find_plan-same, find_plan-update_plan_row}

plans-save_slide :
    (plan_id : ℕ) (s : PlannedSlide) (db : Db) → (save_slide plan_id s db).plans ≡ db.plans
unfolding save_slide
plans-save_slide plan_id s db = ground arith

plans-save_rows :
    (plan_id : ℕ) (slides : List PlannedSlide) (db : Db)
    → (save_rows plan_id slides db).plans ≡ db.plans
unfolding save_rows
plans-save_rows plan_id [] db = refl
plans-save_rows plan_id (s ∷ rest) db =
    plans-save_rows plan_id rest (save_slide plan_id s db) ∙ plans-save_slide plan_id s db

-- A granted edit.
pub record IsEdit (plan : SlidePlan) (edit : SlidePlanContract) (db : Db) (plan' : SlidePlan)
    (db' : Db) : Type 0 where
  pub same_plan : edit.plan_id ≡ plan.id
  pub same_documents : edit.document_versions ≡ plan.contents.document_versions
  pub result : plan' ≡ edited_plan plan (updated_contents plan.contents edit)
  pub valid : is_valid plan'.contents ≡ true
  pub grounded :
      All
        (SlideGrounded plan'.contents (of_versions plan'.contents.document_versions db.chunks))
        plan'.contents.slides
  pub plans : db'.plans ≡ (update_plan_row plan.id (write_draft plan') db).plans
  pub slides : db'.slides ≡ (save_slides plan' db).slides

pub validate_plan-eq-ok :
    (db : Db) (plan : SlidePlan) {n : ℕ}
    → validate_plan db plan ≡ ok n
    → (is_valid plan.contents ≡ true)
      × All
          (SlideGrounded plan.contents (of_versions plan.contents.document_versions db.chunks))
          plan.contents.slides
unfolding validate_plan model_validate
validate_plan-eq-ok db plan {n} h = elim (Bool-cases (is_valid plan.contents)) [
  | inl good ↦ (
    good,
    validate_evidence-eq-ok plan.contents (of_versions plan.contents.document_versions db.chunks)
        {n = n} (ground arith),
  )
  | inr bad ↦ absurd (ground arith)
]

abbrev audited : (user : ℕ) → SlidePlan → Db → Db
audited user plan db =
    audit user (text "PLAN_UPDATE") plan.id plan.project_id
      ((text "version", Detail.number plan.version) ∷ []) db

written_of_edit :
    (user : ℕ) (plan : SlidePlan) (edit : SlidePlanContract) (db : Db) {plan' : SlidePlan}
    {db' : Db}
    → update_plan user plan edit db ≡ ok (plan', db')
    → db' ≡ audited user plan' (save_slides plan' (update_plan_row plan.id (write_draft plan') db))
unfolding update_plan
written_of_edit user plan edit db h = ground arith

plans-saved :
    (user : ℕ) (plan : SlidePlan) (id : ℕ) (f : SlidePlan → SlidePlan) (db : Db)
    → (audited user plan (save_slides plan (update_plan_row id f db))).plans
      ≡ (update_plan_row id f db).plans
unfolding audit save_slides
plans-saved user plan id f db =
    plans-save_rows plan.id plan.contents.slides (update_plan_row id f db)

save_slide-same :
    (plan_id : ℕ) (s : PlannedSlide) (db d : Db)
    → db.slides ≡ d.slides
    → (save_slide plan_id s db).slides ≡ (save_slide plan_id s d).slides
unfolding save_slide
save_slide-same plan_id s db d e = ground arith

save_rows-same :
    (plan_id : ℕ) (slides : List PlannedSlide) (db d : Db)
    → db.slides ≡ d.slides
    → (save_rows plan_id slides db).slides ≡ (save_rows plan_id slides d).slides
unfolding save_rows
save_rows-same plan_id [] db d e = e
save_rows-same plan_id (s ∷ rest) db d e =
    save_rows-same plan_id rest (save_slide plan_id s db) (save_slide plan_id s d)
      (save_slide-same plan_id s db d e)

slides-saved :
    (user : ℕ) (plan : SlidePlan) (id : ℕ) (f : SlidePlan → SlidePlan) (db : Db)
    → (audited user plan (save_slides plan (update_plan_row id f db))).slides
      ≡ (save_slides plan db).slides
unfolding audit save_slides update_plan_row
slides-saved user plan id f db =
    save_rows-same plan.id plan.contents.slides (update_plan_row id f db) db refl

pub update_plan-IsEdit :
    (user : ℕ) (plan : SlidePlan) (edit : SlidePlanContract) (db : Db) {plan' : SlidePlan}
    {db' : Db}
    → update_plan user plan edit db ≡ ok (plan', db')
    → IsEdit plan edit db plan' db'
unfolding update_plan model_validate
update_plan-IsEdit user plan edit db {plan'} {db'} h = elim (Bool-cases (is_valid plan.contents)) [
  | inr bad ↦ absurd (ground arith)
  | inl good ↦
      elim (Result-cases
        (validate_plan db (record plan { contents = updated_contents plan.contents edit }))) [
          | inl (e, bad) ↦ absurd (ground arith)
          | inr (n, checked) ↦
              let made : plan' ≡ edited_plan plan (updated_contents plan.contents edit) =
                ground arith in
              let written = written_of_edit user plan edit db {plan' = plan'} {db' = db'} h in
              let facts =
                validate_plan-eq-ok db
                  (record plan { contents = updated_contents plan.contents edit }) checked in
              record {
                same_plan = ground arith;
                same_documents =
                    (text_beq_iff edit.document_versions plan.contents.document_versions).0
                      (ground arith);
                result = made;
                valid = rw made facts.0;
                grounded = rw made facts.1;
                plans = ap (λ (d : Db). d.plans) written ∙ plans-saved user plan' _ _ _;
                slides = ap (λ (d : Db). d.slides) written ∙ slides-saved user plan' _ _ _;
              }
        ]
]

-- The row of a plan after an edit of it as it stands.
pub edit_stored :
    (plan : SlidePlan) (edit : SlidePlanContract) (db : Db) {plan' : SlidePlan} {db' : Db}
    → find_plan plan.id db ≡ some plan
    → IsEdit plan edit db plan' db'
    → find_plan plan.id db' ≡ some plan'
edit_stored plan edit db {plan'} {db'} found e =
    find_plan-same plan.id (update_plan_row plan.id (write_draft plan') db) db' e.plans
    ∙ (find_plan-update_plan_row plan.id plan.id (write_draft plan') db
        ∙ rw (==_refl plan.id, found, e.result))

-- After a granted edit of a plan as it stands, the stored plan is the edited one: a version on, with
-- valid contents whose references the chunks support. Unless the prototype bypass is on, nothing can be
-- generated from it before a new review.
pub update_plan-reopens :
    (config : Settings) (user : ℕ) (plan : SlidePlan) (edit : SlidePlanContract) (db : Db)
    {plan' : SlidePlan} {db' : Db}
    → find_plan plan.id db ≡ some plan
    → update_plan user plan edit db ≡ ok (plan', db')
    → (find_plan plan.id db' ≡ some plan')
      × (plan'.version ≡ plan.version + 1)
      × (is_valid plan'.contents ≡ true)
      × All
          (SlideGrounded plan'.contents (of_versions plan'.contents.document_versions db.chunks))
          plan'.contents.slides
      × (require_approved config plan' ≡ gate config false)
unfolding plan_status_eq
update_plan-reopens config user plan edit db found h =
    let e = update_plan-IsEdit user plan edit db h in
    (
      edit_stored plan edit db found e,
      ap (λ (p : SlidePlan). p.version) e.result,
      e.valid,
      e.grounded,
      require_approved_of config _ false (rw e.result),
    )
