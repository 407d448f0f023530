-- ===== src/Pipeline/Steps/Stages.antt =====
-- The steps of `do_step` on plans, models and designs, and `do_step` as a whole.
use capstone_nps.Base.{
  ℕ, none, some, Option, List, Bool, ◌∷◌, ◌&&◌, [], map, not, ◌==◌, false, ◌++◌, nat_eq,
}
use capstone_nps.Base.Errors.{◌>>=◌, ◌>>◌, Result, ok, err, other, raise_if, plan_version_changed}
use capstone_nps.Models.{
  Template, Step, find_plan, step_eq, GenerationJob, Db, SlidePlan, PlanStatus, Detail,
}
use capstone_nps.Config.{Settings}
use capstone_nps.Pipeline.Steps.{
  Handlers, StepOutput, StepDraw, llm_payload, result_for, scanned, planned, require,
  learned_before, plan_made, learned,
}
use capstone_nps.Routes.Documents.{equals_column}
use capstone_nps.Contracts.{SlidePlanContract}
use capstone_nps.Upload.Scan.{ScanReport}
use capstone_nps.Auth.Accounts.{Accounts, find_user}
use capstone_nps.Pipeline.Steps.Files.{scan_step, parse_step, chunk_step}
use capstone_nps.Themes.{choose_theme}
use capstone_nps.Plans.Gate.{require_approved}
use capstone_nps.Auth.Audit.{audit}
use capstone_nps.Plans.Edit.{validate_plan, save_slides}
use capstone_nps.Base.Rows.{select, first}
use capstone_nps.Routes.Plans.{find_project}
use capstone_nps.Base.Words.{text}

abbrev task_steps : List Step
task_steps =
    Step.llm_summary ∷ Step.llm_key_messages ∷ Step.llm_outline ∷ Step.llm ∷ Step.llm_visual ∷ []

abbrev scan_of : Option StepOutput → Result ScanReport
scan_of (some (scanned report)) = ok report
scan_of _ = err other

-- A template of the organization that was learned from the same file.
abbrev learned_from : (org_id sha256 : ℕ) → Template → Bool
learned_from org_id sha256 t =
    equals_column t.org_id org_id && equals_column t.config.reference_sha256 sha256

abbrev plan_of : Option StepOutput → Result SlidePlanContract
plan_of (some (planned contents)) = ok contents
plan_of _ = err other

module _ (config : Settings) (h : Handlers) (draw : StepDraw) (accounts : Accounts) where
  unfoldable pub llm_step : Step → GenerationJob → Db → Result (StepOutput × Db)
  unfolding llm_payload result_for step_eq
  llm_step step job db = do
    payload ← llm_payload db job
    output ← h.generate step (record payload {
      previous_stages =
          map (λ s. (s, result_for h db job s)) (select (λ s. not (s == step)) task_steps);
    })
    ok (output, db)

  unfoldable pub learn_step : GenerationJob → Db → Result (StepOutput × Db)
  unfolding result_for find_user audit
  learn_step job db = do
    user ← require (find_user job.requested_by accounts)
    scan ← scan_of (result_for h db job Step.security_scan)
    elim (first (learned_from user.org_id scan.sha256) db.templates) [
      | some existing ↦ ok (learned_before existing.id, db)
      | none ↦ do
        policy ← h.safe_extract scan.storage_key
        let template : Template = record {
          id = draw.new_id;
          created_at = draw.now;
          org_id = some user.org_id;
          name = h.template_name job.payload;
          version = text "2.0";
          config = record policy.0 { reference_sha256 = some scan.sha256; tags = [] };
          storage_key = some scan.storage_key;
          official_flag = false;
        }
        ok (
          learned template.id policy.1,
          audit job.requested_by (text "DESIGN_REFERENCE_LEARNED") template.id job.project_id
              ((text "mode", Detail.words (text "style-memory")) ∷ [])
              (record db { templates = db.templates ++ template ∷ [] }),
        )
    ]

  unfoldable pub plan_validate_step : GenerationJob → Db → Result (StepOutput × Db)
  unfolding result_for choose_theme validate_plan save_slides
  plan_validate_step job db = do
    contents ← plan_of (result_for h db job Step.llm)
    project ← require (find_project job.project_id accounts)
    theme ← choose_theme h.lower db project contents
    document_id ← require job.payload.document_id
    let plan : SlidePlan = record {
      id = contents.plan_id;
      project_id = job.project_id;
      document_id = document_id;
      version = 1;
      status = PlanStatus.validated;
      contents = h.with_theme theme contents;
      approved_version = none;
    }
    slides ← validate_plan db plan
    ok (plan_made plan.id, save_slides plan (record db { plans = db.plans ++ plan ∷ [] }))

  -- The steps that draw: the plan must be approved, unchanged and valid.
  unfoldable pub draw_step : Step → GenerationJob → Db → Result (StepOutput × Db)
  unfolding find_plan require_approved validate_plan
  draw_step step job db = do
    plan_id ← require job.payload.plan_id
    plan ← require (find_plan plan_id db)
    require_approved config plan
    plan_version ← require job.payload.plan_version
    raise_if (not (plan_version == plan.version)) plan_version_changed 409
    slides ← validate_plan db plan
    h.render step job plan db

  unfoldable pub do_step : GenerationJob → Step → Db → Result (StepOutput × Db)
  unfolding scan_step parse_step chunk_step llm_step learn_step plan_validate_step draw_step
  do_step job step db = elim step [
    | Step.security_scan ↦ scan_step config h draw accounts job db
    | Step.parse ↦ parse_step config h draw accounts job db
    | Step.chunk ↦ chunk_step config h draw accounts job db
    | Step.llm_summary ↦ llm_step Step.llm_summary job db
    | Step.llm_key_messages ↦ llm_step Step.llm_key_messages job db
    | Step.llm_outline ↦ llm_step Step.llm_outline job db
    | Step.llm ↦ llm_step Step.llm job db
    | Step.llm_visual ↦ llm_step Step.llm_visual job db
    | Step.design_learn ↦ learn_step job db
    | Step.plan_validate ↦ plan_validate_step job db
    | other_step ↦ draw_step other_step job db
  ]
