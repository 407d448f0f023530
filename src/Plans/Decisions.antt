-- ===== src/Plans/Decisions.antt =====
-- What a review does to the approval of a plan, and what jobs on an edited plan meet.

use capstone_nps.Base.{nat_eq, subst, ◌+◌}
use capstone_nps.Base.Errors.{ok, Result-cases, raise, plan_version_changed, plan_review_required}
use capstone_nps.Plans.Gate.{plan_status_eq, require_approved, gate, require_approved_of}
use capstone_nps.Base.{
  ℕ, option_eq, ◌≡◌, some, inl, arith, ◌∙◌, inr, ==_refl, ap, ◌==◌, sym, ◌&&◌, true, if◌then◌else◌,
}
use capstone_nps.Plans.Review.{
  review_plan, add_review, ReviewInput, decided, write_decided, approves,
}
use capstone_nps.Auth.Audit.{audit}
use capstone_nps.Models.{
  SlidePlan, update_plan_row, Db, find_plan, Decision, keep_plan, PlanStatus, GenerationJob,
}
use capstone_nps.Config.{Settings, prototype_review_pass}
use capstone_nps.Plans.Edit.{validate_plan, update_plan}
use capstone_nps.Models.Reads.{find_plan-same, find_plan-update_plan_row}
use capstone_nps.Pipeline.{recheck_plan}
use capstone_nps.Contracts.{SlidePlanContract}
use capstone_nps.Plans.Approval.{update_plan-reopens, update_plan-IsEdit, edit_stored}

pub record IsReview (user : ℕ) (plan : SlidePlan) (input : ReviewInput) (db : Db)
    (plan' : SlidePlan) (db' : Db) : Type 0 where
  pub current : input.version ≡ plan.version
  pub result : plan' ≡ decided plan input.decision
  pub plans : db'.plans ≡ (update_plan_row plan.id (write_decided plan') db).plans
  pub reviews : db'.reviews ≡ (add_review user plan input db).reviews
  pub approvals : db'.approvals ≡ (add_review user plan input db).approvals

pub review_plan-IsReview :
    (user : ℕ) (plan : SlidePlan) (input : ReviewInput) (db : Db) {plan' : SlidePlan} {db' : Db}
    → review_plan user plan input db ≡ ok (plan', db')
    → IsReview user plan input db plan' db'
unfolding review_plan audit add_review update_plan_row
review_plan-IsReview user plan input db {plan'} {db'} h =
    elim (Result-cases (validate_plan db plan)) [
      | inl (e, bad) ↦ absurd (ground arith)
      | inr (n, checked) ↦ record {
        current = ground arith;
        result = ground arith;
        plans = ground arith;
        reviews = ground arith;
        approvals = ground arith;
      }
    ]

decided_row :
    (plan : SlidePlan) (decision : Decision)
    → keep_plan (write_decided (decided plan decision)) plan ≡ decided plan decision
decided_row plan decision = ground arith

decided_version :
    (plan : SlidePlan) (decision : Decision) → (decided plan decision).version ≡ plan.version
decided_version plan decision = ground arith

decided-approved :
    (plan : SlidePlan) (decision : Decision)
    → ((decided plan decision).status == PlanStatus.approved
        && (decided plan decision).approved_version == some (decided plan decision).version)
      ≡ approves decision
unfolding plan_status_eq option_eq
decided-approved plan Decision.approve = ground arith
decided-approved plan Decision.reject = ground arith
decided-approved plan Decision.request_change = ground arith

-- After a granted review of a plan as it stands, the stored plan is the reviewed one, at the version that
-- the reviewer named; the gate in front of generation then lets it through exactly when the decision was
-- to approve, or when the prototype bypass is on.
pub review_plan-gate :
    (config : Settings) (user : ℕ) (plan : SlidePlan) (input : ReviewInput) (db : Db)
    {plan' : SlidePlan} {db' : Db}
    → find_plan plan.id db ≡ some plan
    → review_plan user plan input db ≡ ok (plan', db')
    → (find_plan plan.id db' ≡ some plan')
      × (plan'.version ≡ input.version)
      × (require_approved config plan' ≡ gate config (approves input.decision))
review_plan-gate config user plan input db {plan'} {db'} found h =
    let r = review_plan-IsReview user plan input db h in
    (
      find_plan-same plan.id (update_plan_row plan.id (write_decided plan') db) db' r.plans
          ∙ (find_plan-update_plan_row plan.id plan.id (write_decided plan') db
              ∙ rw (==_refl plan.id, found, r.result) (ap some (decided_row plan input.decision))),
      rw r.result (decided_version plan input.decision ∙ sym r.current),
      require_approved_of config _ (approves input.decision)
          (rw r.result (decided-approved plan input.decision)),
    )

-- When a plan is edited while a step of a job on it runs, the second look at the plan stops the step with
-- PLAN_REVIEW_REQUIRED, unless the prototype bypass is on: then it stops it with PLAN_VERSION_CHANGED.
pub update_plan-recheck :
    (config : Settings) (user : ℕ) (plan : SlidePlan) (edit : SlidePlanContract) (db : Db)
    (job : GenerationJob) {plan' : SlidePlan} {db' : Db}
    → find_plan plan.id db ≡ some plan
    → job.payload.plan_id ≡ some plan.id
    → job.payload.plan_version ≡ some plan.version
    → update_plan user plan edit db ≡ ok (plan', db')
    → recheck_plan config job db'
      ≡ raise
          (if prototype_review_pass config then plan_version_changed else plan_review_required)
          409
unfolding recheck_plan
update_plan-recheck config user plan edit db job {plan'} {db'} found on made h =
    let (stored, version, valid, grounded, shut) =
      update_plan-reopens config user plan edit db found h in
    rw (recheck_plan, on, stored, shut, made, version) (ground arith)

-- When a plan is edited and the new version approved while a step of a job on the old version runs, the
-- second look at the plan stops the step with PLAN_VERSION_CHANGED and 409, bypass or not: the approval of
-- the new version does not let a job go on that was made for the old one.
pub review_plan-recheck :
    (config : Settings) (user reviewer : ℕ) (plan : SlidePlan) (edit : SlidePlanContract)
    (input : ReviewInput) (db : Db) (job : GenerationJob) {plan' plan'' : SlidePlan} {db' db'' : Db}
    → find_plan plan.id db ≡ some plan
    → job.payload.plan_id ≡ some plan.id
    → job.payload.plan_version ≡ some plan.version
    → update_plan user plan edit db ≡ ok (plan', db')
    → review_plan reviewer plan' input db' ≡ ok (plan'', db'')
    → approves input.decision ≡ true
    → recheck_plan config job db'' ≡ raise plan_version_changed 409
unfolding recheck_plan
review_plan-recheck config user reviewer plan edit input db job {plan'} {plan''} {db'} {db''} found
      on made h k agreed =
    let e = update_plan-IsEdit user plan edit db h in
    let same : plan'.id ≡ plan.id = ap (λ (p : SlidePlan). p.id) e.result in
    let (stored, version, open_gate) =
      review_plan-gate config reviewer plan' input db'
        (subst (λ id. find_plan id db' ≡ some plan') (sym same) (edit_stored plan edit db found e))
        k in
    let current = (review_plan-IsReview reviewer plan' input db' k).current in
    let newer : plan''.version ≡ plan.version + 1 =
      version ∙ (current ∙ ap (λ (p : SlidePlan). p.version) e.result) in
    let there : find_plan plan.id db'' ≡ some plan'' =
      subst (λ id. find_plan id db'' ≡ some plan'') same stored in
    rw (recheck_plan, on, there, open_gate, agreed, made, newer) (ground arith)
