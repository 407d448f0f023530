-- ===== src/Plans/Review.antt =====
-- `review_plan` of plans.py.
use capstone_nps.Base.Errors.{◌>>=◌, ◌>>◌, raise_if, version_conflict, ok}
use capstone_nps.Base.Words.{text, Text}
use capstone_nps.Models.{SlidePlan, Decision, Db, PlanStatus, Target, Detail, update_plan_row}
use capstone_nps.Base.{
  ℕ, Bool, if◌then◌else◌, ◌++◌, true, some, false, none, ◌∷◌, [], not, ◌==◌, nat_eq,
}
use capstone_nps.Base.Errors.{Result}
use capstone_nps.Plans.Edit.{validate_plan}
use capstone_nps.Auth.Audit.{audit}

-- `"PLAN_" + decision.upper()`
abbrev action_of : Decision → Text
action_of Decision.approve = text "PLAN_APPROVE"
action_of Decision.reject = text "PLAN_REJECT"
action_of Decision.request_change = text "PLAN_REQUEST-CHANGE"

abbrev pub approves : Decision → Bool
approves Decision.approve = true
approves _ = false

pub record ReviewInput : Type 0 where
  pub decision : Decision
  pub comment : Text
  pub version : ℕ

abbrev pub decided : SlidePlan → Decision → SlidePlan
decided plan decision =
    if approves decision
    then record plan { status = PlanStatus.approved; approved_version = some plan.version }
    else record plan { status = PlanStatus.rejected; approved_version = none }

abbrev pub write_decided : SlidePlan → SlidePlan → SlidePlan
write_decided plan row = record row {
  status = plan.status;
  approved_version = plan.approved_version;
}

-- The rows of the review, and of the approval when there is one.
unfoldable pub add_review : (user : ℕ) → SlidePlan → ReviewInput → Db → Db
add_review user plan input db = record db {
  reviews =
      db.reviews
      ++ record {
        project_id = plan.project_id;
        target_type = Target.plan;
        target_id = plan.id;
        version = plan.version;
        reviewer_id = user;
        decision = input.decision;
        comment = input.comment;
      }
        ∷ [];
  approvals =
      if approves input.decision
      then db.approvals
        ++ record {
          project_id = plan.project_id;
          target_type = Target.plan;
          target_id = plan.id;
          version = plan.version;
          approver_id = user;
        }
          ∷ []
      else db.approvals;
}

unfoldable pub review_plan : (user : ℕ) → SlidePlan → ReviewInput → Db → Result (SlidePlan × Db)
review_plan user plan input db = do
  raise_if (not (input.version == plan.version)) version_conflict 409
  slides ← validate_plan db plan
  let plan' = decided plan input.decision
  ok (
    plan',
    audit user (action_of input.decision) plan.id plan.project_id
        ((text "version", Detail.number plan.version) ∷ [])
        (add_review user plan input (update_plan_row plan.id (write_decided plan') db)),
  )
