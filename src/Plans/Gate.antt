-- ===== src/Plans/Gate.antt =====
-- `require_approved` of plans.py: the review gate in front of every generation.
use capstone_nps.Base.{
  not, ◌||◌, ◌==◌, some, decided_eq, Eq, option_eq, nat_eq, if◌then◌else◌, Bool, ◌&&◌, ◌≡◌, arith,
}
use capstone_nps.Base.Errors.{Result, ok, raise_if, plan_review_required, raise}
use capstone_nps.Config.{Settings, prototype_review_pass}
use capstone_nps.Models.{PlanStatus, SlidePlan}

unfoldable pub PlanStatus-discrete : Discrete PlanStatus
PlanStatus-discrete = hlevel

instance unfoldable pub plan_status_eq : Eq PlanStatus
unfolding PlanStatus-discrete
plan_status_eq = decided_eq PlanStatus-discrete

unfoldable pub require_approved : Settings → SlidePlan → Result (Unit {0})
unfolding prototype_review_pass plan_status_eq option_eq
require_approved config plan =
    if prototype_review_pass config
    then ok tt
    else raise_if
        (not (plan.status == PlanStatus.approved)
          || not (plan.approved_version == some plan.version))
        plan_review_required 409

-- The gate, on a plan by its status and its approval.
abbrev pub gate : Settings → Bool → Result (Unit {0})
gate config approved =
    if prototype_review_pass config || approved then ok tt else raise plan_review_required 409

pub require_approved_of :
    (config : Settings) (plan : SlidePlan) (approved : Bool)
    → (plan.status == PlanStatus.approved && plan.approved_version == some plan.version) ≡ approved
    → require_approved config plan ≡ gate config approved
unfolding require_approved
require_approved_of config plan approved h = ground arith
