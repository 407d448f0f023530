-- ===== src/Routes/Plans.antt =====
-- The routes of plans in work_api.py.
pub mod Granted
use capstone_nps.Base.{
  ℕ, none, some, option_eq, Bool, List, Option, ◌==◌, true, [], contains, ◌&&◌, false, ◌∷◌, nat_eq,
  not, if◌then◌else◌, any,
}
use capstone_nps.Base.Errors.{
  ◌>>=◌, ◌>>◌, Result, raise_if, err, other, ppt_review_required, ok, auth_forbidden,
}
use capstone_nps.Models.{
  Kind, SlidePlan, Artifact, ArtifactType, approval_status_eq, Db, Payload, ArtifactVersion,
  find_plan, find_artifact_version, ApprovalStatus,
}
use capstone_nps.Auth.Accounts.{Accounts, Project}
use capstone_nps.Plans.Gate.{require_approved}
use capstone_nps.Routes.{scoped, Call, submit, empty_payload}
use capstone_nps.Config.{prototype_review_pass, Settings}
use capstone_nps.Plans.Edit.{validate_plan, update_plan}
use capstone_nps.Plans.Review.{review_plan, ReviewInput}
use capstone_nps.Contracts.Equality.{role_eq}
use capstone_nps.Base.Words.{Text}
use capstone_nps.Contracts.{Role, SlidePlanContract}
use capstone_nps.Base.Rows.{first}
use capstone_nps.Jobs.Broker.{Broker}
use capstone_nps.Jobs.Snapshot.{Snapshot}

abbrev pub scoped_plan : Call → (plan_id : ℕ) → List Role → Db → Result SlidePlan
scoped_plan call plan_id roles db =
    scoped call (λ (p : SlidePlan). p.project_id) (find_plan plan_id db) roles false

abbrev pub plan_detail : Call → (plan_id : ℕ) → Db → Result SlidePlan
plan_detail call plan_id db = scoped_plan call plan_id [] db

abbrev pub find_project : ℕ → Accounts → Option Project
find_project id accounts = first (λ (p : Project). p.id == id) accounts.projects

unfoldable pub plan_edit : Call → (plan_id : ℕ) → SlidePlanContract → Db → Result (SlidePlan × Db)
unfolding scoped update_plan role_eq
plan_edit call plan_id edited db = do
  plan ← scoped_plan call plan_id [] db
  elim (find_project plan.project_id call.accounts) [
    | none ↦ err other
    | some project ↦ do
      raise_if (not (call.user.role == Role.reviewer) && not (call.user.id == project.owner_id))
          auth_forbidden 403
      update_plan call.user.id plan edited db
  ]

unfoldable pub plan_validate : Call → (plan_id : ℕ) → Db → Result ℕ
unfolding scoped validate_plan
plan_validate call plan_id db = do plan ← scoped_plan call plan_id [] db; validate_plan db plan

unfoldable pub plan_approve : Call → (plan_id : ℕ) → ReviewInput → Db → Result (SlidePlan × Db)
unfolding scoped review_plan
plan_approve call plan_id input db = do
  plan ← scoped_plan call plan_id (Role.reviewer ∷ []) db
  review_plan call.user.id plan input db

-- `v.approval_status in {"REVIEWED", "APPROVED"}` and made from the plan's version
unfoldable pub is_reviewed_for : SlidePlan → ArtifactVersion → Bool
unfolding approval_status_eq option_eq
is_reviewed_for plan v =
    contains v.approval_status (ApprovalStatus.reviewed ∷ ApprovalStatus.approved ∷ [])
    && v.provenance.plan_version == some plan.version

abbrev pub is_deck : ArtifactType → Bool
is_deck ArtifactType.pptx = true
is_deck ArtifactType.mp4 = false

abbrev pub current_of : Artifact → Db → Option ArtifactVersion
current_of a db = elim a.current_version_id [ none ↦ none | some id ↦ find_artifact_version id db ]

abbrev pub is_reviewed_deck : SlidePlan → Db → Artifact → Bool
is_reviewed_deck plan db a =
    a.plan_id == plan.id
    && is_deck a.type
    && elim (current_of a db) [ none ↦ false | some v ↦ is_reviewed_for plan v ]

-- The check in front of a video: some deck of the plan has been reviewed in its current version.
unfoldable pub require_reviewed_deck : Settings → SlidePlan → Db → Result (Unit {0})
unfolding is_reviewed_for prototype_review_pass
require_reviewed_deck config plan db =
    raise_if
      (not (prototype_review_pass config) && not (any (is_reviewed_deck plan db) db.artifacts))
      ppt_review_required 409

abbrev pub plan_payload : SlidePlan → Payload
plan_payload plan = record empty_payload {
  plan_id = some plan.id;
  plan_version = some plan.version;
}

abbrev pub is_video : Kind → Bool
is_video Kind.video = true
is_video _ = false

unfoldable pub generation :
    Call → SlidePlan → Kind → (key : Option Text) → Db → Broker → Result (Snapshot × Db × Broker)
unfolding require_approved validate_plan require_reviewed_deck submit
generation call plan kind key db b = do
  require_approved call.config plan
  slides ← validate_plan db plan
  if is_video kind then require_reviewed_deck call.config plan db else ok tt
  submit call plan.project_id kind (plan_payload plan) key db b

unfoldable pub generate_kind :
    Call
    → (plan_id : ℕ) → Kind
    → (key : Option Text) → Db
    → Broker
    → Result (Snapshot × Db × Broker)
unfolding generation scoped
generate_kind call plan_id kind key db b = do
  plan ← scoped_plan call plan_id [] db
  generation call plan kind key db b

abbrev pub generate_ppt :
    Call → (plan_id : ℕ) → (key : Option Text) → Db → Broker → Result (Snapshot × Db × Broker)
generate_ppt call plan_id key db b = generate_kind call plan_id Kind.ppt key db b

abbrev pub generate_video :
    Call → (plan_id : ℕ) → (key : Option Text) → Db → Broker → Result (Snapshot × Db × Broker)
generate_video call plan_id key db b = generate_kind call plan_id Kind.video key db b

abbrev pub generate_images :
    Call → (plan_id : ℕ) → (key : Option Text) → Db → Broker → Result (Snapshot × Db × Broker)
generate_images call plan_id key db b = generate_kind call plan_id Kind.image key db b
