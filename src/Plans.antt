-- ===== src/Plans.antt =====
-- apps/api/nps/plans.py: the plan that a reviewer approves before anything is generated from it.
pub mod Gate
pub mod Edit
pub mod Review
pub mod History
pub mod Versions
pub mod Recorded
pub mod Approval
pub mod Decisions
