-- ===== src/Contracts/Equality.antt =====
-- Decided equality of the enumerations and records of contracts.py.
use native.Mathlib.Decide.{ℕ_discrete}
use capstone_nps.Base.{Eq, decided_eq}
use capstone_nps.Contracts.{Role, JobState, NodeType, BlockType, PlannedSlide}

unfoldable pub Role-discrete : Discrete Role
Role-discrete = hlevel

instance unfoldable pub role_eq : Eq Role
unfolding Role-discrete
role_eq = decided_eq Role-discrete

unfoldable pub JobState-discrete : Discrete JobState
JobState-discrete = hlevel

instance unfoldable pub job_state_eq : Eq JobState
unfolding JobState-discrete
job_state_eq = decided_eq JobState-discrete

unfoldable pub NodeType-discrete : Discrete NodeType
NodeType-discrete = hlevel

instance unfoldable pub node_type_eq : Eq NodeType
unfolding NodeType-discrete
node_type_eq = decided_eq NodeType-discrete

unfoldable pub BlockType-discrete : Discrete BlockType
BlockType-discrete = hlevel

instance unfoldable pub block_type_eq : Eq BlockType
unfolding BlockType-discrete
block_type_eq = decided_eq BlockType-discrete

unfoldable pub PlannedSlide-discrete : Discrete PlannedSlide
PlannedSlide-discrete = hlevel ℕ_discrete

instance unfoldable pub planned_slide_eq : Eq PlannedSlide
unfolding PlannedSlide-discrete ℕ_discrete
planned_slide_eq = decided_eq PlannedSlide-discrete
