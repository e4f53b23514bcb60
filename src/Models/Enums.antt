-- ===== src/Models/Enums.antt =====
-- The enumerations of backend/app/models.py.
use sentri_mesh_astra.Prelude.{ℕ, Bool, true, false}

pub data UserRole : Type 0 where
  admin security_holder : UserRole

pub data Severity : Type 0 where
  low medium high critical : Severity

pub data AutonomyTier : Type 0 where
  tier1_auto tier2_one_tap tier3_human_only : AutonomyTier

pub data ApprovalStatus : Type 0 where
  pending approved rejected auto_approved expired : ApprovalStatus

pub data IncidentStatus : Type 0 where
  open_ investigating contained resolved false_positive : IncidentStatus

-- `==` on the members of an enumeration.
abbrev pub is_admin : UserRole → Bool
is_admin UserRole.admin = true
is_admin UserRole.security_holder = false

abbrev pub is_critical : Severity → Bool
is_critical Severity.critical = true
is_critical _ = false

abbrev pub is_tier1 : AutonomyTier → Bool
is_tier1 AutonomyTier.tier1_auto = true
is_tier1 _ = false

abbrev pub is_pending : ApprovalStatus → Bool
is_pending ApprovalStatus.pending = true
is_pending _ = false

abbrev pub is_approved : ApprovalStatus → Bool
is_approved ApprovalStatus.approved = true
is_approved _ = false

-- `status in (OPEN, INVESTIGATING)`.
abbrev pub is_active_status : IncidentStatus → Bool
is_active_status IncidentStatus.open_ = true
is_active_status IncidentStatus.investigating = true
is_active_status _ = false

-- The order in which severities and tiers grow, for the statements about them.
abbrev pub severity_rank : Severity → ℕ
severity_rank Severity.low = 0
severity_rank Severity.medium = 1
severity_rank Severity.high = 2
severity_rank Severity.critical = 3
