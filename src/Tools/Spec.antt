-- ===== src/Tools/Spec.antt =====
-- RiskLevel and ToolSpec of tools/base.py.
use master_control.Prelude.{String, Bool, true, false, List}

pub data RiskLevel : Type 0 where
  read_only mutating_safe privileged : RiskLevel

-- `RiskLevel.value`
unfoldable pub risk_text : RiskLevel → String
risk_text RiskLevel.read_only = "read_only"
risk_text RiskLevel.mutating_safe = "mutating_safe"
risk_text RiskLevel.privileged = "privileged"

-- `risk is RiskLevel.READ_ONLY`
unfoldable pub is_read_only : RiskLevel → Bool
is_read_only RiskLevel.read_only = true
is_read_only _ = false

pub record ToolSpec : Type 0 where
  pub name : String
  pub description : String
  pub risk : RiskLevel
  pub arguments : List String
