-- ===== src/Policy/Rules.antt =====
-- The data of policy/config.py and policy/engine.py.
use master_control.Prelude.{ℕ, String, Bool, Option, List}
use master_control.Config.Targets.{ConfigTarget}

pub record ToolPolicyRule : Type 0 where
  pub enabled : Option Bool
  pub require_confirmation : Bool
  pub allowed_scopes : List String
  pub service_patterns : List String

pub record LoadedPolicy : Type 0 where
  pub exists : Bool
  pub version : ℕ
  pub using_default : Bool
  pub error : Option String
  pub tool_rules : List (String × ToolPolicyRule)
  pub config_targets : List ConfigTarget

pub record PolicyDecision : Type 0 where
  pub allowed : Bool
  pub needs_confirmation : Bool
  pub reason : String
