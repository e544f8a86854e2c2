-- ===== src/Policy/Engine.antt =====
-- PolicyEngine.evaluate of policy/engine.py, on the policy that the loader returns.
use master_control.Prelude.{
  String, Bool, true, false, not, ◌&&◌, ◌||◌, Option, none, some, List, [], ◌∷◌, is_empty, any,
  contains, concat, join, strip, lookup, if◌then◌else◌,
}
use master_control.Value.{Value, Fields, get}
use master_control.Codec.{Texts}
use master_control.Tools.Spec.{RiskLevel, ToolSpec, is_read_only}
use master_control.Policy.Rules.{ToolPolicyRule, LoadedPolicy, PolicyDecision}

unfoldable pub normalize_scope : Texts → Option Value → String
normalize_scope texts (some (Value.str raw)) =
    if is_empty (strip raw) then "system" else texts.lower (strip raw)
normalize_scope texts _ = "system"

abbrev pub service_tools : List String
service_tools = "service_status" ∷ "restart_service" ∷ "reload_service" ∷ []

unfoldable pub scope_denial : Texts → String → Fields → List String → Option String
scope_denial texts tool arguments [] = none
scope_denial texts tool arguments (s ∷ scopes) =
    if contains (s ∷ scopes) (normalize_scope texts (get "scope" arguments))
    then none
    else some (
        concat (
          "Tool `"
          ∷ tool
          ∷ "` is limited by policy to scopes: "
          ∷ join ", " (s ∷ scopes)
          ∷ "."
          ∷ []))

-- The stripped service name, if the argument is a text that is not blank.
unfoldable pub service_name_of : Option Value → Option String
service_name_of (some (Value.str name)) = if is_empty (strip name) then none else some (strip name)
service_name_of _ = none

unfoldable pub pattern_denial : Texts → String → Option String → List String → Option String
pattern_denial texts tool none patterns =
    some (concat ("Tool `" ∷ tool ∷ "` requires a valid service name for policy evaluation." ∷ []))
pattern_denial texts tool (some name) patterns =
    if any (λ pattern. texts.fnmatch name pattern) patterns
    then none
    else some (
        concat (
          "Tool `"
          ∷ tool
          ∷ "` is limited by policy to these service patterns: "
          ∷ join ", " patterns
          ∷ "."
          ∷ []))

unfoldable pub service_denial : Texts → String → Fields → List String → Option String
service_denial texts tool arguments [] = none
service_denial texts tool arguments (p ∷ patterns) =
    if contains service_tools tool
    then pattern_denial texts tool (service_name_of (get "name" arguments)) (p ∷ patterns)
    else none

unfoldable pub evaluate_argument_constraints :
    Texts → String → Fields → Option ToolPolicyRule → Option String
evaluate_argument_constraints texts tool arguments none = none
evaluate_argument_constraints texts tool arguments (some rule) =
    elim (scope_denial texts tool arguments rule.allowed_scopes) [
      | some reason ↦ some reason
      | none ↦ service_denial texts tool arguments rule.service_patterns
    ]

unfoldable pub requires_confirmation : Option ToolPolicyRule → Bool
requires_confirmation none = false
requires_confirmation (some rule) = rule.require_confirmation

unfoldable pub is_disabled : Option ToolPolicyRule → Bool
is_disabled none = false
is_disabled (some rule) = elim rule.enabled [ some false ↦ true | _ ↦ false ]

unfoldable pub risk_reason : RiskLevel → String
risk_reason RiskLevel.mutating_safe = "Mutating tool requires explicit confirmation."
risk_reason _ = "Privileged tool requires confirmation and preflight validation."

unfoldable pub build_reason : RiskLevel → Option ToolPolicyRule → Bool → String
build_reason risk rule needs_confirmation =
    if requires_confirmation rule && is_read_only risk
    then "Operator policy requires explicit confirmation for this tool."
    else if is_read_only risk && not needs_confirmation
    then "Read-only tool."
    else risk_reason risk

unfoldable pub deny : String → PolicyDecision
deny reason = record { allowed = false; needs_confirmation = false; reason = reason }

unfoldable pub allow : RiskLevel → Option ToolPolicyRule → PolicyDecision
allow risk rule =
    let needs = not (is_read_only risk) || requires_confirmation rule in
    record { allowed = true; needs_confirmation = needs; reason = build_reason risk rule needs }

-- The checks of `evaluate` once the policy is loaded without an error.
unfoldable pub decide_by_rule : Texts → ToolSpec → Fields → Option ToolPolicyRule → PolicyDecision
decide_by_rule texts spec arguments rule =
    if is_disabled rule
    then deny (concat ("Tool `" ∷ spec.name ∷ "` is disabled by operator policy." ∷ []))
    else elim (evaluate_argument_constraints texts spec.name arguments rule) [
      | some reason ↦ deny reason
      | none ↦ allow spec.risk rule
    ]

unfoldable pub evaluate : Texts → LoadedPolicy → ToolSpec → Fields → PolicyDecision
evaluate texts policy spec arguments = elim policy.error [
  | some error ↦ deny (concat ("Policy load error: " ∷ error ∷ []))
  | none ↦ decide_by_rule texts spec arguments (lookup spec.name policy.tool_rules)
]
