-- ===== src/Planning/Turn.antt =====
-- The decisions of interfaces/agent/turn_planning.py.
use Prim.Native.String.{compare}
use text.Mathlib.Text.{is_le}
use master_control.Prelude.{
  String, Bool, true, false, not, ◌&&◌, Option, none, some, List, [], ◌∷◌, ◌++◌, any, contains,
  ◌==◌, if◌then◌else◌,
}
use master_control.Sql.{order_by}
use master_control.Value.{Fields, get_truth}
use master_control.Observations.{observation_key_for_tool}
use master_control.Observations.Freshness.{ObservationFreshness}
use master_control.Runtime.State.{Outcome, value, raised}
use master_control.Planning.Decisions.{
  PlanStep, ExecutionPlan, PlanningDecision, ProviderResponse, has_steps, resolved_decision,
}

-- `raised` is the ProviderError.
unfoldable pub validate_provider_response : ProviderResponse → Outcome PlanningDecision
validate_provider_response r =
    let d = resolved_decision r in
    if d.state == "needs_tools" && not (has_steps r.plan)
    then raised "Provider declared needs_tools without returning executable steps."
    else if not (d.state == "needs_tools") && has_steps r.plan
    then raised "Provider returned executable steps for a non-needs_tools decision."
    else value d

abbrev pub multi_step_planning_intents : List String
multi_step_planning_intents =
    "diagnose_performance" ∷ "compare_performance" ∷ "compare_logs" ∷ "compare_service_status"
    ∷ "compare_config" ∷ []

unfoldable pub should_continue_planning : Option ExecutionPlan → Bool
should_continue_planning none = false
should_continue_planning (some plan) = contains multi_step_planning_intents plan.intent

refresh_keys_from : List String → List PlanStep → List String
refresh_keys_from keys [] = keys
refresh_keys_from keys (step ∷ steps) =
    refresh_keys_from
      (elim (observation_key_for_tool step.tool_name) [
        | none ↦ keys
        | some key ↦ if contains keys key then keys else keys ++ key ∷ []
      ])
      steps

unfoldable pub collect_planned_refresh_keys : Option ExecutionPlan → List String
unfolding refresh_keys_from
collect_planned_refresh_keys none = []
collect_planned_refresh_keys (some plan) = refresh_keys_from [] plan.steps

stale_keys : List ObservationFreshness → List String
stale_keys [] = []
stale_keys (item ∷ items) =
    let rest = stale_keys items in
    if item.stale && not (contains rest item.key) then item.key ∷ rest else rest

unfoldable pub collect_stale_observation_keys : List ObservationFreshness → List String
unfolding stale_keys
collect_stale_observation_keys items = order_by (λ a b. is_le (compare a b)) (stale_keys items)

unfoldable pub is_waiting : Fields → Bool
is_waiting execution = get_truth "pending_confirmation" execution

unfoldable pub has_failed : Fields → Bool
has_failed execution = not (get_truth "ok" execution)

abbrev pub awaiting_confirmation : PlanningDecision
awaiting_confirmation = record {
  state = "blocked";
  reason = "The next action is waiting for explicit confirmation before it can run.";
  kind = "awaiting_confirmation";
}

abbrev pub execution_failed : PlanningDecision
execution_failed = record {
  state = "blocked";
  reason = "A tool execution failed before the request could complete safely.";
  kind = "execution_failed";
}

abbrev pub evidence_sufficient : PlanningDecision
evidence_sufficient = record {
  state = "complete";
  reason = "Current-turn evidence is sufficient for the final response.";
  kind = "evidence_sufficient";
}

abbrev pub refresh_required : PlanningDecision
refresh_required = record {
  state = "needs_tools";
  reason = "Fresh host observations are required before the diagnosis can continue.";
  kind = "refresh_required";
}

unfoldable pub is_nonempty : {A : Type 0} → List A → Bool
is_nonempty [] = false
is_nonempty (_ ∷ _) = true

unfoldable pub classify_turn_decision : ProviderResponse → List Fields → PlanningDecision
unfolding is_nonempty
classify_turn_decision r executions =
    let d = resolved_decision r in
    if any is_waiting executions
    then awaiting_confirmation
    else if any has_failed executions
    then execution_failed
    else if is_nonempty executions && not (should_continue_planning r.plan)
    then evidence_sufficient
    else if d.state == "needs_tools" && is_nonempty (collect_planned_refresh_keys r.plan)
    then refresh_required
    else d
