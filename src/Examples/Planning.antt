-- ===== src/Examples/Planning.antt =====
-- The planning of a turn at concrete inputs.
use master_control.Prelude.{
  ◌≡◌, refl, true, false, none, some, List, [], ◌∷◌, String, ◌≤◌, ◌+◌, any, strip,
}
use master_control.Value.{Value, Fields, dict_of}
use master_control.Tools.Spec.{RiskLevel}
use master_control.Runtime.State.{returned, Tool, Host, State, value}
use master_control.Planning.Decisions.{
  ProviderResponse, ExecutionPlan, PlanningDecision, resolved_decision, has_steps,
  planning_decision, kinds_by_state,
}
use master_control.Planning.Turn.{
  classify_turn_decision, validate_provider_response, is_waiting, has_failed,
}
use master_control.Planning.Request.{answered}
use master_control.Planning.Loop.{Agent, Turn, LoopEnd, run_planning_loop}
use master_control.Planning.Reads.{Reads, run_planning_loop-Reads}
use master_control.Planning.Signatures.{EndsAt, run_planning_loop-distinct}
use master_control.Planning.Bounds.{plans, run_planning_loop-bounded}
use master_control.Planning.Verdicts.{
  IsValid, planning_decision-IsValid, classify-IsValid, classify_complete,
}
use master_control.Examples.Data.{example_host, example_state, no_approvals, restart_spec}

abbrev memory_tool : Tool (List String)
memory_tool = record {
  spec = record restart_spec { name = "memory_usage"; risk = RiskLevel.read_only };
  invoke = λ arguments done.
      (returned (Fields.field "status" (Value.str "ok") Fields.end), "memory" ∷ done);
}

abbrev reading_host : Host (List String)
reading_host = record example_host { tools = ("memory_usage", memory_tool) ∷ example_host.tools }

abbrev diagnosis : ExecutionPlan
diagnosis = record {
  intent = "diagnose_performance";
  steps =
      record { tool_name = "memory_usage"; rationale = ""; arguments = Fields.end }
      ∷ record { tool_name = "restart_service"; rationale = ""; arguments = Fields.end }
      ∷ [];
}

abbrev diagnosing : ProviderResponse
diagnosing = record {
  message = "looking";
  plan = some diagnosis;
  response_id = none;
  decision = none;
  metadata = Fields.end;
}

abbrev complete_response : ProviderResponse
complete_response = record diagnosing { plan = none }

abbrev example_agent : Agent (List String) (Unit {0}) String
example_agent = record {
  configured_provider = "heuristic";
  provider_name = "heuristic";
  plan = λ request p. (answered diagnosing, p);
  list_tools = [];
  summarize_execution = λ execution. "";
  load_observation_freshness = λ s. [];
  build_session_context = λ summary freshness s. "";
  update_session_summary = λ summary plan executions message. summary;
}

abbrev example_turn : Turn
example_turn = record { user_input = "why is it slow?"; session_id = 1; conversation_history = [] }

run_planning_loop-Reads_example :
    Reads reading_host 1
      (example_state no_approvals)
      (run_planning_loop reading_host example_agent example_turn none [] none
        (example_state no_approvals)
        tt).1
run_planning_loop-Reads_example =
    run_planning_loop-Reads reading_host example_agent example_turn none [] none
      (example_state no_approvals) tt

abbrev example_end : LoopEnd String × State (List String) × Unit {0}
example_end =
    run_planning_loop reading_host example_agent example_turn none [] none
      (example_state no_approvals) tt

run_planning_loop-distinct_example :
    EndsAt reading_host example_agent example_turn
      (example_state no_approvals)
      example_end.0
      example_end.1
run_planning_loop-distinct_example =
    run_planning_loop-distinct reading_host example_agent example_turn none [] none
      (example_state no_approvals) tt

run_planning_loop-bounded_example :
    plans
      (run_planning_loop reading_host example_agent example_turn none [] none
        (example_state no_approvals)
        tt).1
    ≤ plans (example_state no_approvals) + 6
run_planning_loop-bounded_example =
    run_planning_loop-bounded reading_host example_agent example_turn none [] none
      (example_state no_approvals) tt

abbrev blocked_decision : PlanningDecision
blocked_decision = record {
  state = "blocked";
  reason = "no safe tool";
  kind = "unsupported_request";
}

accepts_blocked : planning_decision "blocked" "no safe tool" none ≡ value blocked_decision
unfolding planning_decision strip kinds_by_state master_control.Planning.Decisions.resolved_kind
accepts_blocked = refl

planning_decision-IsValid_example :
    IsValid blocked_decision
    × (blocked_decision.state ≡ "blocked")
    × (blocked_decision.reason ≡ "no safe tool")
planning_decision-IsValid_example =
    planning_decision-IsValid "blocked" "no safe tool" none blocked_decision accepts_blocked

answer-IsValid : IsValid (resolved_decision diagnosing)
unfolding resolved_decision has_steps kinds_by_state strip
answer-IsValid = (refl, refl, refl)

abbrev failed_execution : Fields
failed_execution = dict_of (("ok", Value.bool false) ∷ [])

abbrev good_execution : Fields
good_execution = dict_of (("ok", Value.bool true) ∷ [])

classify-IsValid_example : IsValid (classify_turn_decision diagnosing (failed_execution ∷ []))
classify-IsValid_example = classify-IsValid diagnosing (failed_execution ∷ []) answer-IsValid

completes : (classify_turn_decision complete_response (good_execution ∷ [])).state ≡ "complete"
unfolding classify_turn_decision is_waiting has_failed master_control.Value.get_truth
    master_control.Value.get master_control.Value.put_all master_control.Value.is_true
    master_control.Planning.Turn.should_continue_planning
completes = refl

classify_complete_example :
    (any is_waiting (good_execution ∷ []) ≡ false) × (any has_failed (good_execution ∷ []) ≡ false)
classify_complete_example = classify_complete complete_response (good_execution ∷ []) completes
