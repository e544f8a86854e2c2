-- ===== src/Planning/Request.antt =====
-- What a planning iteration asks the provider (providers/base.py), and its prompt
-- (interfaces/agent/turn_planning.py).
use master_control.Prelude.{
  ℕ, String, ◌+◌, Option, some, List, [], ◌∷◌, map, eqb, concat, join, decimal, if◌then◌else◌,
}
use master_control.Value.{Fields}
use master_control.Tools.Spec.{ToolSpec}
use master_control.Observations.Freshness.{ObservationFreshness}
use master_control.Planning.Decisions.{ProviderResponse}

pub record ConversationMessage : Type 0 where
  pub role : String
  pub content : String
  pub created_at : Option String

-- `Context` is the SessionContext.
pub record ProviderRequest (Context : Type 0) : Type 0 where
  pub user_message : String
  pub available_tools : List ToolSpec
  pub conversation_history : List ConversationMessage
  pub session_summary : Option String
  pub session_context : Context
  pub observation_freshness : List ObservationFreshness
  pub previous_response_id : Option String
  pub system_prompt : Option String

-- `provider.plan`: it returns, raises ProviderError, or raises any other exception.
pub data Planned : Type 0 where
  answered : ProviderResponse → Planned
  refused : String → Planned
  broken : String → Planned

observation_line : (Fields → String) → Fields → String
observation_line summarize execution = concat ("- " ∷ summarize execution ∷ [])

-- `summarize` is `summarize_execution_for_planner`.
unfoldable pub build_turn_planning_prompt :
    (Fields → String) → String → ℕ → List Fields → Option String
unfolding observation_line
build_turn_planning_prompt summarize user_input iteration [] = some (
    if eqb iteration 0
    then join "\n" (
        "Current-turn planning guardrails:"
        ∷ concat ("- original_user_request: " ∷ user_input ∷ [])
        ∷ "- For live host inspection requests, do not answer from memory alone."
        ∷ "- If the user asks about current memory, disk, processes, service state, logs, or host metadata, return decision.state=needs_tools and call the matching read-only tool first."
        ∷ "- Only return decision.state=complete on the first planning pass when the request is non-operational, already fully answered by the provided context, or safely unsupported."
        ∷ [])
    else concat (
        "This is a continuation of the same user request. "
        ∷ "If enough information is already available, return decision.state=complete with no steps."
        ∷ []))
build_turn_planning_prompt summarize user_input iteration (execution ∷ executions) = some (
    join "\n" (
      "Current-turn planning context:"
      ∷ concat ("- original_user_request: " ∷ user_input ∷ [])
      ∷ concat ("- planning_iteration: " ∷ decimal (iteration + 1) ∷ [])
      ∷ "- Return an explicit planner decision: needs_tools, complete, or blocked."
      ∷ "- Do not repeat tool calls that already ran in this same turn unless the user explicitly asked to rerun them."
      ∷ "- If the observations below are already enough, return decision.state=complete, no steps, and summarize the findings."
      ∷ "- If the request cannot continue safely with the available tools, return decision.state=blocked."
      ∷ "- If a prior step failed or requires confirmation, do not propose dependent steps."
      ∷ "Execution observations:"
      ∷ join "\n" (map (observation_line summarize) (execution ∷ executions))
      ∷ []))
