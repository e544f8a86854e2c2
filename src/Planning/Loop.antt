-- ===== src/Planning/Loop.antt =====
-- `_run_planning_loop` of core/runtime.py.
use master_control.Prelude.{
  ◌≡◌, ◌⊎◌, inl, inr, refl, ℕ, zero, suc, String, Bool, false, not, Option, none, some, List, [],
  ◌∷◌, ◌++◌, any, is_empty, length, ◌==◌, if◌then◌else◌,
}
use master_control.Value.{Value, Fields, ℤ, dict_of, text_or_null}
use master_control.Tools.Spec.{ToolSpec}
use master_control.Observations.Freshness.{ObservationFreshness}
use master_control.Runtime.State.{Host, State, value, raised, record_audit_event}
use master_control.Runtime.RunTool.{text_items}
use master_control.Planning.Decisions.{
  ExecutionPlan, PlanningDecision, ProviderResponse, decision_dict, plan_dict, resolved_decision,
}
use master_control.Planning.Turn.{
  validate_provider_response, should_continue_planning, collect_planned_refresh_keys,
  collect_stale_observation_keys, has_failed,
}
use master_control.Planning.Request.{
  ConversationMessage, ProviderRequest, Planned, answered, refused, broken,
  build_turn_planning_prompt,
}
use master_control.Planning.Execute.{Executed, execute_plan}

-- What a turn uses that is not part of this model: the provider, whose own state is `P`, and the
-- functions of the session's summary, context and observations.
pub record Agent (World P Context : Type 0) : Type 0 where
  pub configured_provider : String
  pub provider_name : String
  pub plan : ProviderRequest Context → P → Planned × P
  pub list_tools : List ToolSpec
  pub summarize_execution : Fields → String
  pub load_observation_freshness : State World → List ObservationFreshness
  pub build_session_context : Option String → List ObservationFreshness → State World → Context
  pub update_session_summary :
      Option String → Option ExecutionPlan → List Fields → String → Option String

-- The arguments of the loop.
pub record Turn : Type 0 where
  pub user_input : String
  pub session_id : ℕ
  pub conversation_history : List ConversationMessage

-- The loop's local variables.
pub record Locals (Context : Type 0) : Type 0 where
  pub summary : Option String
  pub freshness : List ObservationFreshness
  pub context : Context
  pub executions : List Fields
  pub signatures : List String
  pub previous_response_id : Option String
  pub last_response : ProviderResponse

-- How the loop ends: with its variables, with a ProviderError, or with any other exception.
pub data LoopEnd (Context : Type 0) : Type 0 where
  finished : Locals Context → LoopEnd Context
  provider_error : String → LoopEnd Context
  crashed : String → LoopEnd Context

-- How an iteration ends.
pub data Next (Context : Type 0) : Type 0 where
  again : Locals Context → Next Context
  leave : LoopEnd Context → Next Context

pub Next-cases :
    {C : Type 0} (n : Next C)
    → ((end : LoopEnd C) × (n ≡ leave end)) ⊎ ((l : Locals C) × (n ≡ again l))
Next-cases (leave end) = inl (end, refl)
Next-cases (again l) = inr (l, refl)

abbrev pub max_planning_iterations : ℕ
max_planning_iterations = 6

-- `new or old`, for response ids.
unfoldable pub newer_id : Option String → Option String → Option String
newer_id none old = old
newer_id (some text) old = if is_empty text then old else some text

unfoldable pub is_present : Option String → Bool
is_present none = false
is_present (some text) = not (is_empty text)

plan_value : Option ExecutionPlan → Value
plan_value none = Value.null
plan_value (some plan) = Value.dict (plan_dict plan)

module _ {World P Context : Type 0} (host : Host World) (agent : Agent World P Context)
    (turn : Turn) where
  -- The payload of `_record_plan_generated`.
  unfoldable pub plan_generated : ℕ → Locals Context → ProviderResponse → Fields
  unfolding plan_value
  plan_generated iteration l response = dict_of (
      ("source", Value.str "chat")
      ∷ ("session_id", Value.int (ℤ.pos turn.session_id))
      ∷ ("configured_provider", Value.str agent.configured_provider)
      ∷ ("provider_backend", Value.str agent.provider_name)
      ∷ ("user_message", Value.str turn.user_input)
      ∷ ("history_size", Value.int (ℤ.pos (length turn.conversation_history)))
      ∷ ("summary_present", Value.bool (is_present l.summary))
      ∷ ("message", Value.str response.message)
      ∷ ("provider_metadata", Value.dict response.metadata)
      ∷ ("response_id", text_or_null response.response_id)
      ∷ ("decision", Value.dict (decision_dict (resolved_decision response)))
      ∷ ("plan", plan_value response.plan)
      ∷ (
        "stale_observation_keys",
        Value.list (text_items (collect_stale_observation_keys l.freshness)),
      )
      ∷ (
        "planned_refresh_keys",
        Value.list (text_items (collect_planned_refresh_keys response.plan)),
      )
      ∷ ("iteration", Value.int (ℤ.pos iteration))
      ∷ ("prior_execution_count", Value.int (ℤ.pos (length l.executions)))
      ∷ [])

  unfoldable pub request : ℕ → Locals Context → ProviderRequest Context
  request iteration l = record {
    user_message = turn.user_input;
    available_tools = agent.list_tools;
    conversation_history = turn.conversation_history;
    session_summary = l.summary;
    session_context = l.context;
    observation_freshness = l.freshness;
    previous_response_id = l.previous_response_id;
    system_prompt =
        build_turn_planning_prompt agent.summarize_execution turn.user_input iteration l.executions;
  }

  -- The variables after the new executions.
  unfoldable pub extended :
      Locals Context → ProviderResponse → Executed → State World → Locals Context
  extended l response done s =
      let summary =
        agent.update_session_summary l.summary response.plan done.executions response.message in
      let freshness = agent.load_observation_freshness s in
      record l {
        summary = summary;
        freshness = freshness;
        context = agent.build_session_context summary freshness s;
        executions = l.executions ++ done.executions;
        signatures = done.signatures;
      }

  -- What follows `_execute_plan`.
  unfoldable pub after_execution :
      Locals Context → ProviderResponse → Executed → State World → Next Context
  after_execution l response done s =
      let l' = extended l response done s in
      elim done.executions [
        | [] ↦ leave (finished (record l { signatures = done.signatures }))
        | _ ∷ _ ↦
            if any has_failed done.executions
            then leave (finished l')
            else if not (should_continue_planning response.plan)
            then leave (finished l')
            else again l'
      ]

  unfoldable pub act_on_decision :
      Locals Context
      → ProviderResponse
      → PlanningDecision
      → State World
      → Next Context × State World
  act_on_decision l response d s =
      let (out, s') = execute_plan host turn.session_id response.plan l.signatures s in
      if not (d.state == "needs_tools") then (leave (finished l), s) else elim out [
        | raised text ↦ (leave (crashed text), s')
        | value done ↦ (after_execution l response done s', s')
      ]

  -- What follows the provider's answer.
  unfoldable pub handle_response :
      ℕ → Locals Context → ProviderResponse → State World → Next Context × State World
  handle_response iteration l response s =
      let l' : Locals Context = record l {
        last_response = response;
        previous_response_id = newer_id response.response_id l.previous_response_id;
      } in
      elim (validate_provider_response response) [
        | raised text ↦ (leave (provider_error text), s)
        | value d ↦
            act_on_decision l' response d
              (record_audit_event "plan_generated" (plan_generated iteration l' response) s)
      ]

  unfoldable pub handle_planned :
      ℕ → Locals Context → Planned → State World → Next Context × State World
  handle_planned iteration l (answered response) s = handle_response iteration l response s
  handle_planned iteration l (refused text) s = (leave (provider_error text), s)
  handle_planned iteration l (broken text) s = (leave (crashed text), s)

  -- The iterations that are left.
  unfoldable pub iterate :
      ℕ → ℕ → Locals Context → State World → P → LoopEnd Context × State World × P
  iterate zero iteration l s p = (finished l, s, p)
  iterate (suc left) iteration l s p =
      let (planned, p') = agent.plan (request iteration l) p in
      let (next, s') = handle_planned iteration l planned s in
      elim next [ leave end ↦ (end, s', p') | again l' ↦ iterate left (suc iteration) l' s' p' ]

  unfoldable pub first_response : ProviderResponse
  first_response = record {
    message = "Ainda não consegui gerar uma resposta útil para este pedido.";
    plan = none;
    response_id = none;
    decision = none;
    metadata = Fields.end;
  }

  unfoldable pub run_planning_loop :
      Option String
      → List ObservationFreshness
      → Option String
      → State World
      → P
      → LoopEnd Context × State World × P
  run_planning_loop summary freshness previous s p =
      iterate max_planning_iterations 0
        (record {
          summary = summary;
          freshness = freshness;
          context = agent.build_session_context summary freshness s;
          executions = [];
          signatures = [];
          previous_response_id = previous;
          last_response = first_response;
        })
        s p
