-- ===== src/Planning/Execute.antt =====
-- `_execute_plan` of core/runtime.py.
use master_control.Prelude.{
  ℕ, String, true, false, Option, none, some, List, [], ◌∷◌, contains, concat,
}
use master_control.Value.{Value, Fields, ℤ, dict_of}
use master_control.Codec.{Codec}
use master_control.Runtime.State.{Host, State, Outcome, value, raised}
use master_control.Runtime.RunTool.{run_tool}
use master_control.Planning.Decisions.{PlanStep, ExecutionPlan}

-- What `_execute_plan` returns, and the set of signatures that it leaves.
pub record Executed : Type 0 where
  pub executions : List Fields
  pub signatures : List String

unfoldable pub step_signature : Codec → String → Fields → String
step_signature codec tool arguments = concat (tool ∷ ":" ∷ codec.dumps (Value.dict arguments) ∷ [])

unfoldable pub chat_context : ℕ → Fields
chat_context session =
    dict_of (("source", Value.str "chat") ∷ ("session_id", Value.int (ℤ.pos session)) ∷ [])

unfoldable pub prepend : {S : Type 0} → Fields → Outcome Executed × S → Outcome Executed × S
prepend execution (value done, s) =
    (value (record done { executions = execution ∷ done.executions }), s)
prepend execution (raised text, s) = (raised text, s)

module _ {World : Type 0} (host : Host World) (session : ℕ) where
  open host use {codec}

  -- The loop over the steps; an exception of `run_tool` ends it.
  unfoldable pub execute_steps :
      List PlanStep → List String → State World → Outcome Executed × State World
  execute_steps [] seen s = (value (record { executions = []; signatures = seen }), s)
  execute_steps (step ∷ steps) seen s =
      let signature = step_signature codec step.tool_name step.arguments in
      elim (contains seen signature) [
        | true ↦ execute_steps steps seen s
        | false ↦
            let (out, s') =
              run_tool host step.tool_name step.arguments false (chat_context session) s in
            elim out [
              | raised text ↦ (raised text, s')
              | value execution ↦ prepend execution (execute_steps steps (signature ∷ seen) s')
            ]
      ]

  unfoldable pub execute_plan :
      Option ExecutionPlan → List String → State World → Outcome Executed × State World
  execute_plan none seen s = (value (record { executions = []; signatures = seen }), s)
  execute_plan (some plan) seen s = execute_steps plan.steps seen s
