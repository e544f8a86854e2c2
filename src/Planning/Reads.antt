-- ===== src/Planning/Reads.antt =====
-- The host across the planning loop of core/runtime.py.
use master_control.Prelude.{
  true, ℕ, String, false, Option, some, List, ◌≡◌, ◌∙◌, sym, ap, inl, inr, lookup, arith,
}
use master_control.Value.{Fields}
use master_control.Tools.Spec.{is_read_only}
use master_control.Policy.Engine.{requires_confirmation}
use master_control.Policy.Permits.{Permits}
use master_control.Observations.Freshness.{ObservationFreshness}
use master_control.Runtime.State.{Tool, Host, State, Outcome, record_audit_event}
use master_control.Runtime.Authority.{policy_in, run_tool-authority}
use master_control.Runtime.RunTool.{run_tool}
use master_control.Planning.Decisions.{PlanStep}
use master_control.Planning.Execute.{chat_context}
use master_control.Planning.Calls.{Calls, stay, recorded, returns, raises}
use master_control.Planning.Signatures.{run_planning_loop-distinct}
use master_control.Planning.Loop.{Agent, Turn, run_planning_loop}

-- The states that are reached from `start` by plans that are recorded and by calls of `run_tool` without a
-- confirmation, each of which leaves the host alone (`asked`) or calls a registered read-only tool that the
-- policy in the state of the call permits without a confirmation (`read`).
pub data Reads {World : Type 0} (host : Host World) (session : ℕ) (start : State World)
    : State World → Type 0 where
  unmoved : Reads host session start start
  planned :
      {s : State World} (payload : Fields)
      → Reads host session start s
      → Reads host session start (record_audit_event "plan_generated" payload s)
  asked :
      {s : State World} (step : PlanStep) (s' : State World)
      → Reads host session start s
      → (run_tool host step.tool_name step.arguments false (chat_context session) s).1 ≡ s'
      → s'.world ≡ s.world
      → Reads host session start s'
  read :
      {s : State World} (step : PlanStep) (tool : Tool World) (s' : State World)
      → Reads host session start s
      → (run_tool host step.tool_name step.arguments false (chat_context session) s).1 ≡ s'
      → lookup step.tool_name host.tools ≡ some tool
      → is_read_only tool.spec.risk ≡ true
      → requires_confirmation (lookup tool.spec.name (policy_in host s).tool_rules) ≡ false
      → Permits host.texts (policy_in host s) tool.spec step.arguments
      → s'.world ≡ (tool.invoke step.arguments s.world).1
      → Reads host session start s'

module _ {World : Type 0} (host : Host World) (session : ℕ) (start : State World) where
  -- One call without a confirmation.
  run_tool-Reads :
      (step : PlanStep) (out : Outcome Fields) (s s' : State World)
      → Reads host session start s
      → run_tool host step.tool_name step.arguments false (chat_context session) s ≡ (out, s')
      → Reads host session start s'
  run_tool-Reads step out s s' h q =
      let here = ap (λ (x : Outcome Fields × State World). x.1) q in
      let same = ap (λ (x : Outcome Fields × State World). x.1.world) q in
      elim (run_tool-authority host step.tool_name step.arguments false (chat_context session) s) [
        | inl e ↦ asked step s' h here (sym same ∙ e)
        | inr (tool, found, (permits, why), e) ↦ elim why [
          | inl wrong ↦ ground (arith, wrong)
          | inr (safe, free) ↦ read step tool s' h here found safe free permits (sym same ∙ e)
        ]
      ]

  Calls-Reads :
      {steps : List PlanStep} {es : List Fields} {s : State World}
      → Calls host session start steps es s
      → Reads host session start s
  Calls-Reads stay = unmoved
  Calls-Reads (recorded payload c) = planned payload (Calls-Reads c)
  Calls-Reads (returns step e s' c q) = run_tool-Reads step _ _ s' (Calls-Reads c) q
  Calls-Reads (raises step text s' c q) = run_tool-Reads step _ _ s' (Calls-Reads c) q

module _ {World P Context : Type 0} (host : Host World) (agent : Agent World P Context)
    (turn : Turn) where
  -- Whatever the provider answers, in every iteration, and however the loop ends, its state is reached by
  -- recording plans and by calls of `run_tool` each of which leaves the host as it was or changes it as a
  -- registered read-only tool does, whose call the policy in force at that moment permits without a
  -- confirmation.
  pub run_planning_loop-Reads :
      (summary : Option String) (freshness : List ObservationFreshness) (previous : Option String)
      (s : State World) (p : P)
      → Reads host turn.session_id s
          (run_planning_loop host agent turn summary freshness previous s p).1
  run_planning_loop-Reads summary freshness previous s p =
      let (called, es, c, apart, tells) =
        run_planning_loop-distinct host agent turn summary freshness previous s p in
      Calls-Reads host turn.session_id s c
