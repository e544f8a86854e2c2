-- ===== src/Planning/Bounds.antt =====
-- The audit events of the planning loop of core/runtime.py.
use master_control.Prelude.{
  length, ℕ, zero, suc, String, Bool, false, Option, none, some, List, [], ◌∷◌, ◌+◌, ◌≤◌, ◌≡◌, ◌∙◌,
  ap, inl, inr, refl, contains, count_by, count_by-append, Bool-cases, arith, ◌==◌,
}
use master_control.Value.{Fields}
use master_control.Observations.Freshness.{ObservationFreshness}
use master_control.Runtime.State.{
  AuditEvent, Host, State, Outcome, Outcome-cases, value, raised, record_audit_event,
}
use master_control.Runtime.RunTool.{run_tool}
use master_control.Runtime.Trail.{run_tool-records}
use master_control.Planning.Decisions.{PlanStep, ExecutionPlan, PlanningDecision, ProviderResponse}
use master_control.Planning.Turn.{validate_provider_response}
use master_control.Planning.Request.{Planned, answered, refused, broken}
use master_control.Planning.Execute.{
  Executed, step_signature, chat_context, prepend, execute_steps, execute_plan,
}
use master_control.Planning.Loop.{
  Agent, Turn, Locals, Next-cases, handle_response, handle_planned, act_on_decision, plan_generated,
  newer_id, iterate, run_planning_loop, request,
}

abbrev pub is_plan_event : AuditEvent → Bool
is_plan_event e = e.event_type == "plan_generated"

-- How many plans the trail has.
abbrev pub plans : {W : Type 0} → State W → ℕ
plans s = count_by is_plan_event s.audit

abbrev pub events : {W : Type 0} → State W → ℕ
events s = length s.audit

module _ {World : Type 0} (host : Host World) where
  -- A tool's call is no plan.
  run_tool-plans :
      (name : String) (arguments : Fields) (confirmed : Bool) (context : Fields) (s : State World)
      → plans (run_tool host name arguments confirmed context s).1 ≡ plans s
  run_tool-plans name arguments confirmed context s =
      let records = run_tool-records host name arguments confirmed context s in
      elim (Outcome-cases (run_tool host name arguments confirmed context s).0) [
        | inl (x, q) ↦
            let (e, after, kind, _) = rw q at records in
            rw after (rw (count_by-append is_plan_event s.audit (e ∷ [])) (rw kind (omega arith)))
        | inr (t, q) ↦ let same = rw q at records in ap (count_by is_plan_event) same
      ]

  prepend-plans :
      (n : ℕ) (e : Fields) (x : Outcome Executed × State World)
      → plans x.1 ≡ n
      → plans (prepend e x).1 ≡ n
  unfolding prepend
  prepend-plans n e (value d, s) h = h
  prepend-plans n e (raised t, s) h = h

  execute_steps-plans :
      (session : ℕ) (steps : List PlanStep) (seen : List String) (s : State World)
      → plans (execute_steps host session steps seen s).1 ≡ plans s
  unfolding execute_steps
  execute_steps-plans session [] seen s = refl
  execute_steps-plans session (step ∷ steps) seen s =
      let signature = step_signature host.codec step.tool_name step.arguments in
      elim (Bool-cases (contains seen signature)) [
        | inl e ↦ rw (e, execute_steps) (execute_steps-plans session steps seen s)
        | inr e ↦
            let next =
              run_tool-plans step.tool_name step.arguments false (chat_context session) s in
            elim (Outcome-cases
              (run_tool host step.tool_name step.arguments false (chat_context session) s).0) [
                | inr (t, q) ↦ rw (e, execute_steps) (rw q next)
                | inl (x, q) ↦
                    rw (e, execute_steps)
                      (rw q (
                        prepend-plans (plans s) x _
                          (execute_steps-plans session steps (signature ∷ seen) _ ∙ next)))
              ]
      ]

  execute_plan-plans :
      (session : ℕ) (plan : Option ExecutionPlan) (seen : List String) (s : State World)
      → plans (execute_plan host session plan seen s).1 ≡ plans s
  unfolding execute_plan
  execute_plan-plans session none seen s = refl
  execute_plan-plans session (some plan) seen s = execute_steps-plans session plan.steps seen s

module _ {World P Context : Type 0} (host : Host World) (agent : Agent World P Context)
    (turn : Turn) where
  act_on_decision-plans :
      (l : Locals Context) (r : ProviderResponse) (d : PlanningDecision) (s : State World)
      → plans (act_on_decision host agent turn l r d s).1 ≡ plans s
  unfolding act_on_decision
  act_on_decision-plans l r d s =
      let next = execute_plan-plans host turn.session_id r.plan l.signatures s in
      elim (Bool-cases (d.state == "needs_tools")) [
        | inr e ↦ rw (e, act_on_decision) refl
        | inl e ↦ elim (Outcome-cases (execute_plan host turn.session_id r.plan l.signatures s).0) [
          | inl (x, q) ↦ rw (e, act_on_decision) (rw q next)
          | inr (t, q) ↦ rw (e, act_on_decision) (rw q next)
        ]
      ]

  record-plans :
      (payload : Fields) (s : State World)
      → plans (record_audit_event "plan_generated" payload s) ≡ plans s + 1
  unfolding record_audit_event
  record-plans payload s =
      count_by-append is_plan_event s.audit
        (record { event_type = "plan_generated"; payload = payload } ∷ [])

  handle_planned-plans :
      (n : ℕ) (l : Locals Context) (planned : Planned) (s : State World)
      → plans (handle_planned host agent turn n l planned s).1 ≤ plans s + 1
  unfolding handle_planned handle_response
  handle_planned-plans n l (refused t) s = omega arith
  handle_planned-plans n l (broken t) s = omega arith
  handle_planned-plans n l (answered r) s = elim (Outcome-cases (validate_provider_response r)) [
    | inr (t, e) ↦ rw (e, handle_response) (omega arith)
    | inl (d, e) ↦
        let l' : Locals Context = record l {
          last_response = r;
          previous_response_id = newer_id r.response_id l.previous_response_id;
        } in
        let payload = plan_generated host agent turn n l' r in
        let rest = act_on_decision-plans l' r d (record_audit_event "plan_generated" payload s) in
        let one = record-plans payload s in rw (e, handle_response) (omega (arith, rest, one))
  ]

  iterate-plans :
      (left n : ℕ) (l : Locals Context) (s : State World) (p : P)
      → plans (iterate host agent turn left n l s p).1 ≤ plans s + left
  unfolding iterate
  iterate-plans zero n l s p = omega arith
  iterate-plans (suc left) n l s p =
      let (planned, p') = agent.plan (request host agent turn n l) p in
      let next = handle_planned-plans n l planned s in
      elim (Next-cases (handle_planned host agent turn n l planned s).0) [
        | inl (end, e) ↦ rw (e, iterate) (omega (arith, next))
        | inr (l', e) ↦
            let rest =
              iterate-plans left (suc n) l' (handle_planned host agent turn n l planned s).1 p' in
            rw (e, iterate) (omega (arith, next, rest))
      ]

  -- Whatever the provider answers, and however the loop ends, it appends at most six plan_generated events to
  -- the audit trail.
  pub run_planning_loop-bounded :
      (summary : Option String) (freshness : List ObservationFreshness) (previous : Option String)
      (s : State World) (p : P)
      → plans (run_planning_loop host agent turn summary freshness previous s p).1 ≤ plans s + 6
  unfolding run_planning_loop
  run_planning_loop-bounded summary freshness previous s p = iterate-plans 6 0 _ s p
