-- ===== src/Planning/Signatures.antt =====
-- The calls of `run_tool` across the planning loop of core/runtime.py, and their signatures.
use mathlib.Core.Path.{subst}
use mathlib.Core.List.{append-nil}
use master_control.Prelude.{
  ℕ, zero, suc, String, false, Option, none, some, List, [], ◌++◌, ◌≡◌, ◌∙◌, sym, ap, inl, inr,
  refl, any, List-cases, Bool-cases, arith, ◌==◌,
}
use master_control.Value.{Fields}
use master_control.Codec.{Codec}
use master_control.Observations.Freshness.{ObservationFreshness}
use master_control.Runtime.State.{Host, State, Outcome-cases, value, record_audit_event}
use master_control.Planning.Decisions.{
  PlanStep, ExecutionPlan, PlanningDecision, ProviderResponse, has_steps, resolved_decision,
}
use master_control.Planning.Turn.{validate_provider_response, has_failed, should_continue_planning}
use master_control.Planning.Request.{Planned, answered, refused, broken}
use master_control.Planning.Execute.{Executed, execute_plan}
use master_control.Planning.Calls.{
  Calls, signatures_of, IsDistinct, Covers, plan_steps, Reports, execute_plan-Executes, stay,
  recorded,
}
use master_control.Planning.Loop.{
  Agent, Turn, Locals, LoopEnd, finished, Next, Next-cases, again, leave, handle_response,
  handle_planned, act_on_decision, after_execution, extended, iterate, run_planning_loop, request,
  provider_error, crashed, plan_generated,
}

-- The executions are what the calls returned, and every step of the last answer's plan was called, or one
-- with its signature was.
abbrev pub Tells : {C : Type 0} → Codec → List PlanStep → List Fields → Locals C → Type 0
Tells codec called es l =
    (l.executions ≡ es) × Covers codec called (plan_steps l.last_response.plan)

abbrev pub EndTells : {C : Type 0} → Codec → List PlanStep → List Fields → LoopEnd C → Type 0
EndTells codec called es (finished l) = Tells codec called es l
EndTells codec called es (provider_error text) = Unit
EndTells codec called es (crashed text) = Unit

abbrev NextTells : {C : Type 0} → Codec → List PlanStep → List Fields → Next C → Type 0
NextTells codec called es (again l) =
    (l.signatures ≡ signatures_of codec called) × Tells codec called es l
NextTells codec called es (leave end) = EndTells codec called es end

plan_steps-none : (plan : Option ExecutionPlan) → has_steps plan ≡ false → plan_steps plan ≡ []
unfolding has_steps
plan_steps-none none h = refl
plan_steps-none (some plan) h = elim (List-cases plan.steps) [
  | inl e ↦ e
  | inr (x, xs, e) ↦ let wrong = rw e at h in ground (arith, wrong)
]

-- An answer that the loop accepts without a need for tools has no steps.
no-steps :
    (r : ProviderResponse) (d : PlanningDecision)
    → validate_provider_response r ≡ value d
    → (d.state == "needs_tools") ≡ false
    → plan_steps r.plan ≡ []
unfolding validate_provider_response
no-steps r d h k = elim (Bool-cases (has_steps r.plan)) [
  | inr e ↦ plan_steps-none r.plan e
  | inl e ↦ elim (Bool-cases ((resolved_decision r).state == "needs_tools")) [
    | inl f ↦
        let same : value (resolved_decision r) ≡ value d = ground (arith, h, e, f) in
        let equal : resolved_decision r ≡ d = cc in
        let wrong =
          subst (λ (d : PlanningDecision). (d.state == "needs_tools") ≡ false) (sym equal) k in
        ground (arith, wrong, f)
    | inr f ↦ ground (arith, h, e, f)
  ]
]

module _ {World P Context : Type 0} (host : Host World) (agent : Agent World P Context)
    (turn : Turn) (start : State World) where
  open host use {codec}

  abbrev pub EndsAt : LoopEnd Context → State World → Type 0
  EndsAt end s =
      (called : List PlanStep) × (es : List Fields) × Calls host turn.session_id start called es s
      × IsDistinct (signatures_of codec called)
      × EndTells codec called es end

  abbrev NextAt : Next Context → State World → Type 0
  NextAt next s =
      (called : List PlanStep) × (es : List Fields) × Calls host turn.session_id start called es s
      × IsDistinct (signatures_of codec called)
      × NextTells codec called es next

  after_execution-Tells :
      (l : Locals Context) (r : ProviderResponse) (done : Executed) (s : State World)
      (called : List PlanStep) (es : List Fields)
      → l.last_response ≡ r
      → Reports host turn.session_id start l.executions l.signatures
          (plan_steps r.plan)
          called
          es
          (value done)
      → NextTells codec called es (after_execution host agent turn l r done s)
  unfolding after_execution extended
  after_execution-Tells l r done s called es is (same, all, grows, covers) =
      let covered : Covers codec called (plan_steps l.last_response.plan) =
        subst (λ (r : ProviderResponse). Covers codec called (plan_steps r.plan)) (sym is) covers in
      elim (List-cases done.executions) [
        | inl e ↦
            rw (e, after_execution)
              (sym (all ∙ ap (λ xs. l.executions ++ xs) e ∙ append-nil l.executions), covered)
        | inr (x, xs, e) ↦ elim (Bool-cases (any has_failed done.executions)) [
          | inl f ↦ rw (e, after_execution) (rw f (sym all, covered))
          | inr f ↦ elim (Bool-cases (should_continue_planning r.plan)) [
            | inl c ↦ rw (e, after_execution) (rw f (rw c (same, (sym all, covered))))
            | inr c ↦ rw (e, after_execution) (rw f (rw c (sym all, covered)))
          ]
        ]
      ]

  act_on_decision-At :
      (l : Locals Context) (r : ProviderResponse) (d : PlanningDecision) (s : State World)
      (called : List PlanStep) (es : List Fields)
      → validate_provider_response r ≡ value d
      → l.last_response ≡ r
      → Calls host turn.session_id start called es s
      → IsDistinct (signatures_of codec called)
      → l.signatures ≡ signatures_of codec called
      → l.executions ≡ es
      → (let x = act_on_decision host agent turn l r d s in NextAt x.0 x.1)
  unfolding act_on_decision
  act_on_decision-At l r d s called es valid is c apart same all =
      let c' = subst (λ es. Calls host turn.session_id start called es s) (sym all) c in
      let (called', es', calls, apart', reports) =
        execute_plan-Executes host turn.session_id start r.plan called l.signatures l.executions s
          c' same apart in
      elim (Bool-cases (d.state == "needs_tools")) [
        | inr e ↦
            rw (e, act_on_decision)
              (
                called,
                es,
                c,
                apart,
                (
                  all,
                  subst (Covers codec called)
                      (sym (
                        ap (λ (r : ProviderResponse). plan_steps r.plan) is ∙ no-steps r d valid e))
                      tt,
                ),
              )
        | inl e ↦ elim (Outcome-cases (execute_plan host turn.session_id r.plan l.signatures s).0) [
          | inr (t, q) ↦ rw (e, act_on_decision) (rw q (called', es', calls, apart', tt))
          | inl (x, q) ↦
              rw (e, act_on_decision)
                (rw q (
                  called',
                  es',
                  calls,
                  apart',
                  after_execution-Tells l r x _ called' es' is (rw q at reports),
                ))
        ]
      ]

  handle_planned-At :
      (n : ℕ) (l : Locals Context) (planned : Planned) (s : State World)
      → NextAt (again l) s
      → (let x = handle_planned host agent turn n l planned s in NextAt x.0 x.1)
  unfolding handle_planned handle_response
  handle_planned-At n l (refused t) s (called, es, c, apart, h) = (called, es, c, apart, tt)
  handle_planned-At n l (broken t) s (called, es, c, apart, h) = (called, es, c, apart, tt)
  handle_planned-At n l (answered r) s (called, es, c, apart, (same, (all, covered))) =
      elim (Outcome-cases (validate_provider_response r)) [
        | inr (t, e) ↦ rw (e, handle_response) (called, es, c, apart, tt)
        | inl (d, e) ↦
            rw (e, handle_response)
              (act_on_decision-At _ r d
                (record_audit_event "plan_generated" (plan_generated host agent turn n _ r) s)
                called es e refl (recorded _ c) apart same all)
      ]

  iterate-At :
      (left n : ℕ) (l : Locals Context) (s : State World) (p : P)
      → NextAt (again l) s
      → (let x = iterate host agent turn left n l s p in EndsAt x.0 x.1)
  unfolding iterate
  iterate-At zero n l s p (called, es, c, apart, (same, tells)) = (called, es, c, apart, tells)
  iterate-At (suc left) n l s p h =
      let (planned, p') = agent.plan (request host agent turn n l) p in
      let next = handle_planned-At n l planned s h in
      elim (Next-cases (handle_planned host agent turn n l planned s).0) [
        | inl (end, e) ↦ rw (e, iterate) (rw e at next)
        | inr (l', e) ↦ rw (e, iterate) (iterate-At left (suc n) l' _ p' (rw e at next))
      ]

module _ {World P Context : Type 0} (host : Host World) (agent : Agent World P Context)
    (turn : Turn) where
  -- However the loop ends, its state is reached by recording plans and by calls of `run_tool` without a
  -- confirmation, no two of them with the same signature, in one plan or in two. When the loop ends
  -- without an exception, its executions are what these calls returned, and each step of the last answer's
  -- plan was called or has the signature of a step that was.
  pub run_planning_loop-distinct :
      (summary : Option String) (freshness : List ObservationFreshness) (previous : Option String)
      (s : State World) (p : P)
      → (let x = run_planning_loop host agent turn summary freshness previous s p in
          EndsAt host agent turn s x.0 x.1)
  unfolding run_planning_loop master_control.Planning.Loop.first_response
  run_planning_loop-distinct summary freshness previous s p =
      iterate-At host agent turn s _ 0 _ s p ([], [], stay, tt, (refl, (refl, tt)))
