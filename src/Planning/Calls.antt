-- ===== src/Planning/Calls.antt =====
-- The calls of `run_tool` that `_execute_plan` of core/runtime.py makes, as a relation on states.
use mathlib.Core.Path.{subst}
use mathlib.Core.List.{append-nil, append_assoc}
use master_control.Prelude.{
  ℕ, String, true, false, Option, none, some, List, [], ◌∷◌, ◌++◌, map, All, ◌≡◌, ◌∙◌, sym, ap, inl,
  inr, contains, Bool-cases, arith, eq_iff,
}
use master_control.Value.{Fields}
use master_control.Codec.{Codec}
use master_control.Runtime.State.{
  Host, State, Outcome, Outcome-cases, value, raised, record_audit_event,
}
use master_control.Runtime.RunTool.{run_tool}
use master_control.Planning.Decisions.{PlanStep, ExecutionPlan}
use master_control.Planning.Execute.{
  Executed, step_signature, chat_context, prepend, execute_steps, execute_plan,
}

-- The states that are reached from `start` by calls of `run_tool` without a confirmation, with the steps that
-- were called, the latest first, and what the calls returned. Between the calls only plans are recorded.
pub data Calls {World : Type 0} (host : Host World) (session : ℕ) (start : State World)
    : List PlanStep → List Fields → State World → Type 0 where
  stay : Calls host session start [] [] start
  recorded :
      {steps : List PlanStep} {es : List Fields} {s : State World} (payload : Fields)
      → Calls host session start steps es s
      → Calls host session start steps es (record_audit_event "plan_generated" payload s)
  returns :
      {steps : List PlanStep} {es : List Fields} {s : State World} (step : PlanStep) (e : Fields)
      (s' : State World)
      → Calls host session start steps es s
      → run_tool host step.tool_name step.arguments false (chat_context session) s ≡ (value e, s')
      → Calls host session start (step ∷ steps) (es ++ e ∷ []) s'
  raises :
      {steps : List PlanStep} {es : List Fields} {s : State World} (step : PlanStep) (text : String)
      (s' : State World)
      → Calls host session start steps es s
      → run_tool host step.tool_name step.arguments false (chat_context session) s
        ≡ (raised text, s')
      → Calls host session start (step ∷ steps) es s'

abbrev pub signature_of : Codec → PlanStep → String
signature_of codec step = step_signature codec step.tool_name step.arguments

abbrev pub signatures_of : Codec → List PlanStep → List String
signatures_of codec steps = map (signature_of codec) steps

-- No text stands in the list twice.
abbrev pub IsDistinct : List String → Type 0
IsDistinct [] = Unit
IsDistinct (x ∷ xs) = (contains xs x ≡ false) × IsDistinct xs

-- Every step has its signature among those of the called steps.
abbrev pub Covers : Codec → List PlanStep → List PlanStep → Type 0
Covers codec called steps =
    All (λ step. contains (signatures_of codec called) (signature_of codec step) ≡ true) steps

abbrev pub plan_steps : Option ExecutionPlan → List PlanStep
plan_steps none = []
plan_steps (some plan) = plan.steps

module _ {World : Type 0} (host : Host World) (session : ℕ) (start : State World) where
  open host use {codec}

  -- What an execution that started after the executions `es` and with the texts `seen` returns.
  abbrev pub Reports :
      List Fields
      → List String
      → List PlanStep
      → List PlanStep
      → List Fields
      → Outcome Executed
      → Type 0
  Reports es seen steps called es' (raised text) = Unit
  Reports es seen steps called es' (value done) =
      (done.signatures ≡ signatures_of codec called)
      × (es' ≡ es ++ done.executions)
      × ((t : String) → contains seen t ≡ true → contains done.signatures t ≡ true)
      × Covers codec called steps

  abbrev pub Executes :
      List Fields → List String → List PlanStep → Outcome Executed × State World → Type 0
  Executes es seen steps x =
      (called : List PlanStep) × (es' : List Fields) × Calls host session start called es' x.1
      × IsDistinct (signatures_of codec called)
      × Reports es seen steps called es' x.0

  -- A step whose signature was seen is covered.
  skip-Executes :
      (step : PlanStep) (steps : List PlanStep) (es : List Fields) (seen : List String)
      (x : Outcome Executed × State World)
      → contains seen (signature_of codec step) ≡ true
      → Executes es seen steps x
      → Executes es seen (step ∷ steps) x
  skip-Executes step steps es seen (raised t, s) e h = h
  skip-Executes step steps es seen (value done, s) e
        (called, es', c, d, (same, all, grows, covers)) =
      let old = subst (λ xs. contains xs (signature_of codec step) ≡ true) same (grows _ e) in
      (called, es', c, d, (same, all, grows, (old, covers)))

  prepend-Executes :
      (step : PlanStep) (steps : List PlanStep) (es : List Fields) (seen : List String) (e : Fields)
      (x : Outcome Executed × State World)
      → Executes (es ++ e ∷ []) (signature_of codec step ∷ seen) steps x
      → Executes es seen (step ∷ steps) (prepend e x)
  unfolding prepend
  prepend-Executes step steps es seen e (raised t, s) (called, es', c, d, h) =
      (called, es', c, d, tt)
  prepend-Executes step steps es seen e (value done, s)
        (called, es', c, d, (same, all, grows, covers)) =
      let mine =
        subst (λ xs. contains xs (signature_of codec step) ≡ true) same
          (grows (signature_of codec step)
            (ground (arith, eq_iff (signature_of codec step) (signature_of codec step)))) in
      (
        called,
        es',
        c,
        d,
        (same, all ∙ append_assoc es _ _, λ t h. grows t (ground (arith, h)), (mine, covers)),
      )

  execute_steps-Executes :
      (steps called : List PlanStep) (seen : List String) (es : List Fields) (s : State World)
      → Calls host session start called es s
      → seen ≡ signatures_of codec called
      → IsDistinct (signatures_of codec called)
      → Executes es seen steps (execute_steps host session steps seen s)
  unfolding execute_steps
  execute_steps-Executes [] called seen es s c same d =
      (called, es, c, d, (same, sym (append-nil es), λ t h. h, tt))
  execute_steps-Executes (step ∷ steps) called seen es s c same d =
      let signature = step_signature codec step.tool_name step.arguments in
      let s' = (run_tool host step.tool_name step.arguments false (chat_context session) s).1 in
      elim (Bool-cases (contains seen signature)) [
        | inl e ↦
            rw (e, execute_steps)
              (skip-Executes step steps es seen _ e
                (execute_steps-Executes steps called seen es s c same d))
        | inr e ↦
            let fresh = subst (λ xs. contains xs signature ≡ false) same e in
            elim (Outcome-cases
              (run_tool host step.tool_name step.arguments false (chat_context session) s).0) [
                | inr (t, q) ↦
                    rw (e, execute_steps)
                      (rw q (
                        step ∷ called,
                        es,
                        raises step t s' c (ap (λ o. (o, s')) q),
                        (fresh, d),
                        tt,
                      ))
                | inl (x, q) ↦
                    rw (e, execute_steps)
                      (rw q (
                        prepend-Executes step steps es seen x _ (
                          execute_steps-Executes steps (step ∷ called) (signature ∷ seen)
                            (es ++ x ∷ []) s' (returns step x s' c (ap (λ o. (o, s')) q))
                            (ap (λ xs. signature ∷ xs) same) (fresh, d))))
              ]
      ]

  pub execute_plan-Executes :
      (plan : Option ExecutionPlan) (called : List PlanStep) (seen : List String) (es : List Fields)
      (s : State World)
      → Calls host session start called es s
      → seen ≡ signatures_of codec called
      → IsDistinct (signatures_of codec called)
      → Executes es seen (plan_steps plan) (execute_plan host session plan seen s)
  unfolding execute_plan
  execute_plan-Executes none called seen es s c same d =
      (called, es, c, d, (same, sym (append-nil es), λ t h. h, tt))
  execute_plan-Executes (some plan) called seen es s c same d =
      execute_steps-Executes plan.steps called seen es s c same d
