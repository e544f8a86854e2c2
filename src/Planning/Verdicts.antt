-- ===== src/Planning/Verdicts.antt =====
-- What the decisions of shared/planning.py and interfaces/agent/turn_planning.py mean.
use mathlib.Core.Path.{subst}
use master_control.Prelude.{
  String, Bool, true, false, not, ◌&&◌, Option, List, ◌≡◌, ◌∙◌, sym, inl, inr, refl, contains, any,
  Bool-cases, arith, ◌==◌, eq_iff, is_empty, strip, if◌then◌else◌,
}
use master_control.Value.{Fields}
use master_control.Runtime.State.{value}
use master_control.Planning.Decisions.{
  PlanningDecision, ProviderResponse, planning_decision_states, kinds_by_state, planning_decision,
  resolved_kind, resolved_decision,
}
use master_control.Planning.Turn.{
  is_nonempty, classify_turn_decision, should_continue_planning, is_waiting, has_failed,
  awaiting_confirmation, execution_failed, evidence_sufficient, refresh_required,
  collect_planned_refresh_keys,
}

-- The state is one of the three, the reason is not blank, and the kind is one of the state's.
abbrev pub IsValid : PlanningDecision → Type 0
IsValid d =
    (contains planning_decision_states d.state ≡ true)
    × (is_empty (strip d.reason) ≡ false)
    × (contains (kinds_by_state d.state) d.kind ≡ true)

-- A decision that the constructor accepts is valid, with the given state and reason.
pub planning_decision-IsValid :
    (state reason : String) (kind : Option String) (d : PlanningDecision)
    → planning_decision state reason kind ≡ value d
    → IsValid d × (d.state ≡ state) × (d.reason ≡ reason)
unfolding planning_decision
planning_decision-IsValid state reason kind d h =
    elim (Bool-cases (contains planning_decision_states state)) [
      | inr e ↦ ground (arith, e, h)
      | inl e ↦ elim (Bool-cases (is_empty (strip reason))) [
        | inl f ↦ ground (arith, e, f, h)
        | inr f ↦ elim (Bool-cases (contains (kinds_by_state state) (resolved_kind state kind))) [
          | inr g ↦ ground (arith, e, f, g, h)
          | inl g ↦
              let made : PlanningDecision = record {
                state = state;
                reason = reason;
                kind = resolved_kind state kind;
              } in
              let same : value made ≡ value d = ground (arith, e, f, g, h) in
              let equal : made ≡ d = cc in
              subst (λ (d : PlanningDecision). IsValid d × (d.state ≡ state) × (d.reason ≡ reason))
                equal ((e, f, g), refl, refl)
        ]
      ]
    ]

chosen-IsValid :
    (b : Bool) (c d : PlanningDecision) → IsValid c → IsValid d → IsValid (if b then c else d)
chosen-IsValid true c d h k = h
chosen-IsValid false c d h k = k

-- A turn that answered is classified with a valid decision, provided that the provider's own is valid.
pub classify-IsValid :
    (r : ProviderResponse) (executions : List Fields)
    → IsValid (resolved_decision r)
    → IsValid (classify_turn_decision r executions)
unfolding classify_turn_decision kinds_by_state strip
classify-IsValid r executions h =
    let d = resolved_decision r in
    let refreshing =
      d.state == "needs_tools" && is_nonempty (collect_planned_refresh_keys r.plan) in
    let enough = is_nonempty executions && not (should_continue_planning r.plan) in
    let last = chosen-IsValid refreshing refresh_required d (refl, refl, refl) h in
    let done =
      chosen-IsValid enough evidence_sufficient (if refreshing then refresh_required else d)
        (refl, refl, refl) last in
    let failed =
      chosen-IsValid (any has_failed executions) execution_failed
        (if enough then evidence_sufficient else if refreshing then refresh_required else d)
        (refl, refl, refl) done in
    chosen-IsValid (any is_waiting executions) awaiting_confirmation
      (if any has_failed executions
        then execution_failed
        else if enough
        then evidence_sufficient
        else if refreshing
        then refresh_required
        else d)
      (refl, refl, refl) failed

blocked_complete : (s : String) → s ≡ "blocked" → s ≡ "complete" → ⊥
blocked_complete s e h =
    let same : ("blocked" == "complete") ≡ true = (eq_iff "blocked" "complete").1 (sym e ∙ h) in
    ground (arith, same)

-- A turn that is classified as complete executed no step that failed or that waits for a confirmation.
pub classify_complete :
    (r : ProviderResponse) (executions : List Fields)
    → (classify_turn_decision r executions).state ≡ "complete"
    → (any is_waiting executions ≡ false) × (any has_failed executions ≡ false)
unfolding classify_turn_decision
classify_complete r executions h = elim (Bool-cases (any is_waiting executions)) [
  | inl e ↦ absurd (blocked_complete "blocked" refl (rw (e, classify_turn_decision) at h))
  | inr e ↦ elim (Bool-cases (any has_failed executions)) [
    | inl f ↦
        let step = rw (e, classify_turn_decision) at h in
        absurd (blocked_complete "blocked" refl (rw f at step))
    | inr f ↦ (e, f)
  ]
]
