-- ===== src/Planning/Decisions.antt =====
-- shared/planning.py, and ProviderResponse of providers/base.py.
use master_control.Prelude.{
  String, Bool, true, false, not, Option, none, some, List, [], ◌∷◌, contains, ◌==◌, is_empty,
  strip, concat, if◌then◌else◌,
}
use master_control.Value.{Value, Items, Fields, dict_of}
use master_control.Runtime.State.{Outcome, value, raised}

pub record PlanStep : Type 0 where
  pub tool_name : String
  pub rationale : String
  pub arguments : Fields

pub record ExecutionPlan : Type 0 where
  pub intent : String
  pub steps : List PlanStep

pub record PlanningDecision : Type 0 where
  pub state : String
  pub reason : String
  pub kind : String

pub record ProviderResponse : Type 0 where
  pub message : String
  pub plan : Option ExecutionPlan
  pub response_id : Option String
  pub decision : Option PlanningDecision
  pub metadata : Fields

abbrev pub planning_decision_states : List String
planning_decision_states = "needs_tools" ∷ "complete" ∷ "blocked" ∷ []

-- PLANNING_DECISION_KINDS_BY_STATE; a state has at least one kind.
unfoldable pub kinds_by_state : String → List String
kinds_by_state state =
    if state == "needs_tools"
    then "inspection_request" ∷ "diagnostic_step" ∷ "refresh_required" ∷ []
    else if state == "complete"
    then "evidence_sufficient" ∷ []
    else if state == "blocked"
    then "unsupported_request" ∷ "missing_safe_tool" ∷ "awaiting_confirmation" ∷ "execution_failed"
      ∷ []
    else []

first_or_empty : List String → String
first_or_empty [] = ""
first_or_empty (k ∷ kinds) = k

-- `self.kind or allowed_kinds[0]`
unfoldable pub resolved_kind : String → Option String → String
unfolding first_or_empty
resolved_kind state none = first_or_empty (kinds_by_state state)
resolved_kind state (some kind) =
    if is_empty kind then first_or_empty (kinds_by_state state) else kind

-- The constructor of PlanningDecision with `__post_init__`; `raised` is its ValueError.
unfoldable pub planning_decision : String → String → Option String → Outcome PlanningDecision
planning_decision state reason kind =
    if not (contains planning_decision_states state)
    then raised (concat ("Invalid planning decision state: " ∷ state ∷ []))
    else if is_empty (strip reason)
    then raised "Planning decision reason cannot be empty."
    else if not (contains (kinds_by_state state) (resolved_kind state kind))
    then raised (
        concat (
          "Invalid planning decision kind for state "
          ∷ state
          ∷ ": "
          ∷ resolved_kind state kind
          ∷ []))
    else value (record { state = state; reason = reason; kind = resolved_kind state kind })

unfoldable pub decision_dict : PlanningDecision → Fields
decision_dict d = dict_of (
    ("state", Value.str d.state) ∷ ("kind", Value.str d.kind) ∷ ("reason", Value.str d.reason) ∷ [])

unfoldable pub step_dict : PlanStep → Fields
step_dict step = dict_of (
    ("tool_name", Value.str step.tool_name)
    ∷ ("rationale", Value.str step.rationale)
    ∷ ("arguments", Value.dict step.arguments)
    ∷ [])

step_items : List PlanStep → Items
step_items [] = Items.nil
step_items (step ∷ steps) = Items.cons (Value.dict (step_dict step)) (step_items steps)

unfoldable pub plan_dict : ExecutionPlan → Fields
unfolding step_items
plan_dict plan =
    dict_of (("intent", Value.str plan.intent) ∷ ("steps", Value.list (step_items plan.steps)) ∷ [])

-- `bool(plan and plan.steps)`
unfoldable pub has_steps : Option ExecutionPlan → Bool
has_steps none = false
has_steps (some plan) = elim plan.steps [ [] ↦ false | _ ∷ _ ↦ true ]

unfoldable pub resolved_decision : ProviderResponse → PlanningDecision
resolved_decision r = elim r.decision [
  | some d ↦ d
  | none ↦
      if has_steps r.plan
      then record {
        state = "needs_tools";
        reason = "Provider returned executable tool steps.";
        kind = "inspection_request";
      }
      else record {
        state = "complete";
        reason = "Provider returned no further tool steps.";
        kind = "evidence_sufficient";
      }
]
