-- ===== src/Runtime/Recommend.antt =====
-- `run_recommendation_action` of core/runtime.py.
use master_control.Prelude.{
  ℕ, String, Bool, true, false, Option, none, some, [], ◌∷◌, concat, decimal, if◌then◌else◌,
}
use master_control.Value.{get_or_false, Value, Fields, ℤ, dict_of}
use master_control.Recommendations.Rows as Recommendations
use master_control.Runtime.State.{value, raised, Host, State, Outcome, record_audit_event}
use master_control.Runtime.Commands.{get_recommendation}
use master_control.Runtime.RunTool.{run_tool}

unfoldable pub is_accepted : Recommendations.Status → Bool
is_accepted Recommendations.Status.accepted = true
is_accepted _ = false

-- The dict that `run_recommendation_action` returns.
pub record ActionRun : Type 0 where
  pub recommendation : Recommendations.Row
  pub execution : Fields

unfoldable pub not_accepted : ℕ → String
not_accepted n = concat (
    "Recommendation must be in 'accepted' status before its action can run. Use `mc recommendation "
    ∷ decimal n
    ∷ " accepted` or `/recommendation "
    ∷ decimal n
    ∷ " accepted` first."
    ∷ [])

unfoldable pub action_context : ℕ → Recommendations.Row → Fields
action_context n r = dict_of (
    ("source", Value.str "recommendation_action")
    ∷ ("recommendation_id", Value.int (ℤ.pos n))
    ∷ ("session_id", Value.int (ℤ.pos r.session_id))
    ∷ [])

module _ {World : Type 0} (host : Host World) where
  open host use {codec}

  unfoldable pub report_action :
      ℕ
      → Bool
      → Recommendations.Row
      → String
      → Outcome Fields
      → State World
      → Outcome ActionRun × State World
  report_action n confirmed r tool (raised text) s = (raised text, s)
  report_action n confirmed r tool (value execution) s = (
    value (record { recommendation = r; execution = execution }),
    record_audit_event "recommendation_action_requested"
        (dict_of (
          ("recommendation_id", Value.int (ℤ.pos n))
          ∷ ("session_id", Value.int (ℤ.pos r.session_id))
          ∷ ("tool", Value.str tool)
          ∷ ("confirmed", Value.bool confirmed)
          ∷ ("ok", get_or_false "ok" execution)
          ∷ ("pending_confirmation", get_or_false "pending_confirmation" execution)
          ∷ []))
        s,
  )

  -- The stored action of a row has a tool name that is not empty.
  unfoldable pub run_action :
      ℕ
      → Bool
      → Recommendations.Row
      → Option Recommendations.StoredAction
      → State World
      → Outcome ActionRun × State World
  run_action n confirmed r none s = (raised "Recommendation has no executable action.", s)
  run_action n confirmed r (some a) s =
      let (out, s') = run_tool host a.tool_name a.arguments confirmed (action_context n r) s in
      report_action n confirmed r a.tool_name out s'

  unfoldable pub run_accepted :
      ℕ → Bool → Option Recommendations.Row → State World → Outcome ActionRun × State World
  run_accepted n confirmed none s =
      (raised (concat ("Unknown recommendation_id: " ∷ decimal n ∷ [])), s)
  run_accepted n confirmed (some r) s =
      if is_accepted r.status
      then run_action n confirmed r (Recommendations.stored_action codec r) s
      else (raised (not_accepted n), s)

  unfoldable pub run_recommendation_action :
      ℕ → Bool → State World → Outcome ActionRun × State World
  run_recommendation_action n confirmed s =
      run_accepted n confirmed (get_recommendation codec (ℤ.pos n) s.recommendations) s
