-- ===== src/Runtime/Claims.antt =====
-- The parts of `run_tool` of core/runtime.py: the payloads, the claim of a matching approval and its
-- end, and the evaluation of the policy.
use master_control.Prelude.{
  String, Bool, false, not, ◌&&◌, Option, none, some, [], ◌∷◌, if◌then◌else◌,
}
use master_control.Value.{Value, Fields, ℤ, get, put, merge, dict_of, is_plain_int, text_or_null}
use master_control.Tools.Spec.{ToolSpec, risk_text}
use master_control.Policy.Rules.{PolicyDecision}
use master_control.Policy.Engine.{evaluate}
use master_control.Policy.Loader.{load}
use master_control.Approvals.Rows.{Status, ToolApproval, MatchOutcome, ExecutionMatch, status_text}
use master_control.Approvals.Methods.{
  prepare_matching_tool_approval_for_execution, finish_tool_approval,
}
use master_control.Runtime.State.{Host, State}

-- `decision.as_dict()`
unfoldable pub decision_dict : PolicyDecision → Fields
decision_dict d = dict_of (
    ("allowed", Value.bool d.allowed)
    ∷ ("needs_confirmation", Value.bool d.needs_confirmation)
    ∷ ("reason", Value.str d.reason)
    ∷ [])

-- `_format_tool_approval`
unfoldable pub format_tool_approval : ToolApproval → Fields
format_tool_approval a = dict_of (
    ("id", Value.int (ℤ.pos a.id))
    ∷ ("tool", Value.str a.tool)
    ∷ ("risk", Value.str a.risk)
    ∷ ("arguments", Value.dict a.arguments)
    ∷ ("audit_context", Value.dict a.audit_context)
    ∷ ("summary", Value.str a.summary)
    ∷ ("cli_command", Value.str a.cli_command)
    ∷ ("chat_command", Value.str a.chat_command)
    ∷ ("status", Value.str (status_text a.status))
    ∷ ("execution", elim a.execution [ none ↦ Value.null | some d ↦ Value.dict d ])
    ∷ ("error", text_or_null a.error)
    ∷ ("created_at", Value.str a.created_at)
    ∷ ("updated_at", Value.str a.updated_at)
    ∷ ("resolved_at", text_or_null a.resolved_at)
    ∷ [])

-- What the search for a matching approval leaves in the local variables.
pub record Claim : Type 0 where
  pub matching : Option ToolApproval
  pub claimed : Option ToolApproval
  pub context : Fields

unfoldable pub claim_of : Fields → ExecutionMatch → Claim
claim_of context found = elim found.outcome [
  | MatchOutcome.claimed ↦ elim found.approval [
    | some a ↦ record {
      matching = some a;
      claimed = some a;
      context = put "approval_id" (Value.int (ℤ.pos a.id)) context;
    }
    | none ↦ record { matching = none; claimed = none; context = context }
  ]
  | _ ↦ record { matching = found.approval; claimed = none; context = context }
]

-- The keys of the audit record that come before the context.
unfoldable pub audit_base : ToolSpec → Fields → PolicyDecision → Fields → Fields
audit_base spec arguments decision context =
    merge
      (dict_of (
        ("tool", Value.str spec.name)
        ∷ ("risk", Value.str (risk_text spec.risk))
        ∷ ("arguments", Value.dict arguments)
        ∷ ("policy", Value.dict (decision_dict decision))
        ∷ []))
      context

-- `{"ok": False, **base, "error": message}`
unfoldable pub failure : Fields → String → Fields
failure base message =
    put "error" (Value.str message) (merge (dict_of (("ok", Value.bool false) ∷ [])) base)

module _ {World : Type 0} (host : Host World) where
  open host use {codec, texts, now}

  -- `_finalize_claimed_tool_approval`
  unfoldable pub finalize_claimed :
      Option ToolApproval → Status → Fields → State World → State World
  finalize_claimed none status payload s = s
  finalize_claimed (some a) status payload s = record s {
    approvals = (finish_tool_approval codec (now s.world) a.id status payload s.approvals).1;
  }

  -- The approval that a confirmed call is matched with.
  unfoldable pub claim_matching :
      ToolSpec → Fields → Bool → Fields → State World → Claim × State World
  claim_matching spec arguments confirmed context s =
      if confirmed && not (is_plain_int (get "approval_id" context))
      then (let (found, approvals) =
            prepare_matching_tool_approval_for_execution codec (now s.world) spec.name arguments
              context s.approvals in
          (claim_of context found, record s { approvals = approvals }))
      else (record { matching = none; claimed = none; context = context }, s)

  -- `policy.evaluate`, which loads the policy first.
  unfoldable pub evaluate_policy : ToolSpec → Fields → State World → PolicyDecision × State World
  evaluate_policy spec arguments s =
      let (policy, loader) = load host.resolve host.state_dir (host.policy_file s.world) s.loader in
      (evaluate texts policy spec arguments, record s { loader = loader })
