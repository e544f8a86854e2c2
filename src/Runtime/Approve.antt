-- ===== src/Runtime/Approve.antt =====
-- `approve_tool_approval` and `reject_tool_approval` of core/runtime.py: the operator's answer to an
-- approval, by its id.
use master_control.Prelude.{
  ℕ, String, true, false, Option, none, some, [], ◌∷◌, concat, decimal, is_empty, if◌then◌else◌,
}
use master_control.Value.{is_true, get_or_false, Value, Fields, ℤ, put, merge, dict_of}
use master_control.Approvals.Rows.{Status, ToolApproval, status_text}
use master_control.Approvals.Methods.{
  get_tool_approval, claim_tool_approval, finish_tool_approval, reject_tool_approval,
}
use master_control.Runtime.State.{value, raised, Host, State, Outcome, record_audit_event}
use master_control.Runtime.RunTool.{run_tool}

-- The status that the approval of a call ends with.
unfoldable pub final_status : Fields → Status
final_status execution =
    if is_true (get_or_false "ok" execution) then Status.completed else Status.failed

-- The dict that `approve_tool_approval` returns.
pub record Approved : Type 0 where
  pub approval : ToolApproval
  pub execution : Fields

-- The error for an approval that is not pending.
unfoldable pub refusal : ℕ → String → Option ToolApproval → String
refusal n verb none = concat ("Unknown approval_id: " ∷ decimal n ∷ [])
refusal n verb (some a) = concat (
    "Approval "
    ∷ decimal n
    ∷ " is in status '"
    ∷ status_text a.status
    ∷ "' and cannot "
    ∷ verb
    ∷ "."
    ∷ [])

-- The payload that an approval is ended with after an exception.
unfoldable pub exception_payload : ToolApproval → Fields → String → Fields
exception_payload a context text = put "error" (Value.str text) (
    merge
      (dict_of (
        ("ok", Value.bool false)
        ∷ ("tool", Value.str a.tool)
        ∷ ("arguments", Value.dict a.arguments)
        ∷ []))
      context)

module _ {World : Type 0} (host : Host World) where
  open host use {codec, now}

  unfoldable pub reject_approval : ℕ → State World → Outcome ToolApproval × State World
  reject_approval n s =
      let (rejected, approvals) = reject_tool_approval codec (now s.world) n s.approvals in
      let s' : State World = record s { approvals = approvals } in
      elim rejected [
        | none ↦ (raised (refusal n "be rejected" (get_tool_approval codec n approvals)), s')
        | some a ↦ (
          value a,
          record_audit_event "tool_approval_rejected"
              (dict_of (
                ("approval_id", Value.int (ℤ.pos n))
                ∷ ("tool", Value.str a.tool)
                ∷ ("risk", Value.str a.risk)
                ∷ ("audit_context", Value.dict a.audit_context)
                ∷ []))
              s',
        )
      ]

  -- After an exception of `run_tool`, which is raised again.
  unfoldable pub approve_failed :
      ℕ → ToolApproval → Fields → String → State World → Outcome Approved × State World
  approve_failed n a context text s =
      let (finished, approvals) =
        finish_tool_approval codec (now s.world) n Status.failed (exception_payload a context text)
          s.approvals in
      let s' =
        record_audit_event "tool_approval_execution"
          (dict_of (
            ("approval_id", Value.int (ℤ.pos n))
            ∷ ("tool", Value.str a.tool)
            ∷ ("ok", Value.bool false)
            ∷ ("error", Value.str text)
            ∷ []))
          (record s { approvals = approvals }) in
      elim finished [
        | none ↦ (
          raised (
              concat
                ("Tool approval " ∷ decimal n ∷ " could not be finalized after failure." ∷ [])),
          s',
        )
        | some _ ↦ (raised text, s')
      ]

  -- After `run_tool` has returned.
  unfoldable pub approve_returned :
      ℕ → ToolApproval → Fields → State World → Outcome Approved × State World
  approve_returned n a execution s =
      let (finished, approvals) =
        finish_tool_approval codec (now s.world) n (final_status execution) execution s.approvals in
      let s' : State World = record s { approvals = approvals } in
      elim finished [
        | none ↦
            (raised (concat ("Tool approval " ∷ decimal n ∷ " could not be finalized." ∷ [])), s')
        | some final ↦ (
          value (record { approval = final; execution = execution }),
          record_audit_event "tool_approval_execution"
              (dict_of (
                ("approval_id", Value.int (ℤ.pos n))
                ∷ ("tool", Value.str a.tool)
                ∷ ("ok", get_or_false "ok" execution)
                ∷ ("pending_confirmation", get_or_false "pending_confirmation" execution)
                ∷ []))
              s',
        )
      ]

  unfoldable pub approve_result :
      ℕ → ToolApproval → Fields → Outcome Fields → State World → Outcome Approved × State World
  approve_result n a context (value execution) s = approve_returned n a execution s
  approve_result n a context (raised text) s = approve_failed n a context text s

  -- The approval that was claimed is run, and then finished.
  unfoldable pub run_claimed : ℕ → ToolApproval → State World → Outcome Approved × State World
  run_claimed n a s =
      let context = put "approval_id" (Value.int (ℤ.pos n)) a.audit_context in
      let (out, s') = run_tool host a.tool a.arguments true context s in
      if is_empty a.tool
      then (raised (concat ("Approval " ∷ decimal n ∷ " is missing a valid tool name." ∷ [])), s)
      else approve_result n a context out s'

  unfoldable pub approve_claimed :
      ℕ → Option ToolApproval → State World → Outcome Approved × State World
  approve_claimed n none s = (raised (refusal n "run" (get_tool_approval codec n s.approvals)), s)
  approve_claimed n (some a) s = run_claimed n a s

  unfoldable pub approve_tool_approval : ℕ → State World → Outcome Approved × State World
  approve_tool_approval n s =
      let (claimed, approvals) = claim_tool_approval codec (now s.world) n s.approvals in
      approve_claimed n claimed (record s { approvals = approvals })
