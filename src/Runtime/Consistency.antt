-- ===== src/Runtime/Consistency.antt =====
-- The invariant of the table `tool_approvals` across `run_tool` of core/runtime.py.
use mathlib.Core.Path.{subst}
use master_control.Prelude.{
  String, ◌≡◌, refl, sym, inl, inr, Bool, not, ◌&&◌, Option, none, some, Bool-cases, Option-cases,
  lookup, is_some, if◌then◌else◌, false,
}
use master_control.Value.{Fields, get, is_plain_int}
use master_control.Tools.Spec.{ToolSpec}
use master_control.Policy.Rules.{PolicyDecision}
use master_control.Approvals.Rows.{Status, ToolApproval, is_active, is_pending, is_executing}
use master_control.Approvals.Invariant.{
  IsConsistent, create_tool_approval-IsConsistent, finish_tool_approval-IsConsistent,
  prepare-IsConsistent,
}
use master_control.Runtime.State.{
  returned, tool_error, crashed, Invoked, Tool, Host, State, Outcome-cases, record_audit_event,
}
use master_control.Runtime.Claims.{Claim, finalize_claimed, claim_matching, evaluate_policy}
use master_control.Runtime.Keeps.{observe-keeps}
use master_control.Runtime.RunTool.{
  answer, answer_request, requested, fail_call, request_confirmation, observe, succeed, conclude,
  execute, act, run_found, run_tool,
}

module _ {World : Type 0} (host : Host World) where
  open host use {codec, now, tools}

  finalize-IsConsistent :
      (claimed : Option ToolApproval) (status : Status) (payload : Fields) (s : State World)
      → is_active status ≡ false
      → IsConsistent s.approvals
      → IsConsistent (finalize_claimed host claimed status payload s).approvals
  unfolding finalize_claimed
  finalize-IsConsistent none status payload s final c = c
  finalize-IsConsistent (some a) status payload s final c =
      finish_tool_approval-IsConsistent codec (now s.world) a.id status payload s.approvals final c

  fail_call-IsConsistent :
      (claimed : Option ToolApproval) (payload : Fields) (s : State World)
      → IsConsistent s.approvals
      → IsConsistent (fail_call host claimed payload s).1.approvals
  unfolding fail_call answer record_audit_event is_active is_pending is_executing
  fail_call-IsConsistent claimed payload s c =
      finalize-IsConsistent claimed Status.failed payload s refl c

  answer_request-IsConsistent :
      (base : Fields) (created : Option ToolApproval) (s : State World)
      → IsConsistent s.approvals
      → IsConsistent (answer_request host base created s).1.approvals
  unfolding answer_request answer record_audit_event
  answer_request-IsConsistent base none s c = c
  answer_request-IsConsistent base (some a) s c = c

  succeed-IsConsistent :
      (spec : ToolSpec) (arguments : Fields) (d : PolicyDecision) (claim : Claim) (result : Fields)
      (s : State World)
      → IsConsistent s.approvals
      → IsConsistent (succeed host spec arguments d claim result s).1.approvals
  unfolding succeed record_audit_event is_active is_pending is_executing
  succeed-IsConsistent spec arguments d claim result s c =
      let c' =
        subst IsConsistent
          (sym (
            observe-keeps host (λ x. x.approvals) (λ os x. refl) spec arguments claim.context result
              s))
          c in
      elim (Outcome-cases (observe host spec arguments claim.context result s).0) [
        | inl (u, q) ↦
            rw (q, succeed) (finalize-IsConsistent claim.claimed Status.completed _ _ refl c')
        | inr (text, q) ↦ rw (q, succeed) c'
      ]

  conclude-IsConsistent :
      (spec : ToolSpec) (arguments : Fields) (d : PolicyDecision) (claim : Claim)
      (invoked : Invoked) (s : State World)
      → IsConsistent s.approvals
      → IsConsistent (conclude host spec arguments d claim invoked s).1.approvals
  unfolding conclude
  conclude-IsConsistent spec arguments d claim (returned result) s c =
      succeed-IsConsistent spec arguments d claim result s c
  conclude-IsConsistent spec arguments d claim (tool_error text) s c =
      fail_call-IsConsistent claim.claimed _ s c
  conclude-IsConsistent spec arguments d claim (crashed text) s c = c

  act-IsConsistent :
      (tool : Tool World) (arguments : Fields) (confirmed : Bool) (d : PolicyDecision)
      (claim : Claim) (s : State World)
      → IsConsistent s.approvals
      → IsConsistent (act host tool arguments confirmed d claim s).1.approvals
  unfolding act execute request_confirmation answer record_audit_event
  act-IsConsistent tool arguments confirmed d claim s c = elim (Bool-cases d.allowed) [
    | inr e ↦ rw (e, act) (fail_call-IsConsistent claim.claimed _ s c)
    | inl e ↦
        elim (Option-cases
          (if confirmed && not (is_some claim.claimed) then claim.matching else none)) [
            | inr (a, q) ↦ rw (e, act) (rw (q, act) c)
            | inl q ↦ elim (Bool-cases (d.needs_confirmation && not confirmed)) [
              | inl k ↦
                  rw (e, act)
                    (rw (q, act)
                      (rw (k, act)
                        (answer_request-IsConsistent _ _ _ (
                          create_tool_approval-IsConsistent codec (now s.world)
                            (requested host tool.spec arguments claim.context s) s.approvals c))))
              | inr k ↦
                  rw (e, act)
                    (rw (q, act)
                      (rw (k, act) (conclude-IsConsistent tool.spec arguments d claim _ _ c)))
            ]
          ]
  ]

  claim_matching-IsConsistent :
      (spec : ToolSpec) (arguments : Fields) (confirmed : Bool) (context : Fields) (s : State World)
      → IsConsistent s.approvals
      → IsConsistent (claim_matching host spec arguments confirmed context s).1.approvals
  unfolding claim_matching
  claim_matching-IsConsistent spec arguments confirmed context s c =
      elim (Bool-cases (confirmed && not (is_plain_int (get "approval_id" context)))) [
        | inl e ↦
            rw (e, claim_matching)
              (prepare-IsConsistent codec (now s.world) spec.name arguments context s.approvals c)
        | inr e ↦ rw (e, claim_matching) c
      ]

  -- A call of `run_tool` keeps the table of approvals consistent, whether it returns or raises.
  pub run_tool-IsConsistent :
      (name : String) (arguments : Fields) (confirmed : Bool) (context : Fields) (s : State World)
      → IsConsistent s.approvals
      → IsConsistent (run_tool host name arguments confirmed context s).1.approvals
  unfolding run_tool run_found evaluate_policy answer record_audit_event
  run_tool-IsConsistent name arguments confirmed context s c =
      elim (Option-cases (lookup name tools)) [
        | inl e ↦ rw (e, run_tool) c
        | inr (tool, e) ↦
            rw (e, run_tool)
              (act-IsConsistent tool arguments confirmed _ _ _
                (claim_matching-IsConsistent tool.spec arguments confirmed context s c))
      ]
