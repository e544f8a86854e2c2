-- ===== src/Runtime/Idle.antt =====
-- The table `tool_approvals` after a confirmed `run_tool` whose context names an approval.
use master_control.Prelude.{
  String, ◌≡◌, ◌∙◌, refl, inl, inr, true, false, not, ◌&&◌, Option, none, some, Bool-cases,
  Option-cases, arith, lookup, is_some, if◌then◌else◌,
}
use master_control.Value.{Fields, get, is_plain_int}
use master_control.Tools.Spec.{ToolSpec}
use master_control.Policy.Rules.{PolicyDecision}
use master_control.Approvals.Rows.{Status, Table, ToolApproval}
use master_control.Runtime.State.{
  returned, tool_error, crashed, Invoked, Tool, Host, State, Outcome, Outcome-cases,
  record_audit_event,
}
use master_control.Runtime.Claims.{Claim, finalize_claimed, claim_matching, evaluate_policy}
use master_control.Runtime.Keeps.{observe-keeps}
use master_control.Runtime.RunTool.{
  answer, fail_call, observe, succeed, conclude, execute, act, run_found, run_tool,
}

module _ {World : Type 0} (host : Host World) where
  open host use {codec, now, tools}

  -- A call that claimed nothing and is confirmed leaves the approvals alone.
  abbrev Idle : Option ToolApproval → Table → Outcome Fields × State World → Type 0
  Idle claimed t (o, s) = claimed ≡ none → s.approvals ≡ t

  finalize-Idle :
      (claimed : Option ToolApproval) (status : Status) (payload : Fields) (s : State World)
      → claimed ≡ none
      → (finalize_claimed host claimed status payload s).approvals ≡ s.approvals
  unfolding finalize_claimed
  finalize-Idle none status payload s e = refl
  finalize-Idle (some a) status payload s e = cc

  fail_call-Idle :
      (claimed : Option ToolApproval) (payload : Fields) (s : State World)
      → Idle claimed s.approvals (fail_call host claimed payload s)
  unfolding fail_call answer record_audit_event
  fail_call-Idle claimed payload s e = finalize-Idle claimed Status.failed payload s e

  succeed-Idle :
      (spec : ToolSpec) (arguments : Fields) (d : PolicyDecision) (claim : Claim) (result : Fields)
      (s : State World)
      → Idle claim.claimed s.approvals (succeed host spec arguments d claim result s)
  unfolding succeed record_audit_event
  succeed-Idle spec arguments d claim result s e =
      let same =
        observe-keeps host (λ x. x.approvals) (λ os x. refl) spec arguments claim.context result
          s in
      elim (Outcome-cases (observe host spec arguments claim.context result s).0) [
        | inl (u, q) ↦ rw (q, succeed) (finalize-Idle claim.claimed Status.completed _ _ e ∙ same)
        | inr (text, q) ↦ rw (q, succeed) same
      ]

  conclude-Idle :
      (spec : ToolSpec) (arguments : Fields) (d : PolicyDecision) (claim : Claim)
      (invoked : Invoked) (s : State World)
      → Idle claim.claimed s.approvals (conclude host spec arguments d claim invoked s)
  unfolding conclude
  conclude-Idle spec arguments d claim (returned result) s e =
      succeed-Idle spec arguments d claim result s e
  conclude-Idle spec arguments d claim (tool_error text) s e = fail_call-Idle claim.claimed _ s e
  conclude-Idle spec arguments d claim (crashed text) s e = refl

  act-Idle :
      (tool : Tool World) (arguments : Fields) (d : PolicyDecision) (claim : Claim)
      (s : State World)
      → Idle claim.claimed s.approvals (act host tool arguments true d claim s)
  unfolding act execute answer record_audit_event
  act-Idle tool arguments d claim s h = elim (Bool-cases d.allowed) [
    | inr e ↦ rw (e, act) (fail_call-Idle claim.claimed _ s h)
    | inl e ↦
        elim (Option-cases (if true && not (is_some claim.claimed) then claim.matching else none)) [
          | inr (a, q) ↦ rw (e, act) (rw (q, act) refl)
          | inl q ↦
              let calm : (d.needs_confirmation && not true) ≡ false = ground arith in
              rw (e, act)
                (rw (q, act) (rw (calm, act) (conclude-Idle tool.spec arguments d claim _ _ h)))
        ]
  ]

  -- A confirmed call that names its approval leaves the table of approvals alone, whatever its outcome.
  pub run_tool-explicit :
      (name : String) (arguments context : Fields) (s : State World)
      → is_plain_int (get "approval_id" context) ≡ true
      → (run_tool host name arguments true context s).1.approvals ≡ s.approvals
  unfolding run_tool run_found evaluate_policy claim_matching answer record_audit_event
  run_tool-explicit name arguments context s e = elim (Option-cases (lookup name tools)) [
    | inl q ↦ rw (q, run_tool) refl
    | inr (tool, q) ↦
        rw (q, run_tool) (rw (e, run_found, claim_matching) (act-Idle tool arguments _ _ _ refl))
  ]
