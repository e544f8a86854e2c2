-- ===== src/Runtime/Trail.antt =====
-- The audit events of `run_tool` of core/runtime.py.
use mathlib.Core.Path.{subst}
use master_control.Prelude.{
  ◌++◌, List, [], ◌∷◌, ◌∙◌, String, ◌≡◌, ◌⊎◌, ap, refl, inl, inr, Bool, true, not, ◌&&◌, Option,
  none, some, Bool-cases, Option-cases, arith, lookup, is_some, if◌then◌else◌,
}
use master_control.Value.{Value, Fields, get, put, put_all, get-put, get-put_other}
use master_control.Tools.Spec.{ToolSpec}
use master_control.Policy.Rules.{PolicyDecision}
use master_control.Approvals.Rows.{Status, ToolApproval}
use master_control.Runtime.State.{
  AuditEvent, value, raised, returned, tool_error, crashed, Invoked, Tool, Host, State, Outcome,
  Outcome-cases, record_audit_event,
}
use master_control.Runtime.Claims.{
  Claim, audit_base, finalize_claimed, claim_matching, evaluate_policy,
}
use master_control.Runtime.Keeps.{observe-keeps}
use master_control.Runtime.RunTool.{
  answer, answer_request, fail_call, request_confirmation, observe, succeed, conclude, execute, act,
  run_found, run_tool, summarize_result,
}

-- One event more, with the payload that was returned, or with `ok` true.
abbrev pub Recorded : List AuditEvent → Outcome Fields → List AuditEvent → Type 0
Recorded before (value p) after =
    (e : AuditEvent) × (after ≡ before ++ e ∷ [])
    × (e.event_type ≡ "tool_execution")
    × ((e.payload ≡ p) ⊎ (get "ok" e.payload ≡ some (Value.bool true)))
Recorded before (raised text) after = after ≡ before

success_audit :
    (base summary : Fields)
    → get "ok"
        (put_all base (("ok", Value.bool true) ∷ ("result_summary", Value.dict summary) ∷ []))
      ≡ some (Value.bool true)
unfolding put_all
success_audit base summary =
    get-put_other "result_summary" "ok" _ (put "ok" (Value.bool true) base) (λ e. cc)
    ∙ get-put "ok" (Value.bool true) base

module _ {World : Type 0} (host : Host World) where
  open host use {codec, texts, now, tools}

  -- The call that starts with the audit events `before` records what it does.
  abbrev Records : List AuditEvent → Outcome Fields × State World → Type 0
  Records before (o, s) = Recorded before o s.audit

  answer-Records : (p : Fields) (s : State World) → Records s.audit (answer host p s)
  unfolding answer record_audit_event
  answer-Records p s = (_, refl, refl, inl refl)

  success-Records :
      (p audit : Fields) (before : List AuditEvent) (s : State World)
      → s.audit ≡ before
      → get "ok" audit ≡ some (Value.bool true)
      → Records before (value p, record_audit_event "tool_execution" audit s)
  unfolding record_audit_event
  success-Records p audit before s same good = (
    _,
    ap (λ b. b ++ record { event_type = "tool_execution"; payload = audit } ∷ []) same,
    refl,
    inr good,
  )

  finalize-audit :
      (claimed : Option ToolApproval) (status : Status) (payload : Fields) (s : State World)
      → (finalize_claimed host claimed status payload s).audit ≡ s.audit
  unfolding finalize_claimed
  finalize-audit none status payload s = refl
  finalize-audit (some a) status payload s = refl

  fail_call-Records :
      (claimed : Option ToolApproval) (payload : Fields) (s : State World)
      → Records s.audit (fail_call host claimed payload s)
  unfolding fail_call
  fail_call-Records claimed payload s =
      subst
        (λ b.
          Records b (answer host payload (finalize_claimed host claimed Status.failed payload s)))
        (finalize-audit claimed Status.failed payload s) (answer-Records payload _)

  answer_request-Records :
      (base : Fields) (created : Option ToolApproval) (s : State World)
      → Records s.audit (answer_request host base created s)
  unfolding answer_request
  answer_request-Records base none s = refl
  answer_request-Records base (some a) s = answer-Records _ s

  succeed-Records :
      (spec : ToolSpec) (arguments : Fields) (d : PolicyDecision) (claim : Claim) (result : Fields)
      (s : State World)
      → Records s.audit (succeed host spec arguments d claim result s)
  unfolding succeed
  succeed-Records spec arguments d claim result s =
      let same =
        observe-keeps host (λ x. x.audit) (λ os x. refl) spec arguments claim.context result s in
      elim (Outcome-cases (observe host spec arguments claim.context result s).0) [
        | inl (u, q) ↦
            rw (q, succeed)
              (success-Records _ _ s.audit _
                (finalize-audit claim.claimed Status.completed _ _ ∙ same)
                (success_audit (audit_base spec arguments d claim.context)
                  (summarize_result result)))
        | inr (text, q) ↦ rw (q, succeed) same
      ]

  conclude-Records :
      (spec : ToolSpec) (arguments : Fields) (d : PolicyDecision) (claim : Claim)
      (invoked : Invoked) (s : State World)
      → Records s.audit (conclude host spec arguments d claim invoked s)
  unfolding conclude
  conclude-Records spec arguments d claim (returned result) s =
      succeed-Records spec arguments d claim result s
  conclude-Records spec arguments d claim (tool_error text) s = fail_call-Records claim.claimed _ s
  conclude-Records spec arguments d claim (crashed text) s = refl

  act-Records :
      (tool : Tool World) (arguments : Fields) (confirmed : Bool) (d : PolicyDecision)
      (claim : Claim) (s : State World)
      → Records s.audit (act host tool arguments confirmed d claim s)
  unfolding act execute request_confirmation
  act-Records tool arguments confirmed d claim s = elim (Bool-cases d.allowed) [
    | inr e ↦ rw (e, act) (fail_call-Records claim.claimed _ s)
    | inl e ↦
        elim (Option-cases
          (if confirmed && not (is_some claim.claimed) then claim.matching else none)) [
            | inr (a, q) ↦ rw (e, act) (rw (q, act) (answer-Records _ s))
            | inl q ↦ elim (Bool-cases (d.needs_confirmation && not confirmed)) [
              | inl k ↦ rw (e, act) (rw (q, act) (rw (k, act) (answer_request-Records _ _ _)))
              | inr k ↦
                  rw (e, act)
                    (rw (q, act) (rw (k, act) (conclude-Records tool.spec arguments d claim _ _)))
            ]
          ]
  ]

  pub claim_matching-audit :
      (spec : ToolSpec) (arguments : Fields) (confirmed : Bool) (context : Fields) (s : State World)
      → (claim_matching host spec arguments confirmed context s).1.audit ≡ s.audit
  unfolding claim_matching
  claim_matching-audit spec arguments confirmed context s = ground arith

  -- A call of `run_tool` that returns a value appends exactly one audit event, a tool_execution, which
  -- carries the returned value or reports success; a call that raises appends none.
  pub run_tool-records :
      (name : String) (arguments : Fields) (confirmed : Bool) (context : Fields) (s : State World)
      → Recorded s.audit
          (run_tool host name arguments confirmed context s).0
          (run_tool host name arguments confirmed context s).1.audit
  unfolding run_tool run_found evaluate_policy
  run_tool-records name arguments confirmed context s = elim (Option-cases (lookup name tools)) [
    | inl e ↦ rw (e, run_tool) (answer-Records _ s)
    | inr (tool, e) ↦
        rw (e, run_tool)
          (subst (λ b. Records b (run_found host tool arguments confirmed context s))
            (claim_matching-audit tool.spec arguments confirmed context s)
            (act-Records tool arguments confirmed _ _ _))
  ]
