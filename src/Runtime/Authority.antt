-- ===== src/Runtime/Authority.antt =====
-- The host across `run_tool` of core/runtime.py: when its world may change.
use mathlib.Core.Path.{subst}
use master_control.Prelude.{
  ap, if◌then◌else◌, ◌∙◌, String, Bool, true, false, Option, none, some, ◌≡◌, ◌⊎◌, inl, inr, refl,
  Option-cases, Bool-cases, arith, lookup, is_some, not, ◌&&◌,
}
use master_control.Value.{Fields}
use master_control.Tools.Spec.{ToolSpec, is_read_only}
use master_control.Policy.Rules.{PolicyDecision, LoadedPolicy}
use master_control.Policy.Engine.{evaluate, requires_confirmation}
use master_control.Policy.Permits.{Permits, evaluate-Permits, evaluate-confirmation}
use master_control.Policy.Loader.{load}
use master_control.Approvals.Rows.{Status, ToolApproval}
use master_control.Runtime.State.{
  Outcome-cases, Invoked, returned, tool_error, crashed, Tool, Host, State, record_audit_event,
}
use master_control.Runtime.Claims.{Claim, finalize_claimed, claim_matching, evaluate_policy}
use master_control.Runtime.Keeps.{observe-keeps}
use master_control.Runtime.RunTool.{
  answer, answer_request, fail_call, request_confirmation, observe, succeed, execute, conclude, act,
  run_found, run_tool,
}

module _ {World : Type 0} (host : Host World) where
  open host use {texts, tools}

  -- The policy that a call of `run_tool` in the state `s` is judged by.
  abbrev pub policy_in : State World → LoadedPolicy
  policy_in s = (load host.resolve host.state_dir (host.policy_file s.world) s.loader).0

  finalize-world :
      (claimed : Option ToolApproval) (status : Status) (payload : Fields) (s : State World)
      → (finalize_claimed host claimed status payload s).world ≡ s.world
  unfolding finalize_claimed
  finalize-world none status payload s = refl
  finalize-world (some a) status payload s = refl

  fail_call-world :
      (claimed : Option ToolApproval) (payload : Fields) (s : State World)
      → (fail_call host claimed payload s).1.world ≡ s.world
  unfolding fail_call answer record_audit_event
  fail_call-world claimed payload s = finalize-world claimed Status.failed payload s

  answer_request-world :
      (base : Fields) (created : Option ToolApproval) (s : State World)
      → (answer_request host base created s).1.world ≡ s.world
  unfolding answer_request answer record_audit_event
  answer_request-world base none s = refl
  answer_request-world base (some a) s = refl

  request_confirmation-world :
      (spec : ToolSpec) (arguments context base : Fields) (s : State World)
      → (request_confirmation host spec arguments context base s).1.world ≡ s.world
  unfolding request_confirmation
  request_confirmation-world spec arguments context base s = answer_request-world base _ _

  succeed-world :
      (spec : ToolSpec) (arguments : Fields) (d : PolicyDecision) (claim : Claim) (result : Fields)
      (s : State World)
      → (succeed host spec arguments d claim result s).1.world ≡ s.world
  unfolding succeed record_audit_event
  succeed-world spec arguments d claim result s =
      elim (Outcome-cases (observe host spec arguments claim.context result s).0) [
        | inl (u, e) ↦
            rw (e, succeed)
              (finalize-world claim.claimed Status.completed _ _
                ∙ observe-keeps host (λ x. x.world) (λ os x. refl) spec arguments claim.context
                    result s)
        | inr (t, e) ↦
            rw (e, succeed)
              (observe-keeps host (λ x. x.world) (λ os x. refl) spec arguments claim.context result
                s)
      ]

  conclude-world :
      (spec : ToolSpec) (arguments : Fields) (d : PolicyDecision) (claim : Claim)
      (invoked : Invoked) (s : State World)
      → (conclude host spec arguments d claim invoked s).1.world ≡ s.world
  unfolding conclude
  conclude-world spec arguments d claim (returned result) s =
      succeed-world spec arguments d claim result s
  conclude-world spec arguments d claim (tool_error text) s = fail_call-world claim.claimed _ s
  conclude-world spec arguments d claim (crashed text) s = refl

  -- A tool's call changes the world as the tool does, whatever the tool's result and what follows it.
  pub execute-world :
      (tool : Tool World) (arguments : Fields) (d : PolicyDecision) (claim : Claim)
      (s : State World)
      → (execute host tool arguments d claim s).1.world ≡ (tool.invoke arguments s.world).1
  unfolding execute
  execute-world tool arguments d claim s = conclude-world tool.spec arguments d claim _ _

  -- The policy permits the call, and the operator confirmed it where a confirmation is asked for.
  abbrev pub MayRun : Tool World → Fields → Bool → State World → Type 0
  MayRun tool arguments confirmed s =
      Permits texts (policy_in s) tool.spec arguments
      × ((confirmed ≡ true)
          ⊎ ((is_read_only tool.spec.risk ≡ true)
              × (requires_confirmation (lookup tool.spec.name (policy_in s).tool_rules) ≡ false)))

  act-world :
      (tool : Tool World) (arguments : Fields) (confirmed : Bool) (d : PolicyDecision)
      (claim : Claim) (s : State World)
      → ((act host tool arguments confirmed d claim s).1.world ≡ s.world)
        ⊎ ((d.allowed ≡ true)
            × ((d.needs_confirmation && not confirmed) ≡ false)
            × ((act host tool arguments confirmed d claim s).1.world
                ≡ (tool.invoke arguments s.world).1))
  unfolding act answer record_audit_event
  act-world tool arguments confirmed d claim s = elim (Bool-cases d.allowed) [
    | inr e ↦ inl (rw (e, act) (fail_call-world claim.claimed _ s))
    | inl e ↦
        elim (Option-cases
          (if confirmed && not (is_some claim.claimed) then claim.matching else none)) [
            | inr (a, q) ↦ inl (rw (e, act) (rw (q, act) refl))
            | inl q ↦ elim (Bool-cases (d.needs_confirmation && not confirmed)) [
              | inl k ↦ inl (
                  rw (e, q, k, act)
                    (request_confirmation-world tool.spec arguments claim.context _ s))
              | inr k ↦ inr (e, k, rw (e, q, k, act) (execute-world tool arguments d claim s))
            ]
          ]
  ]

  pub claim_matching-keeps :
      (spec : ToolSpec) (arguments : Fields) (confirmed : Bool) (context : Fields) (s : State World)
      → ((claim_matching host spec arguments confirmed context s).1.world ≡ s.world)
        × ((claim_matching host spec arguments confirmed context s).1.loader ≡ s.loader)
  unfolding claim_matching
  claim_matching-keeps spec arguments confirmed context s = ground arith

  evaluate_policy-decision :
      (spec : ToolSpec) (arguments : Fields) (s : State World)
      → (evaluate_policy host spec arguments s).0 ≡ evaluate texts (policy_in s) spec arguments
  unfolding evaluate_policy
  evaluate_policy-decision spec arguments s = refl

  may_run :
      (tool : Tool World) (arguments : Fields) (confirmed : Bool) (s : State World)
      → (evaluate texts (policy_in s) tool.spec arguments).allowed ≡ true
      → ((evaluate texts (policy_in s) tool.spec arguments).needs_confirmation && not confirmed)
        ≡ false
      → MayRun tool arguments confirmed s
  may_run tool arguments true s a n =
      ((evaluate-Permits texts (policy_in s) tool.spec arguments).0 a, inl refl)
  may_run tool arguments false s a n =
      let c = evaluate-confirmation texts (policy_in s) tool.spec arguments in
      (
        (evaluate-Permits texts (policy_in s) tool.spec arguments).0 a,
        inr (ground (arith, c), ground (arith, c)),
      )

  -- The search for an approval leaves the policy of the call alone.
  pub claim_matching-policy :
      (spec : ToolSpec) (arguments : Fields) (confirmed : Bool) (context : Fields) (s : State World)
      → policy_in (claim_matching host spec arguments confirmed context s).1 ≡ policy_in s
  claim_matching-policy spec arguments confirmed context s =
      let (w, l) = claim_matching-keeps spec arguments confirmed context s in cc

  run_found-world :
      (tool : Tool World) (arguments : Fields) (confirmed : Bool) (context : Fields)
      (s : State World)
      → ((run_found host tool arguments confirmed context s).1.world ≡ s.world)
        ⊎ (MayRun tool arguments confirmed s
            × ((run_found host tool arguments confirmed context s).1.world
                ≡ (tool.invoke arguments s.world).1))
  unfolding run_found evaluate_policy
  run_found-world tool arguments confirmed context s =
      let (claim, s1) = claim_matching host tool.spec arguments confirmed context s in
      let (w, l) = claim_matching-keeps tool.spec arguments confirmed context s in
      let p = claim_matching-policy tool.spec arguments confirmed context s in
      elim (act-world tool arguments confirmed (evaluate_policy host tool.spec arguments s1).0 claim
        (evaluate_policy host tool.spec arguments s1).1) [
          | inl e ↦ inl (e ∙ w)
          | inr (a, n, e) ↦ inr (
            may_run tool arguments confirmed s
                (subst (λ q. (evaluate texts q tool.spec arguments).allowed ≡ true) p a)
                (subst
                  (λ q.
                    ((evaluate texts q tool.spec arguments).needs_confirmation && not confirmed)
                    ≡ false)
                  p n),
            e ∙ ap (λ x. (tool.invoke arguments x).1) w,
          )
        ]

  -- A call of `run_tool` leaves the host as it was, or its tool is registered, the policy permits the call,
  -- the call was confirmed or needs no confirmation, and the host changes as that tool changes it.
  pub run_tool-authority :
      (name : String) (arguments : Fields) (confirmed : Bool) (context : Fields) (s : State World)
      → ((run_tool host name arguments confirmed context s).1.world ≡ s.world)
        ⊎ ((tool : Tool World) × (lookup name tools ≡ some tool)
            × MayRun tool arguments confirmed s
            × ((run_tool host name arguments confirmed context s).1.world
                ≡ (tool.invoke arguments s.world).1))
  unfolding run_tool
  run_tool-authority name arguments confirmed context s = elim (Option-cases (lookup name tools)) [
    | inl e ↦ inl (rw (e, run_tool) (unfold answer record_audit_event in refl))
    | inr (tool, e) ↦
        rw (e, run_tool)
          (elim (run_found-world tool arguments confirmed context s) [
            | inl k ↦ inl k
            | inr (may, k) ↦ inr (tool, refl, may, k)
          ])
  ]
