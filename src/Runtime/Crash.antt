-- ===== src/Runtime/Crash.antt =====
-- `run_tool` of core/runtime.py when a tool raises an exception that is no ToolError.
use mathlib.Core.Path.{subst}
use master_control.Prelude.{
  ◌∙◌, String, ◌≡◌, ◌≢◌, refl, sym, inl, inr, Bool, true, false, not, ◌&&◌, Option, none, some,
  Bool-cases, arith, lookup,
}
use master_control.Value.{Fields, get, is_plain_int}
use master_control.Tools.Spec.{ToolSpec}
use master_control.Policy.Rules.{PolicyDecision}
use master_control.Policy.Engine.{evaluate}
use master_control.Approvals.Rows.{
  Table, MatchOutcome, ExecutionMatch, ToolApproval, is_pending_id, set_executing,
}
use master_control.Approvals.Methods.{
  update_rows, row_to_tool_approval, prepare_matching_tool_approval_for_execution,
}
use master_control.Approvals.Invariant.{IsConsistent}
use master_control.Approvals.Lifecycle.{status_of}
use master_control.Approvals.Matching.{prepare-cases}
use master_control.Approvals.Open.{IsRunning}
use master_control.Runtime.State.{raised, crashed, Tool, Host, State}
use master_control.Runtime.Claims.{Claim, claim_of, claim_matching, evaluate_policy}
use master_control.Runtime.Authority.{policy_in, claim_matching-policy, claim_matching-keeps}
use master_control.Runtime.Trail.{claim_matching-audit}
use master_control.Runtime.RunTool.{conclude, execute, act, run_found, run_tool}

module _ {World : Type 0} (host : Host World) where
  open host use {codec, texts, now, tools}

  unmatched-unclaimed :
      (context : Fields) (o : MatchOutcome) (a : Option ToolApproval)
      → o ≢ MatchOutcome.claimed
      → (claim_of context (record { outcome = o; approval = a })).claimed ≡ none
  unfolding claim_of
  unmatched-unclaimed context MatchOutcome.claimed a h = absurd (h refl)
  unmatched-unclaimed context MatchOutcome.unmatched a h = refl
  unmatched-unclaimed context MatchOutcome.already_executing a h = refl

  none-some : (a : ToolApproval) → ◌≡◌ {A = Option ToolApproval} none (some a) → ⊥
  none-some a h = cc

  some_id : (a b : ToolApproval) → some a ≡ some b → a.id ≡ b.id
  some_id a b h = cc

  -- The approval that a search hands out is executing afterwards.
  abbrev Runs : Fields → ExecutionMatch × Table → Type 0
  Runs context (m, t) =
      (a : ToolApproval) → (claim_of context m).claimed ≡ some a → IsRunning a.id t

  prepare-Runs :
      (spec : ToolSpec) (arguments context : Fields) (now_text : String) (t : Table)
      → IsConsistent t
      → Runs context (
          prepare_matching_tool_approval_for_execution codec now_text spec.name arguments context t)
  unfolding claim_of row_to_tool_approval set_executing status_of
  prepare-Runs spec arguments context now_text t c =
      elim (prepare-cases codec now_text spec.name arguments context t c) [
        | inl (m, e, other) ↦ subst (Runs context) (sym e) (λ a h.
            absurd (none-some a (sym (unmatched-unclaimed context m.outcome m.approval other) ∙ h)))
        | inr (r, e, found) ↦ subst (Runs context) (sym e) (λ a h.
            subst (λ k. IsRunning k (update_rows (is_pending_id r.id) (set_executing now_text) t))
              (some_id _ a h) (rw found refl))
      ]

  claim_matching-Runs :
      (spec : ToolSpec) (arguments : Fields) (confirmed : Bool) (context : Fields) (s : State World)
      (a : ToolApproval)
      → IsConsistent s.approvals
      → (claim_matching host spec arguments confirmed context s).0.claimed ≡ some a
      → IsRunning a.id (claim_matching host spec arguments confirmed context s).1.approvals
  unfolding claim_matching
  claim_matching-Runs spec arguments confirmed context s a c h =
      elim (Bool-cases (confirmed && not (is_plain_int (get "approval_id" context)))) [
        | inl e ↦
            rw (e, claim_matching)
              (prepare-Runs spec arguments context (now s.world) s.approvals c a
                (rw (e, claim_matching) at h))
        | inr e ↦ absurd (none-some a (rw (e, claim_matching) at h))
      ]

  act-crash :
      (tool : Tool World) (arguments : Fields) (d : PolicyDecision) (claim : Claim)
      (s : State World) (a : ToolApproval) (text : String)
      → d.allowed ≡ true
      → claim.claimed ≡ some a
      → (tool.invoke arguments s.world).0 ≡ crashed text
      → (act host tool arguments true d claim s).0 ≡ raised text
        × ((act host tool arguments true d claim s).1.approvals ≡ s.approvals)
        × ((act host tool arguments true d claim s).1.audit ≡ s.audit)
  unfolding act execute conclude
  act-crash tool arguments d claim s a text e k q =
      let calm : (d.needs_confirmation && not true) ≡ false = ground arith in
      rw (e, act) (rw (k, act) (rw (calm, act) (rw (q, conclude) (refl, refl, refl))))

  -- From a consistent table, if the tool of a confirmed and permitted call that has claimed an approval raises an exception that is
  -- no ToolError, the exception leaves `run_tool`, the approval stays executing, and no audit event is
  -- appended.
  pub run_tool-crash :
      (name : String) (tool : Tool World) (arguments context : Fields) (s : State World)
      (a : ToolApproval) (text : String)
      → IsConsistent s.approvals
      → lookup name tools ≡ some tool
      → (claim_matching host tool.spec arguments true context s).0.claimed ≡ some a
      → (evaluate texts (policy_in host s) tool.spec arguments).allowed ≡ true
      → (tool.invoke arguments s.world).0 ≡ crashed text
      → ((run_tool host name arguments true context s).0 ≡ raised text)
        × IsRunning a.id (run_tool host name arguments true context s).1.approvals
        × ((run_tool host name arguments true context s).1.audit ≡ s.audit)
  unfolding run_tool run_found evaluate_policy
  run_tool-crash name tool arguments context s a text c e k permitted q =
      let s1 = (claim_matching host tool.spec arguments true context s).1 in
      let (w, l) = claim_matching-keeps host tool.spec arguments true context s in
      let p = claim_matching-policy host tool.spec arguments true context s in
      let (out, same, trail) =
        act-crash tool arguments _ _ (evaluate_policy host tool.spec arguments s1).1 a text
          (subst (λ x. (evaluate texts x tool.spec arguments).allowed ≡ true) (sym p) permitted) k
          (subst (λ x. (tool.invoke arguments x).0 ≡ crashed text) (sym w) q) in
      rw (e, run_tool)
        (
          out,
          subst (IsRunning a.id) (sym same)
              (claim_matching-Runs tool.spec arguments true context s a c k),
          trail ∙ claim_matching-audit host tool.spec arguments true context s,
        )
