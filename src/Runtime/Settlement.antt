-- ===== src/Runtime/Settlement.antt =====
-- What a call of `run_tool` leaves in the table `tool_approvals`.
use mathlib.Core.Path.{subst}
use master_control.Prelude.{
  ℕ, String, ◌≡◌, refl, sym, inl, inr, ◌⊎◌, Bool, false, not, ◌&&◌, Option, none, some, Bool-cases,
  Option-cases, arith, lookup, is_some, if◌then◌else◌,
}
use master_control.Value.{Fields, get, is_plain_int}
use master_control.Tools.Spec.{ToolSpec}
use master_control.Policy.Rules.{PolicyDecision}
use master_control.Approvals.Rows.{
  Status, Table, ToolApproval, ExecutionMatch, is_active, is_pending, is_executing, set_executing,
}
use master_control.Approvals.Methods.{
  row_to_tool_approval, prepare_matching_tool_approval_for_execution,
}
use master_control.Approvals.Invariant.{IsConsistent}
use master_control.Approvals.Matching.{prepare-cases}
use master_control.Approvals.Open.{
  IsRunning, NoneStarted, set_executing-IsRunning, finish_tool_approval-IsRunning,
  create-NoneStarted,
}
use master_control.Runtime.State.{
  value, raised, returned, tool_error, crashed, Invoked, Tool, Host, State, Outcome, Outcome-cases,
  record_audit_event,
}
use master_control.Runtime.Claims.{
  Claim, claim_of, finalize_claimed, claim_matching, evaluate_policy,
}
use master_control.Runtime.Keeps.{observe-keeps}
use master_control.Runtime.RunTool.{
  answer, answer_request, requested, fail_call, request_confirmation, observe, succeed, conclude,
  execute, act, run_found, run_tool,
}

raised-value : (text : String) (p : Fields) → ◌≡◌ {A = Outcome Fields} (raised text) (value p) → ⊥
raised-value text p e = cc

-- A call is answered as busy only if it claimed nothing.
busy-unclaimed :
    (confirmed : Bool) (claim : Claim) (a : ToolApproval)
    → (if confirmed && not (is_some claim.claimed) then claim.matching else none) ≡ some a
    → claim.claimed ≡ none
busy-unclaimed confirmed claim a q = elim (Option-cases claim.claimed) [
  | inl e ↦ e
  | inr (b, e) ↦ absurd (ground (arith, e, q))
]

module _ {World : Type 0} (host : Host World) where
  open host use {codec, now, tools}

  -- The approvals that run in `t'` ran in `t`, but for the claimed one.
  abbrev Holds : Option ToolApproval → Table → Table → Type 0
  Holds claimed t t' =
      (n : ℕ)
      → IsRunning n t'
      → IsRunning n t ⊎ ((a : ToolApproval) × (claimed ≡ some a) × (n ≡ a.id))

  -- If the method returned a value, no approval runs that did not run before.
  abbrev Settles : Table → Outcome Fields × State World → Type 0
  Settles t (o, s) = (payload : Fields) → o ≡ value payload → NoneStarted t s.approvals

  finalize-NoneStarted :
      (claimed : Option ToolApproval) (status : Status) (payload : Fields) (t : Table)
      (s : State World)
      → is_active status ≡ false
      → Holds claimed t s.approvals
      → NoneStarted t (finalize_claimed host claimed status payload s).approvals
  unfolding finalize_claimed
  finalize-NoneStarted none status payload t s final holds n h = elim (holds n h) [
    | inl r ↦ r
    | inr (a, e, k) ↦ cc
  ]
  finalize-NoneStarted (some b) status payload t s final holds n h =
      let (running, other) =
        finish_tool_approval-IsRunning codec (now s.world) b.id status payload s.approvals n final
          h in
      elim (holds n running) [ inl r ↦ r | inr (a, e, k) ↦ absurd (other (ground (arith, e, k))) ]

  fail_call-Settles :
      (claimed : Option ToolApproval) (payload : Fields) (t : Table) (s : State World)
      → Holds claimed t s.approvals
      → Settles t (fail_call host claimed payload s)
  unfolding fail_call answer record_audit_event
  fail_call-Settles claimed payload t s holds p e =
      finalize-NoneStarted claimed Status.failed payload t s
        (unfold is_active is_pending is_executing in refl) holds

  answer_request-Settles :
      (base : Fields) (created : Option ToolApproval) (t : Table) (s : State World)
      → NoneStarted t s.approvals
      → Settles t (answer_request host base created s)
  unfolding answer_request answer record_audit_event
  answer_request-Settles base none t s h p e = h
  answer_request-Settles base (some a) t s h p e = h

  request-Settles :
      (spec : ToolSpec) (arguments context base : Fields) (t : Table) (s : State World)
      → NoneStarted t s.approvals
      → Settles t (request_confirmation host spec arguments context base s)
  unfolding request_confirmation
  request-Settles spec arguments context base t s h = answer_request-Settles base _ t _ (λ n k.
      h n (
        create-NoneStarted codec (now s.world) (requested host spec arguments context s) s.approvals
          n k))

  succeed-Settles :
      (spec : ToolSpec) (arguments : Fields) (d : PolicyDecision) (claim : Claim) (result : Fields)
      (t : Table) (s : State World)
      → Holds claim.claimed t s.approvals
      → Settles t (succeed host spec arguments d claim result s)
  unfolding succeed record_audit_event
  succeed-Settles spec arguments d claim result t s holds p e =
      let same =
        observe-keeps host (λ x. x.approvals) (λ os x. refl) spec arguments claim.context result
          s in
      elim (Outcome-cases (observe host spec arguments claim.context result s).0) [
        | inl (u, q) ↦
            rw (q, succeed)
              (finalize-NoneStarted claim.claimed Status.completed _ t _
                (unfold is_active is_pending is_executing in refl)
                (subst (Holds claim.claimed t) (sym same) holds))
        | inr (text, q) ↦ absurd (raised-value text p (rw (q, succeed) at e))
      ]

  conclude-Settles :
      (spec : ToolSpec) (arguments : Fields) (d : PolicyDecision) (claim : Claim)
      (invoked : Invoked) (t : Table) (s : State World)
      → Holds claim.claimed t s.approvals
      → Settles t (conclude host spec arguments d claim invoked s)
  unfolding conclude
  conclude-Settles spec arguments d claim (returned result) t s h =
      succeed-Settles spec arguments d claim result t s h
  conclude-Settles spec arguments d claim (tool_error text) t s h =
      fail_call-Settles claim.claimed _ t s h
  conclude-Settles spec arguments d claim (crashed text) t s h =
      λ p e. absurd (raised-value text p e)

  Holds-none :
      (claimed : Option ToolApproval) (t t' : Table)
      → claimed ≡ none
      → Holds claimed t t'
      → NoneStarted t t'
  Holds-none claimed t t' e h n k = elim (h n k) [ inl r ↦ r | inr (a, q, m) ↦ cc ]

  act-Settles :
      (tool : Tool World) (arguments : Fields) (confirmed : Bool) (d : PolicyDecision)
      (claim : Claim) (t : Table) (s : State World)
      → (confirmed ≡ false → claim.claimed ≡ none)
      → Holds claim.claimed t s.approvals
      → Settles t (act host tool arguments confirmed d claim s)
  unfolding act execute
  act-Settles tool arguments confirmed d claim t s unclaimed h = elim (Bool-cases d.allowed) [
    | inr e ↦ rw (e, act) (fail_call-Settles claim.claimed _ t s h)
    | inl e ↦
        elim (Option-cases
          (if confirmed && not (is_some claim.claimed) then claim.matching else none)) [
            | inr (a, q) ↦
                rw (e, act)
                  (rw (q, act)
                    (unfold answer record_audit_event in
                      λ p k.
                        Holds-none claim.claimed t s.approvals (busy-unclaimed confirmed claim a q)
                          h))
            | inl q ↦ elim (Bool-cases (d.needs_confirmation && not confirmed)) [
              | inl k ↦
                  rw (e, act)
                    (rw (q, act)
                      (rw (k, act)
                        (request-Settles tool.spec arguments claim.context _ t s
                          (Holds-none claim.claimed t s.approvals (unclaimed (ground arith)) h))))
              | inr k ↦
                  rw (e, act)
                    (rw (q, act)
                      (rw (k, act) (conclude-Settles tool.spec arguments d claim _ t _ h)))
            ]
          ]
  ]

  -- What the search for a matching approval leaves.
  abbrev Kept : Fields → Table → ExecutionMatch × Table → Type 0
  Kept context t (found, t') = Holds (claim_of context found).claimed t t'

  unclaimed-Kept : (context : Fields) (t : Table) (m : ExecutionMatch) → Kept context t (m, t)
  unclaimed-Kept context t m n h = inl h

  prepare-Kept :
      (spec : ToolSpec) (arguments context : Fields) (now_text : String) (t : Table)
      → IsConsistent t
      → Kept context t (
          prepare_matching_tool_approval_for_execution codec now_text spec.name arguments context t)
  unfolding claim_of row_to_tool_approval set_executing
  prepare-Kept spec arguments context now_text t c =
      elim (prepare-cases codec now_text spec.name arguments context t c) [
        | inl (m, e, _) ↦ subst (Kept context t) (sym e) (unclaimed-Kept context t m)
        | inr (r, e, _) ↦ subst (Kept context t) (sym e) (λ n h.
            elim (set_executing-IsRunning now_text r.id n t h) [
              | inl k ↦ inl k
              | inr k ↦ inr (_, refl, k)
            ])
      ]

  claim_matching-Holds :
      (spec : ToolSpec) (arguments : Fields) (confirmed : Bool) (context : Fields) (s : State World)
      → IsConsistent s.approvals
      → Holds
          (claim_matching host spec arguments confirmed context s).0.claimed
          s.approvals
          (claim_matching host spec arguments confirmed context s).1.approvals
  unfolding claim_matching
  claim_matching-Holds spec arguments confirmed context s c =
      elim (Bool-cases (confirmed && not (is_plain_int (get "approval_id" context)))) [
        | inl e ↦
            rw (e, claim_matching) (prepare-Kept spec arguments context (now s.world) s.approvals c)
        | inr e ↦ rw (e, claim_matching) (λ n h. inl h)
      ]

  claim_matching-unconfirmed :
      (spec : ToolSpec) (arguments : Fields) (confirmed : Bool) (context : Fields) (s : State World)
      → confirmed ≡ false
      → (claim_matching host spec arguments confirmed context s).0.claimed ≡ none
  unfolding claim_matching
  claim_matching-unconfirmed spec arguments confirmed context s e = rw (e, claim_matching) refl

  -- When `run_tool`, from a consistent table of approvals, returns a value, with `ok` true or false, every
  -- approval that is executing after the call was executing before it: whatever it claimed is finished.
  pub run_tool-settles :
      (name : String) (arguments : Fields) (confirmed : Bool) (context : Fields) (s : State World)
      (payload : Fields) (n : ℕ)
      → IsConsistent s.approvals
      → (run_tool host name arguments confirmed context s).0 ≡ value payload
      → IsRunning n (run_tool host name arguments confirmed context s).1.approvals
      → IsRunning n s.approvals
  unfolding run_tool run_found evaluate_policy
  run_tool-settles name arguments confirmed context s payload n c =
      elim (Option-cases (lookup name tools)) [
        | inl e ↦ rw (e, run_tool) (unfold answer record_audit_event in λ _ h. h)
        | inr (tool, e) ↦
            rw (e, run_tool)
              (λ h k.
                act-Settles tool arguments confirmed _ _ s.approvals _
                  (claim_matching-unconfirmed tool.spec arguments confirmed context s)
                  (claim_matching-Holds tool.spec arguments confirmed context s c) payload h n k)
      ]
