-- ===== src/Runtime/Approval.antt =====
-- Which approvals are executing after `approve_tool_approval` of core/runtime.py.
use mathlib.Core.Path.{subst}
use master_control.Prelude.{
  ap, ℕ, String, ◌≡◌, ◌≢◌, refl, inl, inr, ◌⊎◌, true, false, none, some, Bool-cases, Option-cases,
  arith, is_empty, eqb, count_by,
}
use master_control.Value.{Value, Fields, ℤ, get, put, is_plain_int, get-put}
use master_control.Approvals.Rows.{
  Status, Table, ToolApproval, is_active, is_pending, is_executing, is_pending_id, set_executing,
  select_row,
}
use master_control.Sql.Laws.{Member}
use master_control.Approvals.Lookup.{select_row-Member, Member-count_by}
use master_control.Approvals.Rows.{Row}
use master_control.Approvals.Invariant.{IsConsistent}
use master_control.Approvals.Lifecycle.{status_of}
use master_control.Approvals.Open.{
  IsRunning, set_executing-IsRunning, finish_tool_approval-IsRunning,
}
use master_control.Runtime.State.{raised, value, Host, State, Outcome, record_audit_event}
use master_control.Runtime.Approve.{
  refusal, exception_payload, final_status, approve_failed, approve_returned, approve_result,
  run_claimed, approve_claimed, approve_tool_approval,
}
use master_control.Approvals.Methods.{
  claim_tool_approval, get_tool_approval, to_approval, finish_tool_approval, update_rows,
}
use master_control.Runtime.Idle.{run_tool-explicit}

-- The status of the approval that a claim would start.
pending-status :
    (n : ℕ) (t : Table) (r : Row)
    → IsConsistent t
    → Member r t.rows
    → is_pending_id n r ≡ true
    → status_of n t ≡ some Status.pending
unfolding status_of is_pending_id
pending-status n t r c m p =
    let same : r.id ≡ n = ground arith in
    let found : select_row n t ≡ some r =
      subst (λ k. select_row k t ≡ some r) same (select_row-Member t r c m) in
    rw found (ap some (waiting r.status (ground arith)))
  where
    waiting : (s : Status) → is_pending s ≡ true → s ≡ Status.pending
    waiting s h = unfold is_pending in ground arith

module _ {World : Type 0} (host : Host World) where
  open host use {codec, now}

  final_status-inactive : (execution : Fields) → is_active (final_status execution) ≡ false
  unfolding final_status is_active is_pending is_executing
  final_status-inactive execution = ground arith

  approve_returned-approvals :
      (n : ℕ) (a : ToolApproval) (execution : Fields) (s : State World)
      → (approve_returned host n a execution s).1.approvals
        ≡ (finish_tool_approval codec
            (now s.world)
            n
            (final_status execution)
            execution
            s.approvals).1
  unfolding approve_returned record_audit_event
  approve_returned-approvals n a execution s =
      elim (Option-cases
        (finish_tool_approval codec (now s.world) n (final_status execution) execution
          s.approvals).0) [
            | inl e ↦ rw (e, approve_returned) refl
            | inr (b, e) ↦ rw (e, approve_returned) refl
          ]

  approve_failed-approvals :
      (n : ℕ) (a : ToolApproval) (context : Fields) (text : String) (s : State World)
      → (approve_failed host n a context text s).1.approvals
        ≡ (finish_tool_approval codec
            (now s.world)
            n
            Status.failed
            (exception_payload a context text)
            s.approvals).1
  unfolding approve_failed record_audit_event
  approve_failed-approvals n a context text s =
      elim (Option-cases
        (finish_tool_approval codec (now s.world) n Status.failed (exception_payload a context text)
          s.approvals).0) [
            | inl e ↦ rw (e, approve_failed) refl
            | inr (b, e) ↦ rw (e, approve_failed) refl
          ]

  -- What follows `run_tool` ends the approval `n` and starts none.
  approve_result-IsRunning :
      (n : ℕ) (a : ToolApproval) (context : Fields) (out : Outcome Fields) (s : State World) (m : ℕ)
      → IsRunning m (approve_result host n a context out s).1.approvals
      → IsRunning m s.approvals × (m ≢ n)
  unfolding approve_result is_active is_pending is_executing
  approve_result-IsRunning n a context (value execution) s m h =
      finish_tool_approval-IsRunning codec (now s.world) n (final_status execution) execution
        s.approvals m (final_status-inactive execution)
        (subst (IsRunning m) (approve_returned-approvals n a execution s) h)
  approve_result-IsRunning n a context (raised text) s m h =
      finish_tool_approval-IsRunning codec (now s.world) n Status.failed
        (exception_payload a context text) s.approvals m refl
        (subst (IsRunning m) (approve_failed-approvals n a context text s) h)

  run_claimed-IsRunning :
      (n : ℕ) (a : ToolApproval) (s : State World) (m : ℕ)
      → is_empty a.tool ≡ false
      → IsRunning m (run_claimed host n a s).1.approvals
      → IsRunning m s.approvals × (m ≢ n)
  unfolding run_claimed
  run_claimed-IsRunning n a s m named h =
      let context = put "approval_id" (Value.int (ℤ.pos n)) a.audit_context in
      let given : is_plain_int (get "approval_id" context) ≡ true =
        rw (get-put "approval_id" (Value.int (ℤ.pos n)) a.audit_context)
          (unfold is_plain_int in refl) in
      let same = run_tool-explicit host a.tool a.arguments context s given in
      let (running, other) =
        approve_result-IsRunning n a context _ _ m (rw (named, run_claimed) at h) in
      (subst (IsRunning m) same running, other)

  claim-IsRunning :
      (n : ℕ) (t : Table) (now_text : String) (m : ℕ)
      → IsRunning m (claim_tool_approval codec now_text n t).1
      → IsRunning m t ⊎ (m ≡ n)
  unfolding claim_tool_approval
  claim-IsRunning n t now_text m h = elim (Bool-cases (eqb (count_by (is_pending_id n) t.rows) 1)) [
    | inl e ↦ set_executing-IsRunning now_text n m t (rw (e, claim_tool_approval) at h)
    | inr e ↦ inl (rw (e, claim_tool_approval) at h)
  ]

  no_row-IsRunning : (n : ℕ) (t : Table) → get_tool_approval codec n t ≡ none → IsRunning n t → ⊥
  unfolding get_tool_approval to_approval status_of
  no_row-IsRunning n t e h = elim (Option-cases (select_row n t)) [
    | inl q ↦ ground (arith, q, h)
    | inr (r, q) ↦ ground (arith, q, e)
  ]

  -- A claim that hands out nothing starts nothing.
  unclaimed-IsRunning :
      (n : ℕ) (t : Table) (now_text : String) (m : ℕ)
      → (claim_tool_approval codec now_text n t).0 ≡ none
      → IsRunning m (claim_tool_approval codec now_text n t).1
      → IsRunning m t
  unfolding claim_tool_approval
  unclaimed-IsRunning n t now_text m e h =
      elim (Bool-cases (eqb (count_by (is_pending_id n) t.rows) 1)) [
        | inr q ↦ rw (q, claim_tool_approval) at h
        | inl q ↦
            let t' = update_rows (is_pending_id n) (set_executing now_text) t in
            let h' : IsRunning m t' = rw (q, claim_tool_approval) at h in
            let e' : get_tool_approval codec n t' ≡ none = rw (q, claim_tool_approval) at e in
            elim (set_executing-IsRunning now_text n m t h') [
              | inl k ↦ k
              | inr same ↦ absurd (no_row-IsRunning n t' e' (subst (λ k. IsRunning k t') same h'))
            ]
      ]

  -- However `approve_tool_approval` ends, with the tool's result, an error or an exception of any kind, every
  -- approval that is executing after it was executing before it, provided that the approval that it claims
  -- has a tool name.
  pub approve_tool_approval-settles :
      (n : ℕ) (s : State World) (m : ℕ)
      → ((a : ToolApproval)
          → (claim_tool_approval codec (now s.world) n s.approvals).0 ≡ some a
          → is_empty a.tool ≡ false)
      → IsRunning m (approve_tool_approval host n s).1.approvals
      → IsRunning m s.approvals
  unfolding approve_tool_approval approve_claimed
  approve_tool_approval-settles n s m named h =
      elim (Option-cases (claim_tool_approval codec (now s.world) n s.approvals).0) [
        | inl e ↦
            unclaimed-IsRunning n s.approvals (now s.world) m e (rw (e, approve_tool_approval) at h)
        | inr (a, e) ↦
            let (running, other) =
              run_claimed-IsRunning n a _ m (named a e) (rw (e, approve_tool_approval) at h) in
            elim (claim-IsRunning n s.approvals (now s.world) m running) [
              | inl k ↦ k
              | inr same ↦ absurd (other same)
            ]
      ]

  -- An approval of an unknown id, or of an approval that is not pending, ends with the error that
  -- names its id, or its status, and changes nothing, provided that the table of approvals is consistent.
  pub approve_tool_approval-refuses :
      (n : ℕ) (s : State World)
      → IsConsistent s.approvals
      → status_of n s.approvals ≢ some Status.pending
      → approve_tool_approval host n s
        ≡ (raised (refusal n "run" (get_tool_approval codec n s.approvals)), s)
  unfolding approve_tool_approval approve_claimed claim_tool_approval
  approve_tool_approval-refuses n s c h =
      elim (Bool-cases (eqb (count_by (is_pending_id n) s.approvals.rows) 1)) [
        | inr e ↦ rw (e, approve_tool_approval, claim_tool_approval) refl
        | inl e ↦
            let (r, m, p) = Member-count_by (is_pending_id n) s.approvals.rows (ground arith) in
            absurd (h (pending-status n s.approvals r c m p))
      ]
