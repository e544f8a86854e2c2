-- ===== src/Approvals/Exclusive.antt =====
-- Which calls of the store's methods hand out an approval for execution (store/session_store.py).
use mathlib.Core.Path.{subst}
use master_control.Prelude.{
  ◌≢◌, ap, ℕ, suc, ◌≤◌, String, ◌≡◌, ◌≢◌, refl, inl, inr, Bool, true, false, Option, none, some,
  List, [], ◌∷◌, All, Bool-cases, Option-cases, arith, eqb, count_by, if◌then◌else◌,
}
use master_control.Value.{Fields}
use master_control.Codec.{Codec}
use master_control.Approvals.Rows.{
  select_active_row_by_digest, Status, Row, Table, ToolApproval, MatchOutcome, ExecutionMatch,
  is_pending, is_executing, is_pending_id, select_row, set_executing,
}
use master_control.Approvals.Methods.{
  claimed_match, identity_digest, unclaimed_match, get_tool_approval, row_to_tool_approval,
  to_approval, update_rows, claim_tool_approval, prepare_matching_tool_approval_for_execution,
  claim_found,
}
use master_control.Approvals.Invariant.{IsConsistent, set_executing-IsUpdate}
use master_control.Sql.Laws.{Member}
use master_control.Approvals.Lookup.{
  select_row-update_rows, select_row-id, select_row-Member, Member-count_by,
}
use master_control.Approvals.Lifecycle.{
  settled, perform-IsConsistent, Call, IsProper, status_of, perform, perform-Goes,
}

-- The approval that a claim by id hands out.
unfoldable pub granted_id : Option ToolApproval → Option ℕ
granted_id none = none
granted_id (some a) = some a.id

unfoldable pub granted_match : ExecutionMatch → Option ℕ
granted_match m = elim m.outcome [ MatchOutcome.claimed ↦ granted_id m.approval | _ ↦ none ]

pending_status : (s : Status) → is_pending s ≡ true → s ≡ Status.pending
unfolding is_pending
pending_status Status.pending h = refl
pending_status Status.executing h = cc
pending_status _ h = cc

module _ (codec : Codec) (now : String) where
  -- The id of the approval that this call hands to its caller for execution, if any.
  unfoldable pub granted : Call → Table → Option ℕ
  granted (Call.claim n) t = granted_id (claim_tool_approval codec now n t).0
  granted (Call.prepare tool arguments context) t =
      granted_match
        (prepare_matching_tool_approval_for_execution codec now tool arguments context t).0
  granted _ t = none

  unfoldable pub is_grant : ℕ → Option ℕ → Bool
  is_grant n none = false
  is_grant n (some m) = eqb m n

  -- How often a sequence of calls hands out the approval `n`.
  unfoldable pub grants : ℕ → List Call → Table → ℕ
  grants n [] t = 0
  grants n (call ∷ calls) t =
      let later = grants n calls (perform codec now call t) in
      if is_grant n (granted call t) then suc later else later

  abbrev Starts : ℕ → Table → Table → Type 0
  Starts n t t' = (status_of n t ≡ some Status.pending) × (status_of n t' ≡ some Status.executing)

  abbrev started : ℕ → Table → Table
  started m t = update_rows (is_pending_id m) (set_executing now) t

  pending_row :
      (m : ℕ) (t : Table) (r : Row)
      → IsConsistent t
      → Member r t.rows
      → is_pending_id m r ≡ true
      → Starts m t (started m t)
  unfolding status_of is_pending_id is_pending set_executing
  pending_row m t r c member h =
      let same : r.id ≡ m = ground arith in
      let found : select_row m t ≡ some r =
        subst (λ k. select_row k t ≡ some r) same (select_row-Member t r c member) in
      (
        rw found (ap some (pending_status r.status (ground arith))),
        rw (select_row-update_rows _ _ (set_executing-IsUpdate now m) m t, found) (rw h),
      )

  count-Starts :
      (m : ℕ) (t : Table)
      → IsConsistent t
      → eqb (count_by (is_pending_id m) t.rows) 1 ≡ true
      → Starts m t (started m t)
  count-Starts m t c h =
      let (r, member, p) = Member-count_by (is_pending_id m) t.rows (ground arith) in
      pending_row m t r c member p

  granted_id-eq :
      (m n : ℕ) (t : Table)
      → is_grant n (granted_id (to_approval codec (select_row m t))) ≡ true
      → m ≡ n
  unfolding is_grant granted_id to_approval row_to_tool_approval
  granted_id-eq m n t h = elim (Option-cases (select_row m t)) [
    | inl e ↦ absurd (ground (arith, e))
    | inr (r, e) ↦ ground (arith, e, select_row-id m t r e)
  ]

  claim-Starts :
      (m n : ℕ) (t : Table)
      → IsConsistent t
      → is_grant n (granted_id (claim_tool_approval codec now m t).0) ≡ true
      → Starts n t (claim_tool_approval codec now m t).1
  unfolding claim_tool_approval get_tool_approval
  claim-Starts m n t c h = elim (Bool-cases (eqb (count_by (is_pending_id m) t.rows) 1)) [
    | inl e ↦ rw e (
        subst (λ k. Starts k t (started m t)) (granted_id-eq m n _ (rw e at h))
          (count-Starts m t c e))
    | inr e ↦ absurd (unfold is_grant granted_id in ground (arith, e))
  ]

  unclaimed-grants : (r : Row) → granted_match (unclaimed_match codec r) ≡ none
  unfolding granted_match unclaimed_match
  unclaimed-grants r = ground arith

  claimed-grants :
      (o : Option Row) → granted_match (claimed_match codec o) ≡ granted_id (to_approval codec o)
  unfolding granted_match claimed_match to_approval
  claimed-grants none = unfold granted_id in refl
  claimed-grants (some r) = refl

  claim_found-Starts :
      (d : String) (r : Row) (n : ℕ) (t : Table)
      → IsConsistent t
      → is_grant n (granted_match (claim_found codec now d r t).0) ≡ true
      → Starts n t (claim_found codec now d r t).1
  unfolding claim_found is_grant
  claim_found-Starts d r n t c h = elim (Bool-cases (is_executing r.status)) [
    | inl e ↦ absurd (ground (arith, e, unclaimed-grants r))
    | inr e ↦ elim (Bool-cases (eqb (count_by (is_pending_id r.id) t.rows) 1)) [
      | inl k ↦
          let same : r.id ≡ n =
            granted_id-eq r.id n (started r.id t)
              (ground (arith, e, k, claimed-grants (select_row r.id (started r.id t)))) in
          rw (e, k) (subst (λ i. Starts i t (started r.id t)) same (count-Starts r.id t c k))
      | inr k ↦ absurd (elim (Option-cases (select_active_row_by_digest d (started r.id t))) [
        | inl q ↦ unfold granted_match in ground (arith, e, k, q)
        | inr (current, q) ↦ ground (arith, e, k, q, unclaimed-grants current)
      ])
    ]
  ]

  prepare-Starts :
      (tool : String) (arguments context : Fields) (n : ℕ) (t : Table)
      → IsConsistent t
      → is_grant n (granted (Call.prepare tool arguments context) t) ≡ true
      → Starts n t (perform codec now (Call.prepare tool arguments context) t)
  unfolding granted perform prepare_matching_tool_approval_for_execution
  prepare-Starts tool arguments context n t c h =
      elim (Option-cases
        (select_active_row_by_digest (identity_digest codec tool arguments context) t)) [
          | inl e ↦ absurd (unfold is_grant granted_match in ground (arith, e))
          | inr (r, e) ↦
              rw (e, perform, prepare_matching_tool_approval_for_execution)
                (claim_found-Starts _ r n t c
                  (rw (e, granted, prepare_matching_tool_approval_for_execution) at h))
        ]

  -- In a consistent table, a call that hands out an approval found it pending and leaves it executing.
  pub granted-Starts :
      (call : Call) (n : ℕ) (t : Table)
      → IsConsistent t
      → is_grant n (granted call t) ≡ true
      → Starts n t (perform codec now call t)
  granted-Starts (Call.claim m) n t c h = unfold granted perform in claim-Starts m n t c h
  granted-Starts (Call.prepare tool arguments context) n t c h =
      prepare-Starts tool arguments context n t c h
  granted-Starts (Call.create a) n t c h = unfold granted is_grant in cc
  granted-Starts (Call.finish m s payload) n t c h = unfold granted is_grant in cc
  granted-Starts (Call.reject m) n t c h = unfold granted is_grant in cc

  -- Once an approval is no longer pending, no sequence of calls hands it out.
  grants-zero :
      (calls : List Call) (n : ℕ) (t : Table) (s : Status)
      → All IsProper calls
      → IsConsistent t
      → status_of n t ≡ some s
      → s ≢ Status.pending
      → grants n calls t ≡ 0
  unfolding grants
  grants-zero [] n t s ok c h q = refl
  grants-zero (call ∷ calls) n t s (ok, oks) c h q =
      let (s', h', goes) = perform-Goes codec now call n t ok s h in
      let rest =
        grants-zero calls n (perform codec now call t) s' oks
          (perform-IsConsistent codec now call t ok c) h' (settled s s' q goes) in
      elim (Bool-cases (is_grant n (granted call t))) [
        | inl e ↦ absurd (q (ground (arith, (granted-Starts call n t c e).0)))
        | inr e ↦ rw e rest
      ]

  -- Whatever the calls, from a consistent table on, an approval is handed out for execution at most
  -- once, provided that approvals are only finished as 'completed' or 'failed'.
  pub grants-le-one :
      (calls : List Call) (n : ℕ) (t : Table)
      → All IsProper calls
      → IsConsistent t
      → grants n calls t ≤ 1
  unfolding grants
  grants-le-one [] n t ok c = omega arith
  grants-le-one (call ∷ calls) n t (ok, oks) c =
      let c' = perform-IsConsistent codec now call t ok c in
      elim (Bool-cases (is_grant n (granted call t))) [
        | inl e ↦ rw e (
            omega (
              arith,
              grants-zero calls n (perform codec now call t) Status.executing oks c'
                  (granted-Starts call n t c e).1 (λ k. cc),
            ))
        | inr e ↦ rw e (grants-le-one calls n (perform codec now call t) oks c')
      ]
