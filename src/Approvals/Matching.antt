-- ===== src/Approvals/Matching.antt =====
-- The cases of `prepare_matching_tool_approval_for_execution` of store/session_store.py.
use mathlib.Core.Path.{subst}
use master_control.Prelude.{
  ◌⊎◌, ◌≢◌, ℕ, ◌<◌, String, ◌≡◌, refl, sym, inl, inr, true, false, none, some, List, [], ◌∷◌, All,
  Pairwise, Bool-cases, Option-cases, arith, count_by, if◌then◌else◌,
}
use master_control.Value.{Fields}
use master_control.Codec.{Codec}
use master_control.Sql.{first_row}
use master_control.Sql.Laws.{Member, at_member, first_row-some}
use master_control.Approvals.Rows.{
  ExecutionMatch, Row, Table, MatchOutcome, is_pending, is_executing, is_active, is_pending_id,
  is_active_digest, pending_first, select_row, select_active_row_by_digest, set_executing,
}
use master_control.Approvals.Methods.{
  update_rows, identity_digest, row_to_tool_approval, claim_found, no_match, unclaimed_match,
  claimed_match, prepare_matching_tool_approval_for_execution,
}
use master_control.Approvals.Invariant.{IsConsistent, set_executing-IsUpdate}
use master_control.Approvals.Lookup.{select_row-update_rows, select_row-Member}

count-zero :
    (n : ℕ) (rows : List Row) → All (λ r. n < r.id) rows → count_by (is_pending_id n) rows ≡ 0
unfolding is_pending_id
count-zero n [] h = refl
count-zero n (x ∷ rows) (p, h) = ground (arith, count-zero n rows h)

count-head :
    (x : Row) (rows : List Row)
    → All (λ r. x.id < r.id) rows
    → is_pending x.status ≡ true
    → count_by (is_pending_id x.id) (x ∷ rows) ≡ 1
unfolding is_pending_id
count-head x rows q h = ground (arith, count-zero x.id rows q)

-- An id that one row has is counted once.
count-one :
    (rows : List Row) (r : Row)
    → Pairwise (λ a b. a.id < b.id) rows
    → Member r rows
    → is_pending r.status ≡ true
    → count_by (is_pending_id r.id) rows ≡ 1
unfolding is_pending_id
count-one [] r p m h = absurd m
count-one (x ∷ rows) r (q, p) (inl e) h =
    subst (λ y. count_by (is_pending_id y.id) (x ∷ rows) ≡ 1) (sym e)
      (count-head x rows q (rw e at h))
count-one (x ∷ rows) r (q, p) (inr m) h =
    ground (arith, at_member (λ y. x.id < y.id) r rows q m, count-one rows r p m h)

started-row :
    (now : String) (r : Row) (t : Table)
    → IsConsistent t
    → Member r t.rows
    → is_pending r.status ≡ true
    → select_row r.id (update_rows (is_pending_id r.id) (set_executing now) t)
      ≡ some (set_executing now r)
started-row now r t c m h =
    rw
      (
        select_row-update_rows _ _ (set_executing-IsUpdate now r.id) r.id t,
        select_row-Member t r c m,
      )
      (unfold is_pending_id in ground arith)

module _ (codec : Codec) (now : String) where
  claim_found-pending :
      (d : String) (r : Row) (t : Table)
      → IsConsistent t
      → Member r t.rows
      → is_pending r.status ≡ true
      → claim_found codec now d r t ≡ (
        record {
          outcome = MatchOutcome.claimed;
          approval = some (row_to_tool_approval codec (set_executing now r));
        },
        update_rows (is_pending_id r.id) (set_executing now) t,
      )
  unfolding claim_found row_to_tool_approval update_rows claimed_match
  claim_found-pending d r t c m h =
      let one = count-one t.rows r c.ascending m h in
      let later = started-row now r t c m h in
      let waiting : is_executing r.status ≡ false =
        unfold is_pending is_executing in ground arith in
      rw (waiting, claim_found) (rw (one, later, claimed_match) refl)

  claim_found-executing :
      (d : String) (r : Row) (t : Table)
      → is_active_digest d r ≡ true
      → is_pending r.status ≡ false
      → claim_found codec now d r t ≡ (
        record {
          outcome = MatchOutcome.already_executing;
          approval = some (row_to_tool_approval codec r);
        },
        t,
      )
  unfolding claim_found unclaimed_match row_to_tool_approval
  claim_found-executing d r t active h =
      let busy : is_executing r.status ≡ true = unfold is_active_digest is_active in ground arith in
      rw busy refl

  -- A search among the active approvals with the digest of the call, in a consistent table. It finds none
  -- and changes nothing; or it finds one that is executing, says so and changes nothing; or it finds one that
  -- is pending, which it sets to executing and hands out.
  pub prepare-decides :
      (tool_name : String) (arguments context : Fields) (t : Table)
      → IsConsistent t
      → prepare_matching_tool_approval_for_execution codec now tool_name arguments context t
        ≡ elim (select_active_row_by_digest (identity_digest codec tool_name arguments context) t) [
          | none ↦ (no_match, t)
          | some r ↦
              if is_pending r.status
              then (
                record {
                  outcome = MatchOutcome.claimed;
                  approval = some (row_to_tool_approval codec (set_executing now r));
                },
                update_rows (is_pending_id r.id) (set_executing now) t,
              )
              else (
                record {
                  outcome = MatchOutcome.already_executing;
                  approval = some (row_to_tool_approval codec r);
                },
                t,
              )
        ]
  unfolding prepare_matching_tool_approval_for_execution first_row select_active_row_by_digest
  prepare-decides tool_name arguments context t c =
      elim (Option-cases
        (select_active_row_by_digest (identity_digest codec tool_name arguments context) t)) [
          | inl e ↦ rw (e, prepare_matching_tool_approval_for_execution) refl
          | inr (r, e) ↦
              rw (e, prepare_matching_tool_approval_for_execution)
                (let (active, m) = first_row-some pending_first (is_active_digest _) t.rows r e in
                  elim (Bool-cases (is_pending r.status)) [
                    | inl h ↦ rw h (claim_found-pending _ r t c m h)
                    | inr h ↦ rw h (claim_found-executing _ r t active h)
                  ])
        ]

  -- A search changes nothing and hands out nothing, or starts the approval that it hands out.
  pub prepare-cases :
      (tool_name : String) (arguments context : Fields) (t : Table)
      → IsConsistent t
      → ((m : ExecutionMatch) × (prepare_matching_tool_approval_for_execution codec now tool_name
              arguments context t
            ≡ (m, t))
          × (m.outcome ≢ MatchOutcome.claimed))
        ⊎ ((r : Row) × (prepare_matching_tool_approval_for_execution codec now tool_name arguments
                context t
              ≡ (
                record {
                  outcome = MatchOutcome.claimed;
                  approval = some (row_to_tool_approval codec (set_executing now r));
                },
                update_rows (is_pending_id r.id) (set_executing now) t,
              ))
            × (select_row r.id (update_rows (is_pending_id r.id) (set_executing now) t)
                ≡ some (set_executing now r)))
  unfolding first_row select_active_row_by_digest
  prepare-cases tool_name arguments context t c =
      let decided = prepare-decides tool_name arguments context t c in
      elim (Option-cases
        (select_active_row_by_digest (identity_digest codec tool_name arguments context) t)) [
          | inl e ↦ inl (no_match, rw e at decided, λ k. cc)
          | inr (r, e) ↦ elim (Bool-cases (is_pending r.status)) [
            | inl w ↦ inr (
              r,
              rw (e, w) at decided,
              started-row now r t c (first_row-some pending_first (is_active_digest _) t.rows r e).1
                  w,
            )
            | inr w ↦ inl (_, rw (e, w) at decided, λ k. cc)
          ]
        ]
