-- ===== src/Approvals/Invariant.antt =====
-- The invariant of the table `tool_approvals` of store/session_store.py, across its methods.
use master_control.Prelude.{
  ℕ, suc, ◌<◌, String, ◌≡◌, ◌∙◌, ◌≢◌, refl, sym, inl, inr, Bool, true, false, not, Option, none,
  All, All-imp, All-map, All-append, Pairwise, Pairwise-map, Pairwise-snoc, Option-cases, arith,
  is_some, eq_iff, if◌then◌else◌,
}
use master_control.Value.{Fields}
use master_control.Codec.{Codec}
use master_control.Sql.Laws.{first_row-none}
use master_control.Approvals.Rows.{
  Status, Row, Table, NewApproval, is_active, is_pending_id, is_executing_id, is_active_digest,
  pending_first, select_active_row_by_digest, set_executing, set_rejected, set_finished,
}
use master_control.Approvals.Methods.{
  update_rows, new_row, insert_row, identity_digest, create_tool_approval, claim_tool_approval,
  claim_found, prepare_matching_tool_approval_for_execution, finish_tool_approval,
  reject_tool_approval,
}

-- Two rows that are both active are rows of different actions.
abbrev pub Apart : Row → Row → Type 0
Apart a b =
    is_active a.status ≡ true → is_active b.status ≡ true → a.action_digest ≢ b.action_digest

-- A row carries a resolution time exactly when it is no longer active.
abbrev pub IsStamped : Row → Type 0
IsStamped r = is_some r.resolved_at ≡ not (is_active r.status)

pub record IsConsistent (t : Table) : Type 0 where
  pub below : All (λ r. r.id < t.next_id) t.rows
  pub ascending : Pairwise (λ a b. a.id < b.id) t.rows
  pub one_active : Pairwise Apart t.rows
  pub stamped : All IsStamped t.rows

-- What every UPDATE of the program satisfies on the rows that its WHERE clause lets through.
pub record IsUpdate (p : Row → Bool) (f : Row → Row) : Type 0 where
  pub was_active : (r : Row) → p r ≡ true → is_active r.status ≡ true
  pub same_id : (r : Row) → (f r).id ≡ r.id
  pub same_digest : (r : Row) → (f r).action_digest ≡ r.action_digest
  pub stamps : (r : Row) → IsStamped r → p r ≡ true → IsStamped (f r)

module _ (p : Row → Bool) (f : Row → Row) (u : IsUpdate p f) where
  abbrev pub changed : Row → Row
  changed r = if p r then f r else r

  pub changed-id : (r : Row) → (changed r).id ≡ r.id
  changed-id r = ground (arith, u.same_id r)

  changed-digest : (r : Row) → (changed r).action_digest ≡ r.action_digest
  changed-digest r = ground (arith, u.same_digest r)

  changed-active : (r : Row) → is_active (changed r).status ≡ true → is_active r.status ≡ true
  changed-active r h = ground (arith, u.was_active r)

  changed-Apart : (a b : Row) → Apart a b → Apart (changed a) (changed b)
  changed-Apart a b h x y e =
      h (changed-active a x) (changed-active b y) (sym (changed-digest a) ∙ e ∙ changed-digest b)

  changed-IsStamped : (r : Row) → IsStamped r → IsStamped (changed r)
  changed-IsStamped r h = ground (arith, u.stamps r)

  pub update_rows-IsConsistent : (t : Table) → IsConsistent t → IsConsistent (update_rows p f t)
  unfolding update_rows
  update_rows-IsConsistent t c = record {
    below =
        All-map (λ r. r.id < t.next_id) (λ r. r.id < t.next_id) changed
          (λ r h. omega (arith, changed-id r)) t.rows c.below;
    ascending =
        Pairwise-map (λ a b. a.id < b.id) changed
          (λ a b h. omega (arith, changed-id a, changed-id b)) t.rows c.ascending;
    one_active = Pairwise-map Apart changed changed-Apart t.rows c.one_active;
    stamped = All-map IsStamped IsStamped changed changed-IsStamped t.rows c.stamped;
  }

pub set_executing-IsUpdate : (now : String) (n : ℕ) → IsUpdate (is_pending_id n) (set_executing now)
unfolding is_pending_id set_executing is_active
set_executing-IsUpdate now n = record {
  was_active = λ r h. ground arith;
  same_id = λ r. refl;
  same_digest = λ r. refl;
  stamps = λ r s h. ground arith;
}

pub set_rejected-IsUpdate : (now : String) (n : ℕ) → IsUpdate (is_pending_id n) (set_rejected now)
unfolding is_pending_id set_rejected is_active
set_rejected-IsUpdate now n = record {
  was_active = λ r h. ground arith;
  same_id = λ r. refl;
  same_digest = λ r. refl;
  stamps = λ r s h. ground arith;
}

pub set_finished-IsUpdate :
    (now : String) (n : ℕ) (s : Status) (payload : String) (error : Option String)
    → is_active s ≡ false
    → IsUpdate (is_executing_id n) (set_finished now s payload error)
unfolding is_executing_id set_finished is_active
set_finished-IsUpdate now n s payload error final = record {
  was_active = λ r h. ground arith;
  same_id = λ r. refl;
  same_digest = λ r. refl;
  stamps = λ r st h. ground arith;
}

module _ (codec : Codec) (now : String) where
  module _ (a : NewApproval) where
    abbrev digest_of : String
    digest_of = identity_digest codec a.tool_name a.arguments a.audit_context

    inactive-Apart :
        (t : Table) (r : Row)
        → is_active_digest digest_of r ≡ false
        → Apart r (new_row codec now t.next_id a)
    unfolding is_active_digest new_row
    inactive-Apart t r h x y e = ground (arith, eq_iff r.action_digest digest_of)

    insert_row-IsConsistent :
        (t : Table)
        → select_active_row_by_digest digest_of t ≡ none
        → IsConsistent t
        → IsConsistent (insert_row codec now a t)
    unfolding insert_row new_row select_active_row_by_digest is_active
    insert_row-IsConsistent t free c = record {
      below =
          All-append (λ r. r.id < suc t.next_id) t.rows _
            (All-imp (λ r. r.id < t.next_id) (λ r. r.id < suc t.next_id) (λ r h. omega arith) t.rows
              c.below)
            (omega arith, tt);
      ascending = Pairwise-snoc (λ r s. r.id < s.id) t.rows _ c.ascending c.below;
      one_active = Pairwise-snoc Apart t.rows _ c.one_active (
          All-imp (λ r. is_active_digest digest_of r ≡ false)
            (λ r. Apart r (new_row codec now t.next_id a)) (inactive-Apart t) t.rows
            (first_row-none pending_first (is_active_digest digest_of) t.rows free));
      stamped = All-append IsStamped t.rows _ c.stamped (refl, tt);
    }

    -- The table stays consistent when an approval is created.
    pub create_tool_approval-IsConsistent :
        (t : Table) → IsConsistent t → IsConsistent (create_tool_approval codec now a t).1
    unfolding create_tool_approval
    create_tool_approval-IsConsistent t c =
        elim (Option-cases (select_active_row_by_digest digest_of t)) [
          | inl free ↦ rw (free, create_tool_approval) (insert_row-IsConsistent t free c)
          | inr (r, found) ↦ rw (found, create_tool_approval) c
        ]

  pub claim_tool_approval-IsConsistent :
      (n : ℕ) (t : Table) → IsConsistent t → IsConsistent (claim_tool_approval codec now n t).1
  unfolding claim_tool_approval
  claim_tool_approval-IsConsistent n t c =
      ground (arith, update_rows-IsConsistent _ _ (set_executing-IsUpdate now n) t c)

  claim_found-IsConsistent :
      (d : String) (r : Row) (t : Table)
      → IsConsistent t
      → IsConsistent (claim_found codec now d r t).1
  unfolding claim_found
  claim_found-IsConsistent d r t c =
      ground (arith, update_rows-IsConsistent _ _ (set_executing-IsUpdate now r.id) t c)

  pub finish_tool_approval-IsConsistent :
      (n : ℕ) (s : Status) (payload : Fields) (t : Table)
      → is_active s ≡ false
      → IsConsistent t
      → IsConsistent (finish_tool_approval codec now n s payload t).1
  unfolding finish_tool_approval
  finish_tool_approval-IsConsistent n s payload t final c =
      update_rows-IsConsistent _ _ (set_finished-IsUpdate now n s _ _ final) t c

  pub reject_tool_approval-IsConsistent :
      (n : ℕ) (t : Table) → IsConsistent t → IsConsistent (reject_tool_approval codec now n t).1
  unfolding reject_tool_approval
  reject_tool_approval-IsConsistent n t c =
      update_rows-IsConsistent _ _ (set_rejected-IsUpdate now n) t c

  -- Whatever the outcome of the search for a matching approval, the table stays consistent.
  pub prepare-IsConsistent :
      (tool_name : String) (arguments audit_context : Fields) (t : Table)
      → IsConsistent t
      → IsConsistent
          (prepare_matching_tool_approval_for_execution codec now tool_name arguments audit_context
            t).1
  unfolding prepare_matching_tool_approval_for_execution
  prepare-IsConsistent tool_name arguments audit_context t c =
      elim (Option-cases
        (select_active_row_by_digest (identity_digest codec tool_name arguments audit_context) t)) [
          | inl free ↦ rw (free, prepare_matching_tool_approval_for_execution) c
          | inr (r, found) ↦
              rw (found, prepare_matching_tool_approval_for_execution)
                (claim_found-IsConsistent _ r t c)
        ]
