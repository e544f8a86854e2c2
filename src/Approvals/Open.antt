-- ===== src/Approvals/Open.antt =====
-- Which approvals are executing after a call of the store that were not before it.
use master_control.Prelude.{
  ℕ, String, ◌≡◌, ◌≢◌, refl, ◌∙◌, inl, inr, ◌⊎◌, Bool, false, none, some, List, [], ◌∷◌, ◌++◌,
  Bool-cases, Option-cases, arith, find, find-append_some, if◌then◌else◌,
}
use master_control.Value.{Fields}
use master_control.Codec.{Codec}
use master_control.Approvals.Rows.{
  Status, Row, Table, NewApproval, is_pending, is_executing, is_active, is_pending_id,
  is_executing_id, has_id, select_row, select_active_row_by_digest, set_executing, set_finished,
}
use master_control.Approvals.Methods.{
  update_rows, identity_digest, new_row, insert_row, create_tool_approval, finish_tool_approval,
}
use master_control.Approvals.Invariant.{
  IsUpdate, changed, set_executing-IsUpdate, set_finished-IsUpdate,
}
use master_control.Approvals.Lookup.{select_row-update_rows, select_row-id}
use master_control.Approvals.Lifecycle.{status_of}

-- The approval with this id is executing.
abbrev pub IsRunning : ℕ → Table → Type 0
IsRunning n t = status_of n t ≡ some Status.executing

-- No approval is executing in `t'` that was not executing in `t`.
abbrev pub NoneStarted : Table → Table → Type 0
NoneStarted t t' = (n : ℕ) → IsRunning n t' → IsRunning n t

module _ (p : Row → Bool) (f : Row → Row) (u : IsUpdate p f) (n : ℕ) (t : Table) where
  -- The row behind an approval that is executing after an UPDATE.
  IsRunning-row :
      IsRunning n (update_rows p f t)
      → (r : Row) × (select_row n t ≡ some r) × ((changed p f u r).status ≡ Status.executing)
  unfolding status_of
  IsRunning-row h = elim (Option-cases (select_row n t)) [
    | inl e ↦ absurd (ground (arith, e, select_row-update_rows p f u n t))
    | inr (r, e) ↦ (r, e, ground (arith, rw (select_row-update_rows p f u n t, e) at h))
  ]

status-IsRunning :
    (n : ℕ) (t : Table) (r : Row)
    → select_row n t ≡ some r
    → r.status ≡ Status.executing
    → IsRunning n t
unfolding status_of
status-IsRunning n t r e h = rw (e, h) refl

-- A claim starts one approval.
pub set_executing-IsRunning :
    (now : String) (m n : ℕ) (t : Table)
    → IsRunning n (update_rows (is_pending_id m) (set_executing now) t)
    → IsRunning n t ⊎ (n ≡ m)
set_executing-IsRunning now m n t h =
    let (r, e, k) = IsRunning-row _ _ (set_executing-IsUpdate now m) n t h in
    elim (Bool-cases (is_pending_id m r)) [
      | inl q ↦ inr (unfold is_pending_id in ground (arith, q, select_row-id n t r e))
      | inr q ↦ inl (status-IsRunning n t r e (rw q at k))
    ]

executing-active : (s : Status) → is_active s ≡ false → s ≡ Status.executing → ⊥
executing-active s final e =
    let no : is_active Status.executing ≡ false = rw e at final in
    unfold is_active is_pending is_executing in cc

not_selected :
    (m : ℕ) (r : Row) → r.id ≡ m → r.status ≡ Status.executing → is_executing_id m r ≡ false → ⊥
unfolding is_executing_id is_executing
not_selected m r same e q = ground (arith, same, e, q)

-- An approval that is finished no longer executes, and no other starts.
pub finish_tool_approval-IsRunning :
    (codec : Codec) (now : String) (m : ℕ) (s : Status) (payload : Fields) (t : Table) (n : ℕ)
    → is_active s ≡ false
    → IsRunning n (finish_tool_approval codec now m s payload t).1
    → IsRunning n t × (n ≢ m)
unfolding finish_tool_approval set_finished
finish_tool_approval-IsRunning codec now m s payload t n final h =
    let (r, e, k) = IsRunning-row _ _ (set_finished-IsUpdate now m s _ _ final) n t h in
    elim (Bool-cases (is_executing_id m r)) [
      | inl q ↦ absurd (executing-active s final (rw q at k))
      | inr q ↦ (
        status-IsRunning n t r e (rw q at k),
        λ same. not_selected m r (select_row-id n t r e ∙ same) (rw q at k) q,
      )
    ]

module _ (codec : Codec) (now : String) (a : NewApproval) where
  find-snoc_none :
      (n : ℕ) (rows : List Row) (r : Row)
      → find (has_id n) rows ≡ none
      → find (has_id n) (rows ++ r ∷ []) ≡ (if has_id n r then some r else none)
  find-snoc_none n [] r h = refl
  find-snoc_none n (x ∷ rows) r h = ground (arith, find-snoc_none n rows r)

  insert-NoneStarted : (t : Table) → NoneStarted t (insert_row codec now a t)
  unfolding insert_row status_of select_row new_row
  insert-NoneStarted t n h = elim (Option-cases (find (has_id n) t.rows)) [
    | inl e ↦ absurd (ground (arith, h, find-snoc_none n t.rows (new_row codec now t.next_id a) e))
    | inr (r, e) ↦ rw e (rw (find-append_some (has_id n) t.rows _ r e) at h)
  ]

  pub create-NoneStarted : (t : Table) → NoneStarted t (create_tool_approval codec now a t).1
  unfolding create_tool_approval status_of
  create-NoneStarted t =
      elim (Option-cases (
        select_active_row_by_digest (identity_digest codec a.tool_name a.arguments a.audit_context)
          t)) [
            | inl free ↦ rw (free, create_tool_approval) (insert-NoneStarted t)
            | inr (r, found) ↦ rw (found, create_tool_approval) (λ n h. h)
          ]
