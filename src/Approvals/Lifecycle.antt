-- ===== src/Approvals/Lifecycle.antt =====
-- The life of an approval under any sequence of the store's methods, from whatever clients: each
-- method is one transaction, so an interleaving of clients is a sequence of calls.
use mathlib.Core.Option
use mathlib.Core.Path.{subst}
use master_control.Prelude.{
  ◌∙◌, ◌≢◌, find-append_some, find, ℕ, String, ◌≡◌, refl, inl, inr, ◌⊎◌, Bool, true, false, Option,
  some, List, [], ◌∷◌, Bool-cases, Option-cases, arith, eqb, count_by,
}
use master_control.Value.{Fields}
use master_control.Codec.{Codec}
use master_control.Approvals.Rows.{
  has_id, Status, Row, Table, NewApproval, is_active, is_pending, is_executing, is_pending_id,
  is_executing_id, select_row, select_active_row_by_digest, set_executing, set_rejected,
  set_finished,
}
use master_control.Approvals.Methods.{
  update_rows, insert_row, identity_digest, create_tool_approval, claim_tool_approval, claim_found,
  prepare_matching_tool_approval_for_execution, finish_tool_approval, reject_tool_approval,
}
use master_control.Approvals.Invariant.{
  IsConsistent, create_tool_approval-IsConsistent, claim_tool_approval-IsConsistent,
  prepare-IsConsistent, finish_tool_approval-IsConsistent, reject_tool_approval-IsConsistent,
  set_rejected-IsUpdate, set_finished-IsUpdate, set_executing-IsUpdate, IsUpdate, changed,
}
use master_control.Approvals.Lookup.{select_row-update_rows}

-- A call of a method of the store, with its arguments.
pub data Call : Type 0 where
  create : NewApproval → Call
  claim : ℕ → Call
  prepare : String → Fields → Fields → Call
  finish : ℕ → Status → Fields → Call
  reject : ℕ → Call

-- The program finishes an approval with 'completed' or 'failed'.
abbrev pub IsProper : Call → Type 0
IsProper (Call.finish n s payload) = (s ≡ Status.completed) ⊎ (s ≡ Status.failed)
IsProper _ = Unit

-- The transitions of the column `status`.
pub data Move : Status → Status → Type 0 where
  start : Move Status.pending Status.executing
  refuse : Move Status.pending Status.rejected
  complete : Move Status.executing Status.completed
  fail : Move Status.executing Status.failed

abbrev pub Goes : Status → Status → Type 0
Goes s s' = (s ≡ s') ⊎ Move s s'

-- The status of the approval with this id, if there is one.
unfoldable pub status_of : ℕ → Table → Option Status
status_of n t = Option.map (λ r. r.status) (select_row n t)

module _ (codec : Codec) (now : String) where
  unfoldable pub perform : Call → Table → Table
  perform (Call.create a) t = (create_tool_approval codec now a t).1
  perform (Call.claim n) t = (claim_tool_approval codec now n t).1
  perform (Call.prepare tool arguments context) t =
      (prepare_matching_tool_approval_for_execution codec now tool arguments context t).1
  perform (Call.finish n s payload) t = (finish_tool_approval codec now n s payload t).1
  perform (Call.reject n) t = (reject_tool_approval codec now n t).1

  unfoldable pub perform_all : List Call → Table → Table
  perform_all [] t = t
  perform_all (call ∷ calls) t = perform_all calls (perform call t)

-- An UPDATE whose SET clause only makes moves, on the rows that it changes.
abbrev Moves : (Row → Bool) → (Row → Row) → Type 0
Moves p f = (r : Row) → p r ≡ true → Move r.status (f r).status

module _ (p : Row → Bool) (f : Row → Row) (u : IsUpdate p f) (moves : Moves p f) where
  changed-Goes : (r : Row) → Goes r.status (changed p f u r).status
  changed-Goes r = elim (Bool-cases (p r)) [
    | inl e ↦ inr (rw (e, changed) (moves r e))
    | inr e ↦ inl (rw (e, changed))
  ]

  update_rows-Goes :
      (n : ℕ) (t : Table) (s : Status)
      → status_of n t ≡ some s
      → (s' : Status) × (status_of n (update_rows p f t) ≡ some s') × Goes s s'
  unfolding status_of
  update_rows-Goes n t s h = elim (Option-cases (select_row n t)) [
    | inl e ↦ absurd (ground (arith, e))
    | inr (r, e) ↦ (
      (changed p f u r).status,
      rw (select_row-update_rows p f u n t, e),
      subst (λ x. Goes x (changed p f u r).status) (same r e) (changed-Goes r),
    )
  ]
    where
      same : (r : Row) → select_row n t ≡ some r → r.status ≡ s
      same r e = ground arith

from_pending : (s : Status) → is_pending s ≡ true → Move s Status.executing × Move s Status.rejected
unfolding is_pending
from_pending Status.pending h = (start, refuse)
from_pending Status.executing h = cc
from_pending _ h = cc

from_executing :
    (s s' : Status)
    → (s' ≡ Status.completed) ⊎ (s' ≡ Status.failed)
    → is_executing s ≡ true
    → Move s s'
unfolding is_executing
from_executing Status.executing s' (inl e) h = rw e complete
from_executing Status.executing s' (inr e) h = rw e fail
from_executing _ s' e h = cc

set_executing-Moves : (now : String) (n : ℕ) → Moves (is_pending_id n) (set_executing now)
unfolding is_pending_id set_executing
set_executing-Moves now n r h = (from_pending r.status (ground arith)).0

set_rejected-Moves : (now : String) (n : ℕ) → Moves (is_pending_id n) (set_rejected now)
unfolding is_pending_id set_rejected
set_rejected-Moves now n r h = (from_pending r.status (ground arith)).1

set_finished-Moves :
    (now : String) (n : ℕ) (s : Status) (payload : String) (error : Option String)
    → (s ≡ Status.completed) ⊎ (s ≡ Status.failed)
    → Moves (is_executing_id n) (set_finished now s payload error)
unfolding is_executing_id set_finished
set_finished-Moves now n s payload error final r h = from_executing r.status s final (ground arith)

final-inactive : (s : Status) → (s ≡ Status.completed) ⊎ (s ≡ Status.failed) → is_active s ≡ false
unfolding is_active
final-inactive s (inl e) = rw e
final-inactive s (inr e) = rw e

module _ (codec : Codec) (now : String) where
  abbrev GoesOn : ℕ → Table → Table → Type 0
  GoesOn n t t' =
      (s : Status) → status_of n t ≡ some s → (s' : Status) × (status_of n t' ≡ some s') × Goes s s'

  GoesOn-refl : (n : ℕ) (t : Table) → GoesOn n t t
  GoesOn-refl n t s h = (s, h, inl refl)

  find-snoc : (n : ℕ) (a : NewApproval) (t : Table) → GoesOn n t (insert_row codec now a t)
  unfolding status_of select_row insert_row
  find-snoc n a t s h = (
    s,
    elim (Option-cases (find (has_id n) t.rows)) [
      | inl e ↦ absurd (ground (arith, e))
      | inr (r, e) ↦ rw (find-append_some (has_id n) t.rows _ r e) (rw e at h)
    ],
    inl refl,
  )

  create-Goes :
      (a : NewApproval) (n : ℕ) (t : Table) → GoesOn n t (create_tool_approval codec now a t).1
  unfolding create_tool_approval
  create-Goes a n t =
      elim (Option-cases (
        select_active_row_by_digest (identity_digest codec a.tool_name a.arguments a.audit_context)
          t)) [
            | inl free ↦ rw (free, create_tool_approval) (find-snoc n a t)
            | inr (r, found) ↦ rw (found, create_tool_approval) (GoesOn-refl n t)
          ]

  -- A claim leaves the table as it is, or starts the approvals with one id.
  abbrev Claims : Table → Table → Type 0
  Claims t t' = (t' ≡ t) ⊎ ((n : ℕ) × (t' ≡ update_rows (is_pending_id n) (set_executing now) t))

  Claims-Goes : (n : ℕ) (t t' : Table) → Claims t t' → GoesOn n t t'
  Claims-Goes n t t' (inl e) = rw e (GoesOn-refl n t)
  Claims-Goes n t t' (inr (m, e)) =
      rw e (update_rows-Goes _ _ (set_executing-IsUpdate now m) (set_executing-Moves now m) n t)

  claim-Claims : (m : ℕ) (t : Table) → Claims t (claim_tool_approval codec now m t).1
  unfolding claim_tool_approval
  claim-Claims m t = elim (Bool-cases (eqb (count_by (is_pending_id m) t.rows) 1)) [
    | inl e ↦ inr (m, rw e)
    | inr e ↦ inl (rw e)
  ]

  claim_found-Claims : (d : String) (r : Row) (t : Table) → Claims t (claim_found codec now d r t).1
  unfolding claim_found
  claim_found-Claims d r t = elim found [ inl e ↦ inl e | inr e ↦ inr (r.id, e) ]
    where
      found :
          ((claim_found codec now d r t).1 ≡ t)
          ⊎ ((claim_found codec now d r t).1
              ≡ update_rows (is_pending_id r.id) (set_executing now) t)
      found = ground arith

  prepare-Claims :
      (tool : String) (arguments context : Fields) (t : Table)
      → Claims t (prepare_matching_tool_approval_for_execution codec now tool arguments context t).1
  unfolding prepare_matching_tool_approval_for_execution
  prepare-Claims tool arguments context t =
      elim (Option-cases
        (select_active_row_by_digest (identity_digest codec tool arguments context) t)) [
          | inl free ↦ inl (rw (free, prepare_matching_tool_approval_for_execution))
          | inr (r, found) ↦
              rw (found, prepare_matching_tool_approval_for_execution) (claim_found-Claims _ r t)
        ]

  pub perform-Goes :
      (call : Call) (n : ℕ) (t : Table) → IsProper call → GoesOn n t (perform codec now call t)
  unfolding perform
  perform-Goes (Call.create a) n t ok = create-Goes a n t
  perform-Goes (Call.claim m) n t ok = Claims-Goes n t _ (claim-Claims m t)
  perform-Goes (Call.prepare tool arguments context) n t ok =
      Claims-Goes n t _ (prepare-Claims tool arguments context t)
  perform-Goes (Call.finish m s payload) n t ok =
      unfold finish_tool_approval in
      update_rows-Goes _ _ (set_finished-IsUpdate now m s _ _ (final-inactive s ok))
        (set_finished-Moves now m s _ _ ok) n t
  perform-Goes (Call.reject m) n t ok =
      unfold reject_tool_approval in
      update_rows-Goes _ _ (set_rejected-IsUpdate now m) (set_rejected-Moves now m) n t

  -- A call of a method leaves each approval in its status or moves it along one transition, provided
  -- that approvals are only finished as 'completed' or 'failed'; no approval is lost.
  pub perform-moves :
      (call : Call) (n : ℕ) (t : Table) (s : Status)
      → IsProper call
      → status_of n t ≡ some s
      → (s' : Status) × (status_of n (perform codec now call t) ≡ some s') × Goes s s'
  perform-moves call n t s ok h = perform-Goes call n t ok s h

  -- Every method keeps the table consistent, provided that approvals are only finished as 'completed' or
  -- 'failed': ids ascend and are below the counter, two active approvals have different digests, and an
  -- approval has a resolution time exactly when it is not active.
  pub perform-IsConsistent :
      (call : Call) (t : Table)
      → IsProper call
      → IsConsistent t
      → IsConsistent (perform codec now call t)
  unfolding perform
  perform-IsConsistent (Call.create a) t ok c = create_tool_approval-IsConsistent codec now a t c
  perform-IsConsistent (Call.claim m) t ok c = claim_tool_approval-IsConsistent codec now m t c
  perform-IsConsistent (Call.prepare tool arguments context) t ok c =
      prepare-IsConsistent codec now tool arguments context t c
  perform-IsConsistent (Call.finish m s payload) t ok c =
      finish_tool_approval-IsConsistent codec now m s payload t (final-inactive s ok) c
  perform-IsConsistent (Call.reject m) t ok c = reject_tool_approval-IsConsistent codec now m t c

-- A transition leads into 'pending' from nowhere.
pub settled : (s s' : Status) → s ≢ Status.pending → Goes s s' → s' ≢ Status.pending
settled s s' h (inl e) k = h (e ∙ k)
settled s s' h (inr start) k = cc
settled s s' h (inr refuse) k = cc
settled s s' h (inr complete) k = cc
settled s s' h (inr fail) k = cc
