-- ===== src/Sessions/Upserts.antt =====
-- What a summary reads as after it is stored (store/session_store.py).
use master_control.Prelude.{
  ℕ, String, Bool, true, false, Option, none, some, List, [], ◌∷◌, ◌++◌, ◌≡◌, ◌≢◌, refl, inl, inr,
  Bool-cases, arith, any, find, eqb, eqb_self,
}
use master_control.Sql.{update_where}
use master_control.Sessions.Tables.{
  Tables, SummaryRow, upsert, session_exists, get_session_summary, upsert_session_summary,
}

abbrev has_session_id : ℕ → SummaryRow → Bool
has_session_id n r = eqb r.session_id n

-- The row of a summary with the text.
abbrev pub Says : String → Option SummaryRow → Type 0
Says text none = ⊥
Says text (some r) = r.summary_text ≡ text

module _ (now text : String) (n : ℕ) where
  abbrev set_text : SummaryRow → SummaryRow
  set_text r = record r { summary_text = text; updated_at = now }

  abbrev new_summary : SummaryRow
  new_summary = record { session_id = n; summary_text = text; updated_at = now }

  updated-Says :
      (rows : List SummaryRow)
      → any (has_session_id n) rows ≡ true
      → Says text (find (has_session_id n) (update_where (has_session_id n) set_text rows))
  unfolding update_where
  updated-Says [] h = ground (arith, h)
  updated-Says (r ∷ rows) h = elim (Bool-cases (has_session_id n r)) [
    | inl e ↦ rw e (rw e refl)
    | inr e ↦ rw e (rw e (updated-Says rows (ground (arith, e, h))))
  ]

  appended-Says :
      (rows : List SummaryRow)
      → any (has_session_id n) rows ≡ false
      → Says text (find (has_session_id n) (rows ++ new_summary ∷ []))
  appended-Says [] h = rw (eqb_self n) refl
  appended-Says (r ∷ rows) h =
      let here : has_session_id n r ≡ false = ground (arith, h) in
      rw here (appended-Says rows (ground (arith, h)))

  updated_other :
      (m : ℕ) (rows : List SummaryRow)
      → m ≢ n
      → find (has_session_id m) (update_where (has_session_id n) set_text rows)
        ≡ find (has_session_id m) rows
  unfolding update_where
  updated_other m [] h = refl
  updated_other m (r ∷ rows) h = elim (Bool-cases (has_session_id n r)) [
    | inl e ↦
        let other : has_session_id m r ≡ false = ground (arith, e, h) in
        rw e (rw other (updated_other m rows h))
    | inr e ↦ elim (Bool-cases (has_session_id m r)) [
      | inl k ↦ rw e (rw k refl)
      | inr k ↦ rw e (rw k (updated_other m rows h))
    ]
  ]

  appended_other :
      (m : ℕ) (rows : List SummaryRow)
      → m ≢ n
      → find (has_session_id m) (rows ++ new_summary ∷ []) ≡ find (has_session_id m) rows
  appended_other m [] h = let other : eqb n m ≡ false = ground (arith, h) in rw other refl
  appended_other m (r ∷ rows) h = elim (Bool-cases (has_session_id m r)) [
    | inl k ↦ rw k refl
    | inr k ↦ rw k (appended_other m rows h)
  ]

  -- A summary that is stored for a session of the store is what the session's summary reads as afterwards, and
  -- the summaries of the other sessions read as before.
  pub get-upsert :
      (t : Tables)
      → session_exists n t ≡ true
      → Says text (get_session_summary n (upsert_session_summary now n text t).1)
        × ((m : ℕ)
            → m ≢ n
            → get_session_summary m (upsert_session_summary now n text t).1
              ≡ get_session_summary m t)
  unfolding get_session_summary upsert_session_summary upsert
  get-upsert t h = elim (Bool-cases (any (has_session_id n) t.summaries)) [
    | inl e ↦
        rw (h, upsert_session_summary)
          (rw e (updated-Says t.summaries e, λ m k. updated_other m t.summaries k))
    | inr e ↦
        rw (h, upsert_session_summary)
          (rw e (appended-Says t.summaries e, λ m k. appended_other m t.summaries k))
  ]
