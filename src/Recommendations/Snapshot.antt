-- ===== src/Recommendations/Snapshot.antt =====
-- The snapshot `existing_by_key` that the loop of `sync_session_recommendations` works with, against
-- the table that the loop changes.
use master_control.Prelude.{
  ℕ, suc, ◌<◌, String, ◌≡◌, ◌≢◌, ◌∙◌, sym, ap, inl, inr, Bool, none, some, List, [], ◌∷◌, ◌++◌,
  filter, Option-cases, arith, eqb_iff, eq_iff,
}
use master_control.Codec.{Codec}
use master_control.Sql.{update_where}
use master_control.Sql.Laws.{Member, Member-filter, Member-map, Member-snoc}
use master_control.Recommendations.Rows.{Row, Table, Candidate, in_session}
use master_control.Recommendations.Sync.{existing_with_key, new_row}
use master_control.Recommendations.Invariant.{IsConsistent, IsUpdate, changed, changed-IsUpdate}

-- The row that the dict has for a key: it is in the snapshot and has the key.
pub existing_some :
    (key : String) (rows : List Row) (e : Row)
    → existing_with_key key rows ≡ some e
    → Member e rows × (e.dedupe_key ≡ key)
unfolding existing_with_key
existing_some key [] e h = cc
existing_some key (r ∷ rows) e h = elim (Option-cases (existing_with_key key rows)) [
  | inl q ↦ (inl (ground (arith, q)), ground (arith, q, eq_iff r.dedupe_key key))
  | inr (later, q) ↦ let (m, k) = existing_some key rows e (ground (arith, q)) in (inr m, k)
]

-- No entry for a key: no row of the snapshot has it.
pub existing_none :
    (key : String) (rows : List Row)
    → existing_with_key key rows ≡ none
    → (e : Row) → Member e rows
    → e.dedupe_key ≢ key
unfolding existing_with_key
existing_none key [] h e m k = absurd m
existing_none key (r ∷ rows) h e m k = elim (Option-cases (existing_with_key key rows)) [
  | inl q ↦ elim m [
    | inl same ↦ ground (arith, q, eq_iff r.dedupe_key key, ap (λ (x : Row). x.dedupe_key) same)
    | inr later ↦ existing_none key rows q e later k
  ]
  | inr (later, q) ↦ ground (arith, q)
]

-- `rows` is what the session had when the transaction began.
pub record IsSnapshot (session : ℕ) (rows : List Row) (t : Table) : Type 0 where
  pub by_id :
      (e r : Row)
      → Member e rows
      → Member r t.rows
      → r.id ≡ e.id
      → (r.session_id ≡ session) × (r.dedupe_key ≡ e.dedupe_key)
  pub by_key :
      (e r : Row)
      → Member e rows
      → Member r t.rows
      → r.session_id ≡ session
      → r.dedupe_key ≡ e.dedupe_key
      → r.id ≡ e.id
  pub older : (e : Row) → Member e rows → e.id < t.next_id

pub IsSnapshot-start :
    (session : ℕ) (t : Table)
    → IsConsistent t
    → IsSnapshot session (filter (in_session session) t.rows) t
unfolding in_session
IsSnapshot-start session t c = record {
  by_id = λ e r m n q.
      let (s, k) = Member-filter _ e t.rows m in
      let same = c.ids r e n k q in
      (
        ap (λ (x : Row). x.session_id) same ∙ (eqb_iff e.session_id session).0 s,
        ap (λ (x : Row). x.dedupe_key) same,
      );
  by_key = λ e r m n q1 q2.
      let (s, k) = Member-filter _ e t.rows m in
      ap (λ (x : Row). x.id) (c.keys r e n k (q1 ∙ sym ((eqb_iff e.session_id session).0 s)) q2);
  older = λ e m. c.below e (Member-filter _ e t.rows m).1;
}

pub IsSnapshot-update :
    (p : Row → Bool) (f : Row → Row) (session : ℕ) (rows : List Row) (t : Table)
    → IsUpdate f
    → IsSnapshot session rows t
    → IsSnapshot session rows (record t { rows = update_where p f t.rows })
unfolding update_where
IsSnapshot-update p f session rows t u s = record {
  by_id = λ e r m n q.
      let (r', k, h) = Member-map (changed p f) r t.rows n in
      let w = changed-IsUpdate p f u in
      let (x, y) = s.by_id e r' m k (sym (w.same_id r') ∙ sym (ap (λ (x : Row). x.id) h) ∙ q) in
      (
        ap (λ (x : Row). x.session_id) h ∙ w.same_session r' ∙ x,
        ap (λ (x : Row). x.dedupe_key) h ∙ w.same_key r' ∙ y,
      );
  by_key = λ e r m n q1 q2.
      let (r', k, h) = Member-map (changed p f) r t.rows n in
      let w = changed-IsUpdate p f u in
      ap (λ (x : Row). x.id) h
      ∙ w.same_id r'
      ∙ s.by_key e r' m k (sym (w.same_session r') ∙ sym (ap (λ (x : Row). x.session_id) h) ∙ q1)
          (sym (w.same_key r') ∙ sym (ap (λ (x : Row). x.dedupe_key) h) ∙ q2);
  older = s.older;
}

pub IsSnapshot-insert :
    (codec : Codec) (now : String) (session : ℕ) (rows : List Row) (t : Table) (c : Candidate)
    → existing_with_key c.dedupe_key rows ≡ none
    → IsSnapshot session rows t
    → IsSnapshot session rows (record {
      rows = t.rows ++ new_row codec now session t.next_id c ∷ [];
      next_id = suc t.next_id;
    })
unfolding new_row
IsSnapshot-insert codec now session rows t c free s = record {
  by_id = λ e r m n q. elim (Member-snoc r _ t.rows n) [
    | inl k ↦ s.by_id e r m k q
    | inr h ↦ absurd (omega (arith, s.older e m, ap (λ (x : Row). x.id) h))
  ];
  by_key = λ e r m n q1 q2. elim (Member-snoc r _ t.rows n) [
    | inl k ↦ s.by_key e r m k q1 q2
    | inr h ↦
        absurd
          (existing_none c.dedupe_key rows free e m (sym q2 ∙ ap (λ (x : Row). x.dedupe_key) h))
  ];
  older = λ e m. omega (arith, s.older e m);
}
