-- ===== src/Recommendations/Loop.antt =====
-- The loop over the candidates of `sync_session_recommendations` (store/session_store.py).
use mathlib.Core.Path.{subst}
use master_control.Prelude.{
  ℕ, suc, String, ◌≡◌, ◌∙◌, refl, sym, ap, inl, inr, Bool, true, false, ◌||◌, none, some, List, [],
  ◌∷◌, ◌++◌, any, Bool-cases, Option-cases, arith, eqb, eq_iff, ◌==◌, contains,
}
use master_control.Codec.{Codec}
use master_control.Sql.{update_where}
use master_control.Sql.Laws.{Member, Member-map, Member-snoc, any-false}
use master_control.Recommendations.Rows.{Status, Row, Table, Candidate, is_active, has_id, has_key}
use master_control.Recommendations.Sync.{
  >>=-eq-ok, ok, Progress, existing_with_key, next_status, new_row, refresh, insert_new,
  refresh_existing, sync_candidate, sync_candidates, candidate_keys,
}
use master_control.Recommendations.Invariant.{
  IsUpdate, IsConsistent, IsUpdate, changed, changed-IsUpdate, update_where-IsConsistent,
  refresh-IsUpdate, insert-IsConsistent,
}
use master_control.Recommendations.Snapshot.{
  IsSnapshot, IsSnapshot-update, IsSnapshot-insert, existing_some,
}

-- The recommendations of the session with a key of the set are active.
abbrev pub Covers : ℕ → (String → Bool) → Table → Type 0
Covers session keys t =
    (r : Row)
    → Member r t.rows
    → r.session_id ≡ session
    → keys r.dedupe_key ≡ true
    → is_active r.status ≡ true

next_status-active : (s : Status) → is_active (next_status s) ≡ true
unfolding is_active next_status
next_status-active Status.opened = refl
next_status-active Status.accepted = refl
next_status-active _ = refl

module _ (codec : Codec) (now : String) (session : ℕ) (snapshot : List Row) where
  pub record Invariant (keys : String → Bool) (t : Table) : Type 0 where
    pub consistent : IsConsistent t
    pub same : IsSnapshot session snapshot t
    pub covers : Covers session keys t

  abbrev pub with_key : String → (String → Bool) → String → Bool
  with_key key keys k = (k == key) || keys k

  -- The row that the UPDATE sets is active, and it is the only one of the session with its key.
  refreshed_row-active :
      (c : Candidate) (e r : Row) (keys : String → Bool) (t : Table)
      → existing_with_key c.dedupe_key snapshot ≡ some e
      → Invariant keys t
      → Member r t.rows
      → r.session_id ≡ session
      → with_key c.dedupe_key keys r.dedupe_key ≡ true
      → is_active
          (changed (has_id e.id) (refresh codec now session c (next_status e.status)) r).status
        ≡ true
  unfolding has_id refresh
  refreshed_row-active c e r keys t found i m s k = elim (Bool-cases (eqb r.id e.id)) [
    | inl hit ↦ rw hit (next_status-active e.status)
    | inr miss ↦ rw miss (elim (Bool-cases (r.dedupe_key == c.dedupe_key)) [
      | inl same ↦
          let (in_snapshot, key) = existing_some c.dedupe_key snapshot e found in
          let id : r.id ≡ e.id =
            i.same.by_key e r in_snapshot m s
              ((eq_iff r.dedupe_key c.dedupe_key).0 same ∙ sym key) in
          absurd (ground arith)
      | inr other ↦ i.covers r m s (ground arith)
    ])
  ]

  refreshed-Invariant :
      (c : Candidate) (e : Row) (keys : String → Bool) (p : Progress)
      → existing_with_key c.dedupe_key snapshot ≡ some e
      → Invariant keys p.table
      → Invariant (with_key c.dedupe_key keys) (refresh_existing codec now session c e p).table
  unfolding refresh_existing update_where
  refreshed-Invariant c e keys p found i = record {
    consistent = unfold update_where in update_where-IsConsistent _ _ u p.table i.consistent;
    same = unfold update_where in IsSnapshot-update _ _ session snapshot p.table u i.same;
    covers = λ r m s k.
        let (r', n, h) = Member-map (changed (has_id e.id) f) r p.table.rows m in
        let w = changed-IsUpdate (has_id e.id) f u in
        let s' = sym (w.same_session r') ∙ sym (ap (λ (x : Row). x.session_id) h) ∙ s in
        let q : r.dedupe_key ≡ r'.dedupe_key = ap (λ (x : Row). x.dedupe_key) h ∙ w.same_key r' in
        let k' : with_key c.dedupe_key keys r'.dedupe_key ≡ true =
          subst (λ x. with_key c.dedupe_key keys x ≡ true) q k in
        rw h (refreshed_row-active c e r' keys p.table found i n s' k');
  }
    where
      f : Row → Row
      f = refresh codec now session c (next_status e.status)

      u : IsUpdate f
      u = refresh-IsUpdate codec now session c (next_status e.status)

  abbrev inserted : Candidate → Table → Table
  inserted c t = record {
    rows = t.rows ++ new_row codec now session t.next_id c ∷ [];
    next_id = suc t.next_id;
  }

  inserted-Covers :
      (c : Candidate) (keys : String → Bool) (t : Table)
      → any (has_key session c.dedupe_key) t.rows ≡ false
      → Covers session keys t
      → Covers session (with_key c.dedupe_key keys) (inserted c t)
  unfolding new_row is_active has_key
  inserted-Covers c keys t free i r m s k = elim (Member-snoc r _ t.rows m) [
    | inl n ↦ i r n s (ground (arith, any-false (has_key session c.dedupe_key) r t.rows free n))
    | inr h ↦ rw h refl
  ]

  inserted-Invariant :
      (sessions : List ℕ) (c : Candidate) (keys : String → Bool) (p p' : Progress)
      → existing_with_key c.dedupe_key snapshot ≡ none
      → insert_new codec now sessions session c p ≡ ok p'
      → Invariant keys p.table
      → Invariant (with_key c.dedupe_key keys) p'.table
  unfolding insert_new
  inserted-Invariant sessions c keys p p' free h i =
      elim (Bool-cases (any (has_key session c.dedupe_key) p.table.rows)) [
        | inl e ↦ absurd (ground (arith, e))
        | inr e ↦
            let q : inserted c p.table ≡ p'.table = ground (arith, e) in
            subst (Invariant (with_key c.dedupe_key keys)) q (record {
              consistent = insert-IsConsistent codec now session c p.table e i.consistent;
              same = IsSnapshot-insert codec now session snapshot p.table c free i.same;
              covers = inserted-Covers c keys p.table e i.covers;
            })
      ]

  sync_candidate-Invariant :
      (sessions : List ℕ) (c : Candidate) (keys : String → Bool) (p p' : Progress)
      → sync_candidate codec now sessions session snapshot c p ≡ ok p'
      → Invariant keys p.table
      → Invariant (with_key c.dedupe_key keys) p'.table
  unfolding sync_candidate
  sync_candidate-Invariant sessions c keys p p' h i =
      elim (Option-cases (existing_with_key c.dedupe_key snapshot)) [
        | inl free ↦ inserted-Invariant sessions c keys p p' free (ground (arith, free)) i
        | inr (e, found) ↦
            let q : refresh_existing codec now session c e p ≡ p' = ground (arith, found) in
            subst (λ (x : Progress). Invariant (with_key c.dedupe_key keys) x.table) q
              (refreshed-Invariant c e keys p found i)
      ]

  abbrev pub with_keys : List Candidate → (String → Bool) → String → Bool
  with_keys cs keys k = keys k || contains (candidate_keys cs) k

  -- Two ways to write one set of keys.
  same_keys :
      (keys keys' : String → Bool) (t : Table)
      → ((k : String) → keys' k ≡ keys k)
      → Invariant keys t
      → Invariant keys' t
  same_keys keys keys' t e i = record {
    consistent = i.consistent;
    same = i.same;
    covers = λ r m s k. i.covers r m s (sym (e r.dedupe_key) ∙ k);
  }

  -- After the loop, the recommendation of every candidate is active.
  pub sync_candidates-Invariant :
      (sessions : List ℕ) (cs : List Candidate) (keys : String → Bool) (p p' : Progress)
      → sync_candidates codec now sessions session snapshot cs p ≡ ok p'
      → Invariant keys p.table
      → Invariant (with_keys cs keys) p'.table
  unfolding sync_candidates
  sync_candidates-Invariant sessions [] keys p p' h i =
      let q : p ≡ p' = ground arith in
      subst (λ (x : Progress). Invariant (with_keys [] keys) x.table) q
        (same_keys keys (with_keys [] keys) p.table (λ k. ground arith) i)
  sync_candidates-Invariant sessions (c ∷ cs) keys p p' h i =
      let (one, e, rest) = >>=-eq-ok (sync_candidate codec now sessions session snapshot c p) _ h in
      same_keys (with_keys cs (with_key c.dedupe_key keys)) (with_keys (c ∷ cs) keys) p'.table
        (λ k. ground arith)
        (sync_candidates-Invariant sessions cs (with_key c.dedupe_key keys) one p' rest
          (sync_candidate-Invariant sessions c keys p one e i))
