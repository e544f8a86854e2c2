-- ===== src/Recommendations/Active.antt =====
-- The active recommendations after `sync_session_recommendations` of store/session_store.py.
use mathlib.Core.Path.{subst}
use master_control.Prelude.{
  ℕ, String, ◌≡◌, ◌∙◌, refl, sym, ap, inl, inr, Bool, true, false, List, [], ◌∷◌, map, any, filter,
  Bool-cases, arith, eqb, eqb_iff, contains,
}
use master_control.Codec.{Codec}
use master_control.Sql.{update_where}
use master_control.Sql.Laws.{Member, Member-map, Member-filter, filter-Member, any-true, any-false}
use master_control.Recommendations.Rows.{Row, Table, Candidate, is_active, in_session}
use master_control.Recommendations.Sync.{
  ok, >>=-eq-ok, Progress, Synced, candidate_keys, is_stale, is_open_in, auto_resolved_ids, id_in,
  set_resolved, mark_recommendations_resolved, auto_resolve, sync_candidates,
  sync_session_recommendations,
}
use master_control.Recommendations.Invariant.{
  IsConsistent, IsUpdate, changed, changed-IsUpdate, update_where-IsConsistent,
}
use master_control.Recommendations.Snapshot.{IsSnapshot-start}
use master_control.Recommendations.Loop.{Invariant, Covers, sync_candidates-Invariant}

-- `mark` with no ids and with some, in one form.
mark-changed :
    (now : String) (ids : List ℕ) (rows : List Row)
    → mark_recommendations_resolved now ids rows ≡ map (changed (id_in ids) (set_resolved now)) rows
unfolding mark_recommendations_resolved update_where id_in
mark-changed now [] [] = refl
mark-changed now [] (r ∷ rows) = ap (λ (x : List Row). r ∷ x) (mark-changed now [] rows)
mark-changed now (n ∷ ids) rows = refl

any-map : (p : ℕ → Bool) (rows : List Row) → any p (map (λ r. r.id) rows) ≡ any (λ r. p r.id) rows
any-map p [] = refl
any-map p (r ∷ rows) = rw (any-map p rows)

-- The ids of the rows that a query selects, tested on a row of the table.
id_in-filter :
    (p : Row → Bool) (rows : List Row) (r : Row)
    → ((a : Row) → Member a rows → a.id ≡ r.id → a ≡ r)
    → Member r rows
    → id_in (map (λ x. x.id) (filter p rows)) r ≡ p r
unfolding id_in
id_in-filter p rows r unique m =
    any-map (eqb r.id) (filter p rows)
    ∙ elim (Bool-cases (any (λ x. eqb r.id x.id) (filter p rows))) [
      | inl e ↦
          let (x, k, q) = any-true (λ (x : Row). eqb r.id x.id) (filter p rows) e in
          let (px, l) = Member-filter p x rows k in
          let same : x ≡ r = unique x l (sym ((eqb_iff r.id x.id).0 q)) in e ∙ sym (rw same at px)
      | inr e ↦ elim (Bool-cases (p r)) [
        | inl q ↦ absurd (
            ground (
              arith,
              any-false (λ (x : Row). eqb r.id x.id) r (filter p rows) e
                  (filter-Member p r rows q m),
            ))
        | inr q ↦ e ∙ sym q
      ]
    ]

set_resolved-IsUpdate : (now : String) → IsUpdate (set_resolved now)
unfolding set_resolved
set_resolved-IsUpdate now = record {
  same_id = λ r. refl;
  same_session = λ r. refl;
  same_key = λ r. refl;
}

-- A row is marked exactly when it is an active one of the session with no candidate.
chosen-stale :
    (session : ℕ) (keys : List String) (t : Table) (r : Row)
    → IsConsistent t
    → Member r t.rows
    → id_in (auto_resolved_ids session keys t.rows) r ≡ is_stale session keys r
unfolding auto_resolved_ids
chosen-stale session [] t r c m =
    id_in-filter (is_open_in session) t.rows r (λ a k e. c.ids a r k m e) m
    ∙ unfold is_open_in is_stale in ground arith
chosen-stale session (k ∷ keys) t r c m =
    id_in-filter (is_stale session (k ∷ keys)) t.rows r (λ a l e. c.ids a r l m e) m

abbrev Matches : List String → Row → Type 0
Matches keys r = is_active r.status ≡ contains keys r.dedupe_key

resolved-Matches :
    (now : String) (session : ℕ) (keys : List String) (r : Row)
    → r.session_id ≡ session
    → (contains keys r.dedupe_key ≡ true → is_active r.status ≡ true)
    → Matches keys (changed (is_stale session keys) (set_resolved now) r)
unfolding is_stale set_resolved is_active
resolved-Matches now session keys r s h = ground arith

module _ (now : String) (session : ℕ) (keys : List String) (t : Table) where
  -- A row behind the last UPDATE is the old one, resolved if no candidate keeps it active.
  auto_resolve-Member :
      (r : Row)
      → IsConsistent t
      → Member r (auto_resolve now session keys t).rows
      → (r' : Row) × Member r' t.rows × (r ≡ changed (is_stale session keys) (set_resolved now) r')
  unfolding auto_resolve
  auto_resolve-Member r c m =
      let ids = auto_resolved_ids session keys t.rows in
      let (r', k, e) =
        Member-map (changed (id_in ids) (set_resolved now)) r t.rows (rw mark-changed at m) in
      (r', k, rw (← chosen-stale session keys t r' c k) e)

  -- From a table in which the session's candidates are active, the last UPDATE leaves exactly these.
  pub auto_resolve-active :
      (r : Row)
      → IsConsistent t
      → Covers session (contains keys) t
      → Member r (auto_resolve now session keys t).rows
      → r.session_id ≡ session
      → is_active r.status ≡ contains keys r.dedupe_key
  auto_resolve-active r c covers m s =
      let (r', k, e) = auto_resolve-Member r c m in
      let u =
        changed-IsUpdate (is_stale session keys) (set_resolved now) (set_resolved-IsUpdate now) in
      let s' : r'.session_id ≡ session =
        sym (u.same_session r') ∙ sym (ap (λ (x : Row). x.session_id) e) ∙ s in
      subst (Matches keys) (sym e) (resolved-Matches now session keys r' s' (covers r' k s'))

  auto_resolve-IsConsistent : IsConsistent t → IsConsistent (auto_resolve now session keys t)
  unfolding auto_resolve
  auto_resolve-IsConsistent c = rw mark-changed (
      unfold update_where in
      update_where-IsConsistent (id_in (auto_resolved_ids session keys t.rows)) (set_resolved now)
        (set_resolved-IsUpdate now) t c)

module _ (codec : Codec) (now : String) (sessions : List ℕ) (session : ℕ) (cs : List Candidate)
    (t : Table) (out : Synced) (t' : Table) (c : IsConsistent t)
    (success : sync_session_recommendations codec now sessions session cs t ≡ ok (out, t')) where
  abbrev start : Progress
  start = record { table = t; new_ids = []; reopened_ids = [] }

  -- The loop ended without an error, and the table is what the last UPDATE makes of its own.
  after_loop :
      (p : Progress) × (auto_resolve now session (candidate_keys cs) p.table ≡ t')
      × Invariant codec now session
          (filter (in_session session) t.rows)
          (contains (candidate_keys cs))
          p.table
  unfolding sync_session_recommendations
  after_loop =
      let snapshot = filter (in_session session) t.rows in
      let (p, e, rest) =
        >>=-eq-ok (sync_candidates codec now sessions session snapshot cs start) _ success in
      (
        p,
        ground arith,
        sync_candidates-Invariant codec now session snapshot sessions cs (λ _. false) start p e
            (record {
              consistent = c;
              same = IsSnapshot-start session t c;
              covers = λ r m s k. absurd (ground arith);
            }),
      )

  -- After a synchronisation from a consistent table that raises no error, a recommendation of the session is active (open or
  -- accepted) exactly when its key is the key of a candidate.
  pub sync-active :
      (r : Row)
      → Member r t'.rows
      → r.session_id ≡ session
      → is_active r.status ≡ contains (candidate_keys cs) r.dedupe_key
  sync-active r m s =
      let (p, e, i) = after_loop in
      auto_resolve-active now session (candidate_keys cs) p.table r i.consistent i.covers
        (subst (λ (x : Table). Member r x.rows) (sym e) m) s

  -- A synchronisation that raises no error keeps the ids of the table fresh and distinct and the pairs
  -- of session and key unique.
  pub sync-IsConsistent : IsConsistent t'
  sync-IsConsistent =
      let (p, e, i) = after_loop in
      subst IsConsistent e
        (auto_resolve-IsConsistent now session (candidate_keys cs) p.table i.consistent)
