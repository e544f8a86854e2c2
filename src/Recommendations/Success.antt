-- ===== src/Recommendations/Success.antt =====
-- When `sync_session_recommendations` of store/session_store.py raises no IntegrityError.
use mathlib.Core.Path.{subst}
use master_control.Prelude.{
  eqb, ℕ, suc, String, ◌≡◌, ◌≢◌, ◌∙◌, refl, sym, ap, inl, inr, Bool, true, false, ◌||◌, none, List,
  [], ◌∷◌, ◌++◌, All, Pairwise, any, filter, ◌==◌, is_some, Bool-cases, Option-cases, arith, eq_iff,
  eqb_iff,
}
use master_control.Codec.{Codec}
use master_control.Sql.{update_where}
use master_control.Sql.Laws.{Member, Member-map, Member-snoc, filter-Member, any-true}
use master_control.Recommendations.Rows.{Row, Table, Candidate, in_session, has_id, has_key}
use master_control.Recommendations.Sync.{
  auto_resolve, report, auto_resolved_ids, candidate_keys, ok, Progress, Synced, existing_with_key,
  next_status, new_row, refresh, insert_new, refresh_existing, sync_candidate, sync_candidates,
  sync_session_recommendations,
}
use master_control.Recommendations.Invariant.{changed, changed-IsUpdate, refresh-IsUpdate}
use master_control.Recommendations.Snapshot.{existing_none}

abbrev pub Distinct : List Candidate → Type 0
Distinct cs = Pairwise (λ a b. a.dedupe_key ≢ b.dedupe_key) cs

module _ (codec : Codec) (now : String) (session : ℕ) (snapshot : List Row) where
  abbrev is_known : (String → Bool) → String → Bool
  is_known seen k = is_some (existing_with_key k snapshot) || seen k

  -- Every row of the session has a key of the snapshot or of a candidate that the loop has done.
  abbrev Known : (String → Bool) → Table → Type 0
  Known seen t =
      (r : Row) → Member r t.rows → r.session_id ≡ session → is_known seen r.dedupe_key ≡ true

  abbrev and_key : String → (String → Bool) → String → Bool
  and_key key seen k = (k == key) || seen k

  fresh-key :
      (c : Candidate) (seen : String → Bool) (t : Table)
      → existing_with_key c.dedupe_key snapshot ≡ none
      → seen c.dedupe_key ≡ false
      → Known seen t
      → any (has_key session c.dedupe_key) t.rows ≡ false
  unfolding has_key
  fresh-key c seen t free new known =
      elim (Bool-cases (any (has_key session c.dedupe_key) t.rows)) [
        | inr e ↦ e
        | inl e ↦
            let (r, m, q) = any-true (has_key session c.dedupe_key) t.rows e in absurd (taken r m q)
      ]
    where
      taken : (r : Row) → Member r t.rows → has_key session c.dedupe_key r ≡ true → ⊥
      taken r m q =
          let same : r.dedupe_key ≡ c.dedupe_key =
            ground (arith, q, eq_iff r.dedupe_key c.dedupe_key) in
          let k = known r m (ground (arith, q, eqb_iff r.session_id session)) in
          let k' : is_known seen c.dedupe_key ≡ true = subst (λ x. is_known seen x ≡ true) same k in
          ground (arith, k', free, new)

  refresh-Known :
      (c : Candidate) (e : Row) (seen : String → Bool) (p : Progress)
      → Known seen p.table
      → Known (and_key c.dedupe_key seen) (refresh_existing codec now session c e p).table
  unfolding refresh_existing update_where
  refresh-Known c e seen p known r m s =
      let f = refresh codec now session c (next_status e.status) in
      let u = refresh-IsUpdate codec now session c (next_status e.status) in
      let (r', n, h) = Member-map (changed (has_id e.id) f) r p.table.rows m in
      let w = changed-IsUpdate (has_id e.id) f u in
      let k = known r' n (sym (w.same_session r') ∙ sym (ap (λ (x : Row). x.session_id) h) ∙ s) in
      let q : r'.dedupe_key ≡ r.dedupe_key =
        sym (w.same_key r') ∙ sym (ap (λ (x : Row). x.dedupe_key) h) in
      let k' : is_known seen r.dedupe_key ≡ true = subst (λ x. is_known seen x ≡ true) q k in
      ground (arith, k')

  -- What an INSERT makes of the loop's state.
  abbrev inserted : Candidate → Progress → Progress
  inserted c p = record p {
    table = record {
      rows = p.table.rows ++ new_row codec now session p.table.next_id c ∷ [];
      next_id = suc p.table.next_id;
    };
    new_ids = p.new_ids ++ p.table.next_id ∷ [];
  }

  insert-Known :
      (c : Candidate) (seen : String → Bool) (t : Table)
      → Known seen t
      → Known (and_key c.dedupe_key seen) (record {
        rows = t.rows ++ new_row codec now session t.next_id c ∷ [];
        next_id = suc t.next_id;
      })
  unfolding new_row
  insert-Known c seen t known r m s = elim (Member-snoc r _ t.rows m) [
    | inl n ↦ let k = known r n s in ground (arith, k)
    | inr h ↦ ground (arith, ap (λ (x : Row). x.dedupe_key) h, eq_iff r.dedupe_key c.dedupe_key)
  ]

  sync_candidate-succeeds :
      (sessions : List ℕ) (c : Candidate) (seen : String → Bool) (p : Progress)
      → any (eqb session) sessions ≡ true
      → seen c.dedupe_key ≡ false
      → Known seen p.table
      → (p' : Progress) × (sync_candidate codec now sessions session snapshot c p ≡ ok p')
        × Known (and_key c.dedupe_key seen) p'.table
  unfolding sync_candidate insert_new
  sync_candidate-succeeds sessions c seen p exists new known =
      elim (Option-cases (existing_with_key c.dedupe_key snapshot)) [
        | inr (e, found) ↦ (
          refresh_existing codec now session c e p,
          rw (found, sync_candidate) refl,
          refresh-Known c e seen p known,
        )
        | inl free ↦ (
          inserted c p,
          rw (free, sync_candidate)
              (rw (exists, fresh-key c seen p.table free new known, insert_new) refl),
          insert-Known c seen p.table known,
        )
      ]

  later-new :
      (c : Candidate) (seen : String → Bool) (cs : List Candidate)
      → All (λ b. c.dedupe_key ≢ b.dedupe_key) cs
      → All (λ b. seen b.dedupe_key ≡ false) cs
      → All (λ b. and_key c.dedupe_key seen b.dedupe_key ≡ false) cs
  later-new c seen [] a n = tt
  later-new c seen (b ∷ cs) (x, a) (y, n) =
      (ground (arith, x, y, eq_iff b.dedupe_key c.dedupe_key), later-new c seen cs a n)

  sync_candidates-succeeds :
      (sessions : List ℕ) (cs : List Candidate) (seen : String → Bool) (p : Progress)
      → any (eqb session) sessions ≡ true
      → Distinct cs
      → All (λ c. seen c.dedupe_key ≡ false) cs
      → Known seen p.table
      → (p' : Progress) × (sync_candidates codec now sessions session snapshot cs p ≡ ok p')
  unfolding sync_candidates
  sync_candidates-succeeds sessions [] seen p exists d new known = (p, refl)
  sync_candidates-succeeds sessions (c ∷ cs) seen p exists (apart, d) (new, rest) known =
      let (one, e, k) = sync_candidate-succeeds sessions c seen p exists new known in
      let (last, q) =
        sync_candidates-succeeds sessions cs (and_key c.dedupe_key seen) one exists d
          (later-new c seen cs apart rest) k in
      (last, rw (e, sync_candidates) q)

none-seen : (cs : List Candidate) → All (λ c. false ≡ false) cs
none-seen [] = tt
none-seen (c ∷ cs) = (refl, none-seen cs)

start-Known :
    (session : ℕ) (t : Table) (r : Row)
    → Member r t.rows
    → r.session_id ≡ session
    → is_some (existing_with_key r.dedupe_key (filter (in_session session) t.rows)) ≡ true
unfolding in_session
start-Known session t r m s =
    elim (Option-cases (existing_with_key r.dedupe_key (filter (in_session session) t.rows))) [
      | inr (e, q) ↦ rw q refl
      | inl q ↦ absurd (
          existing_none r.dedupe_key _ q r
            (filter-Member _ r t.rows ((eqb_iff r.session_id session).1 s) m) refl)
    ]

-- If the session exists and no two candidates have one key, the synchronisation of the session raises no
-- error.
pub sync-succeeds :
    (codec : Codec) (now : String) (sessions : List ℕ) (session : ℕ) (cs : List Candidate)
    (t : Table)
    → any (eqb session) sessions ≡ true
    → Distinct cs
    → (out : Synced) × (t' : Table) × (sync_session_recommendations codec now sessions session cs t
        ≡ ok (out, t'))
unfolding sync_session_recommendations
sync-succeeds codec now sessions session cs t exists d =
    let (p, e) =
      sync_candidates-succeeds codec now session (filter (in_session session) t.rows) sessions cs
        (λ k. false) (record { table = t; new_ids = []; reopened_ids = [] }) exists d (none-seen cs)
        (λ r m s. let k = start-Known session t r m s in ground (arith, k)) in
    let t' = auto_resolve now session (candidate_keys cs) p.table in
    (
      report session t' p (auto_resolved_ids session (candidate_keys cs) p.table.rows),
      t',
      rw (e, sync_session_recommendations) refl,
    )
