-- ===== src/Recommendations/Invariant.antt =====
-- The invariant of the table `session_recommendations`, and the relation of the loop's snapshot of a
-- session to the table that the loop changes.
use master_control.Prelude.{
  ℕ, suc, ◌<◌, String, ◌≡◌, ◌∙◌, refl, sym, ap, inl, inr, Bool, false, [], ◌∷◌, ◌++◌, any, arith,
  eq_iff, if◌then◌else◌,
}
use master_control.Codec.{Codec}
use master_control.Sql.{update_where}
use master_control.Sql.Laws.{Member, Member-map, Member-snoc, any-false}
use master_control.Recommendations.Rows.{Status, Row, Table, Candidate, has_key}
use master_control.Recommendations.Sync.{new_row, refresh}

-- The ids are fresh and distinct, and UNIQUE(session_id, dedupe_key) holds.
pub record IsConsistent (t : Table) : Type 0 where
  pub below : (r : Row) → Member r t.rows → r.id < t.next_id
  pub ids : (a b : Row) → Member a t.rows → Member b t.rows → a.id ≡ b.id → a ≡ b
  pub keys :
      (a b : Row)
      → Member a t.rows
      → Member b t.rows
      → a.session_id ≡ b.session_id
      → a.dedupe_key ≡ b.dedupe_key
      → a ≡ b

-- What an UPDATE leaves alone.
pub record IsUpdate (f : Row → Row) : Type 0 where
  pub same_id : (r : Row) → (f r).id ≡ r.id
  pub same_session : (r : Row) → (f r).session_id ≡ r.session_id
  pub same_key : (r : Row) → (f r).dedupe_key ≡ r.dedupe_key

abbrev pub changed : (Row → Bool) → (Row → Row) → Row → Row
changed p f r = if p r then f r else r

module _ (p : Row → Bool) (f : Row → Row) (u : IsUpdate f) where
  pub changed-IsUpdate : IsUpdate (changed p f)
  changed-IsUpdate = record {
    same_id = λ r. ground (arith, u.same_id r);
    same_session = λ r. ground (arith, u.same_session r);
    same_key = λ r. ground (arith, u.same_key r);
  }

  before :
      {B : Type 0} (column : Row → B) {a b : Row} (a' b' : Row)
      → ((r : Row) → column (changed p f r) ≡ column r)
      → a ≡ changed p f a'
      → b ≡ changed p f b'
      → column a ≡ column b
      → column a' ≡ column b'
  before column a' b' same e h q = sym (same a') ∙ sym (ap column e) ∙ q ∙ ap column h ∙ same b'

  pub update_where-IsConsistent :
      (t : Table) → IsConsistent t → IsConsistent (record t { rows = update_where p f t.rows })
  unfolding update_where
  update_where-IsConsistent t c = record {
    below = λ r m.
        let (r', k, e) = Member-map (changed p f) r t.rows m in
        ground (arith, c.below r' k, changed-IsUpdate.same_id r', ap (λ (x : Row). x.id) e);
    ids = λ a b m n q.
        let (a', k, e) = Member-map (changed p f) a t.rows m in
        let (b', l, h) = Member-map (changed p f) b t.rows n in
        e
        ∙ ap (changed p f)
            (c.ids a' b' k l (before (λ r. r.id) a' b' changed-IsUpdate.same_id e h q))
        ∙ sym h;
    keys = λ a b m n q1 q2.
        let (a', k, e) = Member-map (changed p f) a t.rows m in
        let (b', l, h) = Member-map (changed p f) b t.rows n in
        e
        ∙ ap (changed p f) (
            c.keys a' b' k l (before (λ r. r.session_id) a' b' changed-IsUpdate.same_session e h q1)
              (before (λ r. r.dedupe_key) a' b' changed-IsUpdate.same_key e h q2))
        ∙ sym h;
  }

module _ (codec : Codec) (now : String) (session : ℕ) where
  pub refresh-IsUpdate : (c : Candidate) (s : Status) → IsUpdate (refresh codec now session c s)
  unfolding refresh
  refresh-IsUpdate c s = record {
    same_id = λ r. refl;
    same_session = λ r. refl;
    same_key = λ r. refl;
  }

  -- The rows of an INSERT that the UNIQUE constraint lets through.
  pub insert-IsConsistent :
      (c : Candidate) (t : Table)
      → any (has_key session c.dedupe_key) t.rows ≡ false
      → IsConsistent t
      → IsConsistent (record {
        rows = t.rows ++ new_row codec now session t.next_id c ∷ [];
        next_id = suc t.next_id;
      })
  unfolding new_row has_key
  insert-IsConsistent c t free h = record {
    below = λ r m. elim (Member-snoc r _ t.rows m) [
      | inl k ↦ omega (arith, h.below r k)
      | inr e ↦ ground (arith, ap (λ (x : Row). x.id) e)
    ];
    ids = λ a b m n q. elim (Member-snoc a _ t.rows m) [
      | inl k ↦ elim (Member-snoc b _ t.rows n) [
        | inl l ↦ h.ids a b k l q
        | inr e ↦ absurd (omega (arith, h.below a k, ap (λ (x : Row). x.id) e))
      ]
      | inr e ↦ elim (Member-snoc b _ t.rows n) [
        | inl l ↦ absurd (omega (arith, h.below b l, ap (λ (x : Row). x.id) e))
        | inr e' ↦ e ∙ sym e'
      ]
    ];
    keys = λ a b m n q1 q2. elim (Member-snoc a _ t.rows m) [
      | inl k ↦ elim (Member-snoc b _ t.rows n) [
        | inl l ↦ h.keys a b k l q1 q2
        | inr e ↦ absurd (
            taken a k (q1 ∙ ap (λ (x : Row). x.session_id) e)
              (q2 ∙ ap (λ (x : Row). x.dedupe_key) e))
      ]
      | inr e ↦ elim (Member-snoc b _ t.rows n) [
        | inl l ↦ absurd (
            taken b l (sym q1 ∙ ap (λ (x : Row). x.session_id) e)
              (sym q2 ∙ ap (λ (x : Row). x.dedupe_key) e))
        | inr e' ↦ e ∙ sym e'
      ]
    ];
  }
    where
      taken : (r : Row) → Member r t.rows → r.session_id ≡ session → r.dedupe_key ≡ c.dedupe_key → ⊥
      taken r m q1 q2 = ground (
        arith,
        any-false (has_key session c.dedupe_key) r t.rows free m,
        eq_iff r.dedupe_key c.dedupe_key,
      )
