-- ===== src/Runtime/Changes.antt =====
-- What `update_recommendation_status` of core/runtime.py changes.
use mathlib.Core.Path.{subst}
use master_control.Prelude.{
  ap, ℕ, String, none, some, List, [], ◌∷◌, ◌++◌, ◌≡◌, ◌⊎◌, sym, refl, inl, inr, Option-cases,
  Bool-cases, arith, find, eqb,
}
use master_control.Value.{ℤ}
use master_control.Sql.{update_where}
use master_control.Recommendations.Rows.{Status, Row, has_id}
use master_control.Recommendations.Invariant.{IsConsistent, IsUpdate, update_where-IsConsistent}
use master_control.Runtime.State.{
  AuditEvent, Host, State, Outcome, value, raised, record_audit_event,
}
use master_control.Runtime.Commands.{get_recommendation}
use master_control.Runtime.Statuses.{
  StatusUpdate, set_status, status_named, update_status_row, report_update,
  update_recommendation_status,
}

module _ (now : String) (n : ℕ) (status : Status) where
  -- An UPDATE that finds no row changes none.
  update_where-none :
      (rows : List Row)
      → find (has_id n) (update_where (has_id n) (set_status now status) rows) ≡ none
      → update_where (has_id n) (set_status now status) rows ≡ rows
  unfolding update_where has_id
  update_where-none [] h = refl
  update_where-none (r ∷ rows) h = elim (Bool-cases (eqb r.id n)) [
    | inl e ↦ let wrong = rw e at h in let none_some = rw e at wrong in ground (arith, none_some)
    | inr e ↦
        let step = rw e at h in
        let rest = rw e at step in rw e (ap (λ xs. r ∷ xs) (update_where-none rows rest))
  ]

  -- The row that is read after the UPDATE has the status.
  update_where-status :
      (rows : List Row) (r : Row)
      → find (has_id n) (update_where (has_id n) (set_status now status) rows) ≡ some r
      → (r.status ≡ status) × (r.id ≡ n)
  unfolding update_where has_id
  update_where-status [] r h = ground (arith, h)
  update_where-status (q ∷ rows) r h = elim (Bool-cases (eqb q.id n)) [
    | inl e ↦
        let step = rw e at h in
        let found = rw e at step in
        let same : set_status now status q ≡ r = ground (arith, found) in
        subst (λ (r : Row). (r.status ≡ status) × (r.id ≡ n)) same (refl, ground (arith, e))
    | inr e ↦ let step = rw e at h in let rest = rw e at step in update_where-status rows r rest
  ]

set_status-IsUpdate : (now : String) (status : Status) → IsUpdate (set_status now status)
set_status-IsUpdate now status = record {
  same_id = λ r. refl;
  same_session = λ r. refl;
  same_key = λ r. refl;
}

module _ {World : Type 0} (host : Host World) where
  open host use {codec, now}

  -- How the method ends: it raises and changes nothing, or the recommendation with the id has the status that
  -- was asked for, and one audit event is appended.
  abbrev pub StatusEnds : ℕ → String → State World → Outcome StatusUpdate × State World → Type 0
  StatusEnds n text s x =
      ((reason : String) × (x.0 ≡ raised reason) × (x.1 ≡ s))
      ⊎ ((u : StatusUpdate) × (e : AuditEvent) × (x.0 ≡ value u)
          × (u.recommendation.id ≡ n)
          × (status_named text ≡ some u.recommendation.status)
          × (get_recommendation codec (ℤ.pos n) x.1.recommendations ≡ some u.recommendation)
          × (x.1.audit ≡ s.audit ++ e ∷ []))

  -- A change of a recommendation's status raises an error and changes nothing, or it leaves the recommendation
  -- of the id with the status that was asked for and appends one audit event. In both cases a consistent
  -- table of recommendations stays consistent.
  pub update_recommendation_status-ends :
      (n : ℕ) (text : String) (s : State World)
      → IsConsistent s.recommendations
      → StatusEnds n text s (update_recommendation_status host n text s)
        × IsConsistent (update_recommendation_status host n text s).1.recommendations
  unfolding update_recommendation_status report_update update_status_row get_recommendation
      record_audit_event
  update_recommendation_status-ends n text s c = elim (Option-cases (status_named text)) [
    | inl e ↦ rw (e, update_recommendation_status) (inl (_, refl, refl), c)
    | inr (status, e) ↦
        let t = update_status_row (now s.world) n status s.recommendations in
        let kept =
          update_where-IsConsistent (has_id n) (set_status (now s.world) status)
            (set_status-IsUpdate (now s.world) status) s.recommendations c in
        elim (Option-cases (get_recommendation codec (ℤ.pos n) t)) [
          | inl f ↦
              rw (e, update_recommendation_status)
                (rw (f, report_update)
                  (
                    inl (
                      _,
                      refl,
                      ap
                          (λ (rows : List Row). record s {
                            recommendations = record s.recommendations { rows = rows };
                          })
                          (update_where-none (now s.world) n status s.recommendations.rows f),
                    ),
                    kept,
                  ))
          | inr (r, f) ↦
              let (status_same, id_same) =
                update_where-status (now s.world) n status s.recommendations.rows r f in
              rw (e, update_recommendation_status)
                (rw (f, report_update)
                  (inr (_, _, refl, id_same, ap some (sym status_same), f, refl), kept))
        ]
  ]
