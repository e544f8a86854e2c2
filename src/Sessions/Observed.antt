-- ===== src/Sessions/Observed.antt =====
-- The queries of the table observations (store/session_store.py). Rows stand in the order of their ids.
use master_control.Prelude.{
  ℕ, suc, String, Bool, not, ◌&&◌, none, some, List, [], ◌∷◌, ◌++◌, any, filter, eqb, leb, lookup,
  assign, ◌==◌, if◌then◌else◌,
}
use master_control.Observations.{Observation}
use master_control.Sessions.Tables.{newest_first}

-- The row is one of the session with the key.
unfoldable pub is_of : ℕ → String → Observation → Bool
is_of session key o = eqb o.session_id session && (o.key == key)

-- The rows whose id is the MAX(id) of their key among the rows of the session, with the highest id first.
unfoldable pub list_latest_observations : ℕ → List Observation → List Observation
list_latest_observations session [] = []
list_latest_observations session (o ∷ os) =
    let rest = list_latest_observations session os in
    if eqb o.session_id session && not (any (is_of session o.key) os) then rest ++ o ∷ [] else rest

-- `counts_by_key.get(key, 0)`
unfoldable pub seen_count : String → List (String × ℕ) → ℕ
seen_count key counts = elim (lookup key counts) [ none ↦ 0 | some n ↦ n ]

-- The loop over the rows of the session.
unfoldable pub limit_per_key : ℕ → List (String × ℕ) → List Observation → List Observation
limit_per_key limit counts [] = []
limit_per_key limit counts (o ∷ os) =
    let seen = seen_count o.key counts in
    let kept = limit_per_key limit (assign o.key (suc seen) counts) os in
    let dropped = limit_per_key limit counts os in if leb limit seen then dropped else o ∷ kept

unfoldable pub list_recent_observations : ℕ → ℕ → List Observation → List Observation
list_recent_observations session limit os =
    limit_per_key limit []
      (newest_first (filter (λ (o : Observation). eqb o.session_id session) os))
