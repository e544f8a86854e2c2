-- ===== src/Sessions/Latest.antt =====
-- The two queries of the observations agree (store/session_store.py).
use mathlib.Core.Path.{subst}
use master_control.Prelude.{
  ap, ℕ, suc, String, Bool, true, false, ◌||◌, List, [], ◌∷◌, ◌++◌, ◌≡◌, ◌∙◌, sym, refl, inl, inr,
  Bool-cases, arith, any, filter, eqb, leb, lookup, assign, lookup-assign, ◌==◌, eq_iff,
  if◌then◌else◌,
}
use master_control.Observations.{Observation}
use master_control.Sessions.Tables.{newest_first}
use master_control.Sessions.Observed.{
  is_of, list_latest_observations, seen_count, limit_per_key, list_recent_observations,
}

-- The row has the key.
abbrev has_key : String → Observation → Bool
has_key key o = o.key == key

any-append :
    {A : Type 0} (p : A → Bool) (xs ys : List A) → any p (xs ++ ys) ≡ (any p xs || any p ys)
any-append p [] ys = refl
any-append p (x ∷ xs) ys = ground (arith, any-append p xs ys)

any-newest_first : {A : Type 0} (p : A → Bool) (xs : List A) → any p (newest_first xs) ≡ any p xs
unfolding newest_first
any-newest_first p [] = refl
any-newest_first p (x ∷ xs) =
    ground (arith, any-append p (newest_first xs) (x ∷ []), any-newest_first p xs)

any-filter-is_of :
    (session : ℕ) (key : String) (os : List Observation)
    → any (has_key key) (filter (λ (o : Observation). eqb o.session_id session) os)
      ≡ any (is_of session key) os
unfolding is_of
any-filter-is_of session key [] = refl
any-filter-is_of session key (o ∷ os) = ground (arith, any-filter-is_of session key os)

seen_count-assign :
    (k j : String) (n : ℕ) (counts : List (String × ℕ))
    → seen_count j (assign k n counts) ≡ (if k == j then n else seen_count j counts)
unfolding seen_count
seen_count-assign k j n counts = elim (Bool-cases (k == j)) [
  | inl e ↦ rw (lookup-assign k j n counts, seen_count) (rw e refl)
  | inr e ↦ rw (lookup-assign k j n counts, seen_count) (rw e refl)
]

-- A row with the key has been let through.
unfoldable is_seen : String → List (String × ℕ) → Bool
is_seen key counts = leb 1 (seen_count key counts)

is_seen-assign :
    (k j : String) (n : ℕ) (counts : List (String × ℕ))
    → is_seen j (assign k (suc n) counts) ≡ ((k == j) || is_seen j counts)
unfolding is_seen
is_seen-assign k j n counts = ground (arith, seen_count-assign k j (suc n) counts)

limit_per_key-dropped :
    (counts : List (String × ℕ)) (x : Observation) (xs : List Observation)
    → is_seen x.key counts ≡ true
    → limit_per_key 1 counts (x ∷ xs) ≡ limit_per_key 1 counts xs
unfolding limit_per_key is_seen
limit_per_key-dropped counts x xs h = rw h refl

limit_per_key-kept :
    (counts : List (String × ℕ)) (x : Observation) (xs : List Observation)
    → is_seen x.key counts ≡ false
    → limit_per_key 1 counts (x ∷ xs)
      ≡ x ∷ limit_per_key 1 (assign x.key (suc (seen_count x.key counts)) counts) xs
unfolding limit_per_key is_seen
limit_per_key-kept counts x xs h = rw h refl

-- A list with one row more, or as it is.
abbrev extended : Bool → Observation → List Observation → List Observation
extended b o rows = if b then rows else rows ++ o ∷ []

cons-extended :
    (b : Bool) (x o : Observation) (rows : List Observation)
    → x ∷ extended b o rows ≡ extended b o (x ∷ rows)
cons-extended true x o rows = refl
cons-extended false x o rows = refl

-- The last row is kept exactly when no row before it has its key.
limit_per_key-snoc :
    (counts : List (String × ℕ)) (xs : List Observation) (o : Observation)
    → limit_per_key 1 counts (xs ++ o ∷ [])
      ≡ extended (is_seen o.key counts || any (has_key o.key) xs) o (limit_per_key 1 counts xs)
limit_per_key-snoc counts [] o = elim (Bool-cases (is_seen o.key counts)) [
  | inl e ↦ limit_per_key-dropped counts o [] e ∙ rw e refl
  | inr e ↦ limit_per_key-kept counts o [] e ∙ rw e (unfold limit_per_key in refl)
]
limit_per_key-snoc counts (x ∷ xs) o =
    let counts' = assign x.key (suc (seen_count x.key counts)) counts in
    elim (Bool-cases (is_seen x.key counts)) [
      | inl a ↦
          let cond : (is_seen o.key counts || any (has_key o.key) xs)
              ≡ (is_seen o.key counts || any (has_key o.key) (x ∷ xs)) =
            elim (Bool-cases (x.key == o.key)) [
              | inr k ↦ ground (arith, k)
              | inl k ↦
                  let same : x.key ≡ o.key = (eq_iff x.key o.key).0 k in
                  let seen : is_seen o.key counts ≡ true =
                    subst (λ k. is_seen k counts ≡ true) same a in
                  ground (arith, seen)
            ] in
          limit_per_key-dropped counts x (xs ++ o ∷ []) a
          ∙ (limit_per_key-snoc counts xs o
              ∙ (ap (λ b. extended b o (limit_per_key 1 counts xs)) cond
                  ∙ ap (extended _ o) (sym (limit_per_key-dropped counts x xs a))))
      | inr a ↦
          let cond : (is_seen o.key counts' || any (has_key o.key) xs)
              ≡ (is_seen o.key counts || any (has_key o.key) (x ∷ xs)) =
            ground (arith, is_seen-assign x.key o.key (seen_count x.key counts) counts) in
          limit_per_key-kept counts x (xs ++ o ∷ []) a
          ∙ (ap (λ rows. x ∷ rows) (limit_per_key-snoc counts' xs o)
              ∙ (ap (λ b. x ∷ extended b o (limit_per_key 1 counts' xs)) cond
                  ∙ (cons-extended _ x o (limit_per_key 1 counts' xs)
                      ∙ ap (extended _ o) (sym (limit_per_key-kept counts x xs a)))))
    ]

none_seen : (key : String) → is_seen key [] ≡ false
unfolding is_seen seen_count lookup
none_seen key = refl

list_recent-own :
    (session : ℕ) (o : Observation) (os : List Observation)
    → eqb o.session_id session ≡ true
    → list_recent_observations session 1 (o ∷ os)
      ≡ extended (any (is_of session o.key) os) o (list_recent_observations session 1 os)
unfolding list_recent_observations newest_first
list_recent-own session o os e =
    let rows = filter (λ (r : Observation). eqb r.session_id session) os in
    let earlier = any-newest_first (has_key o.key) rows in
    let same_rows = any-filter-is_of session o.key os in
    let cond : (is_seen o.key [] || any (has_key o.key) (newest_first rows))
        ≡ any (is_of session o.key) os =
      ground (arith, none_seen o.key, earlier, same_rows) in
    rw e (
      limit_per_key-snoc [] (newest_first rows) o
      ∙ ap (λ b. extended b o (limit_per_key 1 [] (newest_first rows))) cond)

list_recent-other :
    (session : ℕ) (o : Observation) (os : List Observation)
    → eqb o.session_id session ≡ false
    → list_recent_observations session 1 (o ∷ os) ≡ list_recent_observations session 1 os
unfolding list_recent_observations
list_recent-other session o os e = rw e refl

-- The latest observation of each key is the first that a limit of one per key lets through: the two queries
-- give the same rows in the same order.
pub list_latest-list_recent :
    (session : ℕ) (os : List Observation)
    → list_latest_observations session os ≡ list_recent_observations session 1 os
unfolding list_latest_observations
list_latest-list_recent session [] =
    unfold list_recent_observations newest_first limit_per_key in refl
list_latest-list_recent session (o ∷ os) = elim (Bool-cases (eqb o.session_id session)) [
  | inr e ↦ rw e (list_latest-list_recent session os ∙ sym (list_recent-other session o os e))
  | inl e ↦ elim (Bool-cases (any (is_of session o.key) os)) [
    | inl f ↦ rw e (
        rw f (
          list_latest-list_recent session os
          ∙ (ap (λ b. extended b o (list_recent_observations session 1 os)) (sym f)
              ∙ sym (list_recent-own session o os e))))
    | inr f ↦ rw e (
        rw f (
          ap (λ rows. rows ++ o ∷ []) (list_latest-list_recent session os)
          ∙ (ap (λ b. extended b o (list_recent_observations session 1 os)) (sym f)
              ∙ sym (list_recent-own session o os e))))
  ]
]
