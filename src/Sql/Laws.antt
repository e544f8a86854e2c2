-- ===== src/Sql/Laws.antt =====
-- What a SELECT finds, and what it means that it finds nothing.
use mathlib.Core.Path.{subst}
use master_control.Prelude.{
  refl, ap, map, any, ◌++◌, ◌≡◌, sym, ◌⊎◌, inl, inr, Bool, true, false, none, some, List, [], ◌∷◌,
  filter, All, Bool-cases, arith,
}
use master_control.Sql.{insert_by, order_by, first, first_row}

module _ {A : Type 0} where
  abbrev pub Member : A → List A → Type 0
  Member x [] = ⊥
  Member x (y ∷ ys) = (x ≡ y) ⊎ Member x ys

  pub at_member {κ} : (P : A → Type κ) (x : A) (xs : List A) → All P xs → Member x xs → P x
  at_member P x [] _ m = absurd m
  at_member P x (y ∷ ys) (p, h) (inl e) = subst P (sym e) p
  at_member P x (y ∷ ys) (p, h) (inr m) = at_member P x ys h m

  pub Member-filter :
      (p : A → Bool) (x : A) (xs : List A) → Member x (filter p xs) → (p x ≡ true) × Member x xs
  Member-filter p x [] m = absurd m
  Member-filter p x (y ∷ ys) m = elim (Bool-cases (p y)) [
    | inl e ↦
        let here : (x ≡ y) ⊎ Member x (filter p ys) = rw e at m in
        elim here [
          | inl same ↦ (rw same e, inl same)
          | inr k ↦ let (q, j) = Member-filter p x ys k in (q, inr j)
        ]
    | inr e ↦ let (q, k) = Member-filter p x ys (rw e at m) in (q, inr k)
  ]

  pub filter-Member :
      (p : A → Bool) (x : A) (xs : List A) → p x ≡ true → Member x xs → Member x (filter p xs)
  filter-Member p x [] h m = absurd m
  filter-Member p x (y ∷ ys) h (inl e) = rw (rw e at h) (inl e)
  filter-Member p x (y ∷ ys) h (inr m) = elim (Bool-cases (p y)) [
    | inl e ↦ rw e (inr (filter-Member p x ys h m))
    | inr e ↦ rw e (filter-Member p x ys h m)
  ]

  pub Member-map :
      (f : A → A) (x : A) (xs : List A) → Member x (map f xs) → (y : A) × Member y xs × (x ≡ f y)
  Member-map f x [] m = absurd m
  Member-map f x (y ∷ ys) (inl e) = (y, inl refl, e)
  Member-map f x (y ∷ ys) (inr m) = let (z, k, e) = Member-map f x ys m in (z, inr k, e)

  pub map-Member : (f : A → A) (x : A) (xs : List A) → Member x xs → Member (f x) (map f xs)
  map-Member f x [] m = absurd m
  map-Member f x (y ∷ ys) (inl e) = inl (ap f e)
  map-Member f x (y ∷ ys) (inr m) = inr (map-Member f x ys m)

  pub Member-snoc : (x y : A) (xs : List A) → Member x (xs ++ y ∷ []) → Member x xs ⊎ (x ≡ y)
  Member-snoc x y [] (inl e) = inr e
  Member-snoc x y [] (inr m) = absurd m
  Member-snoc x y (z ∷ zs) (inl e) = inl (inl e)
  Member-snoc x y (z ∷ zs) (inr m) = elim (Member-snoc x y zs m) [
    | inl k ↦ inl (inr k)
    | inr e ↦ inr e
  ]

  pub snoc-Member : (x y : A) (xs : List A) → Member x xs → Member x (xs ++ y ∷ [])
  snoc-Member x y [] m = absurd m
  snoc-Member x y (z ∷ zs) (inl e) = inl e
  snoc-Member x y (z ∷ zs) (inr m) = inr (snoc-Member x y zs m)

  pub snoc-Member_last : (y : A) (xs : List A) → Member y (xs ++ y ∷ [])
  snoc-Member_last y [] = inl refl
  snoc-Member_last y (z ∷ zs) = inr (snoc-Member_last y zs)

  pub any-false :
      (p : A → Bool) (x : A) (xs : List A) → any p xs ≡ false → Member x xs → p x ≡ false
  any-false p x [] h m = absurd m
  any-false p x (y ∷ ys) h (inl e) = rw e (ground arith)
  any-false p x (y ∷ ys) h (inr m) = any-false p x ys (ground arith) m

  pub any-true :
      (p : A → Bool) (xs : List A) → any p xs ≡ true → (x : A) × Member x xs × (p x ≡ true)
  any-true p [] h = cc
  any-true p (y ∷ ys) h = elim (Bool-cases (p y)) [
    | inl e ↦ (y, inl refl, e)
    | inr e ↦ let (x, m, q) = any-true p ys (rw e at h) in (x, inr m, q)
  ]

  module _ (le : A → A → Bool) where
    Member-insert_by :
        (x y : A) (ys : List A) → Member x (insert_by le y ys) → (x ≡ y) ⊎ Member x ys
    unfolding insert_by
    Member-insert_by x y [] m = m
    Member-insert_by x y (z ∷ zs) m = elim (Bool-cases (le y z)) [
      | inl e ↦ rw e at m
      | inr e ↦
          let there : (x ≡ z) ⊎ Member x (insert_by le y zs) = rw e at m in
          elim there [
            | inl same ↦ inr (inl same)
            | inr k ↦ elim (Member-insert_by x y zs k) [ inl same ↦ inl same | inr j ↦ inr (inr j) ]
          ]
    ]

    Member-order_by : (x : A) (xs : List A) → Member x (order_by le xs) → Member x xs
    unfolding order_by
    Member-order_by x [] m = m
    Member-order_by x (y ∷ ys) m = elim (Member-insert_by x y (order_by le ys) m) [
      | inl e ↦ inl e
      | inr k ↦ inr (Member-order_by x ys k)
    ]

    insert_by-ne_nil : (x : A) (xs : List A) → first (insert_by le x xs) ≡ none → ⊥
    unfolding insert_by
    insert_by-ne_nil x [] h = cc
    insert_by-ne_nil x (y ∷ ys) h = ground arith

    order_by-ne_nil : (x : A) (xs : List A) → first (order_by le (x ∷ xs)) ≡ none → ⊥
    unfolding order_by
    order_by-ne_nil x xs h = insert_by-ne_nil x (order_by le xs) h

    first-Member : (x : A) (xs : List A) → first xs ≡ some x → Member x xs
    first-Member x [] h = cc
    first-Member x (y ∷ ys) h = inl (ground arith)

    -- The row that a SELECT returns passes its WHERE clause and is in the table.
    pub first_row-some :
        (p : A → Bool) (rows : List A) (r : A)
        → first_row le p rows ≡ some r
        → (p r ≡ true) × Member r rows
    unfolding first_row
    first_row-some p rows r h =
        Member-filter p r rows (Member-order_by r (filter p rows) (first-Member r _ h))

    -- A SELECT that returns nothing: no row passes its WHERE clause.
    pub first_row-none :
        (p : A → Bool) (rows : List A) → first_row le p rows ≡ none → All (λ r. p r ≡ false) rows
    unfolding first_row
    first_row-none p [] h = tt
    first_row-none p (x ∷ xs) h = elim (Bool-cases (p x)) [
      | inl e ↦ absurd (order_by-ne_nil x (filter p xs) (rw e at h))
      | inr e ↦ (e, first_row-none p xs (rw e at h))
    ]
