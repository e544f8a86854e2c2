-- ===== src/Prelude/Pairs.antt =====
-- A relation between every two elements of a list, and how it survives a map and an append.
use mathlib.Core.List.{List, [], ◌∷◌, ◌++◌, map}
use master_control.Prelude.Lists.{All, All-append, All-map}

module _ {ℓ κ} {A : Type ℓ} (R : A → A → Type κ) where
  -- `R` holds of every element and every later one.
  abbrev pub Pairwise : List A → Type κ
  Pairwise [] = Unit
  Pairwise (x ∷ xs) = All (R x) xs × Pairwise xs

  pub Pairwise-snoc :
      (xs : List A) (y : A) → Pairwise xs → All (λ x. R x y) xs → Pairwise (xs ++ y ∷ [])
  Pairwise-snoc [] y _ _ = (tt, tt)
  Pairwise-snoc (x ∷ xs) y (h, p) (k, q) =
      (All-append (R x) xs (y ∷ []) h (k, tt), Pairwise-snoc xs y p q)

  pub Pairwise-map :
      (f : A → A)
      → ((x y : A) → R x y → R (f x) (f y))
      → (xs : List A) → Pairwise xs
      → Pairwise (map f xs)
  Pairwise-map f g [] _ = tt
  Pairwise-map f g (x ∷ xs) (h, p) =
      (All-map (R x) (R (f x)) f (λ y. g x y) xs h, Pairwise-map f g xs p)
