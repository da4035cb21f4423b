-- ===== src/Prelude/Sorting.antt =====
-- Stable insertion sort, which stands for `ORDER BY` and for `sorted`.
use mathlib.Core.Path.{◌≡◌, refl, ap, subst, ◌∙◌}
use mathlib.Core.Bool.{Bool, true, false}
use mathlib.Core.List.{List, [], ◌∷◌}
use mathlib.Core.Logic.{inl, inr}
use codelab_ai_service.Prelude.Tests.{Bool-cases, if◌then◌else◌}

module _ {ℓ} {A : Type ℓ} (before : A → A → Bool) where
  abbrev pub insert_by : A → List A → List A
  insert_by x [] = x ∷ []
  insert_by x (y ∷ ys) = let rest = insert_by x ys in if before x y then x ∷ y ∷ ys else y ∷ rest

  unfoldable pub sort_by : List A → List A
  sort_by [] = []
  sort_by (x ∷ xs) = insert_by x (sort_by xs)

  -- Neighbours are in order.
  abbrev pub IsChain : List A → Type 0
  IsChain [] = Unit
  IsChain (x ∷ []) = Unit
  IsChain (x ∷ y ∷ ys) = (before x y ≡ true) × IsChain (y ∷ ys)

  tail-IsChain : (x : A) (xs : List A) → IsChain (x ∷ xs) → IsChain xs
  tail-IsChain x [] h = tt
  tail-IsChain x (y ∷ ys) h = h.1

  insert_by-IsChain : (x : A) (xs : List A) → IsChain (x ∷ xs) → insert_by x xs ≡ x ∷ xs
  insert_by-IsChain x [] h = refl
  insert_by-IsChain x (y ∷ ys) (h, h') = rw h

  pub sort_by-IsChain : (xs : List A) → IsChain xs → sort_by xs ≡ xs
  unfolding sort_by
  sort_by-IsChain [] h = refl
  sort_by-IsChain (x ∷ xs) h =
      ap (insert_by x) (sort_by-IsChain xs (tail-IsChain x xs h)) ∙ insert_by-IsChain x xs h

  module _ (total : (x y : A) → before x y ≡ false → before y x ≡ true) where
    insert_by-keeps-IsChain : (x : A) (xs : List A) → IsChain xs → IsChain (insert_by x xs)
    insert_by-keeps-IsChain x [] h = tt
    insert_by-keeps-IsChain x (y ∷ []) h = elim (Bool-cases (before x y)) [
      | inl e ↦ rw e (e, tt)
      | inr e ↦ rw e (total x y e, tt)
    ]
    insert_by-keeps-IsChain x (y ∷ z ∷ ys) (h, hs) = elim (Bool-cases (before x y)) [
      | inl e ↦ rw e (e, (h, hs))
      | inr e ↦ elim (Bool-cases (before x z)) [
        | inl e' ↦ rw (e, e') (total x y e, (e', hs))
        | inr e' ↦
            let rest =
              subst (λ b. IsChain (if b then x ∷ z ∷ ys else z ∷ insert_by x ys)) e'
                (insert_by-keeps-IsChain x (z ∷ ys) hs) in
            rw (e, e') (h, rest)
      ]
    ]

    pub IsChain-sort_by : (xs : List A) → IsChain (sort_by xs)
    unfolding sort_by
    IsChain-sort_by [] = tt
    IsChain-sort_by (x ∷ xs) = insert_by-keeps-IsChain x (sort_by xs) (IsChain-sort_by xs)
