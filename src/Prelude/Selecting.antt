-- ===== src/Prelude/Selecting.antt =====
-- What selecting and changing the rows of a table by a test have to do with each other.
use Prim.Native.Nat.{ℕ, zero, suc, ◌+◌, ◌≤◌}
use mathlib.Core.Path.{◌≡◌, refl}
use mathlib.Core.Bool.{Bool, true, false}
use mathlib.Core.Option.{none, some}
use mathlib.Core.List.{List, [], ◌∷◌, ◌++◌}
use native.Mathlib.Omega.{arith}
use codelab_ai_service.Prelude.Tests.{if◌then◌else◌, is_some}
use codelab_ai_service.Prelude.Lists.{keep, find, All, length}

module _ {ℓ} {A : Type ℓ} where
  -- The elements that pass a test are changed.
  abbrev pub change : (A → Bool) → (A → A) → List A → List A
  change p f [] = []
  change p f (x ∷ xs) = let rest = change p f xs in if p x then f x ∷ rest else x ∷ rest

  -- The first `n` elements that pass a test are changed; with their number.
  abbrev pub change_some : (A → Bool) → (A → A) → ℕ → List A → ℕ × List A
  change_some p f zero xs = (0, xs)
  change_some p f (suc n) [] = (0, [])
  change_some p f (suc n) (x ∷ xs) =
      let changed = change_some p f n xs in
      let kept = change_some p f (suc n) xs in
      if p x then (suc changed.0, f x ∷ changed.1) else (kept.0, x ∷ kept.1)

  module _ (p : A → Bool) where
    pub keep-append : (xs ys : List A) → keep p (xs ++ ys) ≡ keep p xs ++ keep p ys
    keep-append [] ys = refl
    keep-append (x ∷ xs) ys = ground (arith, keep-append xs ys)

    pub keep-All : (xs : List A) → All (λ x. p x ≡ true) xs → keep p xs ≡ xs
    keep-All [] h = refl
    keep-All (x ∷ xs) (h, hs) = ground (arith, keep-All xs hs)

    pub keep-none : (xs : List A) → All (λ x. p x ≡ false) xs → keep p xs ≡ []
    keep-none [] h = refl
    keep-none (x ∷ xs) (h, hs) = ground (arith, keep-none xs hs)

    pub find-append :
        (xs ys : List A)
        → find p (xs ++ ys) ≡ elim (find p xs) [ none ↦ find p ys | some x ↦ some x ]
    find-append [] ys = refl
    find-append (x ∷ xs) ys = ground (arith, find-append xs ys)

    pub find-passes : (x : A) (xs : List A) → find p xs ≡ some x → p x ≡ true
    find-passes x [] h = ground arith
    find-passes x (y ∷ xs) h = ground (arith, find-passes x xs)

    module _ (q : A → Bool) where
      -- A test that implies another.
      pub find-weaker :
          ((x : A) → p x ≡ true → q x ≡ true)
          → (xs : List A) → is_some (find q xs) ≡ false
          → find p xs ≡ none
      find-weaker h [] e = refl
      find-weaker h (x ∷ xs) e = ground (arith, h x, find-weaker h xs)

      -- A row that fails the one test is not kept by the other.
      pub keep-keep :
          ((x : A) → p x ≡ true → q x ≡ true) → (xs : List A) → keep p (keep q xs) ≡ keep p xs
      keep-keep h [] = refl
      keep-keep h (x ∷ xs) = ground (arith, h x, keep-keep h xs)

      pub keep-keep-none :
          ((x : A) → q x ≡ true → p x ≡ false) → (xs : List A) → keep p (keep q xs) ≡ []
      keep-keep-none h [] = refl
      keep-keep-none h (x ∷ xs) = ground (arith, h x, keep-keep-none h xs)

    module _ (q : A → Bool) (f : A → A) where
      -- A change of other rows is not seen.
      pub find-change_other :
          ((x : A) → q x ≡ true → p x ≡ false)
          → ((x : A) → q x ≡ true → p (f x) ≡ false)
          → (xs : List A) → find p (change q f xs) ≡ find p xs
      find-change_other h h' [] = refl
      find-change_other h h' (x ∷ xs) = ground (arith, h x, h' x, find-change_other h h' xs)

      -- A change that makes the test fail, of all rows that may pass it.
      pub find-change-none :
          ((x : A) → p x ≡ true → q x ≡ true)
          → ((x : A) → q x ≡ true → p (f x) ≡ false)
          → (xs : List A) → find p (change q f xs) ≡ none
      find-change-none h h' [] = refl
      find-change-none h h' (x ∷ xs) = ground (arith, h x, h' x, find-change-none h h' xs)

    -- A change that keeps the test, of the rows that pass it.
    pub find-change :
        (f : A → A)
        → ((x : A) → p (f x) ≡ p x)
        → (xs : List A)
        → find p (change p f xs) ≡ elim (find p xs) [ none ↦ none | some x ↦ some (f x) ]
    find-change f h [] = refl
    find-change f h (x ∷ xs) = ground (arith, h x, find-change f h xs)

    module _ (q : A → Bool) (f : A → A) where
      -- Elements that pass the one test, changed so that they fail the other, are counted.
      pub length-change_some :
          ((x : A) → q x ≡ true → p x ≡ true)
          → ((x : A) → q x ≡ true → p (f x) ≡ false)
          → (n : ℕ) (xs : List A)
          → ((change_some q f n xs).0 ≤ n)
            × (length (keep p (change_some q f n xs).1) + (change_some q f n xs).0
                ≡ length (keep p xs))
      length-change_some h h' zero xs = omega arith
      length-change_some h h' (suc n) [] = omega arith
      length-change_some h h' (suc n) (x ∷ xs) =
          ground
            (arith, h x, h' x, length-change_some h h' n xs, length-change_some h h' (suc n) xs)

      -- Elements that fail the other test before and after are not seen.
      pub keep-change_some :
          ((x : A) → q x ≡ true → p x ≡ false)
          → ((x : A) → q x ≡ true → p (f x) ≡ false)
          → (n : ℕ) (xs : List A) → keep p (change_some q f n xs).1 ≡ keep p xs
      keep-change_some h h' zero xs = refl
      keep-change_some h h' (suc n) [] = refl
      keep-change_some h h' (suc n) (x ∷ xs) =
          ground (arith, h x, h' x, keep-change_some h h' n xs, keep-change_some h h' (suc n) xs)

      -- The first element that passes is found again, when it is not changed.
      pub find-change_some :
          ((x : A) → q x ≡ true → p (f x) ≡ false)
          → (n : ℕ) (xs : List A) (y : A) → find p xs ≡ some y
          → q y ≡ false
          → find p (change_some q f n xs).1 ≡ some y
      find-change_some h' zero xs y found kept = found
      find-change_some h' (suc n) [] y found kept = ground arith
      find-change_some h' (suc n) (x ∷ xs) y found kept =
          ground (arith, h' x, find-change_some h' n xs y, find-change_some h' (suc n) xs y)
