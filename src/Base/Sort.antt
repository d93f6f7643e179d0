-- ===== src/Base/Sort.antt =====
-- sort.SliceStable: a stable sort. Every stable sort gives this result where `less` is a weak
-- order.
use mathlib.Core.Path.{◌≡◌, refl}
use mathlib.Core.Bool.{Bool, true, false, not, ◌&&◌}
use mathlib.Core.List.{List, [], ◌∷◌, ◌++◌}
use native.Mathlib.Omega.{arith}
use goed2k_server.Base.Tests.{if◌then◌else◌}
use goed2k_server.Base.Lists.{select, All}

module _ {ℓ} {A : Type ℓ} where
  -- `x` stood before the elements of the list, so it passes only those that are less.
  unfoldable pub sorted_insert : (A → A → Bool) → A → List A → List A
  sorted_insert less x [] = x ∷ []
  sorted_insert less x (y ∷ ys) =
      let after = y ∷ sorted_insert less x ys in if less y x then after else x ∷ y ∷ ys

  unfoldable pub stable_sort : (A → A → Bool) → List A → List A
  unfolding sorted_insert
  stable_sort less [] = []
  stable_sort less (x ∷ xs) = sorted_insert less x (stable_sort less xs)

  module _ (t : A → Bool) where
    -- The order that puts what passes the test first.
    abbrev pub first : A → A → Bool
    first x y = t x && not (t y)

    insert-first :
        (x : A) (xs ys : List A)
        → All (λ a. t a ≡ true) xs
        → All (λ a. t a ≡ false) ys
        → sorted_insert first x (xs ++ ys) ≡ (if t x then x ∷ (xs ++ ys) else xs ++ (x ∷ ys))
    unfolding sorted_insert
    insert-first x [] [] p q = ground arith
    insert-first x [] (y ∷ ys) p q = ground arith
    insert-first x (a ∷ xs) ys p q = ground (arith, insert-first x xs ys p.1 q)

    pub All-select_test : (xs : List A) → All (λ a. t a ≡ true) (select t xs)
    All-select_test [] = tt
    All-select_test (x ∷ xs) = ground (arith, All-select_test xs)

    pub All-select-not : (xs : List A) → All (λ a. t a ≡ false) (select (λ a. not (t a)) xs)
    All-select-not [] = tt
    All-select-not (x ∷ xs) = ground (arith, All-select-not xs)

    -- Sorting by a test is the elements that pass it, then the others, each in their old order.
    pub stable_sort-first :
        (xs : List A) → stable_sort first xs ≡ select t xs ++ select (λ a. not (t a)) xs
    unfolding stable_sort
    stable_sort-first [] = refl
    stable_sort-first (x ∷ xs) = ground (
      arith,
      stable_sort-first xs,
      insert-first x (select t xs) (select (λ a. not (t a)) xs) (All-select_test xs)
          (All-select-not xs),
    )
