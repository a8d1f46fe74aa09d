-- ===== src/Common/Sorting.antt =====
-- Python's `sorted`, `any` and a comprehension with a condition, for a Boolean order or test.
use mathlib.Core.Path.{◌≡◌, refl}
use mathlib.Core.Logic.{inl, inr}
use mathlib.Core.Bool.{Bool, false, ◌||◌}
use mathlib.Core.List.{List, [], ◌∷◌}
use native.Mathlib.Omega.{arith}
use vibes.Common.Tests.{if◌then◌else◌, Bool-cases}
use vibes.Common.Lists.{All}

module _ {ℓ} {A : Type ℓ} where
  -- `any(test(x) for x in xs)`
  unfoldable pub any : (A → Bool) → List A → Bool
  any test [] = false
  any test (x ∷ xs) = test x || any test xs

  -- `[x for x in xs if test(x)]`
  unfoldable pub keep : (A → Bool) → List A → List A
  keep test [] = []
  keep test (x ∷ xs) = let rest = keep test xs in if test x then x ∷ rest else rest

  module _ (le : A → A → Bool) where
    unfoldable pub insert_sorted : A → List A → List A
    insert_sorted x [] = x ∷ []
    insert_sorted x (y ∷ ys) = if le x y then x ∷ y ∷ ys else y ∷ insert_sorted x ys

    -- Stable: of two that the order takes for equal the first stays first.
    unfoldable pub sort_by : List A → List A
    unfolding insert_sorted
    sort_by [] = []
    sort_by (x ∷ xs) = insert_sorted x (sort_by xs)

    any-insert_sorted :
        (test : A → Bool) (x : A) (xs : List A)
        → any test (insert_sorted x xs) ≡ (test x || any test xs)
    unfolding any insert_sorted
    any-insert_sorted test x [] = refl
    any-insert_sorted test x (y ∷ ys) = ground (arith, any-insert_sorted test x ys)

    pub any-sort_by : (test : A → Bool) (xs : List A) → any test (sort_by xs) ≡ any test xs
    unfolding sort_by any
    any-sort_by test [] = refl
    any-sort_by test (x ∷ xs) =
        ground (arith, any-insert_sorted test x (sort_by xs), any-sort_by test xs)

    All-insert_sorted :
        (P : A → Type 0) (x : A) (xs : List A) → P x → All P xs → All P (insert_sorted x xs)
    unfolding insert_sorted
    All-insert_sorted P x [] p ps = (p, tt)
    All-insert_sorted P x (y ∷ ys) p (q, qs) = elim (Bool-cases (le x y)) [
      | inl first ↦ rw first (p, (q, qs))
      | inr later ↦ rw later (q, All-insert_sorted P x ys p qs)
    ]

    pub All-sort_by : (P : A → Type 0) (xs : List A) → All P xs → All P (sort_by xs)
    unfolding sort_by
    All-sort_by P [] ps = tt
    All-sort_by P (x ∷ xs) (p, ps) = All-insert_sorted P x (sort_by xs) p (All-sort_by P xs ps)
