-- ===== src/Common/Sort/Sums.antt =====
-- Sums over a list do not depend on its order.
use Prim.Native.Nat.{ℕ, ◌+◌}
use agentforgev.Common.Tests.{Bool-cases}
use agentforgev.Common.Sort.{insert_by, sort_by}
use mathlib.Core.Path.{◌≡◌, refl, ◌∙◌}
use mathlib.Core.Logic.{inl, inr}
use mathlib.Core.Bool.{Bool}
use mathlib.Core.List.{List, [], ◌∷◌}
use native.Mathlib.Omega.{arith}

module _ {A : Type 0} (le : A → A → Bool) (f : A → ℕ) (total : List A → ℕ)
    (total_nil : total [] ≡ 0)
    (total_cons : (x : A) (xs : List A) → total (x ∷ xs) ≡ f x + total xs) where
  total-insert_by : (x : A) (xs : List A) → total (insert_by le x xs) ≡ f x + total xs
  unfolding insert_by
  total-insert_by x [] = total_cons x []
  total-insert_by x (y ∷ ys) = elim (Bool-cases (le x y)) [
    | inl q ↦ rw q (total_cons x (y ∷ ys))
    | inr q ↦
        rw q
          (omega (arith, total_cons y (insert_by le x ys), total_cons y ys, total-insert_by x ys))
  ]

  pub total-sort_by : (xs : List A) → total (sort_by le xs) ≡ total xs
  unfolding sort_by
  total-sort_by [] = refl
  total-sort_by (x ∷ xs) =
      total-insert_by x (sort_by le xs) ∙ omega (arith, total_cons x xs, total-sort_by xs)
