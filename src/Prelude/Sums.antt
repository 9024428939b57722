-- ===== src/Prelude/Sums.antt =====
-- Sums over lists, and how a write of one item changes them.
use Prim.Native.Nat.{ℕ, zero, suc, ◌+◌, ◌≤◌}
use mathlib.Core.Path.{◌≡◌}
use mathlib.Core.Option.{some}
use mathlib.Core.List.{List, [], ◌∷◌, ◌++◌}
use native.Mathlib.Omega.{arith}
use fluent_agent_hydra.Prelude.Lists.{get_elem?, set}

module _ {ℓ} {A : Type ℓ} (weight : A → ℕ) where
  abbrev pub sum : List A → ℕ
  sum [] = 0
  sum (x ∷ xs) = weight x + sum xs

  pub sum-append : (xs ys : List A) → sum (xs ++ ys) ≡ sum xs + sum ys
  sum-append [] ys = omega arith
  sum-append (x ∷ xs) ys = omega (arith, sum-append xs ys)

  pub sum-set :
      (xs : List A) (i : ℕ) (x y : A)
      → get_elem? xs i ≡ some x
      → sum (set xs i y) + weight x ≡ sum xs + weight y
  sum-set [] i x y h = cc
  sum-set (z ∷ xs) zero x y h = let e : z ≡ x = cc in rw e (omega arith)
  sum-set (z ∷ xs) (suc i) x y h = omega (arith, sum-set xs i x y h)

  pub le-sum : (xs : List A) (i : ℕ) (x : A) → get_elem? xs i ≡ some x → weight x ≤ sum xs
  le-sum [] i x h = cc
  le-sum (z ∷ xs) zero x h = let e : z ≡ x = cc in rw e (omega arith)
  le-sum (z ∷ xs) (suc i) x h = omega (arith, le-sum xs i x h)

-- Smaller weights, a smaller sum.
pub sum-le {ℓ} :
    {A : Type ℓ} (light heavy : A → ℕ)
    → ((x : A) → light x ≤ heavy x)
    → (xs : List A) → sum light xs ≤ sum heavy xs
sum-le light heavy h [] = omega arith
sum-le light heavy h (x ∷ xs) = omega (arith, h x, sum-le light heavy h xs)
