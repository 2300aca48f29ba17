-- ===== src/Prelude/Sums.antt =====
-- Sums over lists, exact and in `u64`.
use Prim.Native.Nat.{ℕ, ◌+◌, ◌%◌, ◌^◌, ◌<◌}
use mathlib.Core.Path.{◌≡◌}
use mathlib.Core.List.{List, [], ◌∷◌, ◌++◌}
use native.Mathlib.Omega.{arith}
use npt.Prelude.Words.{add64}

module _ {ℓ} {A : Type ℓ} where
  -- The exact sum of a number that each item has.
  abbrev pub sum_by : (A → ℕ) → List A → ℕ
  sum_by f [] = 0
  sum_by f (x ∷ xs) = f x + sum_by f xs

  -- `for x in xs { acc += f(x) }` and `iter().map(f).sum::<u64>()`, which wrap round.
  abbrev pub sum64_from : ℕ → (A → ℕ) → List A → ℕ
  sum64_from acc f [] = acc
  sum64_from acc f (x ∷ xs) = sum64_from (add64 acc (f x)) f xs

  abbrev pub sum64 : (A → ℕ) → List A → ℕ
  sum64 f xs = sum64_from 0 f xs

module _ {ℓ} {A : Type ℓ} where
  pub sum_by-append : (f : A → ℕ) (xs ys : List A) → sum_by f (xs ++ ys) ≡ sum_by f xs + sum_by f ys
  sum_by-append f [] ys = omega arith
  sum_by-append f (x ∷ xs) ys = omega (arith, sum_by-append f xs ys)

  sum64_from-mod :
      (acc : ℕ) (f : A → ℕ) (xs : List A)
      → acc < 2 ^ 64
      → sum64_from acc f xs ≡ (acc + sum_by f xs) % 2 ^ 64
  sum64_from-mod acc f [] h = omega arith
  sum64_from-mod acc f (x ∷ xs) h =
      omega (arith, sum64_from-mod (add64 acc (f x)) f xs (omega arith))

  -- The machine's sum is the exact sum modulo 2^64.
  pub sum64-mod : (f : A → ℕ) (xs : List A) → sum64 f xs ≡ sum_by f xs % 2 ^ 64
  sum64-mod f xs = omega (arith, sum64_from-mod 0 f xs (omega arith))

  pub sum64_exact : (f : A → ℕ) (xs : List A) → sum_by f xs < 2 ^ 64 → sum64 f xs ≡ sum_by f xs
  sum64_exact f xs h = omega (arith, sum64-mod f xs)
