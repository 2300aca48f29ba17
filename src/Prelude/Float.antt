-- ===== src/Prelude/Float.antt =====
-- The operations of `f64` that the program uses, as a parameter: nothing is assumed of them.
use Prim.Native.Nat.{ℕ, max, ◌+◌, ◌-◌, ◌*◌, ◌/◌, ◌^◌}
use npt.Prelude.Tests.{ltb}
use mathlib.Core.Bool.{Bool, false}
use mathlib.Core.List.{List, [], ◌∷◌}

pub record Float64 : Type 1 where
  pub F : Type 0
  pub of_ℕ : ℕ → F
  pub add : F → F → F
  pub sub : F → F → F
  pub mul : F → F → F
  pub div : F → F → F
  pub lt : F → F → Bool
  pub max : F → F → F
  pub is_nan : F → Bool
  -- `x as u64`, and `floor`, `ceil` and `round` followed by it
  pub to_u64 : F → ℕ
  pub floor : F → ℕ
  pub ceil : F → ℕ
  pub round : F → ℕ
  -- a decimal literal, as its digits without the point and the number of those behind the point
  pub literal : ℕ → ℕ → F
  -- `Duration::as_secs_f64` of a number of nanoseconds
  pub as_secs : ℕ → F

-- `iter().sum::<f64>()`
abbrev pub sum_floats : (fl : Float64) → fl.F → List fl.F → fl.F
sum_floats fl acc [] = acc
sum_floats fl acc (x ∷ xs) = sum_floats fl (fl.add acc x) xs

-- Whole numbers in place of floats, for tests: rounded down, and with no number below 0.
abbrev pub whole_numbers : Float64
whole_numbers = record {
  F = ℕ;
  of_ℕ = λ n. n;
  add = λ a b. a + b;
  sub = λ a b. a - b;
  mul = λ a b. a * b;
  div = λ a b. a / b;
  lt = ltb;
  max = λ a b. max a b;
  is_nan = λ n. false;
  to_u64 = λ n. n;
  floor = λ n. n;
  ceil = λ n. n;
  round = λ n. n;
  literal = λ n k. n / 10 ^ k;
  as_secs = λ n. n / 1000000000;
}

-- Those of `f32`
pub record Float32 : Type 1 where
  pub F : Type 0
  pub add : F → F → F
  pub lt : F → F → Bool
  pub literal : ℕ → ℕ → F

abbrev pub whole_numbers_32 : Float32
whole_numbers_32 = record { F = ℕ; add = λ a b. a + b; lt = ltb; literal = λ n k. n / 10 ^ k }
