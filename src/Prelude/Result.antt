-- ===== src/Prelude/Result.antt =====
-- `Result<A, E>`, and the chaining of `?` as a `do` block.
use mathlib.Core.Path.{◌≡◌, refl}
use mathlib.Core.Logic.{◌⊎◌, inl, inr}

pub data Result {ℓ κ} (Failure : Type κ) (Value : Type ℓ) : Type (ℓ ⊔ κ) where
  err : Failure → Result Failure Value
  ok : Value → Result Failure Value

module _ {κ} {Failure : Type κ} where
  module _ {ℓ ι} {Value : Type ℓ} {Next : Type ι} where
    infixl 6 ◌>>=◌
    abbrev pub ◌>>=◌ : Result Failure Value → (Value → Result Failure Next) → Result Failure Next
    err failure >>= _ = err failure
    ok value >>= next = next value

    -- A chain that succeeds has a first step that succeeds.
    pub >>=-eq-ok :
        (first : Result Failure Value) (next : Value → Result Failure Next) {result : Next}
        → ◌≡◌ {A = Result Failure Next} (first >>= next) (ok result)
        → (value : Value) × (first ≡ ok value) × (next value ≡ ok result)
    >>=-eq-ok (err _) next same = cc
    >>=-eq-ok (ok value) next same = (value, refl, same)

  pub Result-cases {ℓ} :
      {Value : Type ℓ} (r : Result Failure Value)
      → ((value : Value) × (r ≡ ok value)) ⊎ ((failure : Failure) × (r ≡ err failure))
  Result-cases (err failure) = inr (failure, refl)
  Result-cases (ok value) = inl (value, refl)
