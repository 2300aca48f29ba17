-- ===== src/Prelude/Table.antt =====
-- A concurrent map (`dashmap::DashMap`) as the entries that its iterator yields, in that order.
-- The hash decides where an entry with a new key comes to stand, so `insert` takes that place as
-- an argument: with the place of each insertion free, every order of the entries can arise.
use Prim.Native.Nat.{ℕ, zero, suc, ◌+◌}
use mathlib.Core.Path.{◌≡◌, refl, ap}
use mathlib.Core.Logic.{inl, inr}
use mathlib.Core.Bool.{Bool, true, false, ◌||◌}
use mathlib.Core.Option.{Option, none, some}
use mathlib.Core.List.{List, [], ◌∷◌}
use native.Mathlib.Omega.{arith}
use npt.Prelude.Tests.{◌==◌, ==_refl, Bool-cases, if◌then◌else◌}

-- Keys are numbers: a `Uuid` is its 128-bit value, a `SocketAddr` a number that stands for it.
abbrev pub Table {ℓ} : Type ℓ → Type ℓ
Table V = List (ℕ × V)

module _ {ℓ} {V : Type ℓ} where
  -- `map.get(&key)`
  abbrev pub lookup : ℕ → Table V → Option V
  lookup k [] = none
  lookup k ((j, v) ∷ m) = if j == k then some v else lookup k m

  abbrev pub has_key : ℕ → Table V → Bool
  has_key k [] = false
  has_key k ((j, v) ∷ m) = (j == k) || has_key k m

  -- `if let Some(mut v) = map.get_mut(&key) { *v = f(v) }`; keys are unique in a `DashMap`.
  abbrev pub modify : ℕ → (V → V) → Table V → Table V
  modify k f [] = []
  modify k f ((j, v) ∷ m) = if j == k then (j, f v) ∷ m else (j, v) ∷ modify k f m

  abbrev pub insert_at : ℕ → ℕ × V → Table V → Table V
  insert_at zero e m = e ∷ m
  insert_at (suc n) e [] = e ∷ []
  insert_at (suc n) e (d ∷ m) = d ∷ insert_at n e m

  -- `map.remove(&key)`
  abbrev pub remove : ℕ → Table V → Table V
  remove k [] = []
  remove k ((j, v) ∷ m) = if j == k then m else (j, v) ∷ remove k m

  -- `map.insert(key, v)`: a present key has its value replaced, a new one is put at `place`.
  abbrev pub insert : ℕ → ℕ → V → Table V → Table V
  insert place k v m = if has_key k m then modify k (λ _. v) m else insert_at place (k, v) m

abbrev option_or {ℓ} : {V : Type ℓ} → (V → ℕ) → Option V → ℕ
option_or w none = 0
option_or w (some v) = w v

abbrev option_map {ℓ} : {V : Type ℓ} → (V → V) → Option V → Option V
option_map f none = none
option_map f (some v) = some (f v)

module _ {ℓ} {V : Type ℓ} where
  pub lookup-modify :
      (k j : ℕ) (f : V → V) (m : Table V)
      → lookup j (modify k f m)
        ≡ (if k == j then (elim (lookup j m) [ none ↦ none | some v ↦ some (f v) ]) else lookup j m)
  lookup-modify k j f [] = ground arith
  lookup-modify k j f ((i, v) ∷ m) = ground (arith, lookup-modify k j f m)

  -- The sum of a number that each value has.
  abbrev pub sum_values : (V → ℕ) → Table V → ℕ
  sum_values w [] = 0
  sum_values w ((_, v) ∷ m) = w v + sum_values w m

  pub sum_values-modify :
      (w : V → ℕ) (k : ℕ) (f : V → V) (m : Table V) {v : V}
      → lookup k m ≡ some v
      → sum_values w (modify k f m) + w v ≡ sum_values w m + w (f v)
  sum_values-modify w k f [] h = cc
  sum_values-modify w k f ((j, u) ∷ m) h = elim (Bool-cases (j == k)) [
    | inl here ↦
        let same : some u ≡ some _ = rw here at h in
        rw here (omega (arith, ap (option_or w) same, ap (option_or (λ x. w (f x))) same))
    | inr there ↦ rw there (omega (arith, sum_values-modify w k f m (rw there at h)))
  ]

  -- A change that keeps the number of every value keeps the sum.
  pub sum_values-modify_same :
      (w : V → ℕ) (k : ℕ) (f : V → V) (m : Table V)
      → ((v : V) → w (f v) ≡ w v)
      → sum_values w (modify k f m) ≡ sum_values w m
  sum_values-modify_same w k f [] h = refl
  sum_values-modify_same w k f ((j, u) ∷ m) h = elim (Bool-cases (j == k)) [
    | inl here ↦ rw here (ap (λ t. t + sum_values w m) (h u))
    | inr there ↦ rw there (ap (λ t. w u + t) (sum_values-modify_same w k f m h))
  ]

  pub sum_values-insert_at :
      (w : V → ℕ) (place k : ℕ) (v : V) (m : Table V)
      → sum_values w (insert_at place (k, v) m) ≡ w v + sum_values w m
  sum_values-insert_at w zero k v m = refl
  sum_values-insert_at w (suc n) k v [] = refl
  sum_values-insert_at w (suc n) k v ((j, u) ∷ m) = omega (arith, sum_values-insert_at w n k v m)

  -- A new key adds its value.
  pub sum_values-insert :
      (w : V → ℕ) (place k : ℕ) (v : V) (m : Table V)
      → has_key k m ≡ false
      → sum_values w (insert place k v m) ≡ w v + sum_values w m
  sum_values-insert w place k v m h = rw h (sum_values-insert_at w place k v m)

  lookup-insert_at :
      (place k : ℕ) (v : V) (m : Table V)
      → has_key k m ≡ false
      → lookup k (insert_at place (k, v) m) ≡ some v
  lookup-insert_at zero k v m h = rw (==_refl k)
  lookup-insert_at (suc n) k v [] h = rw (==_refl k)
  lookup-insert_at (suc n) k v ((j, u) ∷ m) h = ground (arith, lookup-insert_at n k v m)

  -- A new key is found with its value.
  pub lookup-insert_self :
      (place k : ℕ) (v : V) (m : Table V)
      → has_key k m ≡ false
      → lookup k (insert place k v m) ≡ some v
  lookup-insert_self place k v m h = rw h (lookup-insert_at place k v m h)

  pub lookup-has_key : (k : ℕ) (m : Table V) → has_key k m ≡ true → (v : V) × (lookup k m ≡ some v)
  lookup-has_key k [] h = cc
  lookup-has_key k ((j, u) ∷ m) h = elim (Bool-cases (j == k)) [
    | inl here ↦ (u, rw here)
    | inr there ↦ let (v, e) = lookup-has_key k m (rw there at h) in (v, rw there e)
  ]

  pub lookup-modify_self :
      (k : ℕ) (f : V → V) (m : Table V) {v : V}
      → lookup k m ≡ some v
      → lookup k (modify k f m) ≡ some (f v)
  lookup-modify_self k f [] h = cc
  lookup-modify_self k f ((j, u) ∷ m) h = elim (Bool-cases (j == k)) [
    | inl here ↦ rw (here, here) (ap (λ o. option_map f o) (rw here at h))
    | inr there ↦ rw (there, there) (lookup-modify_self k f m (rw there at h))
  ]

module _ {ℓ} {V : Type ℓ} where
  lookup-modify_present :
      (k j : ℕ) (v : V) (m : Table V)
      → has_key k m ≡ true
      → lookup j (modify k (λ _. v) m) ≡ (if k == j then some v else lookup j m)
  lookup-modify_present k j v [] h = cc
  lookup-modify_present k j v ((i, u) ∷ m) h = ground (arith, lookup-modify_present k j v m)

  pub lookup-absent : (k : ℕ) (m : Table V) → has_key k m ≡ false → lookup k m ≡ none
  lookup-absent k [] h = refl
  lookup-absent k ((i, u) ∷ m) h = ground (arith, lookup-absent k m)

  lookup-insert_at_place :
      (place k j : ℕ) (v : V) (m : Table V)
      → has_key k m ≡ false
      → lookup j (insert_at place (k, v) m) ≡ (if k == j then some v else lookup j m)
  lookup-insert_at_place zero k j v m h = refl
  lookup-insert_at_place (suc n) k j v [] h = refl
  lookup-insert_at_place (suc n) k j v ((i, u) ∷ m) h =
      ground (arith, lookup-insert_at_place n k j v m)

  -- An entry that is written is found, whatever the place of a new one, and the others are as before.
  pub lookup-insert :
      (place k j : ℕ) (v : V) (m : Table V)
      → lookup j (insert place k v m) ≡ (if k == j then some v else lookup j m)
  lookup-insert place k j v m = elim (Bool-cases (has_key k m)) [
    | inl e ↦ rw e (lookup-modify_present k j v m e)
    | inr e ↦ rw e (lookup-insert_at_place place k j v m e)
  ]
