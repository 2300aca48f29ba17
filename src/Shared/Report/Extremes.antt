-- ===== src/Shared/Report/Extremes.antt =====
-- shared/src/report.rs: the greatest and the least of a list, and what connections say of their times.
use npt.Prelude.{ℕ, ◌-◌, List, [], ◌∷◌, Option, none, some, min, max}
use npt.Shared.Metrics.{ConnectionMetrics}

-- `iter().max()` and `iter().min()`
abbrev pub largest : List ℕ → Option ℕ
largest [] = none
largest (x ∷ xs) = elim (largest xs) [ none ↦ some x | some y ↦ some (max x y) ]

abbrev pub smallest : List ℕ → Option ℕ
smallest [] = none
smallest (x ∷ xs) = elim (smallest xs) [ none ↦ some x | some y ↦ some (min x y) ]

abbrev pub unwrap_or {ℓ} : {A : Type ℓ} → A → Option A → A
unwrap_or a none = a
unwrap_or a (some b) = b

abbrev option_cons {ℓ} : {A : Type ℓ} → Option A → List A → List A
option_cons none xs = xs
option_cons (some x) xs = x ∷ xs

-- `iter().filter_map(f)`
abbrev pub filter_map {ℓ κ} : {A : Type ℓ} {B : Type κ} → (A → Option B) → List A → List B
filter_map f [] = []
filter_map f (x ∷ xs) = option_cons (f x) (filter_map f xs)

abbrev pub map_end {ℓ} : {A : Type ℓ} → (ℕ → A) → Option ℕ → Option A
map_end f none = none
map_end f (some e) = some (f e)

-- `(end - start_time).to_std().unwrap_or_default()` of a connection that has ended
abbrev pub duration : ConnectionMetrics → Option ℕ
duration c = map_end (λ e. e - c.start_time) c.end_time
