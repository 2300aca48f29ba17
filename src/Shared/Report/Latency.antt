-- ===== src/Shared/Report/Latency.antt =====
-- shared/src/report.rs, `latency_band_stats` and `percentile`.
use npt.Prelude.{
  ℕ, ◌-◌, List, [], ◌∷◌, Option, none, some, length, get_elem?, Bool, false, ◌&&◌, ◌||◌, leb, ◌==◌,
  if◌then◌else◌,
}
use npt.Prelude.Float.{Float64, sum_floats}

pub record LatencyBand (F : Type 0) : Type 0 where
  pub avg_ms : F
  pub p50_ms : F
  pub p95_ms : F
  pub p99_ms : F
  pub max_ms : F
  pub min_ms : F

module _ (fl : Float64) where
  open fl use {F}

  abbrev pub any_nan : List F → Bool
  any_nan [] = false
  any_nan (x ∷ xs) = fl.is_nan x || any_nan xs

  abbrev pub insert_float : F → List F → List F
  insert_float x [] = x ∷ []
  insert_float x (y ∷ ys) =
      let rest = insert_float x ys in if fl.lt y x then y ∷ rest else x ∷ y ∷ ys

  abbrev pub sort_floats : List F → List F
  sort_floats [] = []
  sort_floats (x ∷ xs) = insert_float x (sort_floats xs)

  -- `sort_by(|a, b| a.partial_cmp(b).unwrap())`: each of two or more values is compared.
  abbrev pub sorted_floats : List F → Option (List F)
  sorted_floats xs = if leb 2 (length xs) && any_nan xs then none else some (sort_floats xs)

  -- `(p / 100.0) * (len - 1) as f64`
  abbrev pub position : F → ℕ → F
  position p n = fl.mul (fl.div p (fl.of_ℕ 100)) (fl.of_ℕ (n - 1))

  abbrev pub blend : F → Option F → Option F → Option F
  blend weight (some a) (some b) =
      some (fl.add (fl.mul a (fl.sub (fl.of_ℕ 1) weight)) (fl.mul b weight))
  blend weight _ _ = none

  unfoldable pub percentile : List F → F → Option F
  percentile sorted_values p =
      let index = position p (length sorted_values) in
      let lower = fl.floor index in
      let upper = fl.ceil index in
      if length sorted_values == 0
      then some (fl.of_ℕ 0)
      else if lower == upper
      then get_elem? sorted_values lower
      else blend (fl.sub index (fl.of_ℕ lower)) (get_elem? sorted_values lower)
          (get_elem? sorted_values upper)

  abbrev pub band :
      F → Option F → Option F → Option F → Option F → Option F → Option (LatencyBand F)
  band avg (some a) (some b) (some c) (some d) (some e) =
      some (record { avg_ms = avg; p50_ms = a; p95_ms = b; p99_ms = c; max_ms = d; min_ms = e })
  band avg _ _ _ _ _ = none

  abbrev pub band_of_sorted : F → Option (List F) → Option (LatencyBand F)
  band_of_sorted avg none = none
  band_of_sorted avg (some s) =
      band avg (percentile s (fl.of_ℕ 50)) (percentile s (fl.of_ℕ 95)) (percentile s (fl.of_ℕ 99))
        (get_elem? s (length s - 1)) (get_elem? s 0)

  unfoldable pub latency_band_stats : List F → Option (LatencyBand F)
  unfolding percentile
  latency_band_stats values =
      let zero_ms = fl.of_ℕ 0 in
      if length values == 0
      then some (record {
        avg_ms = zero_ms;
        p50_ms = zero_ms;
        p95_ms = zero_ms;
        p99_ms = zero_ms;
        max_ms = zero_ms;
        min_ms = zero_ms;
      })
      else band_of_sorted (fl.div (sum_floats fl zero_ms values) (fl.of_ℕ (length values)))
          (sorted_floats values)
