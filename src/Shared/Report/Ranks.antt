-- ===== src/Shared/Report/Ranks.antt =====
-- shared/src/report.rs, `latency_band_stats` and `percentile`: no index is out of range.
use npt.Prelude.{
  ℕ, suc, ◌-◌, ◌/◌, ◌^◌, ◌≤◌, ◌<◌, ◌≡◌, refl, ap, ◌∙◌, List, [], ◌∷◌, ◌++◌, Option, none, some,
  length, get_elem?-IsSome, map, true, false, is_some, suc_ne_zero, ◌==◌, arith, Bool-cases, inl,
  inr,
}
use npt.Prelude.Float.{Float64}
use npt.Shared.Metrics.{ConnectionMetrics, ThroughputSample, LatencySample}
use npt.Shared.Report.{LatencyStats, calculate_latency_stats}
use npt.Shared.Report.Latency.{
  any_nan, insert_float, sort_floats, sorted_floats, position, percentile, band_of_sorted,
  latency_band_stats,
}
use npt.Shared.Report.Performance.{PerformanceMetrics, all_latencies, calculate_performance}

-- What the report relies on in `f64`: a converted integer is a number, and the rank of a percentage of
-- at most 100 among fewer than 2^53 values, rounded down or up, is that of one of them.
pub record RanksInRange (fl : Float64) : Type 0 where
  pub number : (n : ℕ) → fl.is_nan (fl.of_ℕ n) ≡ false
  pub floor_in : (q n : ℕ) → q ≤ 100 → n < 2 ^ 53 → fl.floor (position fl (fl.of_ℕ q) (suc n)) ≤ n
  pub ceil_in : (q n : ℕ) → q ≤ 100 → n < 2 ^ 53 → fl.ceil (position fl (fl.of_ℕ q) (suc n)) ≤ n

is_some-IsSome : {A : Type 0} (o : Option A) → is_some o ≡ true → (v : A) × (o ≡ some v)
is_some-IsSome none h = cc
is_some-IsSome (some v) h = (v, refl)

module _ (fl : Float64) where
  length-insert_float :
      (x : fl.F) (ys : List fl.F) → length (insert_float fl x ys) ≡ suc (length ys)
  length-insert_float x [] = refl
  length-insert_float x (y ∷ ys) = elim (Bool-cases (fl.lt y x)) [
    | inl e ↦ rw e (ap suc (length-insert_float x ys))
    | inr e ↦ rw e refl
  ]

  length-sort_floats : (xs : List fl.F) → length (sort_floats fl xs) ≡ length xs
  length-sort_floats [] = refl
  length-sort_floats (x ∷ xs) =
      length-insert_float x (sort_floats fl xs) ∙ ap suc (length-sort_floats xs)

  sorted_total :
      (xs : List fl.F)
      → any_nan fl xs ≡ false
      → (s : List fl.F) × (sorted_floats fl xs ≡ some s) × (length s ≡ length xs)
  sorted_total xs h = (sort_floats fl xs, ground arith, length-sort_floats xs)

  any_nan-append :
      (xs ys : List fl.F)
      → any_nan fl xs ≡ false
      → any_nan fl ys ≡ false
      → any_nan fl (xs ++ ys) ≡ false
  any_nan-append [] ys h k = k
  any_nan-append (x ∷ xs) ys h k = ground (arith, any_nan-append xs ys)

  module _ (law : RanksInRange fl) where
    percentile_total :
        (s : List fl.F) (q : ℕ)
        → q ≤ 100
        → length s ≤ 2 ^ 53
        → is_some (percentile fl s (fl.of_ℕ q)) ≡ true
    unfolding percentile
    percentile_total [] q h k = refl
    percentile_total (x ∷ xs) q h k =
        let low = fl.floor (position fl (fl.of_ℕ q) (suc (length xs))) in
        let high = fl.ceil (position fl (fl.of_ℕ q) (suc (length xs))) in
        let (a, ea) = get_elem?-IsSome (x ∷ xs) low (omega (arith, law.floor_in q (length xs))) in
        let (b, eb) = get_elem?-IsSome (x ∷ xs) high (omega (arith, law.ceil_in q (length xs))) in
        rw (suc_ne_zero (length xs)) (elim (Bool-cases (low == high)) [
          | inl e ↦ rw (e, ea) refl
          | inr e ↦ rw (e, ea, eb) refl
        ])

    percentiles :
        (s : List fl.F)
        → length s ≤ 2 ^ 53
        → (a b c : fl.F) × (percentile fl s (fl.of_ℕ 50) ≡ some a)
          × (percentile fl s (fl.of_ℕ 95) ≡ some b)
          × (percentile fl s (fl.of_ℕ 99) ≡ some c)
    percentiles s k =
        let (a, ea) =
          is_some-IsSome (percentile fl s (fl.of_ℕ 50)) (percentile_total s 50 (omega arith) k) in
        let (b, eb) =
          is_some-IsSome (percentile fl s (fl.of_ℕ 95)) (percentile_total s 95 (omega arith) k) in
        let (c, ec) =
          is_some-IsSome (percentile fl s (fl.of_ℕ 99)) (percentile_total s 99 (omega arith) k) in
        (a, b, c, ea, eb, ec)

    band_total :
        (avg : fl.F) (s : List fl.F)
        → 0 < length s
        → length s ≤ 2 ^ 53
        → is_some (band_of_sorted fl avg (some s)) ≡ true
    band_total avg s h k =
        let (a, b, c, ea, eb, ec) = percentiles s k in
        let (d, ed) = get_elem?-IsSome s (length s - 1) (omega arith) in
        let (e, ee) = get_elem?-IsSome s 0 h in rw (ea, eb, ec, ed, ee) refl

    latency_band_total :
        (xs : List fl.F)
        → any_nan fl xs ≡ false
        → length xs ≤ 2 ^ 53
        → is_some (latency_band_stats fl xs) ≡ true
    unfolding latency_band_stats
    latency_band_total [] h k = refl
    latency_band_total (x ∷ xs) h k =
        let (s, es, n) = sorted_total (x ∷ xs) h in
        rw (suc_ne_zero (length xs), es) (band_total _ s (omega (arith, n)) (omega (arith, n)))

    length-map : {A : Type 0} (f : A → fl.F) (xs : List A) → length (map f xs) ≡ length xs
    length-map f [] = refl
    length-map f (x ∷ xs) = ap suc (length-map f xs)

    pub calculate_latency_stats_total :
        (samples : List (LatencySample fl.F))
        → any_nan fl (map (λ s. s.tcp_latency_ms) samples) ≡ false
        → any_nan fl (map (λ s. s.udp_latency_ms) samples) ≡ false
        → length samples ≤ 2 ^ 53
        → (v : LatencyStats fl.F) × (calculate_latency_stats fl samples ≡ some v)
    unfolding calculate_latency_stats
    calculate_latency_stats_total samples h k n =
        let sized = λ (f : LatencySample fl.F → fl.F). length-map f samples in
        let (a, ea) = is_some-IsSome _ (
          latency_band_total (map (λ s. s.tcp_latency_ms) samples) h
            (omega (arith, sized (λ s. s.tcp_latency_ms)))) in
        let (b, eb) = is_some-IsSome _ (
          latency_band_total (map (λ s. s.udp_latency_ms) samples) k
            (omega (arith, sized (λ s. s.udp_latency_ms)))) in
        (record { tcp = a; udp = b }, rw (ea, eb) refl)

    millis_numbers : (ds : List ℕ) → any_nan fl (map (λ d. fl.of_ℕ (d / 1000000)) ds) ≡ false
    millis_numbers [] = refl
    millis_numbers (d ∷ ds) = rw (law.number (d / 1000000)) (millis_numbers ds)

    latencies_numbers : (cs : List ConnectionMetrics) → any_nan fl (all_latencies fl cs) ≡ false
    latencies_numbers [] = refl
    latencies_numbers (c ∷ cs) =
        any_nan-append _ (all_latencies fl cs) (millis_numbers c.latencies) (latencies_numbers cs)

    pub calculate_performance_total :
        (cs : List ConnectionMetrics) (samples : List ThroughputSample)
        → length (all_latencies fl cs) ≤ 2 ^ 53
        → (v : PerformanceMetrics fl.F) × (calculate_performance fl cs samples ≡ some v)
    unfolding calculate_performance
    calculate_performance_total cs samples h =
        let (s, es, n) = sorted_total (all_latencies fl cs) (latencies_numbers cs) in
        let (a, b, c, ea, eb, ec) = percentiles s (omega (arith, n)) in
        is_some-IsSome _ (rw (es, ea, eb, ec) refl)
