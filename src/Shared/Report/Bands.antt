-- ===== src/Shared/Report/Bands.antt =====
-- shared/src/report.rs, `throughput_band_stats`: the bounds that its numbers give.
use npt.Prelude.{
  ℕ, suc, ◌*◌, ◌^◌, ◌≤◌, ◌<◌, ◌≡◌, refl, List, [], ◌∷◌, some, length, suc_ne_zero, arith, min, max,
}
use native.Mathlib.Nat.{le-div_iff_mul-le, div-le_of_le-mul}
use npt.Prelude.Sums.{sum_by, sum64_exact}
use npt.Shared.Report.{ThroughputBand, throughput_band_stats}
use npt.Shared.Report.Extremes.{largest, smallest}

-- Every value lies between two bounds.
abbrev pub Between : (low high : ℕ) → List ℕ → Type 0
Between low high [] = Unit
Between low high (x ∷ xs) = (low ≤ x) × (x ≤ high) × Between low high xs

Between-widen :
    (low high low' high' : ℕ) (xs : List ℕ)
    → low' ≤ low
    → high ≤ high'
    → Between low high xs
    → Between low' high' xs
Between-widen low high low' high' [] h k b = tt
Between-widen low high low' high' (x ∷ xs) h k b =
    (omega (arith, b.0), omega (arith, b.1), Between-widen low high low' high' xs h k b.2)

extremes-Between :
    (x : ℕ) (xs : List ℕ)
    → (low high : ℕ) × (smallest (x ∷ xs) ≡ some low)
      × (largest (x ∷ xs) ≡ some high)
      × Between low high (x ∷ xs)
extremes-Between x [] = (x, x, refl, refl, omega arith)
extremes-Between x (y ∷ ys) =
    let (low, high, s, l, b) = extremes-Between y ys in
    (
      min x low,
      max x high,
      rw s,
      rw l,
      (
        omega arith,
        omega arith,
        Between-widen low high (min x low) (max x high) (y ∷ ys) (omega arith) (omega arith) b,
      ),
    )

sum-Between :
    (low high : ℕ) (xs : List ℕ)
    → Between low high xs
    → (low * length xs ≤ sum_by (λ v. v) xs) × (sum_by (λ v. v) xs ≤ length xs * high)
sum-Between low high [] b = (omega arith, omega arith)
sum-Between low high (x ∷ xs) b = (
  omega (arith, sum-Between low high xs b.2, b.0, b.1),
  omega (arith, sum-Between low high xs b.2, b.0, b.1),
)

-- The values of a band lie between its least and its peak, and so does its average.
pub record IsBand (values : List ℕ) (band : ThroughputBand) : Type 0 where
  pub bounds : Between band.min_bps band.peak_bps values
  pub least : band.min_bps ≤ band.avg_bps
  pub most : band.avg_bps ≤ band.peak_bps
  pub total : band.total_bytes ≡ sum_by (λ v. v) values

pub throughput_band_stats-IsBand :
    (values : List ℕ)
    → sum_by (λ v. v) values < 2 ^ 64
    → IsBand values (throughput_band_stats values)
unfolding throughput_band_stats
throughput_band_stats-IsBand [] h = record {
  bounds = tt;
  least = omega arith;
  most = omega arith;
  total = refl;
}
throughput_band_stats-IsBand (x ∷ xs) h =
    let (low, high, s, l, b) = extremes-Between x xs in
    let (under, over) = sum-Between low high (x ∷ xs) b in
    let exact = sum64_exact (λ (v : ℕ). v) (x ∷ xs) h in
    rw (suc_ne_zero (length xs), s, l, exact)
      (record {
        bounds = b;
        least = (le-div_iff_mul-le (omega arith)).1 under;
        most = div-le_of_le-mul (suc (length xs)) over;
        total = refl;
      })
