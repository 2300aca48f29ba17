-- ===== src/Ci/Report/Totals.antt =====
-- ci/src/report.rs: the totals of a summary, its exit code, and the cells of its table.
use npt.Prelude.{
  ℕ, ◌+◌, ◌-◌, ◌≤◌, ◌≡◌, ◌↔◌, refl, List, [], ◌∷◌, length, length-append, length-take, count, take,
  take-append, Bool, true, false, leb, ltb, min, arith, Bool-cases, inl, inr, if◌then◌else◌,
}
use npt.Ci.Detect.{Verdict, pass, fail, skipped}
use npt.Ci.Report.{PortOutcome, tally, count_verdict, build, exit_code, truncate}

abbrev pub is_verdict : Verdict → Verdict → Bool
is_verdict pass pass = true
is_verdict fail fail = true
is_verdict skipped skipped = true
is_verdict _ _ = false

count_verdict_lem :
    (v : Verdict) (p f s : ℕ)
    → let (p', f', s') = count_verdict v (p, f, s) in
      (p' ≡ p + (if is_verdict pass v then 1 else 0))
      × (f' ≡ f + (if is_verdict fail v then 1 else 0))
      × (s' ≡ s + (if is_verdict skipped v then 1 else 0))
      × (p' + f' + s' ≡ p + f + s + 1)
count_verdict_lem pass p f s = (refl, omega arith, omega arith, omega arith)
count_verdict_lem fail p f s = (omega arith, refl, omega arith, omega arith)
count_verdict_lem skipped p f s = (omega arith, omega arith, refl, omega arith)

module _ {F : Type 0} where
  abbrev pub outcomes_with : Verdict → List (PortOutcome F) → ℕ
  outcomes_with v os = count (λ o. is_verdict v o.verdict.verdict) os

  -- The counters of the loop, against those at its start.
  tally_lem :
      (p f s : ℕ) (os : List (PortOutcome F))
      → let (p', f', s') = tally (p, f, s) os in
        (p' ≡ p + outcomes_with pass os)
        × (f' ≡ f + outcomes_with fail os)
        × (s' ≡ s + outcomes_with skipped os)
        × (p' + f' + s' ≡ p + f + s + length os)
  tally_lem p f s [] = (omega arith, omega arith, omega arith, omega arith)
  tally_lem p f s (o ∷ os) =
      let (p', f', s') = count_verdict o.verdict.verdict (p, f, s) in
      let (a, b, c, d) = count_verdict_lem o.verdict.verdict p f s in
      let (a', b', c', d') = tally_lem p' f' s' os in
      (omega (arith, a, a'), omega (arith, b, b'), omega (arith, c, c'), omega (arith, d, d'))

  -- The summary of a run counts every port once: passed, failed and skipped are the numbers of ports with
  -- these verdicts, and they add up to the total, which is the number of ports. The exit code is 0
  -- exactly if no port failed; a skipped port does not change it.
  pub build-totals :
      (panel_url started_at : List ℕ) (os : List (PortOutcome F))
      → let r = build panel_url started_at os in
        (r.passed ≡ outcomes_with pass os)
        × (r.failed ≡ outcomes_with fail os)
        × (r.skipped ≡ outcomes_with skipped os)
        × (r.passed + r.failed + r.skipped ≡ r.total)
        × ((exit_code r ≡ 0) ↔ (outcomes_with fail os ≡ 0))
  unfolding build exit_code
  build-totals panel_url started_at os =
      let (a, b, c, d) = tally_lem 0 0 0 os in
      let (p, f, s) = tally (0, 0, 0) os in
      (omega (arith, a), omega (arith, b), omega (arith, c), omega (arith, d), exits f b)
    where
      exits :
          (f : ℕ)
          → f ≡ 0 + outcomes_with fail os
          → ◌↔◌ (◌≡◌ {A = ℕ} (if ltb 0 f then 1 else 0) 0) (outcomes_with fail os ≡ 0)
      exits f b = elim (Bool-cases (ltb 0 f)) [
        | inl e ↦ rw e (λ h. omega (arith, h), λ h. ground arith)
        | inr e ↦ rw e (λ h. ground arith, λ h. refl)
      ]

-- A cell of the table is never longer than its column: a text that fits is shown as it is, and a longer one
-- as its first characters, one fewer than the column has, and the ellipsis.
truncate-fits :
    (s : List ℕ) (n : ℕ)
    → 1 ≤ n
    → (length (truncate s n) ≡ min n (length s)) × (take (n - 1) (truncate s n) ≡ take (n - 1) s)
unfolding truncate
truncate-fits s n h = elim (Bool-cases (leb (length s) n)) [
  | inl fits ↦ rw fits (ground arith, refl)
  | inr long ↦
      let shorter : length s ≡ n + (length s - n) = ground arith in
      rw long (
        omega
            (arith, length-append (take (n - 1) s) (8230 ∷ []), length-take (n - 1) s, h, shorter),
        take-append (n - 1) (take (n - 1) s) (8230 ∷ [])
            (omega (arith, length-take (n - 1) s, h, shorter)),
      )
]
