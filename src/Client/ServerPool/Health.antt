-- ===== src/Client/ServerPool/Health.antt =====
-- client/src/server_pool.rs: the health of a server as a state machine over the outcomes of the
-- connections and of the health checks.
use npt.Prelude.{
  ℕ, ◌+◌, ◌^◌, ◌≤◌, ◌<◌, ◌≡◌, ◌↔◌, List, [], ◌∷◌, length, Bool, true, false, not, arith, ◌⊎◌,
}
use npt.Client.ServerPool.{ServerInfo, new_server, failed, succeeded, checked}

-- What is reported of a server, and by whom: a connection of the client, or the health checker.
pub data Report : Type 0 where
  connected refused : Report
  probed : ℕ → Bool → Report

abbrev pub is_failure : Report → Bool
is_failure connected = false
is_failure refused = true
is_failure (probed now reached) = not reached

abbrev pub AllFailures : List Report → Type 0
AllFailures [] = Unit
AllFailures (r ∷ rs) = (is_failure r ≡ true) × AllFailures rs

abbrev pub AllSuccesses : List Report → Type 0
AllSuccesses [] = Unit
AllSuccesses (r ∷ rs) = (is_failure r ≡ false) × AllSuccesses rs

module _ (failure_threshold recovery_threshold : ℕ) where
  abbrev pub report : Report → ServerInfo → ServerInfo
  report connected s = succeeded recovery_threshold s
  report refused s = failed failure_threshold s
  report (probed now reached) s = checked failure_threshold recovery_threshold now reached s

  abbrev pub report_all : List Report → ServerInfo → ServerInfo
  report_all [] s = s
  report_all (r ∷ rs) s = report_all rs (report r s)

  -- A healthy server is short of the failures that would mark it, an unhealthy one of the successes
  -- that would restore it; and one of the two counters is zero.
  pub record IsCounted (s : ServerInfo) : Type 0 where
    pub short_of_failures : s.is_healthy ≡ true → s.consecutive_failures < failure_threshold
    pub short_of_successes : s.is_healthy ≡ false → s.consecutive_successes < recovery_threshold
    pub one_runs : (s.consecutive_failures ≡ 0) ⊎ (s.consecutive_successes ≡ 0)

  module _ (failures : 1 ≤ failure_threshold) (recoveries : 1 ≤ recovery_threshold) where
    failed-IsCounted : (s : ServerInfo) → IsCounted s → IsCounted (failed failure_threshold s)
    unfolding failed
    failed-IsCounted s v = ground arith

    succeeded-IsCounted :
        (s : ServerInfo) → IsCounted s → IsCounted (succeeded recovery_threshold s)
    unfolding succeeded
    succeeded-IsCounted s v = ground arith

    checked-IsCounted :
        (now : ℕ) (reached : Bool) (s : ServerInfo)
        → IsCounted s
        → IsCounted (checked failure_threshold recovery_threshold now reached s)
    unfolding checked
    checked-IsCounted now true s v = ground arith
    checked-IsCounted now false s v = ground arith

    report-IsCounted : (r : Report) (s : ServerInfo) → IsCounted s → IsCounted (report r s)
    report-IsCounted connected s v = succeeded-IsCounted s v
    report-IsCounted refused s v = failed-IsCounted s v
    report-IsCounted (probed now reached) s v = checked-IsCounted now reached s v

    report_all-IsCounted :
        (rs : List Report) (s : ServerInfo) → IsCounted s → IsCounted (report_all rs s)
    report_all-IsCounted [] s v = v
    report_all-IsCounted (r ∷ rs) s v =
        report_all-IsCounted rs (report r s) (report-IsCounted r s v)

    -- With both thresholds at least 1, after any reports on a new server it is never healthy with the
    -- failures that should have marked it, never unhealthy with the successes that should have
    -- restored it, and one of its two counters is zero.
    pub new_server-IsCounted :
        (now address : ℕ) (rs : List Report) → IsCounted (report_all rs (new_server now address))
    unfolding new_server
    new_server-IsCounted now address rs =
        report_all-IsCounted rs (new_server now address) (ground arith)

    -- The health of a server changes exactly at the thresholds: a report takes a healthy server out if and
    -- only if it is a failure, the one that brings the failures in a row to their threshold; and it
    -- brings an unhealthy server back if and only if it is a success, the one that brings the
    -- successes in a row to theirs. Both thresholds are between 1 and 2^32 - 1.
    pub report_flips :
        (r : Report) (s : ServerInfo)
        → IsCounted s
        → failure_threshold < 2 ^ 32
        → recovery_threshold < 2 ^ 32
        → (((s.is_healthy ≡ true) × ((report r s).is_healthy ≡ false)) ↔ (
            (s.is_healthy ≡ true)
            × (is_failure r ≡ true)
            × (s.consecutive_failures + 1 ≡ failure_threshold)))
          × (((s.is_healthy ≡ false) × ((report r s).is_healthy ≡ true)) ↔ (
              (s.is_healthy ≡ false)
              × (is_failure r ≡ false)
              × (s.consecutive_successes + 1 ≡ recovery_threshold)))
    unfolding succeeded failed checked
    report_flips connected s v f g =
        ((λ h. ground arith, λ h. ground arith), (λ h. ground arith, λ h. ground arith))
    report_flips refused s v f g =
        ((λ h. ground arith, λ h. ground arith), (λ h. ground arith, λ h. ground arith))
    report_flips (probed now true) s v f g =
        ((λ h. ground arith, λ h. ground arith), (λ h. ground arith, λ h. ground arith))
    report_flips (probed now false) s v f g =
        ((λ h. ground arith, λ h. ground arith), (λ h. ground arith, λ h. ground arith))

    failures_counted :
        (rs : List Report) (s : ServerInfo)
        → AllFailures rs
        → s.consecutive_failures + length rs < 2 ^ 32
        → (report_all rs s).consecutive_failures ≡ s.consecutive_failures + length rs
    unfolding failed checked
    failures_counted [] s a h = omega arith
    failures_counted (connected ∷ rs) s a h = cc (a.0)
    failures_counted (refused ∷ rs) s a h =
        ground (arith, failures_counted rs (report refused s) a.1)
    failures_counted (probed now true ∷ rs) s a h = cc (a.0)
    failures_counted (probed now false ∷ rs) s a h =
        ground (arith, failures_counted rs (report (probed now false) s) a.1)

    successes_counted :
        (rs : List Report) (s : ServerInfo)
        → AllSuccesses rs
        → s.consecutive_successes + length rs < 2 ^ 32
        → (report_all rs s).consecutive_successes ≡ s.consecutive_successes + length rs
    unfolding succeeded checked
    successes_counted [] s a h = omega arith
    successes_counted (refused ∷ rs) s a h = cc (a.0)
    successes_counted (connected ∷ rs) s a h =
        ground (arith, successes_counted rs (report connected s) a.1)
    successes_counted (probed now false ∷ rs) s a h = cc (a.0)
    successes_counted (probed now true ∷ rs) s a h =
        ground (arith, successes_counted rs (report (probed now true) s) a.1)

    -- As many failures in a row as the threshold says, or more, leave a server unhealthy, whatever was
    -- reported before and whether connections or health checks report them; provided that the count of
    -- failures does not come to 2^32.
    failures_in_a_row :
        (rs : List Report) (s : ServerInfo)
        → IsCounted s
        → AllFailures rs
        → failure_threshold ≤ length rs
        → s.consecutive_failures + length rs < 2 ^ 32
        → (report_all rs s).is_healthy ≡ false
    failures_in_a_row rs s v a m h =
        ground (arith, report_all-IsCounted rs s v, failures_counted rs s a h)

    -- As many successes in a row as the recovery threshold says, or more, leave a server healthy,
    -- whatever was reported before; provided that the count of successes does not come to 2^32.
    successes_in_a_row :
        (rs : List Report) (s : ServerInfo)
        → IsCounted s
        → AllSuccesses rs
        → recovery_threshold ≤ length rs
        → s.consecutive_successes + length rs < 2 ^ 32
        → (report_all rs s).is_healthy ≡ true
    successes_in_a_row rs s v a m h =
        ground (arith, report_all-IsCounted rs s v, successes_counted rs s a h)
