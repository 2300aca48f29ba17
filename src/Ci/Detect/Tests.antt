-- ===== src/Ci/Detect/Tests.antt =====
-- ci/src/detect.rs on a run of one flow that is answered.
use npt.Prelude.{ℕ, ◌≤◌, ◌≡◌, ◌↔◌, refl, List, [], ◌∷◌, count, arith}
use npt.Prelude.Float.{whole_numbers}
use npt.Ci.Client.{PortRun, connection, wrote, frame, new_run, flow_step}
use npt.Ci.Client.Watchdog.{Step, flow, steps}
use npt.Ci.Client.Summary.{PortMetrics, has_no_return, finalize, with_rtt, rtt_summary}
use npt.Ci.Client.Counting.{is_disconnected}
use npt.Ci.Client.Breaks.{Unbroken}
use npt.Ci.Detect.{pass, default_params, evaluate}
use npt.Ci.Detect.Verdicts.{IsClean, evaluate-pass, passed_run}

abbrev answered : List Step
answered = flow 0 (connection 0) ∷ flow 0 (wrote 40) ∷ flow 0 (frame 16 100 2000 1000) ∷ []

abbrev after : PortRun ℕ
after = steps whole_numbers 5 answered (new_run ℕ 1)

abbrev metrics : PortMetrics ℕ
metrics =
    with_rtt whole_numbers (record { samples = 1; p50_ms = 1; p95_ms = 1; p99_ms = 1; max_ms = 1 })
      [] [] 10 [] after

evaluate-pass_example :
    ((evaluate whole_numbers 7 metrics (default_params whole_numbers)).verdict ≡ pass)
    ↔ IsClean whole_numbers metrics (default_params whole_numbers)
evaluate-pass_example = evaluate-pass whole_numbers 7 metrics (default_params whole_numbers)

passed_run_example :
    (1 ≤ count (λ c. c.connected) after.conns)
    × Unbroken 1 answered
    × (count is_disconnected after.conns ≡ 0)
    × (count has_no_return after.conns ≡ 0)
unfolding new_run flow_step finalize rtt_summary evaluate default_params
passed_run_example =
    passed_run whole_numbers 5 1 7 10 answered [] [] [] metrics (default_params whole_numbers)
      (omega arith) refl refl refl refl
