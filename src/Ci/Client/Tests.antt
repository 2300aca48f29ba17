-- ===== src/Ci/Client/Tests.antt =====
-- ci/src/client.rs on two flows, one of which stalls and breaks.
use npt.Prelude.{
  ℕ, ◌*◌, ◌%◌, ◌^◌, ◌≤◌, ◌≡◌, refl, List, [], ◌∷◌, ◌++◌, some, length, count, true, ◌<◌, ◌/◌, arith,
}
use npt.Prelude.Float.{whole_numbers}
use npt.Ci.Client.{
  PortRun, StallEvent, connection, wrote, frame, closed, write_failed, new_run, stagger, flow_step,
}
use npt.Ci.Client.Watchdog.{Step, flow, tick, steps, watchdog_tick}
use npt.Ci.Client.Summary.{RttSummary, RoundsPart, with_rtt, finalize, finalize-total}
use npt.Ci.Client.Counting.{is_disconnected, disconnects_counted}
use npt.Ci.Client.Caps.{memory_bounded}
use npt.Ci.Client.Turns.{NewStalls, tick_reports}
use npt.Ci.Client.Stalls.{receptions, stalls_paid}

abbrev two_flows : List Step
two_flows =
    flow 0 (connection 0)
    ∷ flow 1 (connection 5)
    ∷ flow 0 (wrote 40)
    ∷ flow 0 (frame 16 100 2000 1000)
    ∷ flow 1 (frame 16 120 2000 1000)
    ∷ tick true 4000
    ∷ tick true 6000
    ∷ flow 1 (closed true)
    ∷ flow 1 (write_failed true [])
    ∷ []

abbrev after : PortRun ℕ
after = steps whole_numbers 5 two_flows (new_run ℕ 2)

-- Both flows stall once, and one breaks, which two tasks report.
two_flows_run : (length after.stalls ≡ 2) × (after.midstream_disconnects ≡ 1)
unfolding new_run flow_step watchdog_tick
two_flows_run = (refl, refl)

staggered : stagger 2000 3 4 ≡ 1500
unfolding stagger
staggered = refl

disconnects_counted_example :
    (length after.conns ≡ 2) × (after.midstream_disconnects ≡ count is_disconnected after.conns)
disconnects_counted_example = disconnects_counted whole_numbers 5 2 two_flows (omega arith)

stalls_paid_example : length after.stalls ≤ receptions two_flows
stalls_paid_example = stalls_paid whole_numbers 5 2 two_flows

abbrev connected : PortRun ℕ
connected =
    steps whole_numbers 5 (flow 0 (connection 0) ∷ flow 0 (frame 16 100 2 1) ∷ []) (new_run ℕ 1)

tick_reports_example :
    let r' = watchdog_tick whole_numbers 5 true 9000 connected in
    ((events : List (StallEvent ℕ)) × (r'.stalls ≡ connected.stalls ++ events)
      × NewStalls whole_numbers ((5 * 1000) % 2 ^ 64) 9000 connected.conns events)
    × (watchdog_tick whole_numbers 5 true 9000 r' ≡ r')
unfolding new_run flow_step
tick_reports_example = tick_reports whole_numbers 5 9000 connected refl

-- A percentage below 100 is the whole number 0.
no_part : (percent k : ℕ) → percent < 100 → k * (percent / 10 ^ 2) ≤ k
no_part percent k h =
    let none_whole : percent / 10 ^ 2 ≡ 0 = omega (arith, h) in rw none_whole (omega arith)

whole_numbers-RoundsPart : RoundsPart whole_numbers
whole_numbers-RoundsPart = record {
  less_one = λ n h l. refl;
  part = λ percent k h l. no_part percent k h;
}

two_samples : length after.rtt_us < 2 ^ 53
unfolding new_run flow_step watchdog_tick
two_samples = omega arith

finalize-total_example :
    (rtt : RttSummary ℕ) × (finalize whole_numbers [] [] 10 [] after
      ≡ some (with_rtt whole_numbers rtt [] [] 10 [] after))
    × (rtt.samples ≡ length after.rtt_us)
finalize-total_example =
    finalize-total whole_numbers [] [] 10 [] after whole_numbers-RoundsPart two_samples

memory_bounded_example : (length after.errors ≤ 200) × (length after.rtt_us ≤ 50000)
memory_bounded_example = memory_bounded whole_numbers 5 2 two_flows
