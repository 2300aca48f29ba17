-- ===== src/Client/Tui/Tests.antt =====
-- client/src/tui.rs on two refreshes and a log that is scrolled.
use npt.Prelude.{ℕ, ◌≡◌, refl, List, [], ◌∷◌, none, arith}
use npt.Prelude.Float.{whole_numbers}
use npt.Shared.LogBuffer.{LogBuffer, LogEntry, Level, get_entries, len}
use npt.Shared.Metrics.{MetricsCollector}
use npt.Client.Tui.{
  new, quit, logs, down, latest_throughput, latest_latency, latest_errors, displayed_logs, TuiStep,
  pressed, refreshed, run,
}
use npt.Client.Tui.Histories.{Shows, all_pushed, point_at, until_quit, tui_run-Shows}
use npt.Client.Tui.Logs.{Cut, tui_run-Cut}

abbrev sampled : MetricsCollector ℕ
sampled = record (npt.Shared.Metrics.new ℕ 0) {
  throughput_history =
      record {
        timestamp = 1;
        tcp_upload_bps = 5000000;
        tcp_download_bps = 6000000;
        udp_upload_bps = 0;
        udp_download_bps = 0;
        quic_upload_bps = 0;
        quic_download_bps = 0;
      }
      ∷ [];
}

abbrev entry : ℕ → LogEntry
entry n = record { timestamp = n; level = Level.info; target = []; message = [] }

abbrev twelve : LogBuffer
twelve = record {
  entries =
      entry 1
      ∷ entry 2
      ∷ entry 3
      ∷ entry 4
      ∷ entry 5
      ∷ entry 6
      ∷ entry 7
      ∷ entry 8
      ∷ entry 9
      ∷ entry 10
      ∷ entry 11
      ∷ entry 12
      ∷ [];
  max_size = 1000;
  file_sender = none;
}

abbrev steps : List (TuiStep whole_numbers)
steps =
    refreshed 1000000000 sampled
    ∷ pressed logs twelve
    ∷ pressed down twelve
    ∷ pressed down twelve
    ∷ pressed down twelve
    ∷ refreshed 2000000000 sampled
    ∷ pressed quit twelve
    ∷ refreshed 3000000000 sampled
    ∷ []

-- The third arrow does nothing, and the entries 1 and 2 stay out of sight.
scrolled_to_the_end :
    displayed_logs twelve (run whole_numbers steps (new ℕ 0))
    ≡ entry 3 ∷ entry 4 ∷ entry 5 ∷ entry 6 ∷ entry 7 ∷ entry 8 ∷ entry 9 ∷ entry 10 ∷ []
unfolding displayed_logs run new
scrolled_to_the_end = refl

tui_run-Shows_example :
    Shows whole_numbers 0
      (all_pushed
        (point_at whole_numbers (latest_throughput whole_numbers) 0)
        (until_quit whole_numbers steps)
        [])
      (all_pushed
        (point_at whole_numbers (latest_latency whole_numbers) 0)
        (until_quit whole_numbers steps)
        [])
      (all_pushed
        (point_at whole_numbers (latest_errors whole_numbers) 0)
        (until_quit whole_numbers steps)
        [])
      (run whole_numbers steps (new ℕ 0))
tui_run-Shows_example = tui_run-Shows whole_numbers 0 steps

tui_run-Cut_example :
    let t = run whole_numbers steps (new ℕ 0) in
    Cut whole_numbers (get_entries twelve) (displayed_logs twelve t) t.log_scroll
unfolding len
tui_run-Cut_example =
    tui_run-Cut whole_numbers 0 steps twelve
      (omega arith, (omega arith, (omega arith, (omega arith, (omega arith, tt)))))
