-- ===== src/Ci/Detect.antt =====
-- ci/src/detect.rs: the rules that pass or fail a port. A reason is kept as the values that its text shows.
pub mod Verdicts
mod Tests
use npt.Prelude.{
  ℕ, List, [], ◌∷◌, ◌++◌, Option, none, some, length, Bool, true, false, ◌&&◌, ◌||◌, not, ltb, ◌==◌,
  max, if◌then◌else◌,
}
use npt.Prelude.Float.{Float64}
use npt.Prelude.Text.{contains}
use npt.Ci.Client.{
  StallEvent, Note, connect_failed_note, bind_failed_note, udp_connect_failed_note,
  write_error_note, read_error_note, udp_send_error_note, connect_timeout_note, peer_closed_note,
}
use npt.Ci.Client.Summary.{PortMetrics}

pub data Verdict : Type 0 where
  pass fail skipped : Verdict

pub record DetectParams (F : Type 0) : Type 0 where
  pub stall_secs : ℕ
  pub fail_on_stall : Bool
  pub fail_on_midstream_disconnect : Bool
  pub fail_on_no_return : Bool
  pub max_connect_fail_ratio : F
  pub min_throughput_kbps : F
  pub max_rtt_p95_ms : F

-- `DetectParams::default`
unfoldable pub default_params : (fl : Float64) → DetectParams fl.F
default_params fl = record {
  stall_secs = 5;
  fail_on_stall = true;
  fail_on_midstream_disconnect = true;
  fail_on_no_return = true;
  max_connect_fail_ratio = fl.literal 10 2;
  min_throughput_kbps = fl.of_ℕ 0;
  max_rtt_p95_ms = fl.of_ℕ 0;
}

pub data Reason (F : Type 0) : Type 0 where
  no_connection : (connect_failed attempted : ℕ) → Reason F
  stalled : (events worst : ℕ) → Reason F
  midstream : ℕ → Reason F
  sent_nothing : (hint : Option Note) → Reason F
  no_return : ℕ → Reason F
  fail_ratio throughput_below rtt_above : (measured limit : F) → Reason F
  -- a reason that ci/src/main.rs gives itself, with its text
  told : List ℕ → Reason F

pub record PortVerdict (F : Type 0) : Type 0 where
  pub port_id : ℕ
  pub verdict : Verdict
  pub reasons : List (Reason F)

-- "send"
abbrev send_word : List ℕ
send_word = 115 ∷ 101 ∷ 110 ∷ 100 ∷ []

-- Whether the text of a message contains "send": that of a failed send does by its own words, the
-- others by the system's text at their end.
abbrev pub tells_send : Note → Bool
tells_send (connect_failed_note i e) = contains send_word e
tells_send (bind_failed_note i e) = contains send_word e
tells_send (udp_connect_failed_note i e) = contains send_word e
tells_send (write_error_note i e) = contains send_word e
tells_send (read_error_note i e) = contains send_word e
tells_send (udp_send_error_note i e) = true
tells_send (connect_timeout_note i) = false
tells_send (peer_closed_note i) = false

abbrev first_note : List Note → Option Note
first_note [] = none
first_note (m ∷ ms) = some m

-- `iter().find(..).or_else(|| first())`
abbrev hint_from : List Note → List Note → Option Note
hint_from all [] = first_note all
hint_from all (m ∷ ms) = if tells_send m then some m else hint_from all ms

abbrev worst_gap : {F : Type 0} → List (StallEvent F) → ℕ
worst_gap [] = 0
worst_gap (s ∷ ss) = max s.gap_ms (worst_gap ss)

-- `if b { reasons.push(reason) }`
abbrev pub push_if {ℓ} : {A : Type ℓ} → Bool → A → List A
push_if true reason = reason ∷ []
push_if false reason = []

abbrev pub is_empty {ℓ} : {A : Type ℓ} → List A → Bool
is_empty [] = true
is_empty (_ ∷ _) = false

abbrev pub verdict_of {ℓ} : {A : Type ℓ} → List A → Verdict
verdict_of [] = pass
verdict_of (_ ∷ _) = fail

module _ (fl : Float64) where
  open fl use {F}

  abbrev pub connect_fail_ratio : PortMetrics F → F
  connect_fail_ratio m = fl.div (fl.of_ℕ m.connect_failed) (fl.of_ℕ (max m.connections_attempted 1))

  -- The rule on what was sent, and else the rule on what came back.
  abbrev pub sent_reasons : PortMetrics F → DetectParams F → List (Reason F)
  sent_reasons m d =
      if ltb 0 m.connected && (m.bytes_sent == 0)
      then sent_nothing (hint_from m.errors m.errors) ∷ []
      else push_if (d.fail_on_no_return && ltb 0 m.flows_no_return) (no_return m.flows_no_return)

  -- The rules behind the first, in their order.
  abbrev pub rule_reasons : PortMetrics F → DetectParams F → List (Reason F)
  rule_reasons m d =
      push_if (d.fail_on_stall && not (is_empty m.stalls))
        (stalled (length m.stalls) (worst_gap m.stalls))
      ++ (push_if (d.fail_on_midstream_disconnect && ltb 0 m.midstream_disconnects)
            (midstream m.midstream_disconnects)
          ++ (sent_reasons m d
              ++ (push_if (fl.lt d.max_connect_fail_ratio (connect_fail_ratio m))
                    (fail_ratio (connect_fail_ratio m) d.max_connect_fail_ratio)
                  ++ (push_if
                        (fl.lt (fl.of_ℕ 0) d.min_throughput_kbps
                          && fl.lt m.avg_down_kbps d.min_throughput_kbps)
                        (throughput_below m.avg_down_kbps d.min_throughput_kbps)
                      ++ push_if
                          (fl.lt (fl.of_ℕ 0) d.max_rtt_p95_ms
                            && fl.lt d.max_rtt_p95_ms m.rtt.p95_ms)
                          (rtt_above m.rtt.p95_ms d.max_rtt_p95_ms)))))

  unfoldable pub evaluate : ℕ → PortMetrics F → DetectParams F → PortVerdict F
  evaluate port_id m d =
      if m.connected == 0
      then record {
        port_id = port_id;
        verdict = fail;
        reasons = no_connection m.connect_failed m.connections_attempted ∷ [];
      }
      else let reasons = rule_reasons m d in
        record { port_id = port_id; verdict = verdict_of reasons; reasons = reasons }
