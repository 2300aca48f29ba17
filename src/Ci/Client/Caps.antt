-- ===== src/Ci/Client/Caps.antt =====
-- ci/src/client.rs: the caps on the messages and the round-trip times that a run keeps.
use npt.Prelude.{
  ℕ, ◌≤◌, List, [], ◌∷◌, Option, none, some, length, length-append, get_elem?, Bool, ◌&&◌, ◌||◌,
  not, ltb, arith, Bool-cases, inl, inr,
}
use npt.Prelude.Float.{Float64}
use npt.Ci.Protocol.{decode_udp}
use npt.Ci.Client.{
  ConnState, PortRun, Note, Event, refused, bind_failed, udp_refused, timed_out, connection, wrote,
  write_failed, frame, closed, read_failed, datagram, sent, send_failed, receive_failed, new_run,
  record_rtt, note_error, on_conn, swap_disconnected, break_flow, take_datagram, flow_step,
  rtt_sample_cap,
}
use npt.Ci.Client.Watchdog.{watchdog_tick, Step, flow, tick, wind_down, steps}

module _ {F : Type 0} where
  pub record IsCapped (r : PortRun F) : Type 0 where
    pub messages : length r.errors ≤ 200
    pub times : length r.rtt_us ≤ rtt_sample_cap

  note_error-IsCapped : (m : Note) (r : PortRun F) → IsCapped r → IsCapped (note_error m r)
  note_error-IsCapped m r c = elim (Bool-cases (ltb (length r.errors) 200)) [
    | inl e ↦
        let longer = length-append r.errors (m ∷ []) in
        rw e (record { messages = ground arith; times = c.times })
    | inr e ↦ rw e c
  ]

  record_rtt-IsCapped : (x : F) (r : PortRun F) → IsCapped r → IsCapped (record_rtt x r)
  record_rtt-IsCapped x r c = elim (Bool-cases (ltb (length r.rtt_us) rtt_sample_cap)) [
    | inl e ↦
        let longer = length-append r.rtt_us (x ∷ []) in
        rw e (record { messages = c.messages; times = ground arith })
    | inr e ↦ rw e c
  ]

  swap-IsCapped :
      (i : ℕ) (o : Option ConnState) (r : PortRun F)
      → IsCapped r
      → IsCapped (swap_disconnected i o r)
  swap-IsCapped i none r c = c
  swap-IsCapped i (some k) r c = elim (Bool-cases k.disconnected) [
    | inl e ↦ rw e c
    | inr e ↦ rw e (record { messages = c.messages; times = c.times })
  ]

  break-IsCapped :
      (i : ℕ) (in_time : Bool) (m : Note) (r : PortRun F)
      → IsCapped r
      → IsCapped (break_flow i in_time m r)
  unfolding break_flow
  break-IsCapped i in_time m r c = elim (Bool-cases (not r.winding_down && in_time)) [
    | inl e ↦ rw e (note_error-IsCapped m _ (swap-IsCapped i (get_elem? r.conns i) r c))
    | inr e ↦ rw e c
  ]

  on_conn-IsCapped :
      (i : ℕ) (f : ConnState → ConnState) (r : PortRun F) → IsCapped r → IsCapped (on_conn i f r)
  on_conn-IsCapped i f r c = record { messages = c.messages; times = c.times }

module _ (fl : Float64) where
  open fl use {F}

  datagram-IsCapped :
      (i len now_ms now_us : ℕ) (d : Option (ℕ × ℕ)) (r : PortRun F)
      → IsCapped r
      → IsCapped (take_datagram fl i len now_ms now_us d r)
  datagram-IsCapped i len now_ms now_us none r c = c
  datagram-IsCapped i len now_ms now_us (some (_, ts)) r c =
      record_rtt-IsCapped _ _ (on_conn-IsCapped i _ r c)

  flow-IsCapped : (i : ℕ) (e : Event) (r : PortRun F) → IsCapped r → IsCapped (flow_step fl i e r)
  unfolding flow_step
  flow-IsCapped i (refused e) r c =
      note_error-IsCapped _ _ (record { messages = c.messages; times = c.times })
  flow-IsCapped i (bind_failed e) r c =
      note_error-IsCapped _ _ (record { messages = c.messages; times = c.times })
  flow-IsCapped i (udp_refused e) r c =
      note_error-IsCapped _ _ (record { messages = c.messages; times = c.times })
  flow-IsCapped i timed_out r c =
      note_error-IsCapped _ _ (record { messages = c.messages; times = c.times })
  flow-IsCapped i (connection now) r c = on_conn-IsCapped i _ r c
  flow-IsCapped i (wrote len) r c = on_conn-IsCapped i _ r c
  flow-IsCapped i (write_failed in_time e) r c = break-IsCapped i in_time _ r c
  flow-IsCapped i (frame len now_ms now_us ts) r c =
      record_rtt-IsCapped _ _ (on_conn-IsCapped i _ r c)
  flow-IsCapped i (closed in_time) r c = break-IsCapped i in_time _ r c
  flow-IsCapped i (read_failed in_time e) r c = break-IsCapped i in_time _ r c
  flow-IsCapped i (datagram bytes now_ms now_us) r c =
      datagram-IsCapped i (length bytes) now_ms now_us (decode_udp bytes) r c
  flow-IsCapped i (sent bytes) r c = on_conn-IsCapped i _ r c
  flow-IsCapped i (send_failed e) r c = note_error-IsCapped _ r c
  flow-IsCapped i receive_failed r c = c

  tick-IsCapped :
      (stall_secs : ℕ) (in_time : Bool) (now : ℕ) (r : PortRun F)
      → IsCapped r
      → IsCapped (watchdog_tick fl stall_secs in_time now r)
  unfolding watchdog_tick
  tick-IsCapped stall_secs in_time now r c = elim (Bool-cases (not in_time || r.winding_down)) [
    | inl e ↦ rw e c
    | inr e ↦ rw e (record { messages = c.messages; times = c.times })
  ]

  steps-IsCapped :
      (stall_secs : ℕ) (ss : List Step) (r : PortRun F)
      → IsCapped r
      → IsCapped (steps fl stall_secs ss r)
  steps-IsCapped stall_secs [] r c = c
  steps-IsCapped stall_secs (flow i e ∷ ss) r c =
      steps-IsCapped stall_secs ss _ (flow-IsCapped i e r c)
  steps-IsCapped stall_secs (tick in_time now ∷ ss) r c =
      steps-IsCapped stall_secs ss _ (tick-IsCapped stall_secs in_time now r c)
  steps-IsCapped stall_secs (wind_down ∷ ss) r c =
      steps-IsCapped stall_secs ss _ (record { messages = c.messages; times = c.times })

  -- A run keeps at most 200 messages and 50000 round-trip times, however long it is and in whatever order
  -- the flows, the watchdog and the end of the test take their steps.
  pub memory_bounded :
      (stall_secs n : ℕ) (ss : List Step)
      → let r = steps fl stall_secs ss (new_run F n) in
        (length r.errors ≤ 200) × (length r.rtt_us ≤ 50000)
  unfolding new_run
  memory_bounded stall_secs n ss =
      let c =
        steps-IsCapped stall_secs ss (new_run F n)
          (record { messages = omega arith; times = omega arith }) in
      (c.messages, c.times)
