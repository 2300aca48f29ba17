-- ===== src/Ci/Client.antt =====
-- ci/src/client.rs: the probe client. It drives flows through a forwarded port, each a task that writes
-- and a task that reads, on shared counters. Each event is one turn of a task's loop, from the answer
-- of the network to the next wait, and changes the state in one step. Times are arguments: `now_ms`
-- since the start of the run, and `in_time` for `Instant::now() < deadline`.
pub mod Watchdog
pub mod Summary
pub mod Counting
pub mod Stalls
pub mod Turns
pub mod Caps
pub mod Breaks
mod Tests
use npt.Prelude.{
  ℕ, zero, suc, ◌+◌, ◌-◌, ◌*◌, ◌/◌, ◌%◌, ◌^◌, List, [], ◌∷◌, ◌++◌, Option, none, some, length,
  get_elem?, Bool, true, false, ◌&&◌, ◌||◌, not, ltb, leb, ◌==◌, max, if◌then◌else◌,
}
use npt.Prelude.Words.{add64}
use npt.Prelude.Float.{Float64}
use npt.Ci.Protocol.{header_len, decode_udp}

abbrev pub rtt_sample_cap : ℕ
rtt_sample_cap = 50000

pub record StallEvent (F : Type 0) : Type 0 where
  pub conn_id : ℕ
  pub at_secs : F
  pub gap_ms : ℕ

pub record ConnState : Type 0 where
  pub id : ℕ
  pub connected : Bool
  pub first_recv : Bool
  pub last_recv_ms : ℕ
  pub bytes_sent : ℕ
  pub bytes_recv : ℕ
  pub udp_sent : ℕ
  pub udp_recv : ℕ
  pub disconnected : Bool
  pub in_stall : Bool

abbrev pub new_conn : ℕ → ConnState
new_conn id = record {
  id = id;
  connected = false;
  first_recv = false;
  last_recv_ms = 0;
  bytes_sent = 0;
  bytes_recv = 0;
  udp_sent = 0;
  udp_recv = 0;
  disconnected = false;
  in_stall = false;
}

-- The messages that `note_error` keeps, each with the flow and the text of the system's error.
pub data Note : Type 0 where
  connect_failed_note bind_failed_note udp_connect_failed_note : ℕ → List ℕ → Note
  write_error_note read_error_note udp_send_error_note : ℕ → List ℕ → Note
  connect_timeout_note peer_closed_note : ℕ → Note

pub record PortRun (F : Type 0) : Type 0 where
  pub conns : List ConnState
  pub winding_down : Bool
  pub connect_failed : ℕ
  pub midstream_disconnects : ℕ
  pub rtt_us : List F
  pub stalls : List (StallEvent F)
  pub errors : List Note

-- `(0..n).map(ConnState::new)`, from `i` on
abbrev pub new_conns : ℕ → ℕ → List ConnState
new_conns i zero = []
new_conns i (suc n) = new_conn i ∷ new_conns (i + 1) n

-- The state with which `run_tcp` and `run_udp` begin.
unfoldable pub new_run : (F : Type 0) → ℕ → PortRun F
new_run F connections_per_port = record {
  conns = new_conns 0 (max connections_per_port 1);
  winding_down = false;
  connect_failed = 0;
  midstream_disconnects = 0;
  rtt_us = [];
  stalls = [];
  errors = [];
}

-- `stagger`, in milliseconds
unfoldable pub stagger : (ramp_ms id n : ℕ) → ℕ
stagger ramp_ms id n = if (ramp_ms == 0) || leb n 1 then 0 else ((ramp_ms * id) % 2 ^ 64) / n

-- What happens to the flow with the index `i`.
pub data Event : Type 0 where
  refused bind_failed udp_refused : List ℕ → Event
  timed_out : Event
  connection : (now_ms : ℕ) → Event
  wrote : (frame_len : ℕ) → Event
  write_failed : (in_time : Bool) → List ℕ → Event
  frame : (payload_len now_ms now_us send_ts_micros : ℕ) → Event
  closed : (in_time : Bool) → Event
  read_failed : (in_time : Bool) → List ℕ → Event
  datagram : (bytes : List ℕ) (now_ms now_us : ℕ) → Event
  sent : (bytes : ℕ) → Event
  send_failed : List ℕ → Event
  -- the reader of `udp_flow` ends on an error, and says so nowhere
  receive_failed : Event

abbrev pub modify_at {ℓ} : {A : Type ℓ} → ℕ → (A → A) → List A → List A
modify_at i f [] = []
modify_at zero f (x ∷ xs) = f x ∷ xs
modify_at (suc i) f (x ∷ xs) = x ∷ modify_at i f xs

module _ {F : Type 0} where
  abbrev pub record_rtt : F → PortRun F → PortRun F
  record_rtt rtt r =
      if ltb (length r.rtt_us) rtt_sample_cap then record r { rtt_us = r.rtt_us ++ rtt ∷ [] } else r

  abbrev pub note_error : Note → PortRun F → PortRun F
  note_error msg r =
      if ltb (length r.errors) 200 then record r { errors = r.errors ++ msg ∷ [] } else r

  abbrev pub on_conn : ℕ → (ConnState → ConnState) → PortRun F → PortRun F
  on_conn i f r = record r { conns = modify_at i f r.conns }

  abbrev pub add_connect_failed : Note → PortRun F → PortRun F
  add_connect_failed msg r = note_error msg (record r { connect_failed = add64 r.connect_failed 1 })

  -- `if !conn.disconnected.swap(true) { midstream_disconnects += 1 }`
  abbrev pub swap_disconnected : ℕ → Option ConnState → PortRun F → PortRun F
  swap_disconnected i none r = r
  swap_disconnected i (some c) r =
      if c.disconnected then r else record (on_conn i (λ c. record c { disconnected = true }) r) {
        midstream_disconnects = add64 r.midstream_disconnects 1;
      }

  -- The reader or the writer of a flow meets its end: counted once, and only in the test's time.
  unfoldable pub break_flow : ℕ → Bool → Note → PortRun F → PortRun F
  break_flow i in_time msg r =
      if not r.winding_down && in_time
      then note_error msg (swap_disconnected i (get_elem? r.conns i) r)
      else r

abbrev pub was_connected : ℕ → ConnState → ConnState
was_connected now_ms c = record c { connected = true; last_recv_ms = now_ms }

-- The counters of a flow when `n` bytes have come back.
abbrev pub was_received : (n now_ms : ℕ) → ConnState → ConnState
was_received n now_ms c = record c {
  bytes_recv = add64 c.bytes_recv n;
  last_recv_ms = now_ms;
  first_recv = true;
  in_stall = false;
}

module _ (fl : Float64) where
  open fl use {F}

  -- What the reader of `udp_flow` does with a datagram, on what `decode_udp` gave.
  abbrev pub take_datagram : (i n now_ms now_us : ℕ) → Option (ℕ × ℕ) → PortRun F → PortRun F
  take_datagram i n now_ms now_us none r = r
  take_datagram i n now_ms now_us (some (_, ts)) r =
      record_rtt (fl.of_ℕ (now_us - ts))
        (on_conn i (λ c. record (was_received n now_ms c) { udp_recv = add64 c.udp_recv 1 }) r)

  -- One event of `tcp_flow` or `udp_flow`.
  unfoldable pub flow_step : ℕ → Event → PortRun F → PortRun F
  unfolding break_flow
  flow_step i (refused e) r = add_connect_failed (connect_failed_note i e) r
  flow_step i (bind_failed e) r = add_connect_failed (bind_failed_note i e) r
  flow_step i (udp_refused e) r = add_connect_failed (udp_connect_failed_note i e) r
  flow_step i timed_out r = add_connect_failed (connect_timeout_note i) r
  flow_step i (connection now_ms) r = on_conn i (was_connected now_ms) r
  flow_step i (wrote frame_len) r =
      on_conn i (λ c. record c { bytes_sent = add64 c.bytes_sent frame_len }) r
  flow_step i (write_failed in_time e) r = break_flow i in_time (write_error_note i e) r
  flow_step i (frame payload_len now_ms now_us ts) r =
      record_rtt (fl.of_ℕ (now_us - ts))
        (on_conn i (was_received (header_len + payload_len) now_ms) r)
  flow_step i (closed in_time) r = break_flow i in_time (peer_closed_note i) r
  flow_step i (read_failed in_time e) r = break_flow i in_time (read_error_note i e) r
  flow_step i (datagram bytes now_ms now_us) r =
      take_datagram i (length bytes) now_ms now_us (decode_udp bytes) r
  flow_step i (sent bytes) r =
      on_conn i
        (λ c. record c { bytes_sent = add64 c.bytes_sent bytes; udp_sent = add64 c.udp_sent 1 }) r
  flow_step i (send_failed e) r = note_error (udp_send_error_note i e) r
  flow_step i receive_failed r = r
