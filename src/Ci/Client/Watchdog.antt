-- ===== src/Ci/Client/Watchdog.antt =====
-- ci/src/client.rs: the watchdog that looks for stalls, and runs in which the flows, the watchdog and
-- the end of the test take their steps in any order.
use npt.Prelude.{
  ℕ, ◌-◌, ◌*◌, ◌%◌, ◌^◌, List, [], ◌∷◌, ◌++◌, Bool, true, ◌&&◌, ◌||◌, not, ltb, if◌then◌else◌,
}
use npt.Prelude.Float.{Float64}
use npt.Ci.Client.{ConnState, StallEvent, PortRun, Event, flow_step}

-- The flows that the watchdog does not `continue` past.
abbrev pub is_watched : ConnState → Bool
is_watched c = not (not c.connected || c.disconnected || not c.first_recv)

abbrev pub gap_at : ℕ → ConnState → ℕ
gap_at now c = now - c.last_recv_ms

-- A new stall: the gap is too long, and `in_stall.swap(true)` gives false.
abbrev pub is_new_stall : (stall_ms now : ℕ) → ConnState → Bool
is_new_stall stall_ms now c = is_watched c && ltb stall_ms (gap_at now c) && not c.in_stall

module _ (fl : Float64) where
  open fl use {F}

  abbrev pub stall_event : ℕ → ConnState → StallEvent F
  stall_event now c = record {
    conn_id = c.id;
    at_secs = fl.div (fl.of_ℕ now) (fl.of_ℕ 1000);
    gap_ms = gap_at now c;
  }

  -- The loop over the flows: each is left as it is, or enters a stall that is kept.
  abbrev pub watch_all : (stall_ms now : ℕ) → List ConnState → List ConnState × List (StallEvent F)
  watch_all stall_ms now [] = ([], [])
  watch_all stall_ms now (c ∷ cs) =
      let (cs', events) = watch_all stall_ms now cs in
      if is_new_stall stall_ms now c
      then (record c { in_stall = true } ∷ cs', stall_event now c ∷ events)
      else (c ∷ cs', events)

  -- One turn of the watchdog; past the deadline, or when the run winds down, it stops.
  unfoldable pub watchdog_tick : (stall_secs : ℕ) → Bool → (now : ℕ) → PortRun F → PortRun F
  watchdog_tick stall_secs in_time now r =
      if not in_time || r.winding_down
      then r
      else let (conns, events) = watch_all ((stall_secs * 1000) % 2 ^ 64) now r.conns in
        record r { conns = conns; stalls = r.stalls ++ events }

-- The steps of a run.
pub data Step : Type 0 where
  flow : ℕ → Event → Step
  tick : (in_time : Bool) (now : ℕ) → Step
  wind_down : Step

module _ (fl : Float64) (stall_secs : ℕ) where
  open fl use {F}

  abbrev pub step : Step → PortRun F → PortRun F
  step (flow i e) r = flow_step fl i e r
  step (tick in_time now) r = watchdog_tick fl stall_secs in_time now r
  step wind_down r = record r { winding_down = true }

  abbrev pub steps : List Step → PortRun F → PortRun F
  steps [] r = r
  steps (s ∷ ss) r = steps ss (step s r)
