-- ===== src/Ci/Client/Breaks.antt =====
-- ci/src/client.rs: which breaks of the flows leave a trace in the state of a run.
use npt.Prelude.{
  ℕ, zero, suc, ◌+◌, ◌*◌, ◌%◌, ◌^◌, ◌≤◌, ◌<◌, ◌≡◌, refl, ap, subst, ◌∙◌, List, [], ◌∷◌, Option,
  none, some, length, count, get_elem?, get_elem?-IsSome, Bool, true, false, ◌&&◌, ◌||◌, not, ltb,
  max, arith, Bool-cases, inl, inr,
}
use npt.Prelude.Float.{Float64}
use npt.Ci.Protocol.{decode_udp}
use npt.Ci.Client.{
  ConnState, PortRun, Note, Event, refused, bind_failed, udp_refused, timed_out, connection, wrote,
  write_failed, frame, closed, read_failed, datagram, sent, send_failed, receive_failed, new_run,
  record_rtt, note_error, on_conn, swap_disconnected, break_flow, take_datagram, flow_step,
  rtt_sample_cap,
}
use npt.Ci.Client.Watchdog.{watchdog_tick, Step, flow, tick, wind_down, steps}
use npt.Ci.Client.Counting.{
  is_disconnected, length-modify_at, count-modify_at_same, count-modify_at_more, watch_all-count,
  new_conns-Counted,
}

-- The reader or the writer of a TCP flow meets the end of its connection, in the test's time.
abbrev pub is_break : Event → Bool
is_break (write_failed in_time _) = in_time
is_break (closed in_time) = in_time
is_break (read_failed in_time _) = in_time
is_break _ = false

-- No TCP connection of the `n` flows breaks in the test's time before the run winds down.
abbrev pub Unbroken : (n : ℕ) → List Step → Type 0
Unbroken n [] = Unit {0}
Unbroken n (flow i e ∷ ss) = (is_break e ≡ true → n ≤ i) × Unbroken n ss
Unbroken n (tick _ _ ∷ ss) = Unbroken n ss
Unbroken n (wind_down ∷ ss) = Unit {0}

count-get_elem? {ℓ} :
    {A : Type ℓ} (p : A → Bool) (l : List A) (i : ℕ) {a : A}
    → get_elem? l i ≡ some a
    → p a ≡ true
    → 1 ≤ count p l
count-get_elem? p [] i e h = cc
count-get_elem? p (x ∷ xs) zero {a} e h =
    let same : x ≡ a = cc in let passes : p x ≡ true = ap p same ∙ h in rw passes (omega arith)
count-get_elem? p (x ∷ xs) (suc i) e h = omega (arith, count-get_elem? p xs i e h)

module _ {F : Type 0} where
  -- A step lets no flow go, takes no mark of a flow back, and leaves `winding_down` as it is.
  abbrev Follows : PortRun F → PortRun F → Type 0
  Follows r r' =
      (count is_disconnected r.conns ≤ count is_disconnected r'.conns)
      × (length r'.conns ≡ length r.conns)
      × (r'.winding_down ≡ r.winding_down)

  note_error-Follows : (m : Note) (r : PortRun F) → Follows r (note_error m r)
  note_error-Follows m r = elim (Bool-cases (ltb (length r.errors) 200)) [
    | inl e ↦ rw e (omega arith, refl, refl)
    | inr e ↦ rw e (omega arith, refl, refl)
  ]

  on_conn-Follows :
      (i : ℕ) (f : ConnState → ConnState) (r : PortRun F)
      → ((c : ConnState) → (f c).disconnected ≡ c.disconnected)
      → Follows r (on_conn i f r)
  on_conn-Follows i f r h = (
    omega (arith, count-modify_at_same is_disconnected i f r.conns h),
    length-modify_at i f r.conns,
    refl,
  )

  received-Follows :
      (x : F) (i : ℕ) (f : ConnState → ConnState) (r : PortRun F)
      → ((c : ConnState) → (f c).disconnected ≡ c.disconnected)
      → Follows r (record_rtt x (on_conn i f r))
  received-Follows x i f r h = elim (Bool-cases (ltb (length r.rtt_us) rtt_sample_cap)) [
    | inl e ↦ rw e (on_conn-Follows i f r h)
    | inr e ↦ rw e (on_conn-Follows i f r h)
  ]

  marked_more :
      (i : ℕ) (r : PortRun F) (c : ConnState)
      → get_elem? r.conns i ≡ some c
      → c.disconnected ≡ false
      → count is_disconnected (on_conn i (λ c. record c { disconnected = true }) r).conns
        ≡ count is_disconnected r.conns + 1
  marked_more i r c e unmarked =
      count-modify_at_more is_disconnected i (λ c. record c { disconnected = true }) r.conns e
        unmarked refl

  swap-Follows :
      (i : ℕ) (o : Option ConnState) (r : PortRun F)
      → get_elem? r.conns i ≡ o
      → Follows r (swap_disconnected i o r)
  swap-Follows i none r e = (omega arith, refl, refl)
  swap-Follows i (some c) r e = elim (Bool-cases c.disconnected) [
    | inl marked ↦ rw marked (omega arith, refl, refl)
    | inr unmarked ↦
        rw unmarked
          (omega (arith, marked_more i r c e unmarked), length-modify_at i _ r.conns, refl)
  ]

  break-Follows :
      (i : ℕ) (in_time : Bool) (m : Note) (r : PortRun F) → Follows r (break_flow i in_time m r)
  unfolding break_flow
  break-Follows i in_time m r = elim (Bool-cases (not r.winding_down && in_time)) [
    | inl e ↦
        let (a, b, c) = swap-Follows i (get_elem? r.conns i) r refl in
        let (d, f, g) = note_error-Follows m (swap_disconnected i (get_elem? r.conns i) r) in
        rw e (omega (arith, a, d), f ∙ b, g ∙ c)
    | inr e ↦ rw e (omega arith, refl, refl)
  ]

  swap-marks :
      (i : ℕ) (c : ConnState) (r : PortRun F)
      → get_elem? r.conns i ≡ some c
      → 1 ≤ count is_disconnected (swap_disconnected i (get_elem? r.conns i) r).conns
  swap-marks i c r e = elim (Bool-cases c.disconnected) [
    | inl marked ↦ rw (e, marked) (count-get_elem? is_disconnected r.conns i e marked)
    | inr unmarked ↦ rw (e, unmarked) (omega (arith, marked_more i r c e unmarked))
  ]

  -- A break that is met in time, of a flow that there is, leaves a mark.
  break-marks :
      (i : ℕ) (in_time : Bool) (m : Note) (r : PortRun F)
      → r.winding_down ≡ false
      → in_time ≡ true
      → i < length r.conns
      → 1 ≤ count is_disconnected (break_flow i in_time m r).conns
  unfolding break_flow
  break-marks i in_time m r on t h =
      let (c, e) = get_elem?-IsSome r.conns i h in
      let (more, _, _) = note_error-Follows m (swap_disconnected i (get_elem? r.conns i) r) in
      let live : (not r.winding_down && in_time) ≡ true = ground arith in
      rw live (omega (arith, more, swap-marks i c r e))

module _ (fl : Float64) where
  open fl use {F}

  datagram-Follows :
      (i len now_ms now_us : ℕ) (d : Option (ℕ × ℕ)) (r : PortRun F)
      → Follows r (take_datagram fl i len now_ms now_us d r)
  datagram-Follows i len now_ms now_us none r = (omega arith, refl, refl)
  datagram-Follows i len now_ms now_us (some (_, ts)) r = received-Follows _ i _ r (λ c. refl)

  flow-Follows : (i : ℕ) (e : Event) (r : PortRun F) → Follows r (flow_step fl i e r)
  unfolding flow_step
  flow-Follows i (refused e) r = note_error-Follows _ _
  flow-Follows i (bind_failed e) r = note_error-Follows _ _
  flow-Follows i (udp_refused e) r = note_error-Follows _ _
  flow-Follows i timed_out r = note_error-Follows _ _
  flow-Follows i (connection now) r = on_conn-Follows i _ r (λ c. refl)
  flow-Follows i (wrote len) r = on_conn-Follows i _ r (λ c. refl)
  flow-Follows i (write_failed in_time e) r = break-Follows i in_time _ r
  flow-Follows i (frame len now_ms now_us ts) r = received-Follows _ i _ r (λ c. refl)
  flow-Follows i (closed in_time) r = break-Follows i in_time _ r
  flow-Follows i (read_failed in_time e) r = break-Follows i in_time _ r
  flow-Follows i (datagram bytes now_ms now_us) r =
      datagram-Follows i (length bytes) now_ms now_us (decode_udp bytes) r
  flow-Follows i (sent bytes) r = on_conn-Follows i _ r (λ c. refl)
  flow-Follows i (send_failed e) r = note_error-Follows _ r
  flow-Follows i receive_failed r = (omega arith, refl, refl)

  flow-marks :
      (i : ℕ) (e : Event) (r : PortRun F)
      → r.winding_down ≡ false
      → is_break e ≡ true
      → i < length r.conns
      → 1 ≤ count is_disconnected (flow_step fl i e r).conns
  unfolding flow_step
  flow-marks i (write_failed in_time e) r on b h = break-marks i in_time _ r on b h
  flow-marks i (closed in_time) r on b h = break-marks i in_time _ r on b h
  flow-marks i (read_failed in_time e) r on b h = break-marks i in_time _ r on b h
  flow-marks i (refused e) r on b h = cc
  flow-marks i (bind_failed e) r on b h = cc
  flow-marks i (udp_refused e) r on b h = cc
  flow-marks i timed_out r on b h = cc
  flow-marks i (connection now) r on b h = cc
  flow-marks i (wrote len) r on b h = cc
  flow-marks i (frame len now_ms now_us ts) r on b h = cc
  flow-marks i (datagram bytes now_ms now_us) r on b h = cc
  flow-marks i (sent bytes) r on b h = cc
  flow-marks i (send_failed e) r on b h = cc
  flow-marks i receive_failed r on b h = cc

  tick-Follows :
      (stall_secs : ℕ) (in_time : Bool) (now : ℕ) (r : PortRun F)
      → Follows r (watchdog_tick fl stall_secs in_time now r)
  unfolding watchdog_tick
  tick-Follows stall_secs in_time now r = elim (Bool-cases (not in_time || r.winding_down)) [
    | inl e ↦ rw e (omega arith, refl, refl)
    | inr e ↦
        let (c, l) = watch_all-count fl ((stall_secs * 1000) % 2 ^ 64) now r.conns in
        rw e (omega (arith, c), l, refl)
  ]

  steps-marks :
      (stall_secs : ℕ) (ss : List Step) (r : PortRun F)
      → count is_disconnected r.conns ≤ count is_disconnected (steps fl stall_secs ss r).conns
  steps-marks stall_secs [] r = omega arith
  steps-marks stall_secs (flow i e ∷ ss) r =
      omega (arith, (flow-Follows i e r).0, steps-marks stall_secs ss (flow_step fl i e r))
  steps-marks stall_secs (tick in_time now ∷ ss) r = omega (
    arith,
    (tick-Follows stall_secs in_time now r).0,
    steps-marks stall_secs ss (watchdog_tick fl stall_secs in_time now r),
  )
  steps-marks stall_secs (wind_down ∷ ss) r = steps-marks stall_secs ss _

  -- A run that ends with no mark had no flow whose TCP connection broke in time.
  steps-Unbroken :
      (stall_secs : ℕ) (ss : List Step) (r : PortRun F)
      → r.winding_down ≡ false
      → count is_disconnected (steps fl stall_secs ss r).conns ≡ 0
      → Unbroken (length r.conns) ss
  steps-Unbroken stall_secs [] r on h = tt
  steps-Unbroken stall_secs (wind_down ∷ ss) r on h = tt
  steps-Unbroken stall_secs (tick in_time now ∷ ss) r on h =
      let (_, same, still) = tick-Follows stall_secs in_time now r in
      subst (λ n. Unbroken n ss) same (steps-Unbroken stall_secs ss _ (still ∙ on) h)
  steps-Unbroken stall_secs (flow i e ∷ ss) r on h =
      let (_, same, still) = flow-Follows i e r in
      (
        λ b. elim (Bool-cases (ltb i (length r.conns))) [
          | inl inside ↦
              let marked = flow-marks i e r on b (ground (arith, inside)) in
              omega (arith, h, marked, steps-marks stall_secs ss (flow_step fl i e r))
          | inr outside ↦ ground (arith, outside)
        ],
        subst (λ n. Unbroken n ss) same (steps-Unbroken stall_secs ss _ (still ∙ on) h),
      )

  pub no_mark-Unbroken :
      (stall_secs n : ℕ) (ss : List Step)
      → count is_disconnected (steps fl stall_secs ss (new_run F n)).conns ≡ 0
      → Unbroken (max n 1) ss
  unfolding new_run
  no_mark-Unbroken stall_secs n ss h =
      let (_, len) = new_conns-Counted fl 0 (max n 1) in
      subst (λ k. Unbroken k ss) len (steps-Unbroken stall_secs ss (new_run F n) refl h)
