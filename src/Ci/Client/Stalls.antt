-- ===== src/Ci/Client/Stalls.antt =====
-- ci/src/client.rs: the number of stalls that the watchdog records.
use npt.Prelude.{
  ℕ, zero, suc, ◌+◌, ◌-◌, ◌*◌, ◌%◌, ◌^◌, ◌≤◌, ◌≡◌, refl, sym, subst, List, [], ◌∷◌, Option, none,
  some, length, length-append, count, get_elem?, Bool, true, false, ◌&&◌, ◌||◌, not, max, arith,
  Bool-cases, inl, inr,
}
use npt.Prelude.Float.{Float64}
use npt.Ci.Protocol.{decode_udp}
use npt.Ci.Client.{
  ConnState, PortRun, Note, Event, refused, bind_failed, udp_refused, timed_out, connection, wrote,
  write_failed, frame, closed, read_failed, datagram, sent, send_failed, receive_failed, new_conns,
  new_run, modify_at, note_error, record_rtt, on_conn, swap_disconnected, break_flow, take_datagram,
  flow_step,
}
use npt.Ci.Client.Watchdog.{
  is_new_stall, watch_all, watchdog_tick, Step, flow, tick, wind_down, steps,
}
use npt.Ci.Client.Counting.{Kept, kept, note_error-kept, record_rtt-kept, count-modify_at_same}

-- A flow that can enter a stall: it has received something, and is in none.
abbrev is_armed : ConnState → Bool
is_armed c = c.first_recv && not c.in_stall

-- What a step brings back from the echo server: a frame, or a datagram that decodes.
abbrev decoded : Option (ℕ × ℕ) → ℕ
decoded none = 0
decoded (some _) = 1

abbrev pub receptions_of : Event → ℕ
receptions_of (frame _ _ _ _) = 1
receptions_of (datagram bytes _ _) = decoded (decode_udp bytes)
receptions_of _ = 0

abbrev pub receptions : List Step → ℕ
receptions [] = 0
receptions (flow i e ∷ ss) = receptions_of e + receptions ss
receptions (tick _ _ ∷ ss) = receptions ss
receptions (wind_down ∷ ss) = receptions ss

count-modify_at-le {ℓ} :
    {A : Type ℓ} (p : A → Bool) (i : ℕ) (f : A → A) (l : List A)
    → count p (modify_at i f l) ≤ count p l + 1
count-modify_at-le p i f [] = omega arith
count-modify_at-le p zero f (x ∷ xs) = ground arith
count-modify_at-le p (suc i) f (x ∷ xs) = omega (arith, count-modify_at-le p i f xs)

unpaid : {k : ℕ} (paid : ℕ) → paid ≤ k → paid ≤ 0 + k
unpaid paid v = omega (arith, v)

regroup : (a b k paid : ℕ) → paid ≤ a + (b + k) → paid ≤ b + a + k
regroup a b k paid v = omega (arith, v)

module _ {F : Type 0} where
  -- Every stall, and every flow that can enter one, is paid for by a reception.
  abbrev KeptPaid : ℕ → Kept F → Type 0
  KeptPaid received (conns, _, stalls) = length stalls + count is_armed conns ≤ received

  noted-Paid :
      (k : ℕ) (m : Note) (r : PortRun F) → KeptPaid k (kept r) → KeptPaid k (kept (note_error m r))
  noted-Paid k m r v = subst (KeptPaid k) (sym (note_error-kept m r)) v

  swap-Paid :
      (k i : ℕ) (o : Option ConnState) (r : PortRun F)
      → KeptPaid k (kept r)
      → KeptPaid k (kept (swap_disconnected i o r))
  swap-Paid k i none r v = v
  swap-Paid k i (some c) r v = elim (Bool-cases c.disconnected) [
    | inl e ↦ rw e v
    | inr e ↦ rw e (
        omega (
          arith,
          v,
          count-modify_at_same is_armed i (λ c. record c { disconnected = true }) r.conns
              (λ c. refl),
        ))
  ]

  break-Paid :
      (k i : ℕ) (in_time : Bool) (m : Note) (r : PortRun F)
      → KeptPaid k (kept r)
      → KeptPaid k (kept (break_flow i in_time m r))
  unfolding break_flow
  break-Paid k i in_time m r v = elim (Bool-cases (not r.winding_down && in_time)) [
    | inl e ↦ rw e (
        subst (KeptPaid k) (sym (note_error-kept m (swap_disconnected i (get_elem? r.conns i) r)))
          (swap-Paid k i (get_elem? r.conns i) r v))
    | inr e ↦ rw e v
  ]

  on_conn-Paid :
      (k i : ℕ) (f : ConnState → ConnState) (r : PortRun F)
      → ((c : ConnState) → is_armed (f c) ≡ is_armed c)
      → KeptPaid k (kept r)
      → KeptPaid k (kept (on_conn i f r))
  on_conn-Paid k i f r h v = omega (arith, v, count-modify_at_same is_armed i f r.conns h)

module _ (fl : Float64) where
  open fl use {F}

  received-Paid :
      (k i : ℕ) (f : ConnState → ConnState) (x : F) (r : PortRun F)
      → KeptPaid k (kept r)
      → KeptPaid (0 + (1 + k)) (kept (record_rtt x (on_conn i f r)))
  received-Paid k i f x r v =
      subst (KeptPaid (0 + (1 + k))) (sym (record_rtt-kept x (on_conn i f r)))
        (omega (arith, v, count-modify_at-le is_armed i f r.conns))

  datagram-Paid :
      (k i len now_ms now_us : ℕ) (d : Option (ℕ × ℕ)) (r : PortRun F)
      → KeptPaid k (kept r)
      → KeptPaid (decoded d + k) (kept (take_datagram fl i len now_ms now_us d r))
  datagram-Paid k i len now_ms now_us none r v = omega (arith, v)
  datagram-Paid k i len now_ms now_us (some (_, ts)) r v =
      regroup 0 1 k _ (received-Paid k i _ (fl.of_ℕ (now_us - ts)) r v)

  flow-Paid :
      (k i : ℕ) (e : Event) (r : PortRun F)
      → KeptPaid k (kept r)
      → KeptPaid (receptions_of e + k) (kept (flow_step fl i e r))
  unfolding flow_step
  flow-Paid k i (refused e) r v = unpaid _ (noted-Paid k _ _ v)
  flow-Paid k i (bind_failed e) r v = unpaid _ (noted-Paid k _ _ v)
  flow-Paid k i (udp_refused e) r v = unpaid _ (noted-Paid k _ _ v)
  flow-Paid k i timed_out r v = unpaid _ (noted-Paid k _ _ v)
  flow-Paid k i (connection now) r v = unpaid _ (on_conn-Paid k i _ r (λ c. refl) v)
  flow-Paid k i (wrote len) r v = unpaid _ (on_conn-Paid k i _ r (λ c. refl) v)
  flow-Paid k i (write_failed in_time e) r v = unpaid _ (break-Paid k i in_time _ r v)
  flow-Paid k i (frame len now_ms now_us ts) r v =
      regroup 0 1 k _ (received-Paid k i _ (fl.of_ℕ (now_us - ts)) r v)
  flow-Paid k i (closed in_time) r v = unpaid _ (break-Paid k i in_time _ r v)
  flow-Paid k i (read_failed in_time e) r v = unpaid _ (break-Paid k i in_time _ r v)
  flow-Paid k i (datagram bytes now_ms now_us) r v =
      datagram-Paid k i (length bytes) now_ms now_us (decode_udp bytes) r v
  flow-Paid k i (sent bytes) r v = unpaid _ (on_conn-Paid k i _ r (λ c. refl) v)
  flow-Paid k i (send_failed e) r v = unpaid _ (noted-Paid k _ _ v)
  flow-Paid k i receive_failed r v = unpaid _ v

  watch_all-Paid :
      (stall_ms now : ℕ) (cs : List ConnState)
      → let (cs', events) = watch_all fl stall_ms now cs in
        length events + count is_armed cs' ≡ count is_armed cs
  watch_all-Paid stall_ms now [] = refl
  watch_all-Paid stall_ms now (c ∷ cs) = elim (Bool-cases (is_new_stall stall_ms now c)) [
    | inl e ↦
        let armed : is_armed c ≡ true = ground arith in
        let unarmed : is_armed (record c { in_stall = true }) ≡ false = ground arith in
        rw (e, armed, unarmed) (omega (arith, watch_all-Paid stall_ms now cs))
    | inr e ↦ rw e (omega (arith, watch_all-Paid stall_ms now cs))
  ]

  tick-Paid :
      (k stall_secs : ℕ) (in_time : Bool) (now : ℕ) (r : PortRun F)
      → KeptPaid k (kept r)
      → KeptPaid k (kept (watchdog_tick fl stall_secs in_time now r))
  unfolding watchdog_tick
  tick-Paid k stall_secs in_time now r v = elim (Bool-cases (not in_time || r.winding_down)) [
    | inl e ↦ rw e v
    | inr e ↦
        let stall_ms = (stall_secs * 1000) % 2 ^ 64 in
        rw e (
          omega (
            arith,
            v,
            watch_all-Paid stall_ms now r.conns,
            length-append r.stalls (watch_all fl stall_ms now r.conns).1,
          ))
  ]

  steps-Paid :
      (k stall_secs : ℕ) (ss : List Step) (r : PortRun F)
      → KeptPaid k (kept r)
      → KeptPaid (receptions ss + k) (kept (steps fl stall_secs ss r))
  steps-Paid k stall_secs [] r v = unpaid _ v
  steps-Paid k stall_secs (flow i e ∷ ss) r v =
      regroup (receptions ss) (receptions_of e) k _
        (steps-Paid (receptions_of e + k) stall_secs ss _ (flow-Paid k i e r v))
  steps-Paid k stall_secs (tick in_time now ∷ ss) r v =
      steps-Paid k stall_secs ss _ (tick-Paid k stall_secs in_time now r v)
  steps-Paid k stall_secs (wind_down ∷ ss) r v = steps-Paid k stall_secs ss _ v

  new_conns-armed : (i n : ℕ) → count is_armed (new_conns i n) ≡ 0
  new_conns-armed i zero = refl
  new_conns-armed i (suc n) = omega (arith, new_conns-armed (i + 1) n)

  -- After any steps of the flows, the watchdog and the end of the test, in any order, at most one stall is
  -- recorded for every frame or datagram that came back: a flow is in a stall until it receives again,
  -- and one that never received anything is in none.
  pub stalls_paid :
      (stall_secs n : ℕ) (ss : List Step)
      → length (steps fl stall_secs ss (new_run F n)).stalls ≤ receptions ss
  unfolding new_run
  stalls_paid stall_secs n ss =
      let p =
        steps-Paid 0 stall_secs ss (new_run F n) (omega (arith, new_conns-armed 0 (max n 1))) in
      omega (arith, p)
