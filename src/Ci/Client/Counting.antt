-- ===== src/Ci/Client/Counting.antt =====
-- ci/src/client.rs: the counter of mid-stream disconnects and the flows that are marked as
-- disconnected.
use npt.Prelude.{
  ℕ, zero, suc, ◌+◌, ◌*◌, ◌%◌, ◌^◌, ◌<◌, ◌≡◌, refl, ap, sym, subst, ◌∙◌, List, [], ◌∷◌, Option,
  none, some, length, count, count-le, get_elem?, Bool, true, false, ◌&&◌, ◌||◌, not, ltb, max,
  arith, Bool-cases, inl, inr, if◌then◌else◌,
}
use npt.Prelude.Float.{Float64}
use npt.Ci.Protocol.{decode_udp}
use npt.Ci.Client.{
  ConnState, StallEvent, PortRun, Note, Event, refused, bind_failed, udp_refused, timed_out,
  connection, wrote, write_failed, frame, closed, read_failed, datagram, sent, send_failed,
  receive_failed, new_conns, new_run, modify_at, record_rtt, note_error, on_conn, swap_disconnected,
  break_flow, take_datagram, flow_step, rtt_sample_cap,
}
use npt.Ci.Client.Watchdog.{
  is_new_stall, watch_all, watchdog_tick, Step, flow, tick, wind_down, steps,
}

module _ {ℓ} {A : Type ℓ} where
  pub length-modify_at : (i : ℕ) (f : A → A) (l : List A) → length (modify_at i f l) ≡ length l
  length-modify_at i f [] = refl
  length-modify_at zero f (x ∷ xs) = refl
  length-modify_at (suc i) f (x ∷ xs) = ap suc (length-modify_at i f xs)

  pub count-modify_at_same :
      (p : A → Bool) (i : ℕ) (f : A → A) (l : List A)
      → ((a : A) → p (f a) ≡ p a)
      → count p (modify_at i f l) ≡ count p l
  count-modify_at_same p i f [] h = refl
  count-modify_at_same p zero f (x ∷ xs) h = ap (λ b. (if b then 1 else 0) + count p xs) (h x)
  count-modify_at_same p (suc i) f (x ∷ xs) h =
      ap (λ t. (if p x then 1 else 0) + t) (count-modify_at_same p i f xs h)

  -- An item that begins to pass the test adds one to the count.
  pub count-modify_at_more :
      (p : A → Bool) (i : ℕ) (f : A → A) (l : List A) {a : A}
      → get_elem? l i ≡ some a
      → p a ≡ false
      → p (f a) ≡ true
      → count p (modify_at i f l) ≡ count p l + 1
  count-modify_at_more p i f [] e h k = cc
  count-modify_at_more p zero f (x ∷ xs) {a} e h k =
      let same : some x ≡ some a = e in
      let before : p x ≡ false = ap (or_true p) same ∙ h in
      let after : p (f x) ≡ true = ap (λ o. or_true (λ y. p (f y)) o) same ∙ k in
      rw (before, after) (omega arith)
    where
      or_true : (A → Bool) → Option A → Bool
      or_true q none = true
      or_true q (some y) = q y
  count-modify_at_more p (suc i) f (x ∷ xs) e h k =
      omega (arith, count-modify_at_more p i f xs e h k)

abbrev pub is_disconnected : ConnState → Bool
is_disconnected c = c.disconnected

-- What notes and round-trip times leave alone.
abbrev pub Kept : Type 0 → Type 0
Kept F = List ConnState × ℕ × List (StallEvent F)

module _ {F : Type 0} where
  abbrev pub kept : PortRun F → Kept F
  kept r = (r.conns, r.midstream_disconnects, r.stalls)

  pub note_error-kept : (m : Note) (r : PortRun F) → kept (note_error m r) ≡ kept r
  note_error-kept m r = elim (Bool-cases (ltb (length r.errors) 200)) [
    | inl e ↦ rw e refl
    | inr e ↦ rw e refl
  ]

  pub record_rtt-kept : (x : F) (r : PortRun F) → kept (record_rtt x r) ≡ kept r
  record_rtt-kept x r = elim (Bool-cases (ltb (length r.rtt_us) rtt_sample_cap)) [
    | inl e ↦ rw e refl
    | inr e ↦ rw e refl
  ]

  -- The counter agrees with the flows that are marked, and no flow is lost.
  abbrev KeptCounted : ℕ → Kept F → Type 0
  KeptCounted n (conns, broken, _) =
      (broken ≡ count is_disconnected conns % 2 ^ 64) × (length conns ≡ n)

  on_conn-Counted :
      (n i : ℕ) (f : ConnState → ConnState) (r : PortRun F)
      → ((c : ConnState) → (f c).disconnected ≡ c.disconnected)
      → KeptCounted n (kept r)
      → KeptCounted n (kept (on_conn i f r))
  on_conn-Counted n i f r h (a, b) = (
    a ∙ ap (λ t. t % 2 ^ 64) (sym (count-modify_at_same is_disconnected i f r.conns h)),
    length-modify_at i f r.conns ∙ b,
  )

  swap-Counted :
      (n i : ℕ) (o : Option ConnState) (r : PortRun F)
      → get_elem? r.conns i ≡ o
      → KeptCounted n (kept r)
      → KeptCounted n (kept (swap_disconnected i o r))
  swap-Counted n i none r e v = v
  swap-Counted n i (some c) r e (a, b) = elim (Bool-cases c.disconnected) [
    | inl marked ↦ rw marked (a, b)
    | inr unmarked ↦ rw unmarked (
      omega (
        arith,
        a,
        count-modify_at_more is_disconnected i (λ c. record c { disconnected = true }) r.conns e
            unmarked refl,
      ),
      length-modify_at i _ r.conns ∙ b,
    )
  ]

  break-Counted :
      (n i : ℕ) (in_time : Bool) (m : Note) (r : PortRun F)
      → KeptCounted n (kept r)
      → KeptCounted n (kept (break_flow i in_time m r))
  unfolding break_flow
  break-Counted n i in_time m r v = elim (Bool-cases (not r.winding_down && in_time)) [
    | inl e ↦ rw e (
        subst (KeptCounted n)
          (sym (note_error-kept m (swap_disconnected i (get_elem? r.conns i) r)))
          (swap-Counted n i (get_elem? r.conns i) r refl v))
    | inr e ↦ rw e v
  ]

module _ (fl : Float64) where
  open fl use {F}

  pub watch_all-count :
      (stall_ms now : ℕ) (cs : List ConnState)
      → (count is_disconnected (watch_all fl stall_ms now cs).0 ≡ count is_disconnected cs)
        × (length (watch_all fl stall_ms now cs).0 ≡ length cs)
  watch_all-count stall_ms now [] = (refl, refl)
  watch_all-count stall_ms now (c ∷ cs) =
      let (a, b) = watch_all-count stall_ms now cs in
      elim (Bool-cases (is_new_stall stall_ms now c)) [
        | inl e ↦ rw e (ap (λ t. (if c.disconnected then 1 else 0) + t) a, ap suc b)
        | inr e ↦ rw e (ap (λ t. (if c.disconnected then 1 else 0) + t) a, ap suc b)
      ]

  tick-Counted :
      (n stall_secs : ℕ) (in_time : Bool) (now : ℕ) (r : PortRun F)
      → KeptCounted n (kept r)
      → KeptCounted n (kept (watchdog_tick fl stall_secs in_time now r))
  unfolding watchdog_tick
  tick-Counted n stall_secs in_time now r (a, b) =
      elim (Bool-cases (not in_time || r.winding_down)) [
        | inl e ↦ rw e (a, b)
        | inr e ↦
            let (c, l) = watch_all-count ((stall_secs * 1000) % 2 ^ 64) now r.conns in
            rw e (a ∙ ap (λ t. t % 2 ^ 64) (sym c), l ∙ b)
      ]

  datagram-Counted :
      (n i len now_ms now_us : ℕ) (d : Option (ℕ × ℕ)) (r : PortRun F)
      → KeptCounted n (kept r)
      → KeptCounted n (kept (take_datagram fl i len now_ms now_us d r))
  datagram-Counted n i len now_ms now_us none r v = v
  datagram-Counted n i len now_ms now_us (some (_, ts)) r v =
      subst (KeptCounted n) (sym (record_rtt-kept _ _)) (on_conn-Counted n i _ r (λ c. refl) v)

  flow-Counted :
      (n i : ℕ) (e : Event) (r : PortRun F)
      → KeptCounted n (kept r)
      → KeptCounted n (kept (flow_step fl i e r))
  unfolding flow_step
  flow-Counted n i (refused e) r v = subst (KeptCounted n) (sym (note_error-kept _ _)) v
  flow-Counted n i (bind_failed e) r v = subst (KeptCounted n) (sym (note_error-kept _ _)) v
  flow-Counted n i (udp_refused e) r v = subst (KeptCounted n) (sym (note_error-kept _ _)) v
  flow-Counted n i timed_out r v = subst (KeptCounted n) (sym (note_error-kept _ _)) v
  flow-Counted n i (connection now) r v = on_conn-Counted n i _ r (λ c. refl) v
  flow-Counted n i (wrote len) r v = on_conn-Counted n i _ r (λ c. refl) v
  flow-Counted n i (write_failed in_time e) r v = break-Counted n i in_time _ r v
  flow-Counted n i (frame len now_ms now_us ts) r v =
      subst (KeptCounted n) (sym (record_rtt-kept _ _)) (on_conn-Counted n i _ r (λ c. refl) v)
  flow-Counted n i (closed in_time) r v = break-Counted n i in_time _ r v
  flow-Counted n i (read_failed in_time e) r v = break-Counted n i in_time _ r v
  flow-Counted n i (datagram bytes now_ms now_us) r v =
      datagram-Counted n i (length bytes) now_ms now_us (decode_udp bytes) r v
  flow-Counted n i (sent bytes) r v = on_conn-Counted n i _ r (λ c. refl) v
  flow-Counted n i (send_failed e) r v = subst (KeptCounted n) (sym (note_error-kept _ _)) v
  flow-Counted n i receive_failed r v = v

  steps-Counted :
      (n stall_secs : ℕ) (ss : List Step) (r : PortRun F)
      → KeptCounted n (kept r)
      → KeptCounted n (kept (steps fl stall_secs ss r))
  steps-Counted n stall_secs [] r v = v
  steps-Counted n stall_secs (flow i e ∷ ss) r v =
      steps-Counted n stall_secs ss _ (flow-Counted n i e r v)
  steps-Counted n stall_secs (tick in_time now ∷ ss) r v =
      steps-Counted n stall_secs ss _ (tick-Counted n stall_secs in_time now r v)
  steps-Counted n stall_secs (wind_down ∷ ss) r v = steps-Counted n stall_secs ss _ v

  pub new_conns-Counted :
      (i n : ℕ) → (count is_disconnected (new_conns i n) ≡ 0) × (length (new_conns i n) ≡ n)
  new_conns-Counted i zero = (refl, refl)
  new_conns-Counted i (suc n) =
      let (a, b) = new_conns-Counted (i + 1) n in (omega (arith, a), ap suc b)

  -- After any steps of the flows, the watchdog and the end of the test, in any order, there are still as
  -- many flows as were started, and midstream_disconnects is the number of those that are marked as
  -- disconnected: although the reader and the writer of a flow may both report its end, and repeatedly,
  -- each broken flow counts once. There are fewer than 2^64 flows.
  pub disconnects_counted :
      (stall_secs n : ℕ) (ss : List Step)
      → max n 1 < 2 ^ 64
      → let r = steps fl stall_secs ss (new_run F n) in
        (length r.conns ≡ max n 1) × (r.midstream_disconnects ≡ count is_disconnected r.conns)
  unfolding new_run
  disconnects_counted stall_secs n ss h =
      let (zero_count, len) = new_conns-Counted 0 (max n 1) in
      let (a, b) =
        steps-Counted (max n 1) stall_secs ss (new_run F n)
          (sym (ap (λ t. t % 2 ^ 64) zero_count), len) in
      let r : PortRun F = steps fl stall_secs ss (new_run F n) in
      (b, omega (arith, a, b, h, count-le is_disconnected r.conns))
