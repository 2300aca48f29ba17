-- ===== src/Shared/Metrics/Throughput.antt =====
-- shared/src/metrics.rs: how often the throughput is sampled.
use npt.Prelude.{
  subst, ℕ, ◌+◌, ◌*◌, ◌-◌, ◌≤◌, ◌≡◌, refl, sym, ◌∙◌, List, [], ◌∷◌, ◌++◌, length, length-append,
  arith, true, leb, Bool-cases, inl, inr,
}
use npt.Prelude.Table.{has_key}
use npt.Prelude.Float.{Float64}
use npt.Shared.Metrics.{
  MetricsCollector, ThroughputSample, new, start_connection, start_connection_with_activity,
  end_connection, record_bytes_sent, record_bytes_received, record_packet_sent,
  record_packet_received, record_error, record_error_with_detail, record_latency,
}
use npt.Shared.Metrics.Sampling.{sampling_gap, sample_throughput}
use npt.Shared.Metrics.Connections.{
  Event, sent, received, packet_sent, packet_received, failed, failed_with, took, Op, start,
  start_with, note, finish, note_event, apply, run,
}

-- Operations on the connections, and then a call of `sample_throughput`.
pub record Tick : Type 0 where
  pub before : List Op
  pub now : ℕ
  pub timestamp : ℕ

abbrev pub AllUntil : ℕ → List Tick → Type 0
AllUntil limit [] = Unit {0}
AllUntil limit (t ∷ ts) = (t.now ≤ limit) × AllUntil limit ts

module _ {F : Type 0} where
  -- The samples and the time of the last one.
  abbrev sampled : MetricsCollector F → List ThroughputSample × ℕ
  sampled m = (m.throughput_history, m.last_sample_time)

  note-sampled :
      (id : ℕ) (e : Event) (m : MetricsCollector F) → sampled (note_event id e m) ≡ sampled m
  unfolding record_bytes_sent record_bytes_received record_packet_sent record_packet_received
      record_error record_error_with_detail record_latency
  note-sampled id (sent n) m = refl
  note-sampled id (received n) m = refl
  note-sampled id packet_sent m = refl
  note-sampled id packet_received m = refl
  note-sampled id failed m = refl
  note-sampled id (failed_with now t message context) m =
      elim (Bool-cases (has_key id m.connections)) [
        | inl present ↦ rw present refl
        | inr absent ↦ rw absent refl
      ]
  note-sampled id (took n) m = refl

  apply-sampled : (o : Op) (m : MetricsCollector F) → sampled (apply o m) ≡ sampled m
  unfolding start_connection start_connection_with_activity end_connection
  apply-sampled (start now place id t) m = refl
  apply-sampled (start_with now place id t a) m = refl
  apply-sampled (note id e) m = note-sampled id e m
  apply-sampled (finish now id) m = refl

  run-sampled : (os : List Op) (m : MetricsCollector F) → sampled (run os m) ≡ sampled m
  run-sampled [] m = refl
  run-sampled (o ∷ os) m = run-sampled os (apply o m) ∙ apply-sampled o m

one_more {ℓ} :
    {A : Type ℓ} (xs : List A) (x : A) (now last_time begin : ℕ)
    → leb sampling_gap (now - last_time) ≡ true
    → length xs * sampling_gap + begin ≤ last_time
    → length (xs ++ x ∷ []) * sampling_gap + begin ≤ now
one_more xs x now last_time begin due p =
    let longer = length-append xs (x ∷ []) in rw longer (ground arith)

module _ (fl : Float64) where
  open fl use {F}

  abbrev pub tick : Tick → MetricsCollector F → MetricsCollector F
  tick t m = sample_throughput fl t.now t.timestamp (run t.before m)

  abbrev pub ticks : List Tick → MetricsCollector F → MetricsCollector F
  ticks [] m = m
  ticks (t ∷ ts) m = ticks ts (tick t m)

  -- What is left until the limit pays for the samples that are still taken.
  abbrev Paid : ℕ → ℕ → MetricsCollector F → Type 0
  Paid begin limit m =
      (length m.throughput_history * sampling_gap + begin ≤ m.last_sample_time)
      × (m.last_sample_time ≤ limit)

  sample-Paid :
      (begin limit now timestamp : ℕ) (m : MetricsCollector F)
      → now ≤ limit
      → Paid begin limit m
      → Paid begin limit (sample_throughput fl now timestamp m)
  unfolding sample_throughput
  sample-Paid begin limit now timestamp m h (p, q) =
      elim (Bool-cases (leb sampling_gap (now - m.last_sample_time))) [
        | inl due ↦ rw due (one_more m.throughput_history _ now m.last_sample_time begin due p, h)
        | inr early ↦ rw early (p, q)
      ]

  ticks-Paid :
      (begin limit : ℕ) (ts : List Tick) (m : MetricsCollector F)
      → AllUntil limit ts
      → Paid begin limit m
      → Paid begin limit (ticks ts m)
  ticks-Paid begin limit [] m h p = p
  ticks-Paid begin limit (t ∷ ts) m (h, hs) p = ticks-Paid begin limit ts (tick t m) hs (
      sample-Paid begin limit t.now t.timestamp (run t.before m) h (
        subst (λ s. (length s.0 * sampling_gap + begin ≤ s.1) × (s.1 ≤ limit))
          (sym (run-sampled t.before m)) p))

  -- From a new collector, whatever is recorded between the calls of sample_throughput and whenever they
  -- are made, also twice at one time or with a clock that is set back: as long as the clock is at most
  -- `limit` at each call, one sample at most is kept for every tenth of a second from the start to `limit`.
  pub samples_rate :
      (begin limit : ℕ) (ts : List Tick)
      → begin ≤ limit
      → AllUntil limit ts
      → length (ticks ts (new F begin)).throughput_history * 100000000 + begin ≤ limit
  samples_rate begin limit ts h hs =
      let (p, q) = ticks-Paid begin limit ts (new F begin) hs (start_paid h) in omega (arith, p, q)
    where
      start_paid : begin ≤ limit → Paid begin limit (new F begin)
      start_paid h = unfold new in (omega arith, h)
