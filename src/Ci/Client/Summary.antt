-- ===== src/Ci/Client/Summary.antt =====
-- ci/src/client.rs: what a run amounts to at its end, and the throughput of each second.
use npt.Prelude.{
  ℕ, ◌+◌, ◌-◌, ◌≤◌, ◌<◌, ◌≡◌, refl, sym, subst, ◌^◌, List, [], ◌∷◌, Option, none, some, length,
  get_elem?, get_elem?-IsSome, count, Bool, ◌&&◌, ◌==◌, max, arith, if◌then◌else◌, Bool-cases, inl,
  inr,
}
use npt.Prelude.Sums.{sum64}
use npt.Prelude.Float.{Float64}
use npt.Ci.Client.{ConnState, StallEvent, PortRun, Note}

pub record ThroughputSample (F : Type 0) : Type 0 where
  pub t_secs : ℕ
  pub down_kbps : F
  pub up_kbps : F

pub record RttSummary (F : Type 0) : Type 0 where
  pub samples : ℕ
  pub p50_ms : F
  pub p95_ms : F
  pub p99_ms : F
  pub max_ms : F

pub record PortMetrics (F : Type 0) : Type 0 where
  pub protocol : List ℕ
  pub endpoint : List ℕ
  pub duration_secs : ℕ
  pub connections_attempted : ℕ
  pub connected : ℕ
  pub connect_failed : ℕ
  pub midstream_disconnects : ℕ
  pub flows_no_return : ℕ
  pub stalls : List (StallEvent F)
  pub bytes_sent : ℕ
  pub bytes_recv : ℕ
  pub avg_down_kbps : F
  pub avg_up_kbps : F
  pub udp_sent : ℕ
  pub udp_recv : ℕ
  pub rtt : RttSummary F
  pub throughput_series : List (ThroughputSample F)
  pub errors : List Note

abbrev pub has_no_return : ConnState → Bool
has_no_return c = c.connected && (c.bytes_recv == 0)

module _ (fl : Float64) where
  open fl use {F}

  -- `samples.sort_by(partial_cmp or Equal)`, which is stable
  abbrev insert_sorted : F → List F → List F
  insert_sorted x [] = x ∷ []
  insert_sorted x (y ∷ ys) = if fl.lt y x then y ∷ insert_sorted x ys else x ∷ y ∷ ys

  abbrev sort : List F → List F
  sort [] = []
  sort (x ∷ xs) = insert_sorted x (sort xs)

  -- `((n as f64 - 1.0) * q).round() as usize`
  abbrev pub rank : ℕ → F → ℕ
  rank n q = fl.round (fl.mul (fl.sub (fl.of_ℕ n) (fl.of_ℕ 1)) q)

  -- `samples[index] / 1000.0`, which panics out of range
  abbrev in_ms : Option F → Option F
  in_ms none = none
  in_ms (some x) = some (fl.div x (fl.of_ℕ 1000))

  abbrev pub pick : List F → ℕ → Option F
  pick sorted index = in_ms (get_elem? sorted index)

  abbrev pub all_four : ℕ → Option F → Option F → Option F → Option F → Option (RttSummary F)
  all_four n (some a) (some b) (some c) (some d) =
      some (record { samples = n; p50_ms = a; p95_ms = b; p99_ms = c; max_ms = d })
  all_four n _ _ _ _ = none

  -- `rtt_summary`; `none` is a panic.
  unfoldable pub rtt_summary : List F → Option (RttSummary F)
  rtt_summary samples_us =
      let zero_ms = fl.of_ℕ 0 in
      let n = length samples_us in
      let sorted = sort samples_us in
      if n == 0
      then some (record {
        samples = 0;
        p50_ms = zero_ms;
        p95_ms = zero_ms;
        p99_ms = zero_ms;
        max_ms = zero_ms;
      })
      else all_four n (pick sorted (rank n (fl.literal 50 2)))
          (pick sorted (rank n (fl.literal 95 2))) (pick sorted (rank n (fl.literal 99 2)))
          (pick sorted (n - 1))

  -- `bytes as f64 * 8.0 / 1000.0`
  abbrev pub kilobits : ℕ → F
  kilobits bytes = fl.div (fl.mul (fl.of_ℕ bytes) (fl.of_ℕ 8)) (fl.of_ℕ 1000)

  abbrev pub with_rtt :
      RttSummary F → List ℕ → List ℕ → ℕ → List (ThroughputSample F) → PortRun F → PortMetrics F
  with_rtt rtt proto endpoint duration_secs series r =
      let bytes_sent = sum64 (λ c. c.bytes_sent) r.conns in
      let bytes_recv = sum64 (λ c. c.bytes_recv) r.conns in
      let dur = fl.of_ℕ (max duration_secs 1) in
      record {
        protocol = proto;
        endpoint = endpoint;
        duration_secs = duration_secs;
        connections_attempted = length r.conns;
        connected = count (λ c. c.connected) r.conns;
        connect_failed = r.connect_failed;
        midstream_disconnects = r.midstream_disconnects;
        flows_no_return = count has_no_return r.conns;
        stalls = r.stalls;
        bytes_sent = bytes_sent;
        bytes_recv = bytes_recv;
        avg_down_kbps = fl.div (kilobits bytes_recv) dur;
        avg_up_kbps = fl.div (kilobits bytes_sent) dur;
        udp_sent = sum64 (λ c. c.udp_sent) r.conns;
        udp_recv = sum64 (λ c. c.udp_recv) r.conns;
        rtt = rtt;
        throughput_series = series;
        errors = r.errors;
      }

  abbrev pub finish :
      Option (RttSummary F)
      → List ℕ
      → List ℕ
      → ℕ
      → List (ThroughputSample F)
      → PortRun F
      → Option (PortMetrics F)
  finish none proto endpoint duration_secs series r = none
  finish (some rtt) proto endpoint duration_secs series r =
      some (with_rtt rtt proto endpoint duration_secs series r)

  -- `finalize`
  unfoldable pub finalize :
      List ℕ → List ℕ → ℕ → List (ThroughputSample F) → PortRun F → Option (PortMetrics F)
  unfolding rtt_summary
  finalize proto endpoint duration_secs series r =
      finish (rtt_summary r.rtt_us) proto endpoint duration_secs series r

  -- One turn of the throughput sampler, in the second `t`, on the totals of the turn before.
  unfoldable pub sampler_turn : (t prev_down prev_up : ℕ) → PortRun F → ThroughputSample F × ℕ × ℕ
  sampler_turn t prev_down prev_up r =
      let down = sum64 (λ c. c.bytes_recv) r.conns in
      let up = sum64 (λ c. c.bytes_sent) r.conns in
      (
        record {
          t_secs = t;
          down_kbps = kilobits (down - prev_down);
          up_kbps = kilobits (up - prev_up);
        },
        down,
        up,
      )

  length-insert_sorted : (x : F) (xs : List F) → length (insert_sorted x xs) ≡ length xs + 1
  length-insert_sorted x [] = refl
  length-insert_sorted x (y ∷ ys) = elim (Bool-cases (fl.lt y x)) [
    | inl e ↦ rw e (omega (arith, length-insert_sorted x ys))
    | inr e ↦ rw e (omega arith)
  ]

  length-sort : (xs : List F) → length (sort xs) ≡ length xs
  length-sort [] = refl
  length-sort (x ∷ xs) = omega (arith, length-insert_sorted x (sort xs), length-sort xs)

  pick-IsSome : (xs : List F) (i : ℕ) → i < length xs → (x : F) × (pick (sort xs) i ≡ some x)
  pick-IsSome xs i h =
      let (x, e) = get_elem?-IsSome (sort xs) i (omega (arith, h, length-sort xs)) in
      (fl.div x (fl.of_ℕ 1000), rw e refl)

  -- What the summary relies on in `f64`: one is taken exactly from a whole number below 2^53, and what is
  -- not above a whole number `k`, such as a part of it, is not rounded above `k`.
  pub record RoundsPart : Type 0 where
    pub less_one : (n : ℕ) → 1 ≤ n → n < 2 ^ 53 → fl.sub (fl.of_ℕ n) (fl.of_ℕ 1) ≡ fl.of_ℕ (n - 1)
    pub part :
        (percent k : ℕ)
        → percent < 100
        → k < 2 ^ 53
        → fl.round (fl.mul (fl.of_ℕ k) (fl.literal percent 2)) ≤ k

  rank_in :
      (percent n : ℕ)
      → RoundsPart
      → percent < 100
      → 1 ≤ n
      → n < 2 ^ 53
      → rank n (fl.literal percent 2) ≤ n - 1
  rank_in percent n law h k l =
      subst (λ x. fl.round (fl.mul x (fl.literal percent 2)) ≤ n - 1) (sym (law.less_one n k l))
        (law.part percent (n - 1) h (omega arith))

  -- A run always ends with its metrics: rtt_summary never indexes out of range, and its number of samples is
  -- that of the round-trip times, of which there are fewer than 2^53. The conditions on the floats are that
  -- one is taken exactly from a whole number below 2^53, and that a percentage below 100 of such a
  -- number is not rounded above it.
  pub finalize-total :
      (proto endpoint : List ℕ) (duration_secs : ℕ) (series : List (ThroughputSample F))
      (r : PortRun F)
      → RoundsPart
      → length r.rtt_us < 2 ^ 53
      → (rtt : RttSummary F) × (finalize proto endpoint duration_secs series r
          ≡ some (with_rtt rtt proto endpoint duration_secs series r))
        × (rtt.samples ≡ length r.rtt_us)
  unfolding finalize rtt_summary
  finalize-total proto endpoint duration_secs series r law small =
      elim (Bool-cases (length r.rtt_us == 0)) [
        | inl e ↦ rw e (_, refl, ground arith)
        | inr e ↦
            let n = length r.rtt_us in
            let some_samples : 1 ≤ n = ground arith in
            let r50 = rank_in 50 n law (omega arith) some_samples small in
            let r95 = rank_in 95 n law (omega arith) some_samples small in
            let r99 = rank_in 99 n law (omega arith) some_samples small in
            let (a, ea) = pick-IsSome r.rtt_us (rank n (fl.literal 50 2)) (omega (arith, r50)) in
            let (b, eb) = pick-IsSome r.rtt_us (rank n (fl.literal 95 2)) (omega (arith, r95)) in
            let (c, ec) = pick-IsSome r.rtt_us (rank n (fl.literal 99 2)) (omega (arith, r99)) in
            let (d, ed) = pick-IsSome r.rtt_us (n - 1) (omega arith) in
            rw (e, ea, eb, ec, ed) (_, refl, refl)
      ]
