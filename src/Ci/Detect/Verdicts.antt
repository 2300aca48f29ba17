-- ===== src/Ci/Detect/Verdicts.antt =====
-- ci/src/detect.rs: when a port passes, and what that says of the run behind it.
use npt.Prelude.{
  ℕ, ◌^◌, ◌≤◌, ◌<◌, ◌≡◌, ◌⊎◌, ◌↔◌, inl, inr, refl, ap, sym, subst, ◌∙◌, List, [], ◌∷◌, ◌++◌, Option,
  none, some, count, Bool, true, false, ◌&&◌, not, ltb, ◌==◌, max, arith, Bool-cases,
}
use npt.Prelude.Float.{Float64}
use npt.Ci.Client.{PortRun, new_run}
use npt.Ci.Client.Watchdog.{Step, steps}
use npt.Ci.Client.Summary.{
  PortMetrics, RttSummary, ThroughputSample, finish, finalize, rtt_summary, has_no_return,
}
use npt.Ci.Client.Counting.{is_disconnected, disconnects_counted}
use npt.Ci.Client.Breaks.{Unbroken, no_mark-Unbroken}
use npt.Ci.Detect.{
  DetectParams, pass, push_if, is_empty, verdict_of, sent_reasons, rule_reasons, connect_fail_ratio,
  evaluate,
}

module _ {ℓ} {A : Type ℓ} where
  push_if-nil : (b : Bool) (x : A) → push_if b x ≡ [] → b ≡ false
  push_if-nil true x h = cc
  push_if-nil false x h = refl

  quiet : (b : Bool) (x : A) → b ≡ false → push_if b x ≡ []
  quiet true x h = cc
  quiet false x h = refl

  append-nil_both : (xs ys : List A) → xs ++ ys ≡ [] → (xs ≡ []) × (ys ≡ [])
  append-nil_both [] ys h = (refl, h)
  append-nil_both (x ∷ xs) ys h = cc

  verdict_of-pass : (xs : List A) → verdict_of xs ≡ pass → xs ≡ []
  verdict_of-pass [] h = refl
  verdict_of-pass (x ∷ xs) h = cc

  both_empty : {xs ys : List A} → xs ≡ [] → ys ≡ [] → xs ++ ys ≡ []
  both_empty {xs} {ys} a b = ap (λ l. l ++ ys) a ∙ b

  not_empty-nil : (xs : List A) → not (is_empty xs) ≡ false → xs ≡ []
  not_empty-nil [] h = refl
  not_empty-nil (x ∷ xs) h = cc

none_over : (n : ℕ) → ltb 0 n ≡ false → n ≡ 0
none_over n h = ground arith

either_false : (a b : Bool) → (a && b) ≡ false → (a ≡ false) ⊎ (b ≡ false)
either_false true b h = inr h
either_false false b h = inl refl

and_false : (a b : Bool) → (a ≡ false) ⊎ (b ≡ false) → (a && b) ≡ false
and_false true b (inl h) = cc
and_false true b (inr h) = h
and_false false b h = refl

module _ (fl : Float64) where
  open fl use {F}

  -- What each rule asks of the metrics, if it is switched on.
  pub record IsClean (m : PortMetrics F) (d : DetectParams F) : Type 0 where
    pub some_connected : 1 ≤ m.connected
    pub no_stalls : (d.fail_on_stall ≡ false) ⊎ (m.stalls ≡ [])
    pub no_disconnects : (d.fail_on_midstream_disconnect ≡ false) ⊎ (m.midstream_disconnects ≡ 0)
    pub some_sent : 1 ≤ m.bytes_sent
    pub all_returned : (d.fail_on_no_return ≡ false) ⊎ (m.flows_no_return ≡ 0)
    pub few_failed : fl.lt d.max_connect_fail_ratio (connect_fail_ratio fl m) ≡ false
    pub fast_enough :
        (fl.lt (fl.of_ℕ 0) d.min_throughput_kbps ≡ false)
        ⊎ (fl.lt m.avg_down_kbps d.min_throughput_kbps ≡ false)
    pub soon_enough :
        (fl.lt (fl.of_ℕ 0) d.max_rtt_p95_ms ≡ false) ⊎ (fl.lt d.max_rtt_p95_ms m.rtt.p95_ms ≡ false)

  sent_reasons-nil :
      (m : PortMetrics F) (d : DetectParams F)
      → 1 ≤ m.connected
      → sent_reasons fl m d ≡ []
      → (1 ≤ m.bytes_sent) × ((d.fail_on_no_return && ltb 0 m.flows_no_return) ≡ false)
  sent_reasons-nil m d c h = elim (Bool-cases (m.bytes_sent == 0)) [
    | inl e ↦
        let b : (ltb 0 m.connected && (m.bytes_sent == 0)) ≡ true = ground arith in cc (rw b at h)
    | inr e ↦
        let b : (ltb 0 m.connected && (m.bytes_sent == 0)) ≡ false = ground arith in
        (ground arith, push_if-nil _ _ (rw b at h))
  ]

  rule_reasons-IsClean :
      (m : PortMetrics F) (d : DetectParams F)
      → 1 ≤ m.connected
      → rule_reasons fl m d ≡ []
      → IsClean m d
  rule_reasons-IsClean m d c h =
      let (a1, h1) = append-nil_both _ _ h in
      let (a2, h2) = append-nil_both _ _ h1 in
      let (a3, h3) = append-nil_both _ _ h2 in
      let (a4, h4) = append-nil_both _ _ h3 in
      let (a5, a6) = append-nil_both _ _ h4 in
      let (sent, returned) = sent_reasons-nil m d c a3 in
      record {
        some_connected = c;
        no_stalls = elim (either_false _ _ (push_if-nil _ _ a1)) [
          | inl off ↦ inl off
          | inr e ↦ inr (not_empty-nil m.stalls e)
        ];
        no_disconnects = elim (either_false _ _ (push_if-nil _ _ a2)) [
          | inl off ↦ inl off
          | inr e ↦ inr (none_over _ e)
        ];
        some_sent = sent;
        all_returned = elim (either_false _ _ returned) [
          | inl off ↦ inl off
          | inr e ↦ inr (none_over _ e)
        ];
        few_failed = push_if-nil _ _ a4;
        fast_enough = either_false _ _ (push_if-nil _ _ a5);
        soon_enough = either_false _ _ (push_if-nil _ _ a6);
      }

  rule_reasons-nil :
      (m : PortMetrics F) (d : DetectParams F) → IsClean m d → rule_reasons fl m d ≡ []
  rule_reasons-nil m d c =
      both_empty
        (quiet _ _ (
          and_false _ _
            (elim c.no_stalls [ inl off ↦ inl off | inr e ↦ inr (ap (λ l. not (is_empty l)) e) ])))
        (both_empty
          (quiet _ _ (
            and_false _ _
              (elim c.no_disconnects [ inl off ↦ inl off | inr e ↦ inr (ap (λ n. ltb 0 n) e) ])))
          (both_empty sent_rule (
            both_empty (quiet _ _ c.few_failed) (
              both_empty (quiet _ _ (and_false _ _ c.fast_enough))
                (quiet _ _ (and_false _ _ c.soon_enough))))))
    where
      sent_rule : sent_reasons fl m d ≡ []
      sent_rule =
          let sent = c.some_sent in
          let b : (ltb 0 m.connected && (m.bytes_sent == 0)) ≡ false = ground arith in
          rw b (
            quiet _ _ (
              and_false _ _
                (elim c.all_returned [ inl off ↦ inl off | inr e ↦ inr (ap (λ n. ltb 0 n) e) ])))

  kept_rule : {b : Bool} {n : ℕ} → b ≡ true → (b ≡ false) ⊎ (n ≡ 0) → n ≡ 0
  kept_rule on (inl off) = cc
  kept_rule on (inr e) = e

  abbrev Shows : PortRun F → Option (PortMetrics F) → Type 0
  Shows r none = Unit {0}
  Shows r (some m) =
      (m.connected ≡ count (λ c. c.connected) r.conns)
      × (m.midstream_disconnects ≡ r.midstream_disconnects)
      × (m.flows_no_return ≡ count has_no_return r.conns)

  -- The metrics show the counters of the run.
  finalize-some :
      (proto endpoint : List ℕ) (duration_secs : ℕ) (series : List (ThroughputSample F))
      (r : PortRun F) (m : PortMetrics F)
      → finalize fl proto endpoint duration_secs series r ≡ some m
      → Shows r (some m)
  unfolding finalize
  finalize-some proto endpoint duration_secs series r m f =
      subst (Shows r) f (shown (rtt_summary fl r.rtt_us))
    where
      shown :
          (o : Option (RttSummary F)) → Shows r (finish fl o proto endpoint duration_secs series r)
      shown none = tt
      shown (some rtt) = (refl, refl, refl)

  -- A port passes exactly if a flow connected, bytes were sent, and every rule that is switched on is kept:
  -- no stall, no mid-stream disconnect, no flow without return traffic, not too many failed
  -- connections, enough throughput and a short enough round-trip time.
  pub evaluate-pass :
      (port_id : ℕ) (m : PortMetrics F) (d : DetectParams F)
      → ((evaluate fl port_id m d).verdict ≡ pass) ↔ IsClean m d
  unfolding evaluate
  evaluate-pass port_id m d = elim (Bool-cases (m.connected == 0)) [
    | inl none_connected ↦
        rw none_connected (cc, λ c. let one : 1 ≤ m.connected = c.some_connected in ground arith)
    | inr connected ↦ rw connected (
      λ h. rule_reasons-IsClean m d (ground arith) (verdict_of-pass _ h),
      λ c. ap verdict_of (rule_reasons-nil m d c),
    )
  ]

  -- What a pass says of the run behind it, whatever the flows met and in whatever order: if mid-stream
  -- disconnects and flows without return traffic are switched on as failures, then a flow connected, every
  -- flow that connected got bytes back, and no TCP connection of a flow broke in the test's time before
  -- the run wound down: no write or read of it failed, nor did its peer close it. No flow is marked as
  -- disconnected. There are fewer than 2^64 flows. Of UDP flows a pass does not say that none broke: an
  -- error that ends a reader of theirs is recorded nowhere.
  pub passed_run :
      (stall_secs n port_id duration_secs : ℕ) (ss : List Step) (proto endpoint : List ℕ)
      (series : List (ThroughputSample F)) (m : PortMetrics F) (d : DetectParams F)
      → max n 1 < 2 ^ 64
      → finalize fl proto endpoint duration_secs series (steps fl stall_secs ss (new_run F n))
        ≡ some m
      → d.fail_on_midstream_disconnect ≡ true
      → d.fail_on_no_return ≡ true
      → (evaluate fl port_id m d).verdict ≡ pass
      → let conns = (steps fl stall_secs ss (new_run F n)).conns in
        (1 ≤ count (λ c. c.connected) conns)
        × Unbroken (max n 1) ss
        × (count is_disconnected conns ≡ 0)
        × (count has_no_return conns ≡ 0)
  passed_run stall_secs n port_id duration_secs ss proto endpoint series m d h f on_broken on_return
        v =
      let r : PortRun F = steps fl stall_secs ss (new_run F n) in
      let clean = (evaluate-pass port_id m d).0 v in
      let (a, b, c) = finalize-some proto endpoint duration_secs series r m f in
      let (_, counted) = disconnects_counted fl stall_secs n ss h in
      let no_mark = sym counted ∙ sym b ∙ kept_rule on_broken clean.no_disconnects in
      (
        omega (arith, a, clean.some_connected),
        no_mark-Unbroken fl stall_secs n ss no_mark,
        no_mark,
        sym c ∙ kept_rule on_return clean.all_returned,
      )
