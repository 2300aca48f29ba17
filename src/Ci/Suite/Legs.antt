-- ===== src/Ci/Suite/Legs.antt =====
-- ci/src/main.rs, `test_one_port`: when a port has no failure, and what is written then.
use npt.Prelude.{
  ℕ, ◌+◌, ◌≡◌, ◌≢◌, ◌⊎◌, inl, inr, ◌↔◌, refl, ap, ap₂, sym, ◌∙◌, List, [], ◌∷◌, ◌++◌, Option, none,
  some, Bool, true, false, ◌==◌, arith, Bool-cases, if◌then◌else◌,
}
use npt.Prelude.Result.{Result, ok, err}
use npt.Prelude.Float.{Float64}
use npt.Ci.Client.Summary.{PortMetrics}
use npt.Ci.Config.{Proto, CiConfig}
use npt.Ci.Panel.{PortInfo}
use npt.Ci.Detect.{Verdict, pass, fail, skipped, verdict_of, DetectParams, evaluate, rule_reasons}
use npt.Ci.Report.Totals.{is_verdict, outcomes_with}
use npt.Ci.Suite.{
  PortWorld, SuiteWorld, is_true, protos, is_failure, leg_metrics, leg, legs, on_endpoint,
  endpoint_text, on_port, test_one_port,
}

verdict_of-ne-skipped : {A : Type 0} (rs : List A) → verdict_of rs ≢ skipped
verdict_of-ne-skipped [] p = cc
verdict_of-ne-skipped (r ∷ rs) p = cc

is_failed : (v : Verdict) → is_verdict fail v ≡ false → is_failure v ≢ true
is_failed pass h p = cc
is_failed fail h p = cc
is_failed skipped h p = cc

not_pass : (v : Verdict) → v ≡ pass → is_failure v ≢ true
not_pass v h p = let q : false ≡ true = ap is_failure (sym h) ∙ p in cc

is_pass : (v : Verdict) → v ≢ skipped → is_failure v ≡ false → v ≡ pass
is_pass pass h p = refl
is_pass fail h p = cc
is_pass skipped h p = absurd (h refl)

not_fail : (v : Verdict) → is_failure v ≡ false → is_verdict fail v ≡ false
not_fail pass p = refl
not_fail fail p = cc
not_fail skipped p = refl

no_bit : (b : Bool) (n : ℕ) → (if b then 1 else 0) + n ≡ 0 → (b ≡ false) × (n ≡ 0)
no_bit true n h = absurd (omega arith)
no_bit false n h = (refl, omega arith)

bits : (b : Bool) (n : ℕ) → b ≡ false → n ≡ 0 → (if b then 1 else 0) + n ≡ 0
bits b n h k = rw (h, k) refl

module _ (fl : Float64) where
  open fl use {F}

  -- A port that is tested is never skipped.
  evaluate-ne-skipped :
      (port_id : ℕ) (m : PortMetrics F) (d : DetectParams F)
      → (evaluate fl port_id m d).verdict ≢ skipped
  unfolding evaluate
  evaluate-ne-skipped port_id m d = elim (Bool-cases (m.connected == 0)) [
    | inl e ↦ rw e (λ p. cc)
    | inr e ↦ rw e (verdict_of-ne-skipped (rule_reasons fl m d))
  ]

  module _ (w : SuiteWorld F) (cfg : CiConfig F) (pw : PortWorld F) (port_id : ℕ) where
    abbrev pub LegPasses : (endpoint : ℕ) → Proto → Type 0
    LegPasses endpoint proto =
        (evaluate fl port_id (leg_metrics fl w cfg pw port_id endpoint proto) cfg.detect).verdict
        ≡ pass

    abbrev pub AllPass : (endpoint : ℕ) → List Proto → Type 0
    AllPass endpoint [] = Unit
    AllPass endpoint (p ∷ ps) = LegPasses endpoint p × AllPass endpoint ps

    abbrev pub EndpointPasses : PortInfo → Option ℕ → Type 0
    EndpointPasses port none = ⊥
    EndpointPasses port (some endpoint) =
        AllPass endpoint (protos cfg.test.protocol port.enable_udp)

    -- The panel knows the port; and it is suspended or behind a proxy, or its endpoint resolves and
    -- each protocol that it is tested with passes there.
    abbrev pub PortPasses : Result (List ℕ) PortInfo → Type 0
    PortPasses (err text) = ⊥
    PortPasses (ok port) =
        (port.is_suspended ≡ true)
        ⊎ (is_true port.inbound_proxy_enabled ≡ true)
        ⊎ EndpointPasses port (pw.lookup_host (endpoint_text port))

    leg_passes :
        (name : List ℕ) (endpoint : ℕ) (p : Proto)
        → let (o, files) = leg fl w cfg pw port_id name endpoint p in
          ((is_verdict fail o.verdict.verdict ≡ false) ↔ LegPasses endpoint p)
          × (LegPasses endpoint p → files ≡ [])
    leg_passes name endpoint p =
        let v = evaluate fl port_id (leg_metrics fl w cfg pw port_id endpoint p) cfg.detect in
        let tested =
          evaluate-ne-skipped port_id (leg_metrics fl w cfg pw port_id endpoint p) cfg.detect in
        elim (Bool-cases (is_failure v.verdict)) [
          | inl e ↦ rw e (
            (λ h. absurd (is_failed v.verdict h e), λ h. absurd (not_pass v.verdict h e)),
            λ h. absurd (not_pass v.verdict h e),
          )
          | inr e ↦ rw e ((λ h. is_pass v.verdict tested e, λ h. not_fail v.verdict e), λ h. refl)
        ]

    legs_pass :
        (name : List ℕ) (endpoint : ℕ) (ps : List Proto)
        → let (os, files) = legs fl w cfg pw port_id name endpoint ps in
          ((outcomes_with fail os ≡ 0) ↔ AllPass endpoint ps) × (AllPass endpoint ps → files ≡ [])
    legs_pass name endpoint [] = ((λ h. tt, λ h. refl), λ h. refl)
    legs_pass name endpoint (p ∷ ps) =
        let (one, none_written) = leg_passes name endpoint p in
        let (rest, none_more) = legs_pass name endpoint ps in
        let o = (leg fl w cfg pw port_id name endpoint p).0 in
        (
          (
            λ h. (one.0 (no_bit _ _ h).0, rest.0 (no_bit _ _ h).1),
            λ h. bits _ _ (one.1 h.0) (rest.1 h.1),
          ),
          λ h. ap₂ ◌++◌ (none_written h.0) (none_more h.1),
        )

    endpoint_passes :
        (port : PortInfo) (text : List ℕ) (o : Option ℕ)
        → let (os, files) = on_endpoint fl w cfg pw port_id port text o in
          ((outcomes_with fail os ≡ 0) ↔ EndpointPasses port o)
          × (EndpointPasses port o → files ≡ [])
    endpoint_passes port text none = ((λ h. absurd (omega arith), λ h. absurd h), λ h. refl)
    endpoint_passes port text (some endpoint) =
        legs_pass port.display_name endpoint (protos cfg.test.protocol port.enable_udp)

    port_passes :
        (r : Result (List ℕ) PortInfo)
        → let (os, files) = on_port fl w cfg pw port_id r in
          ((outcomes_with fail os ≡ 0) ↔ PortPasses r) × (PortPasses r → files ≡ [])
    port_passes (err text) = ((λ h. absurd (omega arith), λ h. absurd h), λ h. refl)
    port_passes (ok port) =
        let found = pw.lookup_host (endpoint_text port) in
        let (reached, none_written) = endpoint_passes port (endpoint_text port) found in
        elim (Bool-cases port.is_suspended) [
          | inl e ↦ rw e ((λ h. inl refl, λ h. refl), λ h. refl)
          | inr e ↦ elim (Bool-cases (is_true port.inbound_proxy_enabled)) [
            | inl f ↦ rw (e, f) ((λ h. inr (inl refl), λ h. refl), λ h. refl)
            | inr f ↦
                rw (e, f)
                  (
                    (λ h. inr (inr (reached.0 h)), λ h. reached.1 (last h)),
                    λ h. none_written (last h),
                  )
          ]
        ]
      where
        last : {P : Type 0} → (false ≡ true) ⊎ ((false ≡ true) ⊎ P) → P
        last (inl p) = cc
        last (inr (inl p)) = cc
        last (inr (inr p)) = p

    pub test_one_port_passes :
        let (os, files) = test_one_port fl w cfg pw port_id in
        ((outcomes_with fail os ≡ 0) ↔ PortPasses pw.get_port)
        × (PortPasses pw.get_port → files ≡ [])
    unfolding test_one_port
    test_one_port_passes = port_passes pw.get_port
