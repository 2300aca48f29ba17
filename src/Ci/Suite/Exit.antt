-- ===== src/Ci/Suite/Exit.antt =====
-- ci/src/main.rs, `run_suite`: what the exit code says.
use npt.Prelude.{
  ℕ, ◌+◌, ◌≡◌, ◌↔◌, refl, ap₂, List, [], ◌∷◌, ◌++◌, Option, none, some, count-append, false, arith,
}
use npt.Prelude.Float.{Float64}
use npt.Ci.Config.{CiConfig}
use npt.Ci.Detect.{pass, fail, skipped}
use npt.Ci.Report.{PortOutcome, build}
use npt.Ci.Report.Totals.{is_verdict, outcomes_with, build-totals}
use npt.Ci.Suite.{
  SuiteWorld, RunOverrides, Ended, configured, test_one_port, test_ports, run_configured, run_suite,
}
use npt.Ci.Suite.Files.{PlainNames, test_ports-PlainNames}
use npt.Ci.Suite.Legs.{PortPasses, test_one_port_passes}

module _ (fl : Float64) where
  open fl use {F}

  -- Every port of the run passes, or is suspended or behind a proxy.
  abbrev pub AllPorts : SuiteWorld F → CiConfig F → (i : ℕ) → List ℕ → Type 0
  AllPorts w cfg i [] = Unit
  AllPorts w cfg i (port_id ∷ ids) =
      PortPasses fl w cfg (w.ports i) port_id (w.ports i).get_port × AllPorts w cfg (i + 1) ids

  test_ports_pass :
      (w : SuiteWorld F) (cfg : CiConfig F) (i : ℕ) (ids : List ℕ)
      → let (os, files) = test_ports fl w cfg i ids in
        ((outcomes_with fail os ≡ 0) ↔ AllPorts w cfg i ids) × (AllPorts w cfg i ids → files ≡ [])
  test_ports_pass w cfg i [] = ((λ h. tt, λ h. refl), λ h. refl)
  test_ports_pass w cfg i (port_id ∷ ids) =
      let (one, none_written) = test_one_port_passes fl w cfg (w.ports i) port_id in
      let (rest, none_more) = test_ports_pass w cfg (i + 1) ids in
      let both =
        count-append (λ (o : PortOutcome F). is_verdict fail o.verdict.verdict)
          (test_one_port fl w cfg (w.ports i) port_id).0 (test_ports fl w cfg (i + 1) ids).0 in
      (
        (
          λ h. (one.0 (omega (arith, both, h)), rest.0 (omega (arith, both, h))),
          λ h. omega (arith, both, one.1 h.0, rest.1 h.1),
        ),
        λ h. ap₂ ◌++◌ (none_written h.0) (none_more h.1),
      )

  -- What a run says by its end, for the configuration that it goes by.
  abbrev pub Tells : SuiteWorld F → Option (CiConfig F) → Ended fl → Type 0
  Tells w none (code, none, files) = (code ≡ 2) × (files ≡ [])
  Tells w none (code, some summary, files) = ⊥
  Tells w (some cfg) (code, none, files) = ⊥
  Tells w (some cfg) (code, some summary, files) =
      ((code ≡ 0) ↔ AllPorts w cfg 0 cfg.port_ids)
      × (AllPorts w cfg 0 cfg.port_ids → files ≡ [])
      × PlainNames files
      × (summary.passed ≡ outcomes_with pass summary.outcomes)
      × (summary.failed ≡ outcomes_with fail summary.outcomes)
      × (summary.skipped ≡ outcomes_with skipped summary.outcomes)
      × (summary.passed + summary.failed + summary.skipped ≡ summary.total)

  configured-Tells :
      (w : SuiteWorld F) (o : Option (CiConfig F))
      → w.is_alphanumeric 47 ≡ false
      → Tells w o (run_configured fl w o)
  unfolding build
  configured-Tells w none slash = (refl, refl)
  configured-Tells w (some cfg) slash =
      let (passes, unwritten) = test_ports_pass w cfg 0 cfg.port_ids in
      let os = (test_ports fl w cfg 0 cfg.port_ids).0 in
      let (p, f, s, total, code) = build-totals cfg.panel_url w.started os in
      (
        (λ h. passes.0 (code.0 h), λ h. code.1 (passes.1 h)),
        unwritten,
        test_ports-PlainNames fl w slash cfg 0 cfg.port_ids,
        p,
        f,
        s,
        total,
      )

  -- What a run of the suite says by its end. If it cannot start, since the configuration does not load, no
  -- port is left to test, or the panel's client cannot be built, it exits with 2, without a summary and
  -- without files. Otherwise it exits with 0 exactly if the panel knows each port and each port is
  -- suspended, behind an inbound proxy, or resolves and passes its test over every protocol that it is driven
  -- with; then it writes no artifacts. The name of an artifact never has a slash, whatever the servers are
  -- called, so that it stays in the directory of its port. The summary counts each outcome once, as passed,
  -- failed or skipped. The condition is that a slash is not alphanumeric.
  pub run_suite-Tells :
      (w : SuiteWorld F) (ov : RunOverrides)
      → w.is_alphanumeric 47 ≡ false
      → Tells w (configured w ov) (run_suite fl w ov)
  unfolding run_suite
  run_suite-Tells w ov slash = configured-Tells w (configured w ov) slash
