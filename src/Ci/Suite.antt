-- ===== src/Ci/Suite.antt =====
-- ci/src/main.rs: a run of the suite over the ports, from the configuration to the exit code. What the panel,
-- the resolver and the test flows give for each port is an argument; logging is left out.
pub mod Legs
pub mod Files
pub mod Exit
mod Tests
use npt.Prelude.{
  ℕ, ◌+◌, List, [], ◌∷◌, ◌++◌, Option, none, some, length, map, Bool, true, false, ◌==◌,
  if◌then◌else◌,
}
use npt.Prelude.Result.{Result, ok, err}
use npt.Prelude.Float.{Float64}
use npt.Prelude.Text.{codes, decimal}
use npt.Ci.Client.Summary.{PortMetrics}
use npt.Ci.Config.{Proto, tcp, udp, both, TestParams, CiConfig, load}
use npt.Ci.Panel.{PortInfo, PortServer}
use npt.Ci.Archive.{File, ArchiveWorld, archive_failure}
use npt.Ci.Detect.{Verdict, pass, fail, skipped, Reason, told, PortVerdict, evaluate}
use npt.Ci.Report.{PortOutcome, RunSummary, build, exit_code}

pub record RunOverrides : Type 0 where
  pub panel_url : Option (List ℕ)
  pub api_key : Option (List ℕ)
  pub ports : Option (List ℕ)
  pub duration : Option ℕ
  pub connections : Option ℕ

-- What a run meets at one port: the panel's answer, the resolver, the servers behind the port, what the test
-- flows of a protocol come to against an endpoint, and the world of the archive for that protocol.
pub record PortWorld (F : Type 0) : Type 0 where
  pub get_port : Result (List ℕ) PortInfo
  pub lookup_host : List ℕ → Option ℕ
  pub port_servers : Result (List ℕ) (List PortServer)
  pub run_flows : Proto → (endpoint : ℕ) → TestParams → (stall_secs : ℕ) → PortMetrics F
  pub archive : Proto → ArchiveWorld

-- What a run meets: the parsed configuration, `s.trim().parse::<i32>().ok()`, whether a panel's client can
-- be built, the time of the start as a text, the directory of the run, and its ports in their order.
pub record SuiteWorld (F : Type 0) : Type 0 where
  pub config : Option (CiConfig F)
  pub parse_id : List ℕ → Option ℕ
  pub new_panel : (url key : List ℕ) → Bool
  pub started : List ℕ
  pub run_dir : List ℕ
  pub ports : ℕ → PortWorld F
  pub is_alphanumeric : ℕ → Bool

abbrev first_grows : ℕ → List (List ℕ) → List (List ℕ)
first_grows c [] = []
first_grows c (part ∷ parts) = (c ∷ part) ∷ parts

-- `v.split(',')`
abbrev pub split_comma : List ℕ → List (List ℕ)
split_comma [] = [] ∷ []
split_comma (c ∷ cs) =
    let rest = split_comma cs in if c == 44 then [] ∷ rest else first_grows c rest

abbrev pub parse_ids : (List ℕ → Option ℕ) → List (List ℕ) → List ℕ
parse_ids parse [] = []
parse_ids parse (s ∷ ss) = elim (parse s) [
  | none ↦ parse_ids parse ss
  | some id ↦ id ∷ parse_ids parse ss
]

-- `if let Some(v) = o { field = v }`
abbrev or_keep : {A : Type 0} → A → Option A → A
or_keep old none = old
or_keep old (some new) = new

abbrev pub overridden : {F : Type 0} → SuiteWorld F → RunOverrides → CiConfig F → CiConfig F
overridden w ov cfg = record cfg {
  panel_url = or_keep cfg.panel_url ov.panel_url;
  api_key = or_keep cfg.api_key ov.api_key;
  port_ids = elim ov.ports [ none ↦ cfg.port_ids | some v ↦ parse_ids w.parse_id (split_comma v) ];
  test = record cfg.test {
    duration_secs = or_keep cfg.test.duration_secs ov.duration;
    connections_per_port = or_keep cfg.test.connections_per_port ov.connections;
  };
}

abbrev pub usable : {F : Type 0} → SuiteWorld F → CiConfig F → Option (CiConfig F)
usable w cfg =
    if length cfg.port_ids == 0
    then none
    else if w.new_panel cfg.panel_url cfg.api_key
    then some cfg
    else none

-- The configuration that a run goes by; `none` is each error that ends it before its start.
abbrev pub configured : {F : Type 0} → SuiteWorld F → RunOverrides → Option (CiConfig F)
configured w ov = elim (load w.config) [ none ↦ none | some cfg ↦ usable w (overridden w ov cfg) ]

abbrev pub is_true : Option Bool → Bool
is_true none = false
is_true (some b) = b

-- Which protocols to drive
abbrev pub protos : Proto → (enable_udp : Option Bool) → List Proto
protos tcp enable_udp = tcp ∷ []
protos udp enable_udp = udp ∷ []
protos both enable_udp = if is_true enable_udp then tcp ∷ udp ∷ [] else tcp ∷ []

abbrev pub proto_name : Proto → List ℕ
proto_name udp = codes "udp"
proto_name tcp = codes "tcp"
proto_name both = codes "tcp"

abbrev pub label : Proto → (name : List ℕ) → Proto → List ℕ
label both name proto = name ++ (codes " (" ++ (proto_name proto ++ codes ")"))
label tcp name proto = name
label udp name proto = name

abbrev pub is_failure : Verdict → Bool
is_failure fail = true
is_failure pass = false
is_failure skipped = false

abbrev servers_or_none : Result (List ℕ) (List PortServer) → List PortServer
servers_or_none (ok servers) = servers
servers_or_none (err _) = []

abbrev pub endpoint_text : PortInfo → List ℕ
endpoint_text port = port.ip_addr ++ (codes ":" ++ decimal port.port_v4)

-- A file of the run, with its directory
abbrev pub Artifact : Type 0
Artifact = List ℕ × File

module _ (fl : Float64) where
  open fl use {F}

  -- What `test_one_port` pushes to the outcomes, and the files that it writes.
  abbrev pub PortResult : Type 0
  PortResult = List (PortOutcome F) × List Artifact

  abbrev pub skipped_or_failed : ℕ → List ℕ → Verdict → List ℕ → PortOutcome F
  skipped_or_failed port_id name verdict reason = record {
    port_id = port_id;
    display_name = name;
    verdict = record { port_id = port_id; verdict = verdict; reasons = told reason ∷ [] };
    metrics = none;
  }

  module _ (w : SuiteWorld F) (cfg : CiConfig F) (pw : PortWorld F) (port_id : ℕ) where
    abbrev pub leg_metrics : (endpoint : ℕ) → Proto → PortMetrics F
    leg_metrics endpoint proto = pw.run_flows proto endpoint cfg.test cfg.detect.stall_secs

    abbrev pub leg_dir : Proto → List ℕ
    leg_dir proto =
        w.run_dir ++ (codes "/port-" ++ (decimal port_id ++ (codes "-" ++ proto_name proto)))

    abbrev pub with_artifacts : Proto → PortVerdict F → PortVerdict F
    with_artifacts proto v = record v {
      reasons = v.reasons ++ told (codes "artifacts: " ++ leg_dir proto) ∷ [];
    }

    abbrev pub leg_files : Proto → List Artifact
    leg_files proto =
        map (λ f. (leg_dir proto, f))
          (archive_failure w.is_alphanumeric (pw.archive proto) (servers_or_none pw.port_servers)
            cfg.archive.collect_logs cfg.archive.debug_collector_ids)

    -- One turn of the loop over the protocols
    abbrev pub leg : (name : List ℕ) (endpoint : ℕ) → Proto → PortOutcome F × List Artifact
    leg name endpoint proto =
        let metrics = leg_metrics endpoint proto in
        let verdict = evaluate fl port_id metrics cfg.detect in
        let is_failed = is_failure verdict.verdict in
        (
          record {
            port_id = port_id;
            display_name = label cfg.test.protocol name proto;
            verdict = if is_failed then with_artifacts proto verdict else verdict;
            metrics = some metrics;
          },
          if is_failed then leg_files proto else [],
        )

    abbrev pub legs : (name : List ℕ) (endpoint : ℕ) → List Proto → PortResult
    legs name endpoint [] = ([], [])
    legs name endpoint (proto ∷ ps) =
        let (o, files) = leg name endpoint proto in
        let (os, more) = legs name endpoint ps in (o ∷ os, files ++ more)

    abbrev pub on_endpoint : PortInfo → List ℕ → Option ℕ → PortResult
    on_endpoint port endpoint_str none = (
      skipped_or_failed port_id port.display_name fail
            (codes "cannot resolve endpoint " ++ endpoint_str)
          ∷ [],
      [],
    )
    on_endpoint port endpoint_str (some endpoint) =
        legs port.display_name endpoint (protos cfg.test.protocol port.enable_udp)

    abbrev pub on_port : Result (List ℕ) PortInfo → PortResult
    on_port (err text) =
        (skipped_or_failed port_id [] fail (codes "panel resolve failed: " ++ text) ∷ [], [])
    on_port (ok port) =
        if port.is_suspended
        then (skipped_or_failed port_id port.display_name skipped (codes "port suspended") ∷ [], [])
        else if is_true port.inbound_proxy_enabled
        then (
          skipped_or_failed port_id port.display_name skipped (
                codes "inbound proxy '"
                ++ (or_keep [] port.inbound_proxy_protocol
                    ++ codes "' not supported (raw-forward only in this version)"))
              ∷ [],
          [],
        )
        else on_endpoint port (endpoint_text port) (pw.lookup_host (endpoint_text port))

    unfoldable pub test_one_port : PortResult
    test_one_port = on_port pw.get_port

  -- The loop over the ports, of which this is the one with the number `i`
  abbrev pub test_ports : SuiteWorld F → CiConfig F → (i : ℕ) → List ℕ → PortResult
  test_ports w cfg i [] = ([], [])
  test_ports w cfg i (port_id ∷ ids) =
      let (os, files) = test_one_port w cfg (w.ports i) port_id in
      let (os', files') = test_ports w cfg (i + 1) ids in (os ++ os', files ++ files')

  -- How a run ends: its exit code, its summary if it came to one, and the files of its failed ports
  abbrev pub Ended : Type 0
  Ended = ℕ × Option (RunSummary F) × List Artifact

  abbrev pub run_configured : SuiteWorld F → Option (CiConfig F) → Ended
  run_configured w none = (2, none, [])
  run_configured w (some cfg) =
      let (outcomes, files) = test_ports w cfg 0 cfg.port_ids in
      let summary = build cfg.panel_url w.started outcomes in
      (exit_code summary, some summary, files)

  unfoldable pub run_suite : SuiteWorld F → RunOverrides → Ended
  unfolding test_one_port build exit_code
  run_suite w ov = run_configured w (configured w ov)
