-- ===== src/Ci/Suite/Files.antt =====
-- ci/src/main.rs: the artifacts of a run stay inside the directories of their ports.
use npt.Prelude.{
  ℕ, ◌+◌, ◌≡◌, List, [], ◌∷◌, ◌++◌, Option, none, some, map, Bool, true, false, Bool-cases, inl,
  inr, if◌then◌else◌,
}
use npt.Prelude.Result.{Result, ok, err}
use npt.Prelude.Float.{Float64}
use npt.Ci.Config.{Proto, CiConfig}
use npt.Ci.Panel.{PortInfo}
use npt.Ci.Archive.{File}
use npt.Ci.Archive.Names.{IsPlain, AllPlain, archive_failure-AllPlain}
use npt.Ci.Detect.{evaluate}
use npt.Ci.Suite.{
  PortWorld, SuiteWorld, Artifact, is_true, protos, is_failure, leg_metrics, leg_dir, leg_files,
  leg, legs, on_endpoint, endpoint_text, on_port, test_one_port, test_ports,
}

-- No name of an artifact has a slash.
abbrev pub PlainNames : List Artifact → Type 0
PlainNames [] = Unit
PlainNames ((dir, (name, bytes)) ∷ files) = IsPlain name × PlainNames files

append-PlainNames : (fs gs : List Artifact) → PlainNames fs → PlainNames gs → PlainNames (fs ++ gs)
append-PlainNames [] gs h k = k
append-PlainNames ((d, (n, b)) ∷ fs) gs (a, h) k = (a, append-PlainNames fs gs h k)

in_dir-PlainNames :
    (dir : List ℕ) (files : List File) → AllPlain files → PlainNames (map (λ f. (dir, f)) files)
in_dir-PlainNames dir [] h = tt
in_dir-PlainNames dir ((n, b) ∷ files) (a, h) = (a, in_dir-PlainNames dir files h)

module _ (fl : Float64) (w : SuiteWorld fl.F) (slash : w.is_alphanumeric 47 ≡ false)
    (cfg : CiConfig fl.F) where
  module _ (pw : PortWorld fl.F) (port_id : ℕ) where
    legs-PlainNames :
        (name : List ℕ) (endpoint : ℕ) (ps : List Proto)
        → PlainNames (legs fl w cfg pw port_id name endpoint ps).1
    legs-PlainNames name endpoint [] = tt
    legs-PlainNames name endpoint (p ∷ ps) =
        append-PlainNames (leg fl w cfg pw port_id name endpoint p).1 _
          (written (
            is_failure
              (evaluate fl port_id (leg_metrics fl w cfg pw port_id endpoint p)
                cfg.detect).verdict))
          (legs-PlainNames name endpoint ps)
      where
        written : (b : Bool) → PlainNames (if b then leg_files fl w cfg pw port_id p else [])
        written true = in_dir-PlainNames (leg_dir fl w cfg pw port_id p) _ (
            archive_failure-AllPlain w.is_alphanumeric slash (pw.archive p) _
              cfg.archive.collect_logs cfg.archive.debug_collector_ids)
        written false = tt

    on_endpoint-PlainNames :
        (port : PortInfo) (text : List ℕ) (o : Option ℕ)
        → PlainNames (on_endpoint fl w cfg pw port_id port text o).1
    on_endpoint-PlainNames port text none = tt
    on_endpoint-PlainNames port text (some endpoint) =
        legs-PlainNames port.display_name endpoint (protos cfg.test.protocol port.enable_udp)

    on_port-PlainNames :
        (r : Result (List ℕ) PortInfo) → PlainNames (on_port fl w cfg pw port_id r).1
    on_port-PlainNames (err text) = tt
    on_port-PlainNames (ok port) = elim (Bool-cases port.is_suspended) [
      | inl e ↦ rw e tt
      | inr e ↦ elim (Bool-cases (is_true port.inbound_proxy_enabled)) [
        | inl f ↦ rw (e, f) tt
        | inr f ↦
            rw (e, f)
              (on_endpoint-PlainNames port (endpoint_text port)
                (pw.lookup_host (endpoint_text port)))
      ]
    ]

  pub test_ports-PlainNames : (i : ℕ) (ids : List ℕ) → PlainNames (test_ports fl w cfg i ids).1
  unfolding test_one_port
  test_ports-PlainNames i [] = tt
  test_ports-PlainNames i (port_id ∷ ids) =
      append-PlainNames (test_one_port fl w cfg (w.ports i) port_id).1 _
        (on_port-PlainNames (w.ports i) port_id (w.ports i).get_port)
        (test_ports-PlainNames (i + 1) ids)
