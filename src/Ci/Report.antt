-- ===== src/Ci/Report.antt =====
-- ci/src/report.rs: the summary of a run over all ports, and its exit code.
pub mod Totals
use npt.Prelude.{ℕ, ◌+◌, ◌-◌, List, [], ◌∷◌, ◌++◌, Option, length, take, leb, ltb, if◌then◌else◌}
use npt.Ci.Client.Summary.{PortMetrics}
use npt.Ci.Detect.{Verdict, pass, fail, skipped, PortVerdict}

pub record PortOutcome (F : Type 0) : Type 0 where
  pub port_id : ℕ
  pub display_name : List ℕ
  pub verdict : PortVerdict F
  pub metrics : Option (PortMetrics F)

pub record RunSummary (F : Type 0) : Type 0 where
  pub started_at : List ℕ
  pub panel_url : List ℕ
  pub total : ℕ
  pub passed : ℕ
  pub failed : ℕ
  pub skipped : ℕ
  pub outcomes : List (PortOutcome F)

abbrev pub count_verdict : Verdict → ℕ × ℕ × ℕ → ℕ × ℕ × ℕ
count_verdict pass (p, f, s) = (p + 1, f, s)
count_verdict fail (p, f, s) = (p, f + 1, s)
count_verdict skipped (p, f, s) = (p, f, s + 1)

module _ {F : Type 0} where
  -- The loop of `RunSummary::build`, on the counters passed, failed and skipped.
  abbrev pub tally : ℕ × ℕ × ℕ → List (PortOutcome F) → ℕ × ℕ × ℕ
  tally t [] = t
  tally t (o ∷ os) = tally (count_verdict o.verdict.verdict t) os

  unfoldable pub build :
      (panel_url started_at : List ℕ) (outcomes : List (PortOutcome F)) → RunSummary F
  build panel_url started_at outcomes =
      let (p, f, s) = tally (0, 0, 0) outcomes in
      record {
        started_at = started_at;
        panel_url = panel_url;
        total = length outcomes;
        passed = p;
        failed = f;
        skipped = s;
        outcomes = outcomes;
      }

  unfoldable pub exit_code : RunSummary F → ℕ
  exit_code r = if ltb 0 r.failed then 1 else 0

-- `truncate`, on the characters of a text; 8230 is the ellipsis.
unfoldable pub truncate : List ℕ → ℕ → List ℕ
truncate s n = if leb (length s) n then s else take (n - 1) s ++ 8230 ∷ []
