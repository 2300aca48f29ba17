-- ===== src/Ci/Archive.antt =====
-- ci/src/archive.rs: the files that are written for a port that failed. What the panel answers is an argument;
-- a file is the name and the bytes that are handed to the file system.
pub mod Names
use npt.Prelude.{
  ℕ, List, [], ◌∷◌, ◌++◌, Option, none, some, length, map, Bool, true, false, ◌||◌, ◌==◌,
  if◌then◌else◌,
}
use npt.Prelude.Result.{Result, ok, err}
use npt.Prelude.Text.{codes, decimal}
use npt.Ci.Panel.{PortServer}

abbrev pub File : Type 0
File = List ℕ × List ℕ

-- What the world gives to the archive: whether the directory can be created, the snapshots by their paths, and
-- for a server its collectors and, for some of them, its ZIP.
pub record ArchiveWorld : Type 0 where
  pub create_dir_all : Bool
  pub get_text : List ℕ → Result (List ℕ) (List ℕ)
  pub debug_collectors : ℕ → Result (List ℕ) (List (List ℕ))
  pub debug_export : ℕ → List (List ℕ) → Result (List ℕ) (List ℕ)

module _ (is_alphanumeric : ℕ → Bool) where
  -- `sanitize`, with `char::is_alphanumeric`; 45 is a dash and 95 is `_`
  abbrev pub sanitize_char : ℕ → ℕ
  sanitize_char c = if is_alphanumeric c || (c == 45 || c == 95) then c else 95

  unfoldable pub sanitize : List ℕ → List ℕ
  sanitize s = map sanitize_char s

  abbrev pub zip_name : PortServer → List ℕ
  zip_name srv =
      codes "server-"
      ++ (decimal srv.server_id ++ (codes "-" ++ (sanitize srv.server_name ++ codes "-debug.zip")))

  -- A file is written if its bytes could be fetched.
  abbrev pub saved : (name : List ℕ) → Result (List ℕ) (List ℕ) → List File
  saved name (ok bytes) = (name, bytes) ∷ []
  saved name (err _) = []

  abbrev pub snapshots : ArchiveWorld → List File
  snapshots w =
      saved (codes "connection_stats.json") (w.get_text (codes "/api/connection_stats"))
      ++ (saved (codes "test_latency.json") (w.get_text (codes "/api/test_latency"))
          ++ saved (codes "blocked_ips.json") (w.get_text (codes "/api/port_blocked_ips")))

  abbrev pub exported : ArchiveWorld → PortServer → List (List ℕ) → List File
  exported w srv ids = saved (zip_name srv) (w.debug_export srv.server_id ids)

  abbrev pub listed : ArchiveWorld → PortServer → Result (List ℕ) (List (List ℕ)) → List File
  listed w srv (err _) = []
  listed w srv (ok []) = []
  listed w srv (ok (id ∷ ids)) = exported w srv (id ∷ ids)

  -- The turn of the loop over the servers: the collectors of the configuration, or else all that there are
  abbrev pub server_files : ArchiveWorld → (collector_ids : List (List ℕ)) → PortServer → List File
  server_files w [] srv = listed w srv (w.debug_collectors srv.server_id)
  server_files w (id ∷ ids) srv = exported w srv (id ∷ ids)

  abbrev pub all_server_files :
      ArchiveWorld → (collector_ids : List (List ℕ)) → List PortServer → List File
  all_server_files w ids [] = []
  all_server_files w ids (srv ∷ servers) = server_files w ids srv ++ all_server_files w ids servers

  unfoldable pub archive_failure :
      ArchiveWorld
      → List PortServer
      → (collect_logs : Bool) (collector_ids : List (List ℕ)) → List File
  unfolding sanitize
  archive_failure w servers collect_logs collector_ids =
      if w.create_dir_all
      then (if collect_logs
          then snapshots w ++ all_server_files w collector_ids servers
          else snapshots w)
      else []
