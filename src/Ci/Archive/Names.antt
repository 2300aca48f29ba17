-- ===== src/Ci/Archive/Names.antt =====
-- ci/src/archive.rs: the names of the files stay inside the directory of the port.
use npt.Prelude.{
  ℕ, zero, suc, ◌/◌, ◌≡◌, ◌≢◌, ap, sym, ◌∙◌, List, [], ◌∷◌, ◌++◌, Bool, true, false, ltb, ◌||◌,
  ◌==◌, arith, Bool-cases, inl, inr, if◌then◌else◌,
}
use npt.Prelude.Result.{Result, ok, err}
use npt.Prelude.Text.{codes, decimal, digits}
use npt.Ci.Panel.{PortServer}
use npt.Ci.Archive.{
  File, ArchiveWorld, sanitize_char, sanitize, zip_name, saved, snapshots, listed, server_files,
  all_server_files, archive_failure,
}

-- A text without a slash, which is 47.
abbrev pub IsPlain : List ℕ → Type 0
IsPlain [] = Unit
IsPlain (c ∷ cs) = (c ≢ 47) × IsPlain cs

append-IsPlain : (s t : List ℕ) → IsPlain s → IsPlain t → IsPlain (s ++ t)
append-IsPlain [] t h k = k
append-IsPlain (c ∷ cs) t (a, h) k = (a, append-IsPlain cs t h k)

digits-IsPlain : (k n : ℕ) → IsPlain (digits k n)
digits-IsPlain zero n = tt
digits-IsPlain (suc k) n = elim (Bool-cases (ltb n 10)) [
  | inl e ↦ rw e (λ p. omega arith, tt)
  | inr e ↦
      rw e (append-IsPlain (digits k (n / 10)) _ (digits-IsPlain k (n / 10)) (λ p. omega arith, tt))
]

-- The files of an archive have plain names.
abbrev pub AllPlain : List File → Type 0
AllPlain [] = Unit
AllPlain ((name, _) ∷ files) = IsPlain name × AllPlain files

append-AllPlain : (fs gs : List File) → AllPlain fs → AllPlain gs → AllPlain (fs ++ gs)
append-AllPlain [] gs h k = k
append-AllPlain ((n, b) ∷ fs) gs (a, h) k = (a, append-AllPlain fs gs h k)

module _ (is_alphanumeric : ℕ → Bool) (slash : is_alphanumeric 47 ≡ false) where
  sanitize_char-ne-slash : (c : ℕ) → sanitize_char is_alphanumeric c ≢ 47
  sanitize_char-ne-slash c p = elim (Bool-cases (is_alphanumeric c)) [
    | inl e ↦
        let same : c ≡ 47 = rw e at p in
        let t : true ≡ false = sym e ∙ ap is_alphanumeric same ∙ slash in cc t
    | inr e ↦ marks (rw e at p)
  ]
    where
      marks : (if c == 45 || c == 95 then c else 95) ≡ 47 → ⊥
      marks q = ground arith

  sanitize-IsPlain : (s : List ℕ) → IsPlain (sanitize is_alphanumeric s)
  unfolding sanitize
  sanitize-IsPlain [] = tt
  sanitize-IsPlain (c ∷ cs) = (sanitize_char-ne-slash c, sanitize-IsPlain cs)

  zip_name-IsPlain : (srv : PortServer) → IsPlain (zip_name is_alphanumeric srv)
  zip_name-IsPlain srv = append-IsPlain (codes "server-") _ (omega arith) (
      append-IsPlain (decimal srv.server_id) _ (digits-IsPlain 20 srv.server_id) (
        append-IsPlain (codes "-") _ (omega arith) (
          append-IsPlain (sanitize is_alphanumeric srv.server_name) (codes "-debug.zip")
            (sanitize-IsPlain srv.server_name) (omega arith))))

  saved-AllPlain :
      (name : List ℕ) (r : Result (List ℕ) (List ℕ))
      → IsPlain name
      → AllPlain (saved is_alphanumeric name r)
  saved-AllPlain name (ok bytes) h = (h, tt)
  saved-AllPlain name (err text) h = tt

  listed-AllPlain :
      (w : ArchiveWorld) (srv : PortServer) (r : Result (List ℕ) (List (List ℕ)))
      → AllPlain (listed is_alphanumeric w srv r)
  listed-AllPlain w srv (err text) = tt
  listed-AllPlain w srv (ok []) = tt
  listed-AllPlain w srv (ok (id ∷ ids)) = saved-AllPlain _ _ (zip_name-IsPlain srv)

  server_files-AllPlain :
      (w : ArchiveWorld) (ids : List (List ℕ)) (srv : PortServer)
      → AllPlain (server_files is_alphanumeric w ids srv)
  server_files-AllPlain w [] srv = listed-AllPlain w srv (w.debug_collectors srv.server_id)
  server_files-AllPlain w (id ∷ ids) srv = saved-AllPlain _ _ (zip_name-IsPlain srv)

  all_server_files-AllPlain :
      (w : ArchiveWorld) (ids : List (List ℕ)) (servers : List PortServer)
      → AllPlain (all_server_files is_alphanumeric w ids servers)
  all_server_files-AllPlain w ids [] = tt
  all_server_files-AllPlain w ids (srv ∷ servers) =
      append-AllPlain (server_files is_alphanumeric w ids srv) _ (server_files-AllPlain w ids srv)
        (all_server_files-AllPlain w ids servers)

  snapshots-AllPlain : (w : ArchiveWorld) → AllPlain (snapshots is_alphanumeric w)
  snapshots-AllPlain w =
      let stats =
        saved-AllPlain (codes "connection_stats.json") (w.get_text (codes "/api/connection_stats"))
          (omega arith) in
      let latency =
        saved-AllPlain (codes "test_latency.json") (w.get_text (codes "/api/test_latency"))
          (omega arith) in
      let blocked =
        saved-AllPlain (codes "blocked_ips.json") (w.get_text (codes "/api/port_blocked_ips"))
          (omega arith) in
      append-AllPlain
        (saved is_alphanumeric (codes "connection_stats.json")
          (w.get_text (codes "/api/connection_stats")))
        (saved is_alphanumeric (codes "test_latency.json") (w.get_text (codes "/api/test_latency"))
          ++ saved is_alphanumeric (codes "blocked_ips.json")
              (w.get_text (codes "/api/port_blocked_ips")))
        stats
        (append-AllPlain
          (saved is_alphanumeric (codes "test_latency.json")
            (w.get_text (codes "/api/test_latency")))
          (saved is_alphanumeric (codes "blocked_ips.json")
            (w.get_text (codes "/api/port_blocked_ips")))
          latency blocked)

  -- Whatever the servers are called, no name of a file has a slash.
  pub archive_failure-AllPlain :
      (w : ArchiveWorld) (servers : List PortServer) (collect_logs : Bool) (ids : List (List ℕ))
      → AllPlain (archive_failure is_alphanumeric w servers collect_logs ids)
  unfolding archive_failure
  archive_failure-AllPlain w servers collect_logs ids = elim (Bool-cases w.create_dir_all) [
    | inr e ↦ rw e tt
    | inl e ↦ rw e (kept collect_logs)
  ]
    where
      kept :
          (b : Bool)
          → AllPlain (
              if b
              then snapshots is_alphanumeric w ++ all_server_files is_alphanumeric w ids servers
              else snapshots is_alphanumeric w)
      kept true =
          append-AllPlain (snapshots is_alphanumeric w) _ (snapshots-AllPlain w)
            (all_server_files-AllPlain w ids servers)
      kept false = snapshots-AllPlain w
