-- ===== src/Client/TcpClient/Accounting.antt =====
-- client/src/tcp_client.rs: what a session leaves in the pool and in the metrics.
use npt.Prelude.{
  ℕ, ◌+◌, ◌≤◌, ◌<◌, ◌≡◌, ◌≢◌, refl, ap, sym, ◌∙◌, List, [], ◌∷◌, ◌++◌, some, length, false, arith,
}
use npt.Prelude.Result.{Result, ok, err}
use npt.Prelude.Table.{has_key}
use npt.Shared.Protocol.{ConnectionType, UserActivity, ErrorType, tcp, file_download, file_upload}
use npt.Shared.Metrics.{
  MetricsCollector, get_active_connections, end_connection, start_connection_with_activity,
}
use npt.Shared.Metrics.Connections.{Event, failed_with, note_event}
use npt.Shared.Metrics.Activity.{note_all, active_lifecycle_with}
use npt.Wire.{
  Codec, WireError, early_eof, timed_out, encode_failed, decode_failed, no_local_addr, io_error,
  too_large, out_of_fuel, panicked, Texts,
}
use npt.Wire.Session.{Session, World, Program}
use npt.Wire.Progress.{Behaves, note_all-append}
use npt.Client.ServerPool.{ServerPool}
use npt.Client.ServerPool.Accounting.{started, ended, was_reached, on_pool, on_pool_all}
use npt.Client.Failover.{
  Attempt, ConnectError, no_healthy_servers, all_attempts_failed, connect_with_failover,
}
use npt.Client.Failover.Trace.{
  SameServers, on_pool-SameServers, refusals, Outcome, slept_after, connect_with_failover-Outcome,
}
use npt.Client.TcpClient.{
  ClientState, ClientError, connecting, on_wire, Network, Ticket, after_session, once_connected,
  perform, on_metrics, record_failure, conclude, simulate, client_text, file_kind, download_context,
  upload_context, simulate_file_download, simulate_file_upload, download_on, upload_on,
}
use npt.Client.TcpClient.Programs.{download-Behaves, upload-Behaves}

-- The pool that a session leaves, by its result.
abbrev pub LeavesPool : Result ClientError (Unit {0}) → (p q : ServerPool) → Type 0
LeavesPool (ok _) p q =
    (a now : ℕ) × (refused : List ℕ) × (length refused < 3)
    × SameServers q
        (on_pool (ended a) (on_pool_all (refusals refused ++ started now a ∷ was_reached a ∷ []) p))
LeavesPool (err (on_wire e)) p q =
    (a now : ℕ) × (refused : List ℕ) × (length refused < 3)
    × SameServers q (on_pool_all (refusals refused ++ started now a ∷ was_reached a ∷ []) p)
LeavesPool (err (connecting e)) p q =
    (refused : List ℕ) × (length refused ≤ 3) × SameServers q (on_pool_all (refusals refused) p)

-- Neither a lack of fuel nor a panic
abbrev pub Sound : Result ClientError (Unit {0}) → Type 0
Sound r = (r ≢ err (on_wire out_of_fuel)) × (r ≢ err (on_wire panicked))

module _ {F : Type 0} where
  session-LeavesPool :
      (a now : ℕ) (refused : List ℕ) (p q : ServerPool)
      (r : Result WireError (Unit {0}) × Session F)
      → length refused < 3
      → SameServers q (on_pool_all (refusals refused ++ started now a ∷ was_reached a ∷ []) p)
      → let (o, st) = after_session a q r in LeavesPool o p st.pool
  session-LeavesPool a now refused p q (err e, s) h same = (a, now, refused, h, same)
  session-LeavesPool a now refused p q (ok u, s) h same =
      (a, now, refused, h, on_pool-SameServers (ended a) _ _ same)

  once_connected-LeavesPool :
      (n : Network) (body : Program F (Unit {0})) (st : ClientState F) (env : ℕ → Attempt)
      (o : Result ConnectError ℕ × ServerPool × ℕ)
      → Outcome env 0 o.0 3 slept_after st.pool o.1 o.2
      → let (r, st') = once_connected n.dial body st o in LeavesPool r st.pool st'.pool
  once_connected-LeavesPool n body st env (ok a, q, slept) (refused, h, same, e, m) =
      session-LeavesPool a (env (0 + length refused)).now refused st.pool q _ h same
  once_connected-LeavesPool n body st env (err no_healthy_servers, q, slept)
        (refused, h, same, e, m) =
      (refused, omega arith, same)
  once_connected-LeavesPool n body st env (err all_attempts_failed, q, slept)
        (refused, h, same, e, m) =
      (refused, omega arith, same)

  -- What a session of the TCP client does to the pool, whatever it does on its connection. A session that
  -- succeeds leaves the servers that refused it marked as failed, at most two, and the one that it spoke to
  -- with a connection started, a success, and the connection ended. One that cannot connect leaves only
  -- refusals, at most three. But one that fails on its connection is never ended: it leaves its server
  -- with one connection more for good.
  pub perform-LeavesPool :
      (n : Network) (body : Program F (Unit {0})) (st : ClientState F)
      → let (r, st') = perform n body st in LeavesPool r st.pool st'.pool
  unfolding perform
  perform-LeavesPool n body st =
      once_connected-LeavesPool n body st n.attempts (connect_with_failover n.attempts st.pool)
        (connect_with_failover-Outcome n.attempts st.pool)

  -- What a session records of its connection.
  abbrev Noted : (id : ℕ) (m m' : MetricsCollector F) → Type 0
  Noted id m m' = (es : List Event) × (m' ≡ note_all id es m)

  -- The body of a session keeps to its own connection, on every stream that the network gives.
  abbrev pub Fits : (id : ℕ) → Network → Program F (Unit {0}) → Type 0
  Fits id n body =
      (a asked : ℕ) (m : MetricsCollector F)
      → Behaves id (record { link = n.dial a; metrics = m; asked = asked })
          (body (record { link = n.dial a; metrics = m; asked = asked }))

  session-Noted :
      (id a : ℕ) (q : ServerPool) (s : Session F) (r : Result WireError (Unit {0}) × Session F)
      → Behaves id s r
      → let (o, st) = after_session a q r in Sound o × Noted id s.metrics st.metrics
  session-Noted id a q s (err e, s') b = (
    (
      λ p. let same : e ≡ out_of_fuel = cc in b.fueled (ap err same),
      λ p. let same : e ≡ panicked = cc in b.calm (ap err same),
    ),
    (b.events, b.noted),
  )
  session-Noted id a q s (ok u, s') b = ((λ p. cc, λ p. cc), (b.events, b.noted))

  once_connected-Noted :
      (id : ℕ) (n : Network) (body : Program F (Unit {0})) (st : ClientState F)
      (o : Result ConnectError ℕ × ServerPool × ℕ)
      → Fits id n body
      → let (r, st') = once_connected n.dial body st o in Sound r × Noted id st.metrics st'.metrics
  once_connected-Noted id n body st (err e, q, slept) f = ((λ p. cc, λ p. cc), ([], refl))
  once_connected-Noted id n body st (ok a, q, slept) f =
      session-Noted id a q _ _ (f a st.asked st.metrics)

  failure-Noted :
      (t : Ticket) (kind : ClientError → ErrorType) (text : ClientError → List ℕ) (context : List ℕ)
      (m : MetricsCollector F) (r : Result ClientError (Unit {0}) × ClientState F)
      → Noted t.id m r.1.metrics
      → Noted t.id m (record_failure t kind text context r).metrics
  failure-Noted t kind text context m (ok u, st) v = v
  failure-Noted t kind text context m (err e, st) (es, same) =
      let detail = failed_with t.failed_at (kind e) (text e) (some context) in
      (
        es ++ detail ∷ [],
        ap (note_event t.id detail) same ∙ sym (note_all-append t.id es (detail ∷ []) m),
      )

  -- Without a panic a session comes to its end in the metrics.
  concluded :
      (t : Ticket) (kind : ClientError → ErrorType) (text : ClientError → List ℕ) (context : List ℕ)
      (r : Result ClientError (Unit {0}) × ClientState F)
      → r.0 ≢ err (on_wire panicked)
      → conclude t kind text context r
        ≡ on_metrics (end_connection t.end t.id) (record_failure t kind text context r)
  concluded t kind text context (ok u, st) h = refl
  concluded t kind text context (err (connecting e), st) h = refl
  concluded t kind text context (err (on_wire early_eof), st) h = refl
  concluded t kind text context (err (on_wire timed_out), st) h = refl
  concluded t kind text context (err (on_wire encode_failed), st) h = refl
  concluded t kind text context (err (on_wire decode_failed), st) h = refl
  concluded t kind text context (err (on_wire no_local_addr), st) h = refl
  concluded t kind text context (err (on_wire out_of_fuel), st) h = refl
  concluded t kind text context (err (on_wire panicked), st) h = absurd (h refl)
  concluded t kind text context (err (on_wire (io_error e)), st) h = refl
  concluded t kind text context (err (on_wire (too_large n)), st) h = refl

  after_session-calm :
      (a : ℕ) (q : ServerPool) (r : Result WireError (Unit {0}) × Session F)
      → (after_session a q r).1.panicked ≡ false
  after_session-calm a q (err e, s) = refl
  after_session-calm a q (ok u, s) = refl

  once_connected-calm :
      (n : Network) (body : Program F (Unit {0})) (st : ClientState F)
      (o : Result ConnectError ℕ × ServerPool × ℕ)
      → st.panicked ≡ false
      → (once_connected n.dial body st o).1.panicked ≡ false
  once_connected-calm n body st (err e, q, slept) h = h
  once_connected-calm n body st (ok a, q, slept) h = after_session-calm a q _

  failure-calm :
      (t : Ticket) (kind : ClientError → ErrorType) (text : ClientError → List ℕ) (context : List ℕ)
      (r : Result ClientError (Unit {0}) × ClientState F)
      → r.1.panicked ≡ false
      → (record_failure t kind text context r).panicked ≡ false
  failure-calm t kind text context (ok u, st) h = h
  failure-calm t kind text context (err e, st) h = h

  -- What a session does to the metrics: its connection is started, noted and ended. And it does not panic.
  pub simulate-Noted :
      (n : Network) (t : Ticket) (activity : UserActivity) (kind : ClientError → ErrorType)
      (text : ClientError → List ℕ) (context : List ℕ) (body : Program F (Unit {0}))
      (st : ClientState F)
      → Fits t.id n body
      → let st' = simulate n t activity kind text context body st in
        ((es : List Event) × (st'.metrics
            ≡ end_connection t.end t.id (
                note_all t.id es
                  (start_connection_with_activity t.start t.place t.id tcp activity st.metrics))))
        × (st.panicked ≡ false → st'.panicked ≡ false)
  unfolding simulate perform
  simulate-Noted n t activity kind text context body st f =
      let begun =
        on_metrics (start_connection_with_activity t.start t.place t.id tcp activity) st in
      let o = connect_with_failover n.attempts st.pool in
      let r = once_connected n.dial body begun o in
      let ((_, calm), v) = once_connected-Noted t.id n body begun o f in
      let (es, same) = failure-Noted t kind text context begun.metrics r v in
      let whole = concluded t kind text context r calm in
      (
        (es, ap (λ (z : ClientState F). z.metrics) whole ∙ ap (end_connection t.end t.id) same),
        λ h.
            ap (λ (z : ClientState F). z.panicked) whole
            ∙ failure-calm t kind text context r (once_connected-calm n body begun o h),
      )

  simulate-counts :
      (k : ConnectionType) (n : Network) (t : Ticket) (activity : UserActivity)
      (kind : ClientError → ErrorType) (text : ClientError → List ℕ) (context : List ℕ)
      (body : Program F (Unit {0})) (st : ClientState F)
      → Fits t.id n body
      → has_key t.id st.metrics.connections ≡ false
      → get_active_connections k (simulate n t activity kind text context body st).metrics
        ≡ get_active_connections k st.metrics
  simulate-counts k n t activity kind text context body st f fresh =
      let ((es, same), _) = simulate-Noted n t activity kind text context body st f in
      ap (get_active_connections k) same
      ∙ active_lifecycle_with k tcp t.start t.end t.place t.id activity es st.metrics fresh

module _ {F : Type 0} (c : Codec) (w : World) where
  -- A file session ends on every stream of bytes that the network gives, with fuel above its length, and
  -- without a panic; and whatever goes wrong in it, a simulated download or upload leaves the collector's
  -- counts of active connections of each type as they were. The range of the chunks is not empty, and
  -- the connection's identifier is new to the collector.
  pub file_sessions_end :
      (texts : Texts) (last_error : List ℕ) (k : ConnectionType) (fuel : ℕ) (n : Network)
      (t : Ticket) (file_size : ℕ) (chunk_size : ℕ × ℕ) (st : ClientState F)
      → ((a : ℕ) → length (n.dial a).incoming < fuel)
      → chunk_size.0 ≤ chunk_size.1
      → has_key t.id st.metrics.connections ≡ false
      → let download = perform n (download_on c w fuel t.id t.session_id file_size) st in
        let upload = perform n (upload_on c w fuel t.id t.session_id file_size chunk_size) st in
        Sound download.0
        × Sound upload.0
        × (get_active_connections k
              (simulate_file_download c w texts last_error fuel n t file_size chunk_size st).metrics
            ≡ get_active_connections k st.metrics)
        × (get_active_connections k
              (simulate_file_upload c w texts last_error fuel n t file_size chunk_size st).metrics
            ≡ get_active_connections k st.metrics)
  unfolding perform simulate_file_download simulate_file_upload
  file_sessions_end texts last_error k fuel n t file_size chunk_size st h r fresh = (
    (once_connected-Noted t.id n (download_on c w fuel t.id t.session_id file_size) st
        (connect_with_failover n.attempts st.pool) downloads).0,
    (once_connected-Noted t.id n (upload_on c w fuel t.id t.session_id file_size chunk_size) st
        (connect_with_failover n.attempts st.pool) uploads).0,
    simulate-counts k n t (file_download file_size chunk_size) (file_kind texts last_error)
        (client_text texts last_error) (download_context file_size)
        (download_on c w fuel t.id t.session_id file_size) st downloads fresh,
    simulate-counts k n t (file_upload file_size chunk_size) (file_kind texts last_error)
        (client_text texts last_error) (upload_context file_size)
        (upload_on c w fuel t.id t.session_id file_size chunk_size) st uploads fresh,
  )
    where
      downloads : Fits {F = F} t.id n (download_on c w fuel t.id t.session_id file_size)
      downloads a asked m = download-Behaves c w fuel t.id t.session_id file_size _ (h a)

      uploads : Fits {F = F} t.id n (upload_on c w fuel t.id t.session_id file_size chunk_size)
      uploads a asked m = upload-Behaves c w fuel t.id t.session_id file_size chunk_size _ r (h a)
