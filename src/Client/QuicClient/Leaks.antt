-- ===== src/Client/QuicClient/Leaks.antt =====
-- client/src/quic_client.rs: what a session leaves behind in the pool and in the metrics.
use npt.Prelude.{
  ℕ, zero, suc, ◌+◌, ◌≡◌, ◌≢◌, refl, ap, sym, ◌∙◌, List, [], ◌∷◌, ◌++◌, Option, none, some, take,
  length, Bool, true, false, ltb, ◌==◌, Bool-cases, inl, inr, if◌then◌else◌,
}
use npt.Prelude.Result.{Result, ok, err}
use npt.Prelude.Table.{has_key}
use npt.Shared.Protocol.{ConnectionType, quic, quic_web_browsing, UserActivity}
use npt.Shared.Metrics.{
  MetricsCollector, same_type, start_connection_with_activity, end_connection,
  get_active_connections,
}
use npt.Shared.Metrics.Connections.{
  Event, sent, received, packet_sent, packet_received, took, failed_with,
}
use npt.Shared.Metrics.Activity.{note_all, active_lifecycle_with, active_started_with}
use npt.Wire.Progress.{note_all-append}
use npt.Client.ServerPool.{ServerPool, get_server, mark_connection_start, mark_connection_end}
use npt.Client.QuicClient.{
  Reply, refused, stuck_sending, stuck_reading, read_all, QuicError, no_healthy_servers,
  expected_min_size, read_response, checked_response, request_resource, PageReplies, resource_path,
  page_path, request_all, page_result, after_main, browse_quic_page, Connecting, no_endpoint,
  not_connected, out_of_time, connected, QuicWorld, QuicTicket, QuicClient, page_noted,
  browse_quic_pages, on_connecting, on_server, simulate_web_browsing_session,
}

module _ {F : Type 0} where
  -- Only events of the connection have been recorded.
  abbrev pub Noted : (id : ℕ) (m m' : MetricsCollector F) → Type 0
  Noted id m m' = (es : List Event) × (m' ≡ note_all id es m)

  Noted-trans :
      (id : ℕ) (m m' m'' : MetricsCollector F) → Noted id m m' → Noted id m' m'' → Noted id m m''
  Noted-trans id m m' m'' (es, p) (fs, q) =
      (es ++ fs, q ∙ ap (note_all id fs) p ∙ sym (note_all-append id es fs m))

  checked-Noted :
      (id elapsed : ℕ) (path response : List ℕ) (m : MetricsCollector F)
      → Noted id m (checked_response id elapsed path response m).1
  checked-Noted id elapsed path response m = elim (Bool-cases (length response == 0)) [
    | inl e ↦ rw e ([], refl)
    | inr e ↦ elim (Bool-cases (ltb (length response) (expected_min_size path))) [
      | inl f ↦ rw (e, f) ([], refl)
      | inr f ↦ rw (e, f) (packet_received ∷ received (length response) ∷ took elapsed ∷ [], refl)
    ]
  ]

  request-Noted :
      (id : ℕ) (session_id path : List ℕ) (reply : Reply) (m : MetricsCollector F)
      → Noted id m (request_resource id session_id path reply m).1
  unfolding request_resource
  request-Noted id session_id path (refused text) m = ([], refl)
  request-Noted id session_id path stuck_sending m = ([], refl)
  request-Noted id session_id path stuck_reading m = (packet_sent ∷ sent _ ∷ [], refl)
  request-Noted id session_id path (read_all elapsed buffers) m =
      Noted-trans id m _ _ (packet_sent ∷ sent _ ∷ [], refl)
        (checked-Noted id elapsed path (read_response [] buffers) _)

  request_all-Noted :
      (id : ℕ) (session_id : List ℕ) (replies : List (ℕ × Reply)) (m : MetricsCollector F)
      → Noted id m (request_all id session_id replies m).1
  request_all-Noted id session_id [] m = ([], refl)
  request_all-Noted id session_id ((n, reply) ∷ replies) m =
      Noted-trans id m _ _ (request-Noted id session_id (resource_path n) reply m)
        (request_all-Noted id session_id replies _)

  page_result-same :
      (n : ℕ) (in_time : Bool) (r : Bool × MetricsCollector F) → (page_result n in_time r).1 ≡ r.1
  page_result-same n false (b, m) = refl
  page_result-same n true (true, m) = refl
  page_result-same n true (false, m) = refl

  after_main-Noted :
      (id : ℕ) (session_id : List ℕ) (n : ℕ) (page : PageReplies) (m : MetricsCollector F)
      (r : Result QuicError (Unit {0}) × MetricsCollector F)
      → Noted id m r.1
      → Noted id m (after_main id session_id n page r).1
  after_main-Noted id session_id n page m (err e, m') v = v
  after_main-Noted id session_id n page m (ok u, m') v =
      let (es, p) = request_all-Noted id session_id (take n page.resources) m' in
      Noted-trans id m m' _ v (es, page_result-same n page.in_time _ ∙ p)

  page_noted-Noted :
      (w : QuicWorld) (id page_num : ℕ) (m : MetricsCollector F)
      (r : Result QuicError ℕ × MetricsCollector F)
      → Noted id m r.1
      → Noted id m (page_noted w id page_num r)
  page_noted-Noted w id page_num m (ok n, m') v = v
  page_noted-Noted w id page_num m (err e, m') v =
      Noted-trans id m m' _ v (failed_with _ _ _ _ ∷ [], refl)

  pub browse_quic_pages-Noted :
      (w : QuicWorld) (t : QuicTicket) (left page_num : ℕ) (m : MetricsCollector F)
      → Noted t.id m (browse_quic_pages w t left page_num m)
  unfolding browse_quic_pages browse_quic_page
  browse_quic_pages-Noted w t zero page_num m = ([], refl)
  browse_quic_pages-Noted w t (suc left) page_num m =
      let n = w.num_resources page_num in
      let page = w.page_replies page_num in
      Noted-trans t.id m _ _
        (page_noted-Noted w t.id page_num m (browse_quic_page t.id t.session_id page_num n page m) (
          after_main-Noted t.id t.session_id n page m _
            (request-Noted t.id t.session_id (page_path page_num) page.main m)))
        (browse_quic_pages-Noted w t left (page_num + 1) _)

  -- What a session leaves, by what the pool gave and how the session ended.
  abbrev pub LeavesOpen :
      (k : ConnectionType) (start : ℕ) (c : Connecting)
      → Option ℕ × ServerPool
      → (before : MetricsCollector F) → Result QuicError (Unit {0}) × QuicClient F
      → Type 0
  LeavesOpen k start c (none, p) before (err e, st) =
      (e ≡ no_healthy_servers)
      × (st.server_pool ≡ p)
      × (get_active_connections k st.metrics
          ≡ get_active_connections k before + (if same_type k quic then 1 else 0))
  LeavesOpen k start c (some a, p) before (err e, st) =
      (c ≢ connected)
      × (st.server_pool ≡ mark_connection_start start a p)
      × (get_active_connections k st.metrics
          ≡ get_active_connections k before + (if same_type k quic then 1 else 0))
  LeavesOpen k start c (some a, p) before (ok _, st) =
      (c ≡ connected)
      × (st.server_pool ≡ mark_connection_end a (mark_connection_start start a p))
      × (get_active_connections k st.metrics ≡ get_active_connections k before)
  LeavesOpen k start c (none, p) before (ok _, st) = ⊥

  module _ (k : ConnectionType) (w : QuicWorld) (t : QuicTicket) (activity : UserActivity)
      (before : MetricsCollector F) (fresh : has_key t.id before.connections ≡ false) where
    abbrev started : MetricsCollector F
    started = start_connection_with_activity t.start t.place t.id quic activity before

    connecting-LeavesOpen :
        (pages a : ℕ) (p : ServerPool) (c : Connecting)
        → LeavesOpen k w.started_at c
            (some a, p)
            before
            (on_connecting w t pages a c
              (record { server_pool = mark_connection_start w.started_at a p; metrics = started }))
    connecting-LeavesOpen pages a p (no_endpoint text) =
        ((λ e. cc), refl, active_started_with k quic t.start t.place t.id activity [] before fresh)
    connecting-LeavesOpen pages a p (not_connected text) = (
      (λ e. cc),
      refl,
      active_started_with k quic t.start t.place t.id activity (failed_with _ _ _ _ ∷ []) before
          fresh,
    )
    connecting-LeavesOpen pages a p out_of_time = (
      (λ e. cc),
      refl,
      active_started_with k quic t.start t.place t.id activity (failed_with _ _ _ _ ∷ []) before
          fresh,
    )
    connecting-LeavesOpen pages a p connected =
        let (es, same) = browse_quic_pages-Noted w t pages 0 started in
        (
          refl,
          refl,
          ap (λ m. get_active_connections k (end_connection t.end t.id m)) same
              ∙ active_lifecycle_with k quic t.start t.end t.place t.id activity es before fresh,
        )

    server-LeavesOpen :
        (pages : ℕ) (g : Option ℕ × ServerPool)
        → LeavesOpen k w.started_at w.connecting g before (on_server w t pages started g)
    server-LeavesOpen pages (none, p) =
        (refl, refl, active_started_with k quic t.start t.place t.id activity [] before fresh)
    server-LeavesOpen pages (some a, p) = connecting-LeavesOpen pages a p w.connecting

  -- What a session over QUIC leaves behind, whatever its pages meet. If a server was chosen and the
  -- connection made, it succeeds: its server has a connection started and ended, and the metrics
  -- count the active connections of each type as before. If not, it fails, and the metrics count one
  -- active QUIC connection more; and if a server was chosen, that server has a connection started, which
  -- is neither ended nor marked as failed. The connection's identifier is new to the collector.
  pub quic_session-LeavesOpen :
      (k : ConnectionType) (w : QuicWorld) (t : QuicTicket) (pages : ℕ) (resources : ℕ × ℕ)
      (concurrent : ℕ) (st : QuicClient F)
      → has_key t.id st.metrics.connections ≡ false
      → LeavesOpen k w.started_at w.connecting
          (get_server w.chance st.server_pool)
          st.metrics
          (simulate_web_browsing_session w t pages resources concurrent st)
  unfolding simulate_web_browsing_session
  quic_session-LeavesOpen k w t pages resources concurrent st fresh =
      server-LeavesOpen k w t (quic_web_browsing pages resources concurrent) st.metrics fresh pages
        (get_server w.chance st.server_pool)
