-- ===== src/Client/Simulator/Users.antt =====
-- client/src/simulator.rs: no activity of a user touches the count of the active users, or
-- panics.
use npt.Prelude.{
  Bool, true, false, if◌then◌else◌, ◌≤◌, ℕ, ◌+◌, ◌<◌, ◌≡◌, refl, ap, ◌∙◌, List, [], ◌∷◌, Option,
  none, some, length, take,
}
use npt.Shared.Protocol.{
  UserActivity, web_browsing, file_download, file_upload, quic_web_browsing, quic, ErrorType,
}
use npt.Shared.Metrics.{MetricsCollector, start_connection_with_activity}
use npt.Shared.Metrics.Connections.{failed_with}
use npt.Shared.Metrics.Users.{
  note_all-active_users, start_connection-active_users, end_connection-active_users,
  connection-active_users,
}
use npt.Wire.{Codec, Texts}
use npt.Wire.Session.{World, Program}
use npt.Client.ServerPool.{ServerPool, get_server}
use npt.Client.TcpClient.{
  ClientState, ClientError, Network, Ticket, simulate, browse_page, browse_pages,
  simulate_file_download, simulate_file_upload, simulate_user_activity, single_page, download_on,
  upload_on, client_text, page_kind, file_kind, page_context, download_context, upload_context,
}
use npt.Client.TcpClient.Accounting.{Fits, simulate-Noted}
use npt.Client.TcpClient.Programs.{page-Behaves, download-Behaves, upload-Behaves}
use npt.Client.QuicClient.{
  Connecting, no_endpoint, not_connected, out_of_time, connected, QuicWorld, QuicTicket,
  on_connecting, on_server, simulate_web_browsing_session, simulate_quic_activity,
}
use npt.Client.QuicClient.Leaks.{browse_quic_pages-Noted}
use npt.Client.Simulator.{Turn, act}

-- The ranges that an activity draws from over TCP are not empty.
abbrev pub Ranged : UserActivity → Type 0
Ranged (web_browsing count requests) = requests.0 ≤ requests.1
Ranged (file_download size chunk) = Unit {0}
Ranged (file_upload size chunk) = chunk.0 ≤ chunk.1
Ranged (quic_web_browsing pages resources concurrent) = Unit {0}

module _ {F : Type 0} where
  -- The count of the active users is kept, and nothing panics.
  abbrev pub Keeps : (st st' : ClientState F) → Type 0
  Keeps st st' =
      (st'.metrics.active_users ≡ st.metrics.active_users)
      × (st.panicked ≡ false → st'.panicked ≡ false)

  simulate-Keeps :
      (n : Network) (t : Ticket) (activity : UserActivity) (kind : ClientError → ErrorType)
      (text : ClientError → List ℕ) (context : List ℕ) (body : Program F (Unit {0}))
      (st : ClientState F)
      → Fits t.id n body
      → Keeps st (simulate n t activity kind text context body st)
  simulate-Keeps n t activity kind text context body st f =
      let ((es, same), calm) = simulate-Noted n t activity kind text context body st f in
      (
        ap (λ (m : MetricsCollector F). m.active_users) same
            ∙ connection-active_users t.start t.end t.place t.id _ activity es st.metrics,
        calm,
      )

  on-Keeps :
      (b : Bool) (st st' st'' : ClientState F)
      → Keeps st st'
      → Keeps st' st''
      → Keeps st (if b then st' else st'')
  on-Keeps true st st' st'' (e, h) (e', h') = (e, h)
  on-Keeps false st st' st'' (e, h) (e', h') = (e' ∙ e, λ q. h' (h q))

  module _ (c : Codec) (w : World) (texts : Texts) (last_error : List ℕ) where
    browse_pages-Keeps :
        (pages : List (Network × Ticket)) (pages_to_visit page : ℕ) (requests : ℕ × ℕ)
        (st : ClientState F)
        → requests.0 ≤ requests.1
        → Keeps st (browse_pages c w texts last_error pages pages_to_visit page requests st)
    unfolding browse_pages browse_page
    browse_pages-Keeps [] pages_to_visit page requests st r = (refl, λ q. q)
    browse_pages-Keeps ((n, t) ∷ rest) pages_to_visit page requests st r =
        let st' = browse_page c w texts last_error n t pages_to_visit page requests st in
        on-Keeps st'.panicked st st' _
          (simulate-Keeps n t (web_browsing pages_to_visit requests) (page_kind texts last_error)
            (client_text texts last_error) (page_context page)
            (single_page c w t.id t.session_id requests) st
            (λ a asked m. page-Behaves c w t.id t.session_id requests _ r))
          (browse_pages-Keeps rest pages_to_visit (page + 1) requests st' r)

  module _ (w : QuicWorld) (t : QuicTicket) (activity : UserActivity) (m : MetricsCollector F) where
    abbrev started : MetricsCollector F
    started = start_connection_with_activity t.start t.place t.id quic activity m

    started-active_users : started.active_users ≡ m.active_users
    started-active_users = start_connection-active_users t.start t.place t.id quic activity m

    on_connecting-active_users :
        (pages a : ℕ) (k : Connecting) (p : ServerPool)
        → (on_connecting w t pages a k
            (record { server_pool = p; metrics = started })).1.metrics.active_users
          ≡ m.active_users
    on_connecting-active_users pages a (no_endpoint text) p = started-active_users
    on_connecting-active_users pages a (not_connected text) p =
        note_all-active_users t.id (failed_with _ _ _ _ ∷ []) started ∙ started-active_users
    on_connecting-active_users pages a out_of_time p =
        note_all-active_users t.id (failed_with _ _ _ _ ∷ []) started ∙ started-active_users
    on_connecting-active_users pages a connected p =
        let (es, same) = browse_quic_pages-Noted w t pages 0 started in
        end_connection-active_users t.end t.id _
        ∙ ap (λ (m : MetricsCollector F). m.active_users) same
        ∙ note_all-active_users t.id es started
        ∙ started-active_users

    on_server-active_users :
        (pages : ℕ) (g : Option ℕ × ServerPool)
        → (on_server w t pages started g).1.metrics.active_users ≡ m.active_users
    on_server-active_users pages (none, p) = started-active_users
    on_server-active_users pages (some a, p) = on_connecting-active_users pages a w.connecting _

  module _ {R : Type 0} (c : Codec) (texts : Texts) where
    -- The fuel of the activity is above the bytes that come on its connection.
    pub act-Keeps :
        (turn : Turn R) (activity : UserActivity) (st : ClientState F)
        → ((a : ℕ) → length (turn.network.dial a).incoming < turn.fuel)
        → Ranged activity
        → Keeps st (act c texts turn activity st)
    unfolding simulate_user_activity simulate_file_download simulate_file_upload
        simulate_quic_activity simulate_web_browsing_session
    act-Keeps turn (web_browsing count requests) st h r =
        browse_pages-Keeps c turn.world texts turn.last_error (take count turn.pages) count 0
          requests st r
    act-Keeps turn (file_download size chunk) st h r =
        let t = turn.ticket in
        simulate-Keeps turn.network t (file_download size chunk) (file_kind texts turn.last_error)
          (client_text texts turn.last_error) (download_context size)
          (download_on c turn.world turn.fuel t.id t.session_id size) st
          (λ a asked m. download-Behaves c turn.world turn.fuel t.id t.session_id size _ (h a))
    act-Keeps turn (file_upload size chunk) st h r =
        let t = turn.ticket in
        simulate-Keeps turn.network t (file_upload size chunk) (file_kind texts turn.last_error)
          (client_text texts turn.last_error) (upload_context size)
          (upload_on c turn.world turn.fuel t.id t.session_id size chunk) st
          (λ a asked m.
            upload-Behaves c turn.world turn.fuel t.id t.session_id size chunk _ r (h a))
    act-Keeps turn (quic_web_browsing pages resources concurrent) st h r =
        let w = turn.quic_world in
        (
          on_server-active_users w turn.quic_ticket (quic_web_browsing pages resources concurrent)
              st.metrics pages (get_server w.chance st.pool),
          λ q. q,
        )
