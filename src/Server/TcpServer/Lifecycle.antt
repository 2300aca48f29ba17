-- ===== src/Server/TcpServer/Lifecycle.antt =====
-- server/src/tcp_server.rs: a connection from its start to its end.
use npt.Prelude.{
  ℕ, zero, suc, ◌+◌, ◌-◌, ◌≤◌, ◌<◌, ◌≡◌, ◌≢◌, refl, ap, sym, subst, ◌∙◌, List, length, replicate,
  min, Bool, true, false, ltb, arith, Bool-cases, inl, inr, if◌then◌else◌,
}
use npt.Prelude.Result.{Result, ok, err}
use npt.Prelude.Text.{codes}
use npt.Prelude.Words.{add64}
use npt.Prelude.Table.{has_key}
use npt.Shared.Protocol.{
  Message, MessageType, ConnectionType, tls_handshake, http_request, http_response,
  file_download_request, file_download_chunk, file_upload_request, file_upload_chunk, game_packet,
  connection_close, http_get_request, http_get_response, resource_request, resource_response, tcp,
  with_sequence,
}
use npt.Shared.Metrics.{start_connection, end_connection, get_active_connections}
use npt.Shared.Metrics.Connections.{sent, received, packet_sent, packet_received, failed, took}
use npt.Shared.Metrics.Activity.{active_lifecycle}
use npt.Wire.{
  Codec, Link, receive_message, WireError, early_eof, timed_out, encode_failed, decode_failed,
  no_local_addr, out_of_fuel, panicked, io_error, too_large, Texts,
}
use npt.Wire.Session.{
  Session, World, InRange, Program, go_on, return, ask, tell, local_addr, receive, make,
}
use npt.Wire.Progress.{
  Behaves, go_on-Behaves, done-Behaves, tell-Behaves, tell_then-Behaves, ask-Behaves,
  ask_then-Behaves, make-Behaves, send-Behaves, receive_then-Behaves, receive_message-Takes, Takes,
  later-Behaves, relink-Behaves,
}
use npt.Server.TcpServer.{
  is_upload_chunk, requested_size, send_noted, send_large_response_streaming, send_chunk_streaming,
  download_loop, handle_file_download, acknowledge, upload_loop, handle_file_upload, handle,
  handle_message, tells_eof, after_receive_error, after_handle_error, after_handled, after_received,
  serve_loop, serve_connection, handle_connection,
}

module _ {F : Type 0} (c : Codec) (w : World) where
  send_noted-Behaves :
      (id n : ℕ) (m : Message) (s : Session F) → Behaves id s (send_noted c w id n m s)
  send_noted-Behaves id n m s = go_on-Behaves id s _ _ (send-Behaves c id m s) (λ _ s' h.
      go_on-Behaves id s' _ _ (tell-Behaves id packet_sent s')
        (λ _ s'' h'. tell-Behaves id (sent n) s''))

  made-Behaves :
      (id n session_id : ℕ) (t : MessageType) (payload : List ℕ) (f : Message → Message)
      (s : Session F)
      → Behaves id s (go_on (make w t payload session_id s) (λ m. send_noted c w id n (f m)))
  made-Behaves id n session_id t payload f s =
      go_on-Behaves id s _ _ (make-Behaves id w t payload session_id s)
        (λ m s' h. send_noted-Behaves id n (f m) s')

  large-Behaves :
      (size session_id sequence id : ℕ) (s : Session F)
      → Behaves id s (send_large_response_streaming c w size session_id sequence id s)
  unfolding send_large_response_streaming
  large-Behaves size session_id sequence id s =
      made-Behaves id size session_id http_response (replicate size 0) (with_sequence sequence) s

  chunk-Behaves :
      (size session_id sequence id : ℕ) (s : Session F)
      → Behaves id s (send_chunk_streaming c w size session_id sequence id s)
  unfolding send_chunk_streaming
  chunk-Behaves size session_id sequence id s =
      made-Behaves id size session_id file_download_chunk (replicate size 0)
        (with_sequence sequence) s

  acknowledge-Behaves :
      (text : List ℕ) (session_id sequence id : ℕ) (s : Session F)
      → Behaves id s (acknowledge c w text session_id sequence id s)
  acknowledge-Behaves text session_id sequence id s =
      made-Behaves id (length text) session_id http_response text (with_sequence sequence) s

  download-Behaves :
      (fuel file_size session_id id bytes_sent sequence : ℕ) (s : Session F)
      → InRange w
      → bytes_sent ≤ file_size
      → file_size < bytes_sent + fuel
      → Behaves id s (download_loop c w fuel file_size session_id id bytes_sent sequence s)
  unfolding download_loop
  download-Behaves zero file_size session_id id bytes_sent sequence s r g h = absurd (omega arith)
  download-Behaves (suc fuel) file_size session_id id bytes_sent sequence s r g h =
      elim (Bool-cases (ltb bytes_sent file_size)) [
        | inr all ↦ rw (all, download_loop) (done-Behaves id tt s)
        | inl more ↦
            rw (more, download_loop)
              (go_on-Behaves id s _ _ (ask-Behaves id s) (λ i s' h'.
                let size = min (w.gen_range i 4096 65536) (file_size - bytes_sent) in
                go_on-Behaves id s' _ _ (chunk-Behaves size session_id sequence id s') (λ _ s'' h''.
                  let some_left : bytes_sent < file_size = ground arith in
                  let low = r.lower i 4096 65536 (omega arith) in
                  download-Behaves fuel file_size session_id id (bytes_sent + size) (sequence + 1)
                    s'' r (omega arith) (omega arith))))
      ]

  upload-Behaves :
      (fuel expected_size id bytes_received : ℕ) (s : Session F)
      → length s.link.incoming < fuel
      → Behaves id s (upload_loop c w fuel expected_size id bytes_received s)
  unfolding upload_loop
  upload-Behaves zero expected_size id bytes_received s h = absurd (omega arith)
  upload-Behaves (suc fuel) expected_size id bytes_received s h =
      elim (Bool-cases (ltb bytes_received expected_size)) [
        | inr all ↦ rw (all, upload_loop) (done-Behaves id tt s)
        | inl more ↦
            rw (more, upload_loop)
              (receive_then-Behaves c id s _ (λ m s1 h1.
                elim (Bool-cases (is_upload_chunk m.0.message_type)) [
                  | inr other ↦ rw other (done-Behaves id tt s1)
                  | inl chunk ↦ rw chunk (
                      tell_then-Behaves id packet_received s1 _ (
                        tell_then-Behaves id (received (length m.0.payload)) _ _ (
                          go_on-Behaves id _ _ _
                            (acknowledge-Behaves (codes "CHUNK_ACK") m.0.session_id m.0.sequence id
                              _)
                            (λ _ s2 h2.
                              upload-Behaves fuel expected_size id
                                (add64 bytes_received (length m.0.payload)) s2 (omega arith)))))
                ]))
      ]

  then_true-Behaves :
      (id : ℕ) (s : Session F) (r : Result WireError (Unit {0}) × Session F)
      → Behaves id s r
      → Behaves id s (go_on r (λ _. return true))
  then_true-Behaves id s r b = go_on-Behaves id s r _ b (λ _ s' h. done-Behaves id true s')

  handle-Behaves :
      (t : MessageType) (fuel : ℕ) (m : Message) (id : ℕ) (s : Session F)
      → InRange w
      → length s.link.incoming < fuel
      → Behaves id s (handle c w t fuel m id s)
  unfolding handle_file_download handle_file_upload
  handle-Behaves tls_handshake fuel m id s r h =
      let size = w.gen_range s.asked 2000 4000 in
      ask_then-Behaves id s _ (
        go_on-Behaves id _ _ _
          (make-Behaves id w http_response (replicate size 0) m.session_id (ask s).1)
          (λ m' s2 h2. then_true-Behaves id s2 _ (send_noted-Behaves id size m' s2)))
  handle-Behaves http_request fuel m id s r h = ask_then-Behaves id s _ (
      then_true-Behaves id (ask s).1 _
        (large-Behaves (w.gen_range s.asked 4096 32768) m.session_id m.sequence id (ask s).1))
  handle-Behaves file_download_request fuel m id s r h =
      let size = requested_size m.payload in
      then_true-Behaves id s _
        (download-Behaves (suc size) size m.session_id id 0 0 s r (omega arith) (omega arith))
  handle-Behaves file_upload_request fuel m id s r h =
      go_on-Behaves id s _ _ (acknowledge-Behaves (codes "ACK") m.session_id 0 id s) (λ _ s1 h1.
        then_true-Behaves id s1 _
          (upload-Behaves fuel (requested_size m.payload) id 0 s1 (omega arith)))
  handle-Behaves file_upload_chunk fuel m id s r h =
      then_true-Behaves id s _
        (acknowledge-Behaves (codes "CHUNK_ACK") m.session_id m.sequence id s)
  handle-Behaves connection_close fuel m id s r h = done-Behaves id false s
  handle-Behaves http_response fuel m id s r h = done-Behaves id true s
  handle-Behaves file_download_chunk fuel m id s r h = done-Behaves id true s
  handle-Behaves game_packet fuel m id s r h = done-Behaves id true s
  handle-Behaves http_get_request fuel m id s r h = done-Behaves id true s
  handle-Behaves http_get_response fuel m id s r h = done-Behaves id true s
  handle-Behaves resource_request fuel m id s r h = done-Behaves id true s
  handle-Behaves resource_response fuel m id s r h = done-Behaves id true s

  handle_message-Behaves :
      (fuel : ℕ) (m : Message) (id : ℕ) (s : Session F)
      → InRange w
      → length s.link.incoming < fuel
      → Behaves id s (handle_message c w fuel m id s)
  unfolding handle_message
  handle_message-Behaves fuel m id s r h = handle-Behaves m.message_type fuel m id s r h

  handle_error-Behaves :
      (id : ℕ) (e : WireError) (s : Session F)
      → e ≢ out_of_fuel
      → e ≢ panicked
      → Behaves id s (after_handle_error c w id e s)
  handle_error-Behaves id out_of_fuel s h k = absurd (h refl)
  handle_error-Behaves id panicked s h k = absurd (k refl)
  handle_error-Behaves id early_eof s h k = tell-Behaves id failed s
  handle_error-Behaves id timed_out s h k = tell-Behaves id failed s
  handle_error-Behaves id encode_failed s h k = tell-Behaves id failed s
  handle_error-Behaves id decode_failed s h k = tell-Behaves id failed s
  handle_error-Behaves id no_local_addr s h k = tell-Behaves id failed s
  handle_error-Behaves id (io_error text) s h k = tell-Behaves id failed s
  handle_error-Behaves id (too_large n) s h k = tell-Behaves id failed s

  if-Behaves :
      {B : Type 0} (id : ℕ) (b : Bool) (f g : Program F B) (s : Session F)
      → Behaves id s (f s)
      → Behaves id s (g s)
      → Behaves id s ((if b then f else g) s)
  if-Behaves id true f g s h k = h
  if-Behaves id false f g s h k = k

  ended :
      (t : Texts) (id : ℕ) (e : WireError) (s : Session F)
      → Behaves id s ((if tells_eof t e then return tt else tell id failed) s)
  ended t id e s =
      if-Behaves id (tells_eof t e) (return tt) (tell id failed) s (done-Behaves id tt s)
        (tell-Behaves id failed s)

  receive_error-Behaves :
      (t : Texts) (id : ℕ) (e : WireError) (s : Session F)
      → e ≢ out_of_fuel
      → e ≢ panicked
      → Behaves id s (after_receive_error c w t id e s)
  receive_error-Behaves t id out_of_fuel s h k = absurd (h refl)
  receive_error-Behaves t id panicked s h k = absurd (k refl)
  receive_error-Behaves t id early_eof s h k = ended t id early_eof s
  receive_error-Behaves t id timed_out s h k = ended t id timed_out s
  receive_error-Behaves t id encode_failed s h k = ended t id encode_failed s
  receive_error-Behaves t id decode_failed s h k = ended t id decode_failed s
  receive_error-Behaves t id no_local_addr s h k = ended t id no_local_addr s
  receive_error-Behaves t id (io_error text) s h k = ended t id (io_error text) s
  receive_error-Behaves t id (too_large n) s h k = ended t id (too_large n) s

  handled-Behaves :
      (id : ℕ) (s : Session F) (next : Program F (Unit {0})) (r : Result WireError Bool × Session F)
      → Behaves id s r
      → ((s' : Session F)
          → length s'.link.incoming ≤ length s.link.incoming
          → Behaves id s' (next s'))
      → Behaves id s (after_handled c w id next r)
  handled-Behaves id s next (err e, s') b k =
      later-Behaves id s (err e, s') _ b
        (handle_error-Behaves id e s' (λ q. b.fueled (ap err q)) (λ q. b.calm (ap err q)))
  handled-Behaves id s next (ok continues, s') b k =
      later-Behaves id s (ok continues, s') _ b
        (ask_then-Behaves id s' _ (
          tell_then-Behaves id (took (w.elapsed s'.asked)) _ _
            (if-Behaves id continues next (return tt) _ (k _ b.shorter) (done-Behaves id tt _))))

  serve_loop-Behaves :
      (t : Texts) (fuel id : ℕ) (s : Session F)
      → InRange w
      → length s.link.incoming < fuel
      → Behaves id s (serve_loop c w t fuel id s)
  unfolding serve_loop receive
  serve_loop-Behaves t zero id s r h = absurd (omega arith)
  serve_loop-Behaves t (suc fuel) id s r h =
      on_received (receive_message c s.link) (receive_message-Takes c s.link)
        (λ s'. serve_loop-Behaves t fuel id s' r)
    where
      next : Message → Program F (Unit {0})
      next message s' =
          after_handled c w id (serve_loop c w t fuel id) (handle_message c w fuel message id s')

      on_received :
          (o : Result WireError (Message × ℕ) × Link)
          → Takes 4 (length s.link.incoming) o
          → ((s' : Session F)
              → length s'.link.incoming < fuel
              → Behaves id s' (serve_loop c w t fuel id s'))
          → Behaves id s (after_received c w t id next (o.0, record s { link = o.1 }))
      on_received (err e, l) taken k =
          relink-Behaves id s l _ taken.2
            (receive_error-Behaves t id e (record s { link = l }) taken.0 taken.1)
      on_received (ok (message, n), l) taken k = relink-Behaves id s l _ (omega (arith, taken)) (
          tell_then-Behaves id packet_received _ _ (
            tell_then-Behaves id (received (length message.payload)) _ _ (
              handled-Behaves id _ (serve_loop c w t fuel id) _
                (handle_message-Behaves fuel message id _ r (omega (arith, taken, h)))
                (λ s' h'. k s' (omega (arith, taken, h, h'))))))

  -- A connection that is served, whatever its peer sends and however the bytes end, whatever the handlers
  -- draw at random, and whenever writing fails: the loop ends, since there are finitely many bytes; and at
  -- its end the collector counts as many active connections of each type as before it. The connection's
  -- identifier is new to the collector, and random numbers lie in their ranges.
  pub handle_connection-ends :
      (t : Texts) (k : ConnectionType) (now place id later : ℕ) (s : Session F)
      → InRange w
      → has_key id s.metrics.connections ≡ false
      → let (r, s') = handle_connection c w t now place id later s in
        (r ≢ err out_of_fuel)
        × (get_active_connections k s'.metrics ≡ get_active_connections k s.metrics)
  unfolding handle_connection
  handle_connection-ends t k now place id later s r fresh =
      elim (Bool-cases s.link.has_local_addr) [
        | inr no_addr ↦ with_addr (err no_local_addr, s) (local_addr_if no_addr) (λ p. cc, refl)
        | inl addr ↦
            let started : Session F = record s {
              metrics = start_connection now place id tcp s.metrics;
            } in
            let b =
              serve_loop-Behaves t (suc (length s.link.incoming)) id started r (omega arith) in
            let counts = active_lifecycle k tcp now later place id b.events s.metrics fresh in
            with_addr (ok tt, s) (local_addr_if addr)
              (
                b.fueled,
                ap (λ m. get_active_connections k (end_connection later id m)) b.noted ∙ counts.1,
              )
      ]
    where
      local_addr_if :
          {b : Bool}
          → s.link.has_local_addr ≡ b
          → local_addr s ≡ (if b then (ok tt, s) else (err no_local_addr, s))
      local_addr_if e = ap (λ x. if x then (ok tt, s) else (err no_local_addr, s)) e

      Served : Result WireError (Unit {0}) × Session F → Type 0
      Served (q, s') =
          (q ≢ err out_of_fuel)
          × (get_active_connections k s'.metrics ≡ get_active_connections k s.metrics)

      with_addr :
          (q : Result WireError (Unit {0}) × Session F)
          → local_addr s ≡ q
          → Served (go_on q (serve_connection c w t now place id later))
          → Served (go_on (local_addr s) (serve_connection c w t now place id later))
      with_addr q e v =
          subst (λ x. Served (go_on x (serve_connection c w t now place id later))) (sym e) v
