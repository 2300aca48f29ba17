-- ===== src/Client/TcpClient/Programs.antt =====
-- client/src/tcp_client.rs: the bodies of the sessions, on their connections.
use npt.Prelude.{
  ℕ, zero, suc, ◌+◌, ◌-◌, ◌≤◌, ◌<◌, sym, subst, [], length, replicate, min, Bool, true, false, ◌||◌,
  ltb, leb, ◌==◌, arith, Bool-cases, inl, inr, if◌then◌else◌,
}
use npt.Prelude.Bytes.{le_bytes}
use npt.Prelude.Words.{add64}
use npt.Shared.Protocol.{
  Message, http_request, tls_handshake, file_upload_chunk, file_download_request,
  file_upload_request, connection_close, with_sequence,
}
use npt.Shared.Metrics.Connections.{sent, received, packet_sent, packet_received, took}
use npt.Wire.{Codec}
use npt.Wire.Session.{Session, World, Program, go_on, return, tell, receive}
use npt.Wire.Progress.{
  Behaves, go_on_assoc, go_on-Behaves, done-Behaves, tell-Behaves, tell_then-Behaves,
  ask_then-Behaves, make-Behaves, draw-Behaves, local_addr-Behaves, send-Behaves,
  receive_then-Behaves,
}
use npt.Client.TcpClient.{
  send_counted, receive_counted, say_goodbye, requests_loop, single_page, chunks_loop, download_on,
  send_chunk, upload_chunks, upload_on,
}

module _ {F : Type 0} (c : Codec) (w : World) where
  send_counted-Behaves :
      (id : ℕ) (m : Message) (s : Session F) → Behaves id s (send_counted c w id m s)
  send_counted-Behaves id m s =
      go_on-Behaves id s _ _ (send-Behaves c id m s)
        (λ n s' h. tell_then-Behaves id packet_sent s' _ (tell-Behaves id (sent n) _))

  -- What follows a response has fewer bytes before it.
  counted_then-Behaves :
      {B : Type 0} (id : ℕ) (s : Session F) (next : Program F B)
      → ((s' : Session F)
          → length s'.link.incoming < length s.link.incoming
          → Behaves id s' (next s'))
      → Behaves id s (go_on (receive_counted c w id s) (λ _. next))
  counted_then-Behaves id s next k =
      subst (Behaves id s) (sym (go_on_assoc (receive c s) _ (λ _. next))) (
        receive_then-Behaves c id s _ (λ m s' h. ask_then-Behaves id s' _ (
          tell_then-Behaves id (took (w.elapsed s'.asked)) _ _ (
            tell_then-Behaves id packet_received _ _
              (tell_then-Behaves id (received m.1) _ _ (k _ h))))))

  say_goodbye-Behaves :
      (id session_id : ℕ) (s : Session F) → Behaves id s (say_goodbye c w session_id s)
  say_goodbye-Behaves id session_id s =
      go_on-Behaves id s _ _ (make-Behaves id w connection_close [] session_id s) (λ m s' h.
        go_on-Behaves id s' _ _ (send-Behaves c id m s') (λ _ s'' h'. done-Behaves id tt s''))

  latency_noted :
      (id : ℕ) (b : Bool) (elapsed : ℕ) (s : Session F)
      → Behaves id s ((if b then tell id (took elapsed) else return tt) s)
  latency_noted id true elapsed s = tell-Behaves id (took elapsed) s
  latency_noted id false elapsed s = done-Behaves id tt s

  requests-Behaves :
      (left id session_id sequence : ℕ) (s : Session F)
      → Behaves id s (requests_loop c w left id session_id sequence s)
  unfolding requests_loop
  requests-Behaves zero id session_id sequence s = done-Behaves id tt s
  requests-Behaves (suc left) id session_id sequence s = ask_then-Behaves id s _ (
      go_on-Behaves id _ _ _
        (make-Behaves id w http_request (replicate (w.gen_range s.asked 1024 4096) 0) session_id _)
        (λ m s1 h1.
          go_on-Behaves id s1 _ _ (send_counted-Behaves id (with_sequence sequence m) s1)
            (λ _ s2 h2. counted_then-Behaves id s2 _ (λ s3 h3.
              ask_then-Behaves id s3 _ (elim (Bool-cases (w.stopped s3.asked)) [
                | inl e ↦ rw e (done-Behaves id tt _)
                | inr e ↦ rw e (requests-Behaves left id session_id (sequence + 1) _)
              ])))))

  chunks-Behaves :
      (fuel file_size id bytes_received chunk_count : ℕ) (s : Session F)
      → length s.link.incoming < fuel
      → Behaves id s (chunks_loop c w fuel file_size id bytes_received chunk_count s)
  unfolding chunks_loop
  chunks-Behaves zero file_size id bytes_received chunk_count s h = absurd (omega arith)
  chunks-Behaves (suc fuel) file_size id bytes_received chunk_count s h =
      elim (Bool-cases (ltb bytes_received file_size)) [
        | inr all ↦ rw (all, chunks_loop) (done-Behaves id tt s)
        | inl more ↦
            rw (more, chunks_loop)
              (receive_then-Behaves c id s _ (λ m s1 h1. tell_then-Behaves id packet_received s1 _ (
                tell_then-Behaves id (received m.1) _ _ (
                  ask_then-Behaves id _ _ (
                    go_on-Behaves id _ _ _
                      (latency_noted id (chunk_count == 0) (w.elapsed s1.asked) _)
                      (λ _ s2 h2.
                        let total = add64 bytes_received (length m.0.payload) in
                        elim (Bool-cases (leb file_size total || w.stopped s1.asked)) [
                          | inl e ↦ rw e (done-Behaves id tt s2)
                          | inr e ↦ rw e (
                              chunks-Behaves fuel file_size id total (chunk_count + 1) s2
                                (omega arith))
                        ]))))))
      ]

  pub download-Behaves :
      (fuel id session_id file_size : ℕ) (s : Session F)
      → length s.link.incoming < fuel
      → Behaves id s (download_on c w fuel id session_id file_size s)
  unfolding download_on
  download-Behaves fuel id session_id file_size s h =
      go_on-Behaves id s _ _ (local_addr-Behaves id s) (λ _ s1 h1.
        go_on-Behaves id s1 _ _
          (make-Behaves id w file_download_request (le_bytes 8 file_size) session_id s1)
          (λ m s2 h2. go_on-Behaves id s2 _ _ (send_counted-Behaves id m s2) (λ _ s3 h3.
            go_on-Behaves id s3 _ _ (chunks-Behaves fuel file_size id 0 0 s3 (omega arith))
              (λ _ s4 h4. say_goodbye-Behaves id session_id s4))))

  send_chunk-Behaves :
      (size session_id sequence id : ℕ) (s : Session F)
      → Behaves id s (send_chunk c w size session_id sequence id s)
  unfolding send_chunk
  send_chunk-Behaves size session_id sequence id s =
      go_on-Behaves id s _ _ (make-Behaves id w file_upload_chunk (replicate size 0) session_id s)
        (λ m s1 h1. send_counted-Behaves id (with_sequence sequence m) s1)

  upload_chunks-Behaves :
      (fuel file_size : ℕ) (chunk_size : ℕ × ℕ) (session_id id bytes_sent sequence : ℕ)
      (s : Session F)
      → chunk_size.0 ≤ chunk_size.1
      → length s.link.incoming < fuel
      → Behaves id s
          (upload_chunks c w fuel file_size chunk_size session_id id bytes_sent sequence s)
  unfolding upload_chunks
  upload_chunks-Behaves zero file_size chunk_size session_id id bytes_sent sequence s r h =
      absurd (omega arith)
  upload_chunks-Behaves (suc fuel) file_size chunk_size session_id id bytes_sent sequence s r h =
      elim (Bool-cases (ltb bytes_sent file_size)) [
        | inr all ↦ rw (all, upload_chunks) (done-Behaves id tt s)
        | inl more ↦
            rw (more, upload_chunks)
              (go_on-Behaves id s _ _ (draw-Behaves id w chunk_size.0 chunk_size.1 s r)
                (λ drawn s0 h0.
                  let size = min drawn (file_size - bytes_sent) in
                  go_on-Behaves id s0 _ _ (send_chunk-Behaves size session_id sequence id s0)
                    (λ _ s1 h1. counted_then-Behaves id s1 _ (λ s2 h2.
                      ask_then-Behaves id s2 _ (elim (Bool-cases (w.stopped s2.asked)) [
                        | inl e ↦ rw e (done-Behaves id tt _)
                        | inr e ↦ rw e (
                            upload_chunks-Behaves fuel file_size chunk_size session_id id
                              (bytes_sent + size) (sequence + 1) _ r (omega arith))
                      ])))))
      ]

  pub upload-Behaves :
      (fuel id session_id file_size : ℕ) (chunk_size : ℕ × ℕ) (s : Session F)
      → chunk_size.0 ≤ chunk_size.1
      → length s.link.incoming < fuel
      → Behaves id s (upload_on c w fuel id session_id file_size chunk_size s)
  unfolding upload_on
  upload-Behaves fuel id session_id file_size chunk_size s r h =
      go_on-Behaves id s _ _ (local_addr-Behaves id s) (λ _ s1 h1.
        go_on-Behaves id s1 _ _
          (make-Behaves id w file_upload_request (le_bytes 8 file_size) session_id s1)
          (λ m s2 h2. go_on-Behaves id s2 _ _ (send-Behaves c id m s2) (λ _ s3 h3.
            tell_then-Behaves id packet_sent s3 _ (
              tell_then-Behaves id (sent (length m.payload)) _ _ (
                counted_then-Behaves id _ _ (λ s4 h4.
                  go_on-Behaves id s4 _ _
                    (upload_chunks-Behaves fuel file_size chunk_size session_id id 0 0 s4 r
                      (omega arith))
                    (λ _ s5 h5. say_goodbye-Behaves id session_id s5)))))))

  pub page-Behaves :
      (id session_id : ℕ) (requests_per_page : ℕ × ℕ) (s : Session F)
      → requests_per_page.0 ≤ requests_per_page.1
      → Behaves id s (single_page c w id session_id requests_per_page s)
  unfolding single_page
  page-Behaves id session_id (low, high) s r =
      go_on-Behaves id s _ _ (local_addr-Behaves id s) (λ _ s1 h1. ask_then-Behaves id s1 _ (
        go_on-Behaves id _ _ _
          (make-Behaves id w tls_handshake (replicate (w.gen_range s1.asked 400 2000) 0) session_id
            _)
          (λ m s2 h2. go_on-Behaves id s2 _ _ (send_counted-Behaves id m s2) (λ _ s3 h3.
            counted_then-Behaves id s3 _ (λ s4 h4.
              go_on-Behaves id s4 _ _ (draw-Behaves id w low high s4 r) (λ num_requests s4' h4'.
                go_on-Behaves id _ _ _ (requests-Behaves num_requests id session_id 0 _)
                  (λ _ s5 h5. say_goodbye-Behaves id session_id s5)))))))
