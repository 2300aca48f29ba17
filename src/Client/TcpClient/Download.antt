-- ===== src/Client/TcpClient/Download.antt =====
-- client/src/tcp_client.rs and server/src/tcp_server.rs: the loop that receives a file against the loop that
-- sends it.
use npt.Prelude.{
  ℕ, zero, suc, ◌+◌, ◌-◌, ◌^◌, ◌≤◌, ◌<◌, ◌≡◌, refl, ap, sym, subst, ◌∙◌, List, [], ◌++◌,
  append_assoc, append-nil, length, drop, drop-append, min, true, false, ltb, leb, arith,
  Bool-cases, inl, inr,
}
use npt.Prelude.Result.{Result, ok, err}
use npt.Prelude.Bytes.{le_bytes, from_le_bytes-le_bytes}
use npt.Prelude.Words.{add64}
use npt.Shared.Protocol.{Message, file_download_request, new_message}
use npt.Wire.{Codec, WireError, framed}
use npt.Wire.Session.{Session, World, InRange, go_on, return}
use npt.Wire.RoundTrip.{Carries}
use npt.Server.TcpServer.{requested_size, download_loop, handle_file_download, handle_message}
use npt.Client.TcpClient.{chunks_loop}
use npt.Client.TcpClient.Chunks.{
  chunk_of, payload-chunk_of, send_chunk-writes, stops_or, chunk_received, whole_received,
}

-- The serializer carries each chunk of at most 64 KiB that the server makes in a session.
abbrev pub CarriesChunks : Codec → World → (session_id : ℕ) (bytes_of : ℕ → ℕ → ℕ → List ℕ) → Type 0
CarriesChunks c w session_id bytes_of =
    (i sequence n : ℕ)
    → n ≤ 65536
    → Carries c (chunk_of w session_id i sequence n) (bytes_of i sequence n)

module _ {F : Type 0} (G : Type 0) (c : Codec) (w' : World) where
  -- What the server puts on its connection from `bytes_sent` on brings a client, that has received as much,
  -- to the end of the file.
  record Delivers (file_size id' bytes_sent : ℕ) (s : Session F)
      (o : Result WireError (Unit {0}) × Session F) : Type 0 where
    bytes : List ℕ
    sent : o.0 ≡ ok tt
    written : o.1.link.written ≡ s.link.written ++ bytes
    arrives :
        (fuel chunk_count : ℕ) (rest : List ℕ) (t : Session G)
        → file_size - bytes_sent < fuel
        → t.link.incoming ≡ bytes ++ rest
        → (t' : Session G) × (chunks_loop c w' fuel file_size id' bytes_sent chunk_count t
            ≡ (ok tt, t'))
          × (t'.link.incoming ≡ rest)

  -- A chunk in front of the rest of the file.
  chunk-Delivers :
      (file_size id' size : ℕ) (m : Message) (frame : List ℕ) (sent : ℕ) (s s' : Session F)
      (o : Result WireError (Unit {0}) × Session F)
      → ((i : ℕ) → w'.stopped i ≡ false)
      → Carries c m frame
      → length m.payload ≡ size
      → 1 ≤ size
      → sent + size ≤ file_size
      → file_size < 2 ^ 64
      → s'.link.written ≡ s.link.written ++ framed frame
      → Delivers file_size id' (sent + size) s' o
      → Delivers file_size id' sent s o
  chunk-Delivers file_size id' size m frame sent s s' o going k len pos fits range w1 d = record {
    bytes = framed frame ++ d.bytes;
    sent = d.sent;
    written =
        d.written ∙ ap (λ b. b ++ d.bytes) w1 ∙ append_assoc s.link.written (framed frame) d.bytes;
    arrives = arrives;
  }
    where
      next :
          (fuel chunk_count : ℕ) (rest : List ℕ) (t : Session G)
          → file_size - (sent + size) < fuel
          → t.link.incoming ≡ d.bytes ++ rest
          → (t' : Session G) × (stops_or
                (leb file_size (sent + size))
                (chunks_loop c w' fuel file_size id' (sent + size) chunk_count)
                t
              ≡ (ok tt, t'))
            × (t'.link.incoming ≡ rest)
      next fuel chunk_count rest t h e = elim (Bool-cases (leb file_size (sent + size))) [
        | inr more ↦ rw more (d.arrives fuel chunk_count rest t h e)
        | inl done ↦
            let all : sent + size ≡ file_size = ground arith in
            let (t', same, left) = d.arrives 1 chunk_count rest t (omega arith) e in
            let stays : t' ≡ t =
              ap (λ p. p.1)
                (sym same
                  ∙ ap (λ n. chunks_loop c w' 1 file_size id' n chunk_count t) all
                  ∙ whole_received c w' 0 file_size id' chunk_count t) in
            rw done (t, refl, ap (λ u. u.link.incoming) (sym stays) ∙ left)
      ]

      arrives :
          (fuel chunk_count : ℕ) (rest : List ℕ) (t : Session G)
          → file_size - sent < fuel
          → t.link.incoming ≡ (framed frame ++ d.bytes) ++ rest
          → (t' : Session G) × (chunks_loop c w' fuel file_size id' sent chunk_count t
              ≡ (ok tt, t'))
            × (t'.link.incoming ≡ rest)
      arrives zero chunk_count rest t h e = absurd (omega arith)
      arrives (suc fuel) chunk_count rest t h e =
          let (t1, same, left) =
            chunk_received c w' fuel file_size id' sent chunk_count m frame (d.bytes ++ rest) t
              going k (e ∙ append_assoc (framed frame) d.bytes rest) (omega arith) in
          let exact : add64 sent (length m.payload) ≡ sent + size = omega (arith, len) in
          let (t2, same', left') = next fuel (chunk_count + 1) rest t1 (omega arith) left in
          (
            t2,
            same
                ∙ ap
                    (λ n.
                      stops_or (leb file_size n)
                        (chunks_loop c w' fuel file_size id' n (chunk_count + 1)) t1)
                    exact
                ∙ same',
            left',
          )

  -- Nothing more is sent once the whole file is.
  whole-Delivers :
      (file_size id' : ℕ) (s : Session F) → Delivers file_size id' file_size s (ok tt, s)
  whole-Delivers file_size id' s = record {
    bytes = [];
    sent = refl;
    written = sym (append-nil s.link.written);
    arrives = arrives;
  }
    where
      arrives :
          (fuel chunk_count : ℕ) (rest : List ℕ) (t : Session G)
          → file_size - file_size < fuel
          → t.link.incoming ≡ rest
          → (t' : Session G) × (chunks_loop c w' fuel file_size id' file_size chunk_count t
              ≡ (ok tt, t'))
            × (t'.link.incoming ≡ rest)
      arrives zero chunk_count rest t h e = absurd (omega arith)
      arrives (suc fuel) chunk_count rest t h e =
          (t, whole_received c w' fuel file_size id' chunk_count t, e)

  loop-Delivers :
      (w : World) (fuel file_size session_id id id' sent sequence : ℕ)
      (bytes_of : ℕ → ℕ → ℕ → List ℕ) (s : Session F)
      → InRange w
      → ((i : ℕ) → w'.stopped i ≡ false)
      → CarriesChunks c w session_id bytes_of
      → sent ≤ file_size
      → file_size - sent < fuel
      → file_size - sent ≤ s.link.room
      → file_size < 2 ^ 64
      → Delivers file_size id' sent s
          (download_loop c w fuel file_size session_id id sent sequence s)
  unfolding download_loop
  loop-Delivers w zero file_size session_id id id' sent sequence bytes_of s r going k h f room
        range =
      absurd (omega arith)
  loop-Delivers w (suc fuel) file_size session_id id id' sent sequence bytes_of s r going k h f room
        range =
      elim (Bool-cases (ltb sent file_size)) [
        | inr whole ↦
            let same : file_size ≡ sent = ground arith in
            rw (whole, download_loop)
              (subst (λ n. Delivers file_size id' n s (ok tt, s)) same
                (whole-Delivers file_size id' s))
        | inl more ↦
            let less : sent < file_size = ground arith in
            let low : 4096 ≤ w.gen_range s.asked 4096 65536 =
              r.lower s.asked 4096 65536 (omega arith) in
            let high : w.gen_range s.asked 4096 65536 ≤ 65536 =
              r.upper s.asked 4096 65536 (omega arith) in
            let size = min (w.gen_range s.asked 4096 65536) (file_size - sent) in
            let asked : Session F = record s { asked = s.asked + 1 } in
            let carried = k (s.asked + 1) sequence size (omega arith) in
            let (s', same, w1, r1) =
              send_chunk-writes c w size session_id sequence id
                (bytes_of (s.asked + 1) sequence size) asked carried (omega arith) in
            rw (more, download_loop)
              (rw (same, download_loop)
                (chunk-Delivers file_size id' size
                  (chunk_of w session_id (s.asked + 1) sequence size)
                  (bytes_of (s.asked + 1) sequence size) sent s s' _ going carried
                  (payload-chunk_of w session_id (s.asked + 1) sequence size) (omega arith)
                  (omega arith) range w1
                  (loop-Delivers w fuel file_size session_id id id' (sent + size) (sequence + 1)
                    bytes_of s' r going k (omega arith) (omega arith) (omega (arith, r1)) range)))
      ]

-- The request of the client, as it makes it at its question `i`.
abbrev pub request_of : World → (session_id i file_size : ℕ) → Message
request_of w session_id i file_size =
    new_message (w.new_uuid i) (w.now i) file_download_request (le_bytes 8 file_size) session_id

module _ {F : Type 0} where
  then_true :
      (o : Result WireError (Unit {0}) × Session F)
      → o.0 ≡ ok tt
      → go_on o (λ _. return true) ≡ (ok true, o.1)
  then_true (ok tt, s) h = refl
  then_true (err e, s) h = cc

module _ {F G : Type 0} (c : Codec) (w w' : World) where
  handle-Delivers :
      (fuel file_size session_id id id' i : ℕ) (bytes_of : ℕ → ℕ → ℕ → List ℕ) (s : Session F)
      → InRange w
      → ((i : ℕ) → w'.stopped i ≡ false)
      → CarriesChunks c w session_id bytes_of
      → file_size ≤ s.link.room
      → file_size < 2 ^ 64
      → (s' : Session F) × (handle_message c w fuel (request_of w' session_id i file_size) id s
          ≡ (ok true, s'))
        × Delivers G c w' file_size id' 0 s (ok tt, s')
  unfolding handle_message handle_file_download new_message
  handle-Delivers fuel file_size session_id id id' i bytes_of s r going k room range =
      let named : requested_size (le_bytes 8 file_size) ≡ file_size =
        from_le_bytes-le_bytes 8 file_size (omega arith) in
      let o = download_loop c w (suc file_size) file_size session_id id 0 0 s in
      let d : Delivers G c w' file_size id' 0 s o =
        loop-Delivers G c w' w (suc file_size) file_size session_id id id' 0 0 bytes_of s r going k
          (omega arith) (omega arith) (omega arith) range in
      (
        o.1,
        rw named (then_true o d.sent),
        record { bytes = d.bytes; sent = refl; written = d.written; arrives = d.arrives },
      )

  -- A file that the server sends arrives whole: the server answers the client's request for `file_size` bytes
  -- in full, and the client's loop, on what the server has put on the connection, ends well with fuel
  -- above the size, and leaves exactly what follows the file. The chunks have the sizes that the
  -- server draws. The conditions:
  -- `gen_range` keeps to its range, the client is not told to stop, the serializer carries the chunks, the
  -- connection takes the messages, and the size is below 2^64.
  pub download_delivers :
      (fuel fuel' file_size session_id id id' i chunk_count : ℕ) (bytes_of : ℕ → ℕ → ℕ → List ℕ)
      (s : Session F) (t : Session G) (rest : List ℕ)
      → InRange w
      → ((i : ℕ) → w'.stopped i ≡ false)
      → CarriesChunks c w session_id bytes_of
      → file_size ≤ s.link.room
      → file_size < 2 ^ 64
      → file_size < fuel'
      → let served = handle_message c w fuel (request_of w' session_id i file_size) id s in
        s.link.written ++ t.link.incoming ≡ served.1.link.written ++ rest
        → let (r, t') = chunks_loop c w' fuel' file_size id' 0 chunk_count t in
          (served.0 ≡ ok true) × (r ≡ ok tt) × (t'.link.incoming ≡ rest)
  download_delivers fuel fuel' file_size session_id id id' i chunk_count bytes_of s t rest r going k
        room range enough joined =
      let (s', same, d) =
        handle-Delivers fuel file_size session_id id id' i bytes_of s r going k room range in
      let sent = s.link.written in
      let line : sent ++ t.link.incoming ≡ sent ++ (d.bytes ++ rest) =
        joined
        ∙ ap (λ o. o.1.link.written ++ rest) same
        ∙ ap (λ b. b ++ rest) d.written
        ∙ append_assoc sent d.bytes rest in
      let there : t.link.incoming ≡ d.bytes ++ rest =
        sym (drop-append (length sent) sent t.link.incoming refl)
        ∙ ap (drop (length sent)) line
        ∙ drop-append (length sent) sent (d.bytes ++ rest) refl in
      let (t', same', left) = d.arrives fuel' chunk_count rest t (omega arith) there in
      (ap (λ o. o.0) same, ap (λ o. o.0) same', ap (λ o. o.1.link.incoming) same' ∙ left)
