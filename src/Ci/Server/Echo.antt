-- ===== src/Ci/Server/Echo.antt =====
-- ci/src/server.rs: what `tcp_echo` writes and counts, and the number of its running tasks.
use npt.Prelude.{
  ltb, take, drop, take_all, take-append-drop, length-take, ◌⊎◌, ℕ, zero, suc, ◌+◌, ◌-◌, ◌%◌, ◌^◌,
  ◌≤◌, ◌<◌, ◌≡◌, ◌≢◌, refl, ap, sym, subst, ◌∙◌, List, [], ◌∷◌, ◌++◌, none, some, length, arith,
  append_assoc, append-nil, length-append, Bool-cases, inl, inr,
}
use npt.Prelude.Result.{Result-cases}
use npt.Prelude.Words.{add64}
use npt.Prelude.Bytes.{AllBytes, AllBytes-append}
use npt.Ci.Protocol.{Frame, encode, Stream, read, connection_error, max_payload}
use npt.Ci.Protocol.RoundTrip.{IsFrame, encode-read, length-encode}
use npt.Ci.Server.{
  ServeStats, no_stats, serve, ServeEvent, accepted, accept_failed, ended, EchoEnd, failed,
  out_of_fuel, Sink, frame_bytes, tcp_echo,
}

-- The frames of a list, one behind the other as they are written.
abbrev pub encode_all : List Frame → List ℕ
encode_all [] = []
encode_all (f ∷ fs) = encode f ++ encode_all fs

-- What an echo of the bytes `bytes` may have done, from the sink `w` and the counters `stats`: it has
-- written frames that it counted, and, if writing failed, as much as was written of one frame more.
pub record IsEcho (bytes : List ℕ) (w : Sink) (stats : ServeStats)
    (result : EchoEnd × Sink × ServeStats) : Type 0 where
  pub ends : result.0 ≢ out_of_fuel
  pub frames : List Frame
  pub partial : List ℕ
  pub unread : List ℕ
  pub verbatim : bytes ≡ encode_all frames ++ (partial ++ unread)
  pub written : result.1.written ≡ w.written ++ (encode_all frames ++ partial)
  pub counted :
      result.2.bytes_echoed % 2 ^ 64 ≡ (stats.bytes_echoed + length (encode_all frames)) % 2 ^ 64
  pub cut :
      (partial ≡ []) ⊎ ((result.0 ≡ failed connection_error) × (length partial ≤ 24 + max_payload))

echoed_nothing :
    (bytes : List ℕ) (w : Sink) (stats : ServeStats) (e : EchoEnd)
    → e ≢ out_of_fuel
    → IsEcho bytes w stats (e, w, stats)
echoed_nothing bytes w stats e h = record {
  ends = h;
  frames = [];
  partial = [];
  unread = bytes;
  verbatim = refl;
  written = sym (append-nil w.written);
  counted = omega arith;
  cut = inl refl;
}

-- One more frame in front of an echo.
echoed_frame :
    (f : Frame) (rest : List ℕ) (w w' : Sink) (stats : ServeStats) {bytes : List ℕ}
    {result : EchoEnd × Sink × ServeStats}
    → bytes ≡ encode f ++ rest
    → w'.written ≡ w.written ++ encode f
    → IsEcho rest w'
        (record stats { bytes_echoed = add64 stats.bytes_echoed (frame_bytes f) })
        result
    → IsEcho bytes w stats result
echoed_frame f rest w w' stats glue wrote v = record {
  ends = v.ends;
  frames = f ∷ v.frames;
  partial = v.partial;
  unread = v.unread;
  verbatim =
      glue
      ∙ ap (λ l. encode f ++ l) v.verbatim
      ∙ sym (append_assoc (encode f) (encode_all v.frames) (v.partial ++ v.unread));
  written =
      v.written
      ∙ ap (λ l. l ++ (encode_all v.frames ++ v.partial)) wrote
      ∙ append_assoc w.written (encode f) (encode_all v.frames ++ v.partial)
      ∙ ap (λ l. w.written ++ l) (sym (append_assoc (encode f) (encode_all v.frames) v.partial));
  counted =
      omega (arith, v.counted, length-append (encode f) (encode_all v.frames), length-encode f);
  cut = v.cut;
}

-- A part of a frame, or all of it, was written, and then writing or flushing failed.
echoed_part :
    (f : Frame) (rest : List ℕ) (n : ℕ) (w w' : Sink) (stats : ServeStats) {bytes : List ℕ}
    → IsFrame f
    → bytes ≡ encode f ++ rest
    → w'.written ≡ w.written ++ take n (encode f)
    → IsEcho bytes w stats (failed connection_error, w', stats)
echoed_part f rest n w w' stats fits glue wrote = record {
  ends = λ p. cc;
  frames = [];
  partial = take n (encode f);
  unread = drop n (encode f) ++ rest;
  verbatim =
      glue
      ∙ ap (λ l. l ++ rest) (sym (take-append-drop n (encode f)))
      ∙ append_assoc (take n (encode f)) (drop n (encode f)) rest;
  written = wrote;
  counted = omega arith;
  cut = inr (refl, omega (arith, length-take n (encode f), length-encode f, fits));
}

-- With more fuel than there are bytes, the echo of any stream of bytes ends by itself. Whatever the
-- stream holds and whenever writing or flushing fails, what was written is a first part of the bytes
-- that came in, byte for byte: whole frames, whose length `bytes_echoed` has grown by, modulo 2^64, and
-- behind them, only if the echo failed on its writing side, at most one frame's bytes that are not
-- counted.
pub tcp_echo-IsEcho :
    (fuel : ℕ) (r : Stream) (w : Sink) (stats : ServeStats)
    → length r.bytes < fuel
    → AllBytes r.bytes
    → IsEcho r.bytes w stats (tcp_echo fuel r w stats)
unfolding tcp_echo
tcp_echo-IsEcho zero r w stats h a = elim h [ ]
tcp_echo-IsEcho (suc fuel) r w stats h a = elim (Result-cases (read r)) [
  | inr (e, q) ↦ rw (q, tcp_echo) (echoed_nothing r.bytes w stats _ (λ p. cc))
  | inl ((none, r'), q) ↦ rw (q, tcp_echo) (echoed_nothing r.bytes w stats _ (λ p. cc))
  | inl ((some f, r'), q) ↦
      let (glue, fits, same) = encode-read r.bytes r.ending a q in
      elim (Bool-cases (ltb w.room (length (encode f)))) [
        | inl full ↦ rw (q, full, tcp_echo) (echoed_part f r'.bytes w.room w _ stats fits glue refl)
        | inr free ↦ elim (Bool-cases (ltb 0 w.flushes)) [
          | inr stuck ↦
              rw (q, free, stuck, tcp_echo)
                (echoed_part f r'.bytes (length (encode f)) w _ stats fits glue (
                  ap (λ l. w.written ++ l)
                    (sym (take_all (length (encode f)) (encode f) (omega arith)))))
          | inl flushed ↦
              rw (q, free, flushed, tcp_echo)
                (echoed_frame f r'.bytes w _ stats glue refl (
                  tcp_echo-IsEcho fuel r' _ _
                    (omega
                      (arith, ap length glue, length-append (encode f) r'.bytes, length-encode f))
                    (AllBytes-append (encode f) r'.bytes (subst AllBytes glue a)).1))
        ]
      ]
]

abbrev pub accepts : List ServeEvent → ℕ
accepts [] = 0
accepts (accepted ∷ es) = suc (accepts es)
accepts (accept_failed ∷ es) = accepts es
accepts (ended ∷ es) = accepts es

abbrev pub ends : List ServeEvent → ℕ
ends [] = 0
ends (accepted ∷ es) = ends es
ends (accept_failed ∷ es) = ends es
ends (ended ∷ es) = suc (ends es)

abbrev pub serve_all : List ServeEvent → ServeStats → ServeStats
serve_all [] s = s
serve_all (e ∷ es) s = serve_all es (serve e s)

serve_balance :
    (es : List ServeEvent) (s : ServeStats)
    → ((serve_all es s).tcp_active + ends es) % 2 ^ 64 ≡ (s.tcp_active + accepts es) % 2 ^ 64
unfolding serve
serve_balance [] s = omega arith
serve_balance (accepted ∷ es) s = omega (arith, serve_balance es (serve accepted s))
serve_balance (accept_failed ∷ es) s = omega (arith, serve_balance es s)
serve_balance (ended ∷ es) s = omega (arith, serve_balance es (serve ended s))

serve_range :
    (es : List ServeEvent) (s : ServeStats)
    → s.tcp_active < 2 ^ 64
    → (serve_all es s).tcp_active < 2 ^ 64
unfolding serve
serve_range [] s h = h
serve_range (accepted ∷ es) s h = serve_range es (serve accepted s) (omega arith)
serve_range (accept_failed ∷ es) s h = serve_range es s h
serve_range (ended ∷ es) s h = serve_range es (serve ended s) (omega arith)

-- If the tasks that ended are among the connections that were accepted, fewer than 2^64 in all, then
-- `tcp_active` is the number of accepted connections whose task has not ended, in whatever order
-- connections came and went.
pub tcp_active-serve_all :
    (es : List ServeEvent)
    → ends es ≤ accepts es
    → accepts es < 2 ^ 64
    → (serve_all es no_stats).tcp_active ≡ accepts es - ends es
tcp_active-serve_all es h k =
    omega (arith, serve_balance es no_stats, serve_range es no_stats (omega arith))
