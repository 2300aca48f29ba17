-- ===== src/Client/QuicClient/Exchange.antt =====
-- client/src/quic_client.rs and server/src/quic_server.rs: a request for a resource and its answer.
use npt.Prelude.{
  ℕ, zero, suc, ◌+◌, ◌-◌, ◌≤◌, ◌<◌, ◌≡◌, ◌≢◌, refl, ap, sym, ◌∙◌, List, [], ◌∷◌, ◌++◌, append-nil,
  append_assoc, some, length, length-append, length-take, length-replicate, take, drop, replicate,
  count, count-append, min, Bool, true, false, ◌&&◌, leb, ltb, lt→ltb, ◌==◌, Bool-cases, inl, inr,
  arith,
}
use npt.Prelude.Result.{Result, ok, err}
use npt.Prelude.Text.{codes, starts_with}
use npt.Shared.Metrics.{MetricsCollector}
use npt.Shared.Metrics.Connections.{sent, received, packet_sent, packet_received, took}
use npt.Shared.Metrics.Activity.{note_all}
use npt.Server.QuicServer.{
  QuicState, StreamError, crlf_twice, ends_with, read_request, before_feed, without_return,
  first_line, response_size, random_bytes, with_header, generate_response, handle_stream,
}
use npt.Client.QuicClient.{
  read_all, read_response, expected_min_size, checked_response, request_data, request_resource,
}

-- Buffers that a stream's reads fill: none is empty.
abbrev pub Filled : List (List ℕ) → Type 0
Filled [] = Unit
Filled (b ∷ bs) = (0 < length b) × Filled bs

abbrev pub joined : List (List ℕ) → List ℕ
joined [] = []
joined (b ∷ bs) = b ++ joined bs

read_response-joined :
    (acc : List ℕ) (bs : List (List ℕ)) → Filled bs → read_response acc bs ≡ acc ++ joined bs
read_response-joined acc [] f = sym (append-nil acc)
read_response-joined acc (b ∷ bs) (h, f) =
    let some_bytes : (length b == 0) ≡ false = ground arith in
    rw some_bytes (read_response-joined (acc ++ b) bs f ∙ append_assoc acc b (joined bs))

is_feed : ℕ → Bool
is_feed c = c == 10

count-starts_with :
    (word s : List ℕ) → starts_with word s ≡ true → count is_feed word ≤ count is_feed s
count-starts_with [] s h = omega arith
count-starts_with (c ∷ cs) [] h = cc
count-starts_with (c ∷ cs) (d ∷ ds) h = ground (arith, count-starts_with cs ds)

count-drop : (n : ℕ) (s : List ℕ) → count is_feed (drop n s) ≤ count is_feed s
count-drop zero s = omega arith
count-drop (suc n) [] = omega arith
count-drop (suc n) (c ∷ cs) = omega (arith, count-drop n cs)

and_false : (b : Bool) → (b && false) ≡ false
and_false true = refl
and_false false = refl

-- With one line feed at most, a request does not end in the two of an HTTP request.
one_feed : (bytes : List ℕ) → count is_feed bytes ≤ 1 → ends_with crlf_twice bytes ≡ false
unfolding is_feed
one_feed bytes h =
    let tail = drop (length bytes - 4) bytes in
    elim (Bool-cases (starts_with crlf_twice tail)) [
      | inl e ↦
          absurd (
            omega (arith, count-starts_with crlf_twice tail e, count-drop (length bytes - 4) bytes))
      | inr e ↦ rw e (and_false (leb 4 (length bytes)))
    ]

read_request-joined :
    (acc : List ℕ) (bs : List (List ℕ))
    → Filled bs
    → count is_feed (acc ++ joined bs) ≤ 1
    → read_request acc bs ≡ acc ++ joined bs
read_request-joined acc [] f h = sym (append-nil acc)
read_request-joined acc (b ∷ bs) (g, f) h =
    let some_bytes : (length b == 0) ≡ false = ground arith in
    let parts = append_assoc acc b (joined bs) in
    let fewer : count is_feed (acc ++ b) ≤ 1 =
      omega (arith, ap (count is_feed) parts, count-append is_feed (acc ++ b) (joined bs)) in
    rw (some_bytes, one_feed (acc ++ b) fewer)
      (read_request-joined (acc ++ b) bs f (omega (arith, ap (count is_feed) parts)) ∙ parts)

-- ASCII without the ends of a line
abbrev pub OneLine : List ℕ → Type 0
OneLine [] = Unit
OneLine (c ∷ cs) = (c < 128) × (c ≢ 10) × (c ≢ 13) × OneLine cs

abbrev pub Ascii : List ℕ → Type 0
Ascii [] = Unit
Ascii (c ∷ cs) = (c < 128) × Ascii cs

OneLine-feeds : (s : List ℕ) → OneLine s → count is_feed s ≡ 0
unfolding is_feed
OneLine-feeds [] l = refl
OneLine-feeds (c ∷ cs) (a, b, d, l) = ground (arith, OneLine-feeds cs l)

OneLine-append-Ascii :
    (path session_id : List ℕ)
    → OneLine path
    → OneLine session_id
    → Ascii (request_data path session_id)
OneLine-append-Ascii [] [] l k = (omega arith, tt)
OneLine-append-Ascii [] (c ∷ cs) l (a, b, d, k) =
    (omega arith, (a, (OneLine-append-Ascii [] cs l k).1))
OneLine-append-Ascii (c ∷ cs) session_id (a, b, d, l) k =
    (a, OneLine-append-Ascii cs session_id l k)

before_feed-request :
    (path rest : List ℕ) → OneLine path → before_feed (path ++ 10 ∷ rest) ≡ some path
before_feed-request [] rest l = refl
before_feed-request (c ∷ cs) rest (a, b, d, l) =
    let other : (c == 10) ≡ false = ground arith in rw (other, before_feed-request cs rest l) refl

without_return-line : (path : List ℕ) → OneLine path → without_return path ≡ path
without_return-line [] l = refl
without_return-line (c ∷ cs) (a, b, d, l) =
    let other : (c == 13) ≡ false = ground arith in rw (other, without_return-line cs l) refl

first_line-request :
    (path rest : List ℕ) → OneLine path → first_line (path ++ 10 ∷ rest) ≡ some path
first_line-request path rest l =
    rw (before_feed-request path rest l, without_return-line path l) refl

response_size_bounds :
    (path : List ℕ) → (256 ≤ response_size path) × (expected_min_size path ≤ response_size path)
response_size_bounds path = ground arith

length-random_bytes : (rand : ℕ → ℕ) (i n : ℕ) → length (random_bytes rand i n) ≡ n
length-random_bytes rand i zero = refl
length-random_bytes rand i (suc n) = ap suc (length-random_bytes rand (i + 1) n)

length-with_header : (header : List ℕ) (size : ℕ) → length (with_header header size) ≡ size
length-with_header header size =
    let m = min (length header) size in
    omega (
      arith,
      length-append (take m header) (replicate (size - m) 0),
      length-take m header,
      length-replicate {A = ℕ} (size - m) 0,
    )

length-generate_response :
    (rand : ℕ → ℕ) (path rest : List ℕ)
    → OneLine path
    → length (generate_response rand (path ++ 10 ∷ rest)) ≡ response_size path
unfolding generate_response
length-generate_response rand path rest l =
    let size = response_size path in
    let header = codes "RESP:" ++ (path ++ 10 ∷ []) in
    let front = with_header header size in
    let long : ltb 16 (length front) ≡ true =
      lt→ltb 16 (length front)
        (omega (arith, length-with_header header size, (response_size_bounds path).0)) in
    rw (first_line-request path rest l, long)
      (omega (
        arith,
        length-append (take (length front - 16) front) (random_bytes rand (length front - 16) 16),
        length-take (length front - 16) front,
        length-random_bytes rand (length front - 16) 16,
        length-with_header header size,
        (response_size_bounds path).0,
      ))

-- What the client makes of a response that is long enough.
checked_ok :
    {F : Type 0} (id elapsed : ℕ) (path response : List ℕ) (m : MetricsCollector F)
    → 0 < length response
    → expected_min_size path ≤ length response
    → checked_response id elapsed path response m
      ≡ (ok tt, note_all id (packet_received ∷ received (length response) ∷ took elapsed ∷ []) m)
checked_ok id elapsed path response m h k =
    let some_bytes : (length response == 0) ≡ false = ground arith in
    let enough : ltb (length response) (expected_min_size path) ≡ false = ground arith in
    rw (some_bytes, enough) refl

-- The bytes that a server puts on a stream
abbrev pub written : Result StreamError (List ℕ) → List ℕ
written (ok response) = response
written (err _) = []

module _ {F : Type 0} (lossy : List ℕ → List ℕ) (rand : ℕ → ℕ) (now latency remote_addr : ℕ)
    (path session_id : List ℕ) (reads : List (List ℕ)) (server : QuicState F)
    (keeps : (text : List ℕ) → Ascii text → lossy text ≡ text) (line : OneLine path)
    (name : OneLine session_id) (filled : Filled reads)
    (whole : joined reads ≡ request_data path session_id) where
  server_answers :
      (handle_stream lossy rand now latency remote_addr reads true server).0
      ≡ ok (generate_response rand (request_data path session_id))
  unfolding handle_stream is_feed
  server_answers =
      let request = request_data path session_id in
      let feeds : count is_feed (joined reads) ≤ 1 = omega (
        arith,
        ap (count is_feed) whole,
        count-append is_feed path (10 ∷ session_id),
        OneLine-feeds path line,
        OneLine-feeds session_id name,
      ) in
      let read : read_request [] reads ≡ request =
        read_request-joined [] reads filled feeds ∙ whole in
      let some_bytes : (length request == 0) ≡ false =
        ground (arith, length-append path (10 ∷ session_id)) in
      rw (read, some_bytes, keeps request (OneLine-append-Ascii path session_id line name)) refl

  -- A resource that the client asks for arrives, however the network cuts the request and the response into
  -- reads: the server answers a request for any path with a response of its size for that path, and
  -- the client takes it as a success, since that size is at least the least one that it expects; it has then
  -- recorded one packet each way, with all the bytes of the request and the response. The conditions: the
  -- path and the session's identifier are ASCII on one line, `from_utf8_lossy` leaves ASCII alone, the server
  -- can write, and each side sees all bytes that the other sent, with no read that is empty.
  pub quic_resource_delivered :
      {G : Type 0} (id elapsed : ℕ) (buffers : List (List ℕ)) (m : MetricsCollector G)
      → Filled buffers
      → let answer = (handle_stream lossy rand now latency remote_addr reads true server).0 in
        joined buffers ≡ written answer
        → (answer ≡ ok (joined buffers))
          × (length (joined buffers) ≡ response_size path)
          × (request_resource id session_id path (read_all elapsed buffers) m ≡ (
            ok tt,
            note_all id
                (packet_sent
                  ∷ sent (length (request_data path session_id))
                  ∷ packet_received
                  ∷ received (response_size path)
                  ∷ took elapsed
                  ∷ [])
                m,
          ))
  unfolding request_resource
  quic_resource_delivered id elapsed buffers m full delivered =
      let request = request_data path session_id in
      let response = generate_response rand request in
      let same : joined buffers ≡ response = delivered ∙ ap written server_answers in
      let size : length (joined buffers) ≡ response_size path =
        ap length same ∙ length-generate_response rand path session_id line in
      let (low, least) = response_size_bounds path in
      let read : read_response [] buffers ≡ joined buffers = read_response-joined [] buffers full in
      let asked = note_all id (packet_sent ∷ sent (length request) ∷ []) m in
      (
        server_answers ∙ ap ok (sym same),
        size,
        ap (λ r. checked_response id elapsed path r asked) read
            ∙ checked_ok id elapsed path (joined buffers) asked (omega (arith, size, low))
                (omega (arith, size, least))
            ∙ ap
                (λ n. (ok tt, note_all id (packet_received ∷ received n ∷ took elapsed ∷ []) asked))
                size,
      )
