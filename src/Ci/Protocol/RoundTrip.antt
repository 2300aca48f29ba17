-- ===== src/Ci/Protocol/RoundTrip.antt =====
-- ci/src/protocol.rs: writing against reading.
use npt.Prelude.{
  ℕ, ◌+◌, ◌%◌, ◌^◌, ◌≤◌, ◌<◌, ◌≡◌, ◌≢◌, refl, ap, ap₂, sym, ◌∙◌, List, [], ◌++◌, none, some, length,
  take, drop, arith, append-nil, length-drop, length-take, drop-drop, take-append-drop, drop_all,
  Option-cases, inl, inr,
}
use npt.Prelude.Result.{ok, err, >>=-eq-ok}
use npt.Prelude.Bytes.{
  le_bytes, split_exact, AllBytes, from_le_bytes-le_bytes, le_bytes-from_le_bytes, from_le_bytes-lt,
  split_exact-append, split_exact_short, split_exact_parts, AllBytes-take, AllBytes-drop,
  AllBytes-append,
}
use npt.Ci.Protocol.{
  magic, header_len, max_payload, Frame, encode, Ending, closed, broken, Stream, ending_error,
  Header, field, parse_header, read_payload, after_header, read, encode_udp, decode_udp,
}

-- A frame whose fields are in the range of their types and whose payload the reader accepts.
pub record IsFrame (f : Frame) : Type 0 where
  pub seq_fits : f.seq < 256 ^ 8
  pub ts_fits : f.send_ts_micros < 256 ^ 8
  pub payload_fits : length f.payload ≤ max_payload

-- The header that `encode` writes for a payload of `len` bytes.
abbrev pub header_bytes : ℕ → ℕ → ℕ → List ℕ
header_bytes len seq ts =
    le_bytes 4 magic ++ (le_bytes 4 (len % 2 ^ 32) ++ (le_bytes 8 seq ++ le_bytes 8 ts))

encode_lem :
    (f : Frame) (rest : List ℕ)
    → encode f ++ rest
      ≡ header_bytes (length f.payload) f.seq f.send_ts_micros ++ (f.payload ++ rest)
unfolding encode
encode_lem f rest = refl

parse_header_bytes :
    (len seq ts : ℕ)
    → len ≤ max_payload
    → seq < 256 ^ 8
    → ts < 256 ^ 8
    → parse_header (header_bytes len seq ts)
      ≡ ok (record { len = len; seq = seq; send_ts_micros = ts })
unfolding parse_header
parse_header_bytes len seq ts hl hs ht = ground (
  arith,
  from_le_bytes-le_bytes 4 (len % 2 ^ 32) (omega arith),
  from_le_bytes-le_bytes 8 seq hs,
  from_le_bytes-le_bytes 8 ts ht,
)

pub length-encode : (f : Frame) → length (encode f) ≡ header_len + length f.payload
unfolding encode
length-encode f = omega arith

-- `read` on a header that is in order goes on with the payload.
read_header :
    (header rest : List ℕ) (ending : Ending) (h : Header)
    → length header ≡ header_len
    → parse_header header ≡ ok h
    → read (record { bytes = header ++ rest; ending = ending })
      ≡ read_payload h (record { bytes = rest; ending = ending })
unfolding read
read_header header rest ending h e p = rw (split_exact-append 24 header rest e, p)

-- Reading what `encode` wrote for a frame in range gives that frame, and leaves what follows it.
pub read-encode :
    (f : Frame) (rest : List ℕ) (ending : Ending)
    → IsFrame f
    → read (record { bytes = encode f ++ rest; ending = ending })
      ≡ ok (some f, record { bytes = rest; ending = ending })
read-encode f rest ending v = rw (encode_lem f rest) (
    read_header (header_bytes (length f.payload) f.seq f.send_ts_micros) (f.payload ++ rest) ending
      _ refl
      (parse_header_bytes (length f.payload) f.seq f.send_ts_micros v.payload_fits v.seq_fits
        v.ts_fits)
    ∙ rw (split_exact-append (length f.payload) f.payload rest refl))

-- Fewer bytes than a header before a clean close read as a clean end of the stream, not only none.
pub read_short :
    (bytes : List ℕ)
    → length bytes < header_len
    → read (record { bytes = bytes; ending = closed })
      ≡ ok (none, record { bytes = []; ending = closed })
unfolding read
read_short bytes h = rw (split_exact_short 24 bytes h)

parse_header_fields :
    (header : List ℕ) (h : Header)
    → parse_header header ≡ ok h
    → (field 0 4 header ≡ magic)
      × (field 4 4 header ≡ h.len)
      × (field 8 8 header ≡ h.seq)
      × (field 16 8 header ≡ h.send_ts_micros)
      × (h.len ≤ max_payload)
unfolding parse_header
parse_header_fields header h p = ground arith

-- One field of a header, written again from the number that was read.
field_again :
    (at width : ℕ) (header : List ℕ)
    → at + width ≤ length header
    → AllBytes header
    → le_bytes width (field at width header) ++ drop (at + width) header ≡ drop at header
field_again at width header h a =
    ap (λ l. l ++ drop (at + width) header)
      (le_bytes-from_le_bytes width (take width (drop at header))
        (omega (arith, length-take width (drop at header), length-drop at header))
        (AllBytes-take width (drop at header) (AllBytes-drop at header a)))
    ∙ ap (λ l. take width (drop at header) ++ l) (sym (drop-drop width at header))
    ∙ take-append-drop width (drop at header)

field-lt :
    (at width : ℕ) (header : List ℕ)
    → at + width ≤ length header
    → AllBytes header
    → field at width header < 256 ^ width
field-lt at width header h a =
    from_le_bytes-lt width (take width (drop at header))
      (omega (arith, length-take width (drop at header), length-drop at header))
      (AllBytes-take width (drop at header) (AllBytes-drop at header a))

four_pieces :
    {h d e f g : List ℕ} (a b c k : List ℕ)
    → a ++ d ≡ h
    → b ++ e ≡ d
    → c ++ f ≡ e
    → k ++ g ≡ f
    → g ≡ []
    → h ≡ a ++ (b ++ (c ++ k))
four_pieces a b c k p q r s t = cc (append-nil k)

header_bytes_path :
    {m l s t : ℕ} (len seq ts : ℕ)
    → m ≡ magic
    → l ≡ len
    → s ≡ seq
    → t ≡ ts
    → len ≤ max_payload
    → le_bytes 4 m ++ (le_bytes 4 l ++ (le_bytes 8 s ++ le_bytes 8 t)) ≡ header_bytes len seq ts
header_bytes_path {m} {l} {s} {t} len seq ts p q r u fits =
    ap (λ x. le_bytes 4 x ++ (le_bytes 4 l ++ (le_bytes 8 s ++ le_bytes 8 t))) p
    ∙ ap (λ x. le_bytes 4 magic ++ (le_bytes 4 x ++ (le_bytes 8 s ++ le_bytes 8 t))) (omega arith)
    ∙ ap₂ (λ x y. le_bytes 4 magic ++ (le_bytes 4 (len % 2 ^ 32) ++ (le_bytes 8 x ++ le_bytes 8 y)))
        r u

-- A header that is accepted is, byte for byte, the one that `encode` writes for its fields.
parse_header_ok :
    (header : List ℕ) (h : Header)
    → length header ≡ header_len
    → AllBytes header
    → parse_header header ≡ ok h
    → header ≡ header_bytes h.len h.seq h.send_ts_micros
parse_header_ok header h e a p =
    let (m, l, s, t, fits) = parse_header_fields header h p in
    four_pieces (le_bytes 4 (field 0 4 header)) (le_bytes 4 (field 4 4 header))
      (le_bytes 8 (field 8 8 header)) (le_bytes 8 (field 16 8 header))
      (field_again 0 4 header (omega arith) a) (field_again 4 4 header (omega arith) a)
      (field_again 8 8 header (omega arith) a) (field_again 16 8 header (omega arith) a)
      (drop_all 24 header e)
    ∙ header_bytes_path h.len h.seq h.send_ts_micros m l s t fits

parse_header_frame :
    (header : List ℕ) (h : Header)
    → length header ≡ header_len
    → AllBytes header
    → parse_header header ≡ ok h
    → (h.seq < 256 ^ 8) × (h.send_ts_micros < 256 ^ 8) × (h.len ≤ max_payload)
parse_header_frame header h e a p = omega (
  arith,
  parse_header_fields header h p,
  field-lt 8 8 header (omega arith) a,
  field-lt 16 8 header (omega arith) a,
)

-- What `read_payload` gives, when it gives a frame.
payload_taken :
    (h : Header) (bytes : List ℕ) (ending : Ending) {f : Frame} {r : Stream}
    → read_payload h (record { bytes = bytes; ending = ending }) ≡ ok (some f, r)
    → (bytes ≡ f.payload ++ r.bytes)
      × (length f.payload ≡ h.len)
      × (f.seq ≡ h.seq)
      × (f.send_ts_micros ≡ h.send_ts_micros)
      × (r.ending ≡ ending)
payload_taken h bytes ending p = elim (Option-cases (split_exact h.len bytes)) [
  | inl e ↦ cc (rw e at p)
  | inr (s, e) ↦ ground (arith, split_exact_parts h.len bytes e, rw e at p)
]

header_bytes_cong :
    {l s t l' s' t' : ℕ} → l' ≡ l → s' ≡ s → t' ≡ t → header_bytes l s t ≡ header_bytes l' s' t'
header_bytes_cong p q r = cc

-- The same, for a header and a payload that have both been read.
frame_taken :
    (header rest : List ℕ) (ending : Ending) (h : Header) {f : Frame} {r : Stream}
    → length header ≡ header_len
    → AllBytes header
    → parse_header header ≡ ok h
    → read_payload h (record { bytes = rest; ending = ending }) ≡ ok (some f, r)
    → (header ++ rest ≡ encode f ++ r.bytes) × IsFrame f × (r.ending ≡ ending)
frame_taken header rest ending h {f} {r} e a p q =
    let (tail, len, seq, ts, same) = payload_taken h rest ending q in
    let (hs, ht, hl) = parse_header_frame header h e a p in
    (
      ap₂ (λ x y. x ++ y) (parse_header_ok header h e a p ∙ header_bytes_cong len seq ts) tail
          ∙ sym (encode_lem f r.bytes),
      omega arith,
      same,
    )

no_frame :
    (s : Stream) (ending : Ending) {f : Frame} {r : Stream}
    → after_header s (err (ending_error ending)) ≢ ok (some f, r)
no_frame s closed p = cc
no_frame s broken p = cc

-- Only the bytes of a frame in range read as that frame: a frame that `read` gives was written, byte
-- for byte, as `encode` writes it, and the stream goes on directly behind it.
pub encode-read :
    (bytes : List ℕ) (ending : Ending) {f : Frame} {r : Stream}
    → AllBytes bytes
    → read (record { bytes = bytes; ending = ending }) ≡ ok (some f, r)
    → (bytes ≡ encode f ++ r.bytes) × IsFrame f × (r.ending ≡ ending)
unfolding read
encode-read bytes ending a p = elim (Option-cases (split_exact 24 bytes)) [
  | inl e ↦ absurd (no_frame (record { bytes = bytes; ending = ending }) ending (rw e at p))
  | inr ((header, rest), e) ↦
      let (glue, len) = split_exact_parts 24 bytes e in
      let (h, parsed, read_on) = >>=-eq-ok (parse_header header) _ (rw e at p) in
      let a' = AllBytes-append header rest (rw glue at a) in
      rw glue (frame_taken header rest ending h len a'.0 parsed read_on)
]

-- A datagram decodes to the sequence number and the time stamp that it was encoded with.
decode_udp-encode_udp :
    (seq ts : ℕ) (payload : List ℕ)
    → seq < 256 ^ 8
    → ts < 256 ^ 8
    → decode_udp (encode_udp seq ts payload) ≡ some (seq, ts)
unfolding decode_udp encode_udp
decode_udp-encode_udp seq ts payload hs ht =
    ground (arith, from_le_bytes-le_bytes 8 seq hs, from_le_bytes-le_bytes 8 ts ht)
