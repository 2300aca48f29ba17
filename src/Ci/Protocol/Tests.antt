-- ===== src/Ci/Protocol/Tests.antt =====
-- ci/src/protocol.rs on concrete frames and streams.
use npt.Prelude.{ℕ, ◌≡◌, refl, List, [], ◌∷◌, ◌++◌, none, some, arith}
use npt.Prelude.Result.{ok, err}
use npt.Ci.Protocol.{Frame, encode, closed, broken, bad_magic, read, parse_header}
use npt.Ci.Protocol.RoundTrip.{IsFrame, read-encode, read_short, encode-read}

abbrev hello : Frame
hello = record { seq = 7; send_ts_micros = 1000; payload = 1 ∷ 2 ∷ 3 ∷ [] }

hello-IsFrame : IsFrame hello
hello-IsFrame = omega arith

abbrev garbage : List ℕ
garbage =
    0 ∷ 0 ∷ 0 ∷ 0 ∷ 0 ∷ 0 ∷ 0 ∷ 0 ∷ 0 ∷ 0 ∷ 0 ∷ 0 ∷ 0 ∷ 0 ∷ 0 ∷ 0 ∷ 0 ∷ 0 ∷ 0 ∷ 0 ∷ 0 ∷ 0 ∷ 0 ∷ 0
    ∷ []

-- A stream of another service is refused at once.
garbage_refused : read (record { bytes = garbage; ending = closed }) ≡ err (bad_magic 0)
unfolding read parse_header
garbage_refused = refl

-- A frame that is cut inside its payload is an error.
read_cut :
    read (record { bytes = encode (record hello { payload = [] }) ++ []; ending = closed })
    ≡ ok (some (record hello { payload = [] }), record { bytes = []; ending = closed })
unfolding read encode parse_header
read_cut = refl

read-encode_example :
    read (record { bytes = encode hello ++ 9 ∷ []; ending = broken })
    ≡ ok (some hello, record { bytes = 9 ∷ []; ending = broken })
read-encode_example = read-encode hello (9 ∷ []) broken hello-IsFrame

-- Five bytes of a header, then the end of the stream.
read_short_example :
    read (record { bytes = 78 ∷ 80 ∷ 84 ∷ 49 ∷ 3 ∷ []; ending = closed })
    ≡ ok (none, record { bytes = []; ending = closed })
read_short_example = read_short (78 ∷ 80 ∷ 84 ∷ 49 ∷ 3 ∷ []) (omega arith)

encode-read_example : (encode hello ++ [] ≡ encode hello ++ []) × IsFrame hello × (closed ≡ closed)
unfolding encode
encode-read_example =
    encode-read (encode hello ++ []) closed (omega arith)
      (read-encode hello [] closed hello-IsFrame)
