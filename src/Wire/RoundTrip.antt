-- ===== src/Wire/RoundTrip.antt =====
-- client/src/tcp_client.rs and server/src/tcp_server.rs: receiving against sending.
use npt.Prelude.{
  ℕ, ◌+◌, ◌-◌, ◌%◌, ◌^◌, ◌≤◌, ◌≡◌, refl, ap, ◌∙◌, List, ◌++◌, append_assoc, some, length,
  length-append, false, ltb, ◌==◌, arith,
}
use npt.Prelude.Result.{ok}
use npt.Prelude.Bytes.{
  le_bytes, from_le_bytes, split_exact, split_exact-append, length-le_bytes, from_le_bytes-le_bytes,
}
use npt.Shared.Protocol.{Message}
use npt.Wire.{
  Codec, Link, max_message, framed, taken, after_length, decode_body, decoded, read_body,
  send_message, receive_message,
}

-- The serializer gives these bytes for the message, reads them back, and they are not too many.
pub record Carries (c : Codec) (m : Message) (bytes : List ℕ) : Type 0 where
  pub writes : c.to_vec m ≡ some bytes
  pub reads : c.from_slice bytes ≡ some m
  pub fits : length bytes ≤ max_message

pub length-framed : (bytes : List ℕ) → length (framed bytes) ≡ 4 + length bytes
length-framed bytes = omega (
  arith,
  length-append (le_bytes 4 (length bytes % 2 ^ 32)) bytes,
  length-le_bytes 4 (length bytes % 2 ^ 32),
)

module _ (c : Codec) where
  pub send_message-Carries :
      (m : Message) (bytes : List ℕ) (l : Link)
      → Carries c m bytes
      → 1 ≤ l.room
      → send_message c m l
        ≡ (ok (length bytes), record l { written = l.written ++ framed bytes; room = l.room - 1 })
  unfolding send_message
  send_message-Carries m bytes l k h =
      let free : (l.room == 0) ≡ false = ground arith in
      let whole : length bytes % 2 ^ 32 ≡ length bytes = omega (arith, k.fits) in
      rw (k.writes, free)
        (ap (λ n. (ok n, record l { written = l.written ++ framed bytes; room = l.room - 1 }))
          whole)

  pub receive_message-Carries :
      (m : Message) (bytes rest : List ℕ) (l : Link)
      → Carries c m bytes
      → l.incoming ≡ framed bytes ++ rest
      → receive_message c l ≡ (ok (m, length bytes), record l { incoming = rest })
  unfolding receive_message
  receive_message-Carries m bytes rest l k h =
      let n = length bytes % 2 ^ 32 in
      let glue : l.incoming ≡ le_bytes 4 n ++ (bytes ++ rest) =
        h ∙ append_assoc (le_bytes 4 n) bytes rest in
      let head : split_exact 4 l.incoming ≡ some (le_bytes 4 n, bytes ++ rest) =
        ap (split_exact 4) glue
        ∙ split_exact-append 4 (le_bytes 4 n) (bytes ++ rest) (length-le_bytes 4 n) in
      let len : from_le_bytes (le_bytes 4 n) ≡ length bytes =
        from_le_bytes-le_bytes 4 n (omega arith) ∙ omega (arith, k.fits) in
      let small : ltb max_message (length bytes) ≡ false = ground (arith, k.fits) in
      let body : split_exact (length bytes) (bytes ++ rest) ≡ some (bytes, rest) =
        split_exact-append (length bytes) bytes rest refl in
      ap (λ o. after_length c (taken l o)) head
      ∙ ap (λ k. read_body c k (record l { incoming = bytes ++ rest })) len
      ∙ rw small (
          ap (λ o. decode_body c (length bytes) (taken (record l { incoming = bytes ++ rest }) o))
            body
          ∙ ap (λ o. decoded c (length bytes) o (record l { incoming = rest })) k.reads)

  -- A message that one side sends, with room left on its connection, is what the other side receives, with
  -- its length in bytes, and what follows it stays on the connection. The condition on the serializer
  -- is that it reads back what it writes for this message, in at most 10 MiB.
  pub receive-send :
      (m : Message) (bytes rest : List ℕ) (from to : Link)
      → Carries c m bytes
      → 1 ≤ from.room
      → to.incoming ≡ framed bytes ++ rest
      → ((send_message c m from).1.written ≡ from.written ++ framed bytes)
        × (receive_message c to ≡ (ok (m, length bytes), record to { incoming = rest }))
  receive-send m bytes rest from to k h e = (
    ap (λ p. p.1.written) (send_message-Carries m bytes from k h),
    receive_message-Carries m bytes rest to k e,
  )
