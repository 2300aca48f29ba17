-- ===== src/Wire/Progress.antt =====
-- client/src/tcp_client.rs and server/src/tcp_server.rs: what receiving takes from a connection, and
-- programs that only record into the metrics of one connection.
use npt.Prelude.{
  ℕ, ◌+◌, ◌≤◌, ◌<◌, ◌≡◌, ◌≢◌, refl, ap, sym, ◌∙◌, List, [], ◌∷◌, ◌++◌, Option, none, some, false,
  length, length-append, ltb, ◌==◌, arith, Bool-cases, inl, inr,
}
use npt.Prelude.Result.{Result, ok, err}
use npt.Prelude.Bytes.{from_le_bytes, split_exact, split_exact_parts}
use npt.Shared.Protocol.{Message, MessageType}
use npt.Shared.Metrics.{MetricsCollector}
use npt.Shared.Metrics.Connections.{Event, note_event}
use npt.Shared.Metrics.Activity.{note_all}
use npt.Wire.{
  Codec, Link, Ending, closed, silent, broken, WireError, out_of_fuel, panicked, ending_error,
  max_message, read_exact, taken, after_length, decode_body, decoded, read_body, send_bytes,
  send_message, receive_message,
}
use npt.Wire.Session.{
  Session, World, Program, go_on, ask, tell, draw, local_addr, send, receive, make,
}

-- The result is no lack of fuel and no panic, and at least `k` bytes less are left than the `n` there were, if it is a
-- success; an error may leave as many.
abbrev pub Takes : {A : Type 0} (k n : ℕ) → Result WireError A × Link → Type 0
Takes k n (err e, l) = (e ≢ out_of_fuel) × (e ≢ panicked) × (length l.incoming ≤ n)
Takes k n (ok a, l) = length l.incoming + k ≤ n

ending_error-ne : (e : Ending) → (ending_error e ≢ out_of_fuel) × (ending_error e ≢ panicked)
ending_error-ne closed = (λ p. cc, λ p. cc)
ending_error-ne silent = (λ p. cc, λ p. cc)
ending_error-ne (broken text) = (λ p. cc, λ p. cc)

taken-Takes :
    (k : ℕ) (l : Link) (o : Option (List ℕ × List ℕ))
    → split_exact k l.incoming ≡ o
    → Takes k (length l.incoming) (taken l o)
taken-Takes k l none e = let (a, b) = ending_error-ne l.ending in (a, b, omega arith)
taken-Takes k l (some (bytes, rest)) e =
    let (parts, size) = split_exact_parts k l.incoming e in
    omega (arith, ap (λ (x : List ℕ). length x) parts, length-append bytes rest, size)

module _ (c : Codec) where
  decoded-Takes :
      (len n : ℕ) (o : Option Message) (l : Link)
      → length l.incoming ≤ n
      → Takes 0 n (decoded c len o l)
  decoded-Takes len n none l h = (λ p. cc, λ p. cc, h)
  decoded-Takes len n (some m) l h = omega (arith, h)

  decode_body-Takes :
      (len k n : ℕ) (r : Result WireError (List ℕ) × Link)
      → Takes k n r
      → Takes 0 n (decode_body c len r)
  decode_body-Takes len k n (err e, l) t = t
  decode_body-Takes len k n (ok bytes, l) t =
      decoded-Takes len n (c.from_slice bytes) l (omega (arith, t))

  read_body-Takes : (len : ℕ) (l : Link) → Takes 0 (length l.incoming) (read_body c len l)
  read_body-Takes len l = elim (Bool-cases (ltb max_message len)) [
    | inl big ↦ rw big (λ p. cc, λ p. cc, omega arith)
    | inr small ↦ rw small (
        decode_body-Takes len len (length l.incoming) (read_exact len l)
          (taken-Takes len l (split_exact len l.incoming) refl))
  ]

  weaken :
      {A : Type 0} (k n n' : ℕ) (r : Result WireError A × Link)
      → n + k ≤ n'
      → Takes 0 n r
      → Takes k n' r
  weaken k n n' (err e, l) h t = (t.0, t.1, omega (arith, t.2))
  weaken k n n' (ok a, l) h t = omega (arith, t)

  after_length-Takes :
      (n : ℕ) (r : Result WireError (List ℕ) × Link) → Takes 4 n r → Takes 4 n (after_length c r)
  after_length-Takes n (err e, l) t = t
  after_length-Takes n (ok bytes, l) t =
      weaken 4 (length l.incoming) n (read_body c (from_le_bytes bytes) l) (omega (arith, t))
        (read_body-Takes (from_le_bytes bytes) l)

  -- A message that is received takes its length, which is four bytes, at least.
  pub receive_message-Takes : (l : Link) → Takes 4 (length l.incoming) (receive_message c l)
  unfolding receive_message
  receive_message-Takes l =
      after_length-Takes (length l.incoming) (read_exact 4 l)
        (taken-Takes 4 l (split_exact 4 l.incoming) refl)

  send_bytes-keeps :
      (o : Option (List ℕ)) (l : Link)
      → (((send_bytes c l o).1.incoming ≡ l.incoming)
          × ((send_bytes c l o).0 ≢ err out_of_fuel)
          × ((send_bytes c l o).0 ≢ err panicked))
  send_bytes-keeps none l = (refl, λ p. cc, λ p. cc)
  send_bytes-keeps (some bytes) l = elim (Bool-cases (l.room == 0)) [
    | inl full ↦ rw full (refl, λ p. cc, λ p. cc)
    | inr free ↦ rw free (refl, λ p. cc, λ p. cc)
  ]

pub note_all-append :
    {F : Type 0} (id : ℕ) (es fs : List Event) (m : MetricsCollector F)
    → note_all id (es ++ fs) m ≡ note_all id fs (note_all id es m)
note_all-append id [] fs m = refl
note_all-append id (e ∷ es) fs m = note_all-append id es fs (note_event id e m)

module _ {F : Type 0} where
  -- What a program has done to the state: the metrics have only noted events of one connection, nothing
  -- was put back on the stream, no loop lacked fuel, and nothing panicked.
  pub record Behaves {A : Type 0} (id : ℕ) (s : Session F) (r : Result WireError A × Session F)
      : Type 0 where
    pub events : List Event
    pub noted : r.1.metrics ≡ note_all id events s.metrics
    pub shorter : length r.1.link.incoming ≤ length s.link.incoming
    pub fueled : r.0 ≢ err out_of_fuel
    pub calm : r.0 ≢ err panicked

  pub go_on_assoc :
      {A B C : Type 0} (r : Result WireError A × Session F) (f : A → Program F B)
      (g : B → Program F C)
      → go_on (go_on r f) g ≡ go_on r (λ a s. go_on (f a s) g)
  go_on_assoc (err e, s) f g = refl
  go_on_assoc (ok a, s) f g = refl

  pub go_on-Behaves :
      {A B : Type 0} (id : ℕ) (s : Session F) (r : Result WireError A × Session F)
      (next : A → Program F B)
      → Behaves id s r
      → ((a : A) (s' : Session F)
          → length s'.link.incoming ≤ length s.link.incoming
          → Behaves id s' (next a s'))
      → Behaves id s (go_on r next)
  go_on-Behaves id s (err e, s') next b k = record {
    events = b.events;
    noted = b.noted;
    shorter = b.shorter;
    fueled = λ p. let q : e ≡ out_of_fuel = cc in b.fueled (ap err q);
    calm = λ p. let q : e ≡ panicked = cc in b.calm (ap err q);
  }
  go_on-Behaves id s (ok a, s') next b k =
      let then_b = k a s' b.shorter in
      record {
        events = b.events ++ then_b.events;
        noted =
            then_b.noted
            ∙ ap (note_all id then_b.events) b.noted
            ∙ sym (note_all-append id b.events then_b.events s.metrics);
        shorter = omega (arith, then_b.shorter, b.shorter);
        fueled = then_b.fueled;
        calm = then_b.calm;
      }

  -- What follows the state that another program has left.
  pub later-Behaves :
      {A B : Type 0} (id : ℕ) (s : Session F) (r : Result WireError A × Session F)
      (r' : Result WireError B × Session F)
      → Behaves id s r
      → Behaves id r.1 r'
      → Behaves id s r'
  later-Behaves id s r r' b b' = record {
    events = b.events ++ b'.events;
    noted =
        b'.noted
        ∙ ap (note_all id b'.events) b.noted
        ∙ sym (note_all-append id b.events b'.events s.metrics);
    shorter = omega (arith, b.shorter, b'.shorter);
    fueled = b'.fueled;
    calm = b'.calm;
  }

  -- What follows once the connection has received.
  pub relink-Behaves :
      {B : Type 0} (id : ℕ) (s : Session F) (l : Link) (r : Result WireError B × Session F)
      → length l.incoming ≤ length s.link.incoming
      → Behaves id (record s { link = l }) r
      → Behaves id s r
  relink-Behaves id s l r h b = record {
    events = b.events;
    noted = b.noted;
    shorter = omega (arith, b.shorter, h);
    fueled = b.fueled;
    calm = b.calm;
  }

  pub done-Behaves : {A : Type 0} (id : ℕ) (a : A) (s : Session F) → Behaves id s (ok a, s)
  done-Behaves id a s = record {
    events = [];
    noted = refl;
    shorter = omega arith;
    fueled = λ p. cc;
    calm = λ p. cc;
  }

  pub tell-Behaves : (id : ℕ) (e : Event) (s : Session F) → Behaves id s (tell id e s)
  tell-Behaves id e s = record {
    events = e ∷ [];
    noted = refl;
    shorter = omega arith;
    fueled = λ p. cc;
    calm = λ p. cc;
  }

  -- An event is noted in front of what follows.
  pub tell_then-Behaves :
      {B : Type 0} (id : ℕ) (e : Event) (s : Session F) (r : Result WireError B × Session F)
      → Behaves id (tell id e s).1 r
      → Behaves id s r
  tell_then-Behaves id e s r b = record {
    events = e ∷ b.events;
    noted = b.noted;
    shorter = b.shorter;
    fueled = b.fueled;
    calm = b.calm;
  }

  pub ask-Behaves : (id : ℕ) (s : Session F) → Behaves id s (ask s)
  ask-Behaves id s = record {
    events = [];
    noted = refl;
    shorter = omega arith;
    fueled = λ p. cc;
    calm = λ p. cc;
  }

  pub ask_then-Behaves :
      {B : Type 0} (id : ℕ) (s : Session F) (r : Result WireError B × Session F)
      → Behaves id (ask s).1 r
      → Behaves id s r
  ask_then-Behaves id s r b = record {
    events = b.events;
    noted = b.noted;
    shorter = b.shorter;
    fueled = b.fueled;
    calm = b.calm;
  }

  -- A draw from a range that is not empty
  pub draw-Behaves :
      (id : ℕ) (w : World) (lo hi : ℕ) (s : Session F) → lo ≤ hi → Behaves id s (draw w lo hi s)
  draw-Behaves id w lo hi s h =
      let fits : ltb hi lo ≡ false = ground arith in
      rw fits (record {
        events = [];
        noted = refl;
        shorter = omega arith;
        fueled = λ p. cc;
        calm = λ p. cc;
      })

  pub make-Behaves :
      (id : ℕ) (w : World) (t : MessageType) (payload : List ℕ) (session_id : ℕ) (s : Session F)
      → Behaves id s (make w t payload session_id s)
  unfolding make
  make-Behaves id w t payload session_id s = record {
    events = [];
    noted = refl;
    shorter = omega arith;
    fueled = λ p. cc;
    calm = λ p. cc;
  }

  pub local_addr-Behaves : (id : ℕ) (s : Session F) → Behaves id s (local_addr s)
  local_addr-Behaves id s = elim (Bool-cases s.link.has_local_addr) [
    | inl e ↦ rw e (record {
      events = [];
      noted = refl;
      shorter = omega arith;
      fueled = λ p. cc;
      calm = λ p. cc;
    })
    | inr e ↦ rw e (record {
      events = [];
      noted = refl;
      shorter = omega arith;
      fueled = λ p. cc;
      calm = λ p. cc;
    })
  ]

  module _ (c : Codec) where
    pub send-Behaves : (id : ℕ) (m : Message) (s : Session F) → Behaves id s (send c m s)
    unfolding send send_message
    send-Behaves id m s =
        let (same, fine, calm) = send_bytes-keeps c (c.to_vec m) s.link in
        record {
          events = [];
          noted = refl;
          shorter = omega (arith, ap (λ (l : List ℕ). length l) same);
          fueled = fine;
          calm = calm;
        }

    -- A program that goes on with a message that it receives has fewer bytes before it.
    pub receive_then-Behaves :
        {B : Type 0} (id : ℕ) (s : Session F) (next : Message × ℕ → Program F B)
        → ((m : Message × ℕ) (s' : Session F)
            → length s'.link.incoming < length s.link.incoming
            → Behaves id s' (next m s'))
        → Behaves id s (go_on (receive c s) next)
    unfolding receive
    receive_then-Behaves id s next k =
        on_received (receive_message c s.link) (receive_message-Takes c s.link)
      where
        on_received :
            (r : Result WireError (Message × ℕ) × Link)
            → Takes 4 (length s.link.incoming) r
            → Behaves id s (go_on (r.0, record s { link = r.1 }) next)
        on_received (err e, l) t = record {
          events = [];
          noted = refl;
          shorter = t.2;
          fueled = λ p. let q : e ≡ out_of_fuel = cc in t.0 q;
          calm = λ p. let q : e ≡ panicked = cc in t.1 q;
        }
        on_received (ok m, l) t =
            let b = k m (record s { link = l }) (omega (arith, t)) in
            record {
              events = b.events;
              noted = b.noted;
              shorter = omega (arith, t, b.shorter);
              fueled = b.fueled;
              calm = b.calm;
            }
