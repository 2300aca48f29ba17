-- ===== src/Wire/Session.antt =====
-- Programs on one connection that record into the metrics: client/src/tcp_client.rs and
-- server/src/tcp_server.rs are written in this style, with `?` after each step that may fail.
use npt.Prelude.{ℕ, ◌+◌, ◌≤◌, List, Bool, ltb, if◌then◌else◌}
use npt.Prelude.Result.{Result, ok, err}
use npt.Shared.Protocol.{Message, MessageType, new_message}
use npt.Shared.Metrics.{MetricsCollector}
use npt.Shared.Metrics.Connections.{Event, note_event}
use npt.Wire.{Codec, Link, WireError, no_local_addr, panicked, send_message, receive_message}

-- The state of a task: its connection, the metrics, and how often it has asked the world.
pub record Session (F : Type 0) : Type 0 where
  pub link : Link
  pub metrics : MetricsCollector F
  pub asked : ℕ

-- What the world answers to the question with a number: a new UUID, the time, the nanoseconds since a
-- task last looked at the clock, `gen_range(lo..=hi)`, and whether the task has been told to stop.
pub record World : Type 0 where
  pub new_uuid : ℕ → ℕ
  pub now : ℕ → ℕ
  pub elapsed : ℕ → ℕ
  pub gen_range : ℕ → ℕ → ℕ → ℕ
  pub stopped : ℕ → Bool

abbrev pub Program : Type 0 → Type 0 → Type 0
Program F A = Session F → Result WireError A × Session F

module _ {F A B : Type 0} where
  abbrev pub go_on :
      Result WireError A × Session F → (A → Program F B) → Result WireError B × Session F
  go_on (err e, s) next = (err e, s)
  go_on (ok a, s) next = next a s

  infixl 5 ◌>>=◌
  abbrev pub ◌>>=◌ : Program F A → (A → Program F B) → Program F B
  ◌>>=◌ m next s = go_on (m s) next

module _ {F B : Type 0} where
  infixl 5 ◌>>◌
  abbrev pub ◌>>◌ : Program F (Unit {0}) → Program F B → Program F B
  m >> next = m >>= λ _. next

module _ {F : Type 0} where
  abbrev pub return : {A : Type 0} → A → Program F A
  return a s = (ok a, s)

  abbrev pub fail : {A : Type 0} → WireError → Program F A
  fail e s = (err e, s)

  -- The number of the next question.
  abbrev pub ask : Program F ℕ
  ask s = (ok s.asked, record s { asked = s.asked + 1 })

  abbrev pub on_link : {A : Type 0} → (Link → Result WireError A × Link) → Program F A
  on_link f s = let (r, l) = f s.link in (r, record s { link = l })

  -- A call of the metrics collector on the connection `id`.
  abbrev pub tell : ℕ → Event → Program F (Unit {0})
  tell id e s = (ok tt, record s { metrics = note_event id e s.metrics })

  -- `stream.local_addr()?`, if the level of the log asks for it
  abbrev pub local_addr : Program F (Unit {0})
  local_addr s = if s.link.has_local_addr then (ok tt, s) else (err no_local_addr, s)

  unfoldable pub send : Codec → Message → Program F ℕ
  send c m = on_link (send_message c m)

  unfoldable pub receive : Codec → Program F (Message × ℕ)
  receive c = on_link (receive_message c)

  -- `Message::new(message_type, payload, session_id)`
  unfoldable pub make : World → MessageType → List ℕ → ℕ → Program F Message
  make w t payload session_id = do
    i ← ask
    return (new_message (w.new_uuid i) (w.now i) t payload session_id)

  -- `gen_range(lo..=hi)`, which panics on a range that is empty
  abbrev pub draw : World → (lo hi : ℕ) → Program F ℕ
  draw w lo hi s =
      if ltb hi lo
      then fail panicked s
      else (ok (w.gen_range s.asked lo hi), record s { asked = s.asked + 1 })

-- `gen_range(lo..=hi)` gives a number of the range.
pub record InRange (w : World) : Type 0 where
  pub lower : (i lo hi : ℕ) → lo ≤ hi → lo ≤ w.gen_range i lo hi
  pub upper : (i lo hi : ℕ) → lo ≤ hi → w.gen_range i lo hi ≤ hi
