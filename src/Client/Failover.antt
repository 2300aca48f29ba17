-- ===== src/Client/Failover.antt =====
-- client/src/tcp_client.rs, `connect_with_failover`: up to three attempts to connect, each to the
-- server that the pool chooses at that moment.
pub mod Trace
mod Tests
use npt.Prelude.{
  ℕ, zero, suc, ◌+◌, ◌-◌, ◌*◌, ◌^◌, List, Option, none, some, Bool, true, false, ltb, if◌then◌else◌,
}
use npt.Prelude.Result.{Result, ok, err}
use npt.Client.ServerPool.{
  ServerPool, Chance, get_server, mark_connection_start, mark_connection_failed,
  mark_connection_success,
}

-- What one attempt meets: the random values, whether `TcpStream::connect` reaches an address, and the
-- time.
pub record Attempt : Type 0 where
  pub chance : Chance
  pub reaches : ℕ → Bool
  pub now : ℕ

pub data ConnectError : Type 0 where
  no_healthy_servers all_attempts_failed : ConnectError

abbrev pub max_retries : ℕ
max_retries = 3

-- The sleep behind a failed attempt, in milliseconds: `100 * (1 << attempt)`, but none behind the last.
abbrev pub backoff : ℕ → ℕ
backoff attempt = if ltb attempt (max_retries - 1) then 100 * 2 ^ attempt else 0

-- The result of the call: the server that is connected, the pool, and the milliseconds slept in all.
abbrev pub Connected : Type 0
Connected = Result ConnectError ℕ × ServerPool × ℕ

-- The body of the `for` loop, on what `get_server` gave; `go_on` is the rest of the loop, on the pool
-- and the time slept so far.
abbrev pub attempt_on :
    Attempt → ℕ → ℕ → (ServerPool → ℕ → Connected) → Option ℕ × ServerPool → Connected
attempt_on env attempt slept go_on (none, p) = (err no_healthy_servers, p, slept)
attempt_on env attempt slept go_on (some address, p) =
    if env.reaches address
    then (
      ok address,
      mark_connection_success address (mark_connection_start env.now address p),
      slept,
    )
    else go_on (mark_connection_failed address p) (slept + backoff attempt)

-- The `for` loop from `attempt` on, with `left` attempts left and `slept` milliseconds slept.
pub connect_from : ℕ → ℕ → (ℕ → Attempt) → ServerPool → ℕ → Connected
connect_from zero attempt env p slept = (err all_attempts_failed, p, slept)
connect_from (suc left) attempt env p slept =
    attempt_on (env attempt) attempt slept (connect_from left (attempt + 1) env)
      (get_server (env attempt).chance p)

unfoldable pub connect_with_failover : (ℕ → Attempt) → ServerPool → Connected
unfolding connect_from
connect_with_failover env p = connect_from max_retries 0 env p 0
