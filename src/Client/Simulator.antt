-- ===== src/Client/Simulator.antt =====
-- client/src/simulator.rs: what a simulated user does, from its first think time to its last activity. The
-- random numbers, the clock and the network are arguments. Times are in nanoseconds, durations of the
-- configuration in milliseconds.
pub mod Users
pub mod Sessions
mod Tests
use npt.Prelude.{
  ℕ, zero, suc, ◌+◌, ◌*◌, ◌/◌, ◌%◌, ◌^◌, List, [], ◌∷◌, Option, none, some, Bool, true, false, ◌||◌,
  ltb, if◌then◌else◌,
}
use npt.Prelude.Result.{Result}
use npt.Prelude.Float.{Float32}
use npt.Shared.Config.{TestConfig}
use npt.Shared.Protocol.{UserActivity, web_browsing, file_download, file_upload, quic_web_browsing}
use npt.Shared.Metrics.{increment_active_users, decrement_active_users}
use npt.Wire.{Codec, Texts}
use npt.Wire.Session.{World}
use npt.Client.TcpClient.{ClientState, Network, Ticket, on_metrics, simulate_user_activity}
use npt.Client.QuicClient.{QuicWorld, QuicTicket, QuicClient, QuicError, simulate_quic_activity}

-- What a turn of a user's loop meets: the random numbers in their order, with `gen_range(lo..=hi)` on a
-- range that is not empty; the time since the start of the session as the loop's condition and the
-- check behind the sleep read it; whether the session was stopped by then; and all that the activity
-- of the turn meets.
pub record Turn (R : Type 0) : Type 0 where
  pub random_weight : R
  pub gen_range : ℕ → ℕ → ℕ → ℕ
  pub elapsed : ℕ
  pub woken : ℕ
  pub stopped : Bool
  pub fuel : ℕ
  pub world : World
  pub last_error : List ℕ
  pub pages : List (Network × Ticket)
  pub network : Network
  pub ticket : Ticket
  pub quic_world : QuicWorld
  pub quic_ticket : QuicTicket

module _ (fl : Float32) where
  -- `generate_think_time`, in milliseconds; a range that is empty makes `gen_range` panic.
  unfoldable pub generate_think_time : TestConfig fl.F → Turn fl.F → Option ℕ
  generate_think_time config turn =
      let (low, high) = config.user_behavior.think_time_range in
      if ltb (high % 2 ^ 64) (low % 2 ^ 64)
      then none
      else some (turn.gen_range 0 (low % 2 ^ 64) (high % 2 ^ 64))

  unfoldable pub choose_random_activity : TestConfig fl.F → Turn fl.F → UserActivity
  choose_random_activity config turn =
      let weights = config.user_behavior.activity_weights in
      let chunk_size = config.user_behavior.tcp_settings.request_size_range in
      let web_threshold = weights.web_browsing in
      let download_threshold = fl.add web_threshold weights.file_download in
      let upload_threshold = fl.add download_threshold weights.file_upload in
      if fl.lt turn.random_weight web_threshold
      then web_browsing (turn.gen_range 1 1 5) (turn.gen_range 2 2 5, turn.gen_range 3 5 10)
      else if fl.lt turn.random_weight download_threshold
      then file_download (turn.gen_range 1 1024 1048576) chunk_size
      else if fl.lt turn.random_weight upload_threshold
      then file_upload (turn.gen_range 1 1024 1048576) chunk_size
      else quic_web_browsing (turn.gen_range 1 1 5) (turn.gen_range 2 2 5, turn.gen_range 3 5 10)
          (turn.gen_range 4 1 4)

  abbrev pub is_over : (session think : ℕ) → Turn fl.F → Bool
  is_over session think turn = ltb session (think * 1000000 + turn.woken) || turn.stopped

  -- `gen_range(secs / 2..=secs)` on the seconds of the configuration, by the draw
  abbrev pub session_secs : TestConfig fl.F → (draw : ℕ → ℕ → ℕ) → ℕ
  session_secs config draw = draw (config.duration / 1000 / 2) (config.duration / 1000)

-- How a user's task ends: a panic in a draw ends it as it stands; only a run of the model can lack fuel.
pub data Finish : Type 0 where
  finished panicked out_of_fuel : Finish

-- How a user ends, its activities with the numbers of their turns, and the state
abbrev pub UserRun : Type 0 → Type 0
UserRun F = Finish × List (ℕ × UserActivity) × ClientState F

module _ {F : Type 0} where
  abbrev pub having_done : ℕ → UserActivity → UserRun F → UserRun F
  having_done i activity (f, done, st) = (f, (i, activity) ∷ done, st)

  -- Only a user that comes to its end is counted out.
  abbrev pub on_finish : UserRun F → UserRun F
  on_finish (finished, done, st) = (finished, done, on_metrics decrement_active_users st)
  on_finish (panicked, done, st) = (panicked, done, st)
  on_finish (out_of_fuel, done, st) = (out_of_fuel, done, st)

  -- An activity that the TCP client refuses leaves the state as it is.
  abbrev pub or_unchanged : ClientState F → Option (ClientState F) → ClientState F
  or_unchanged st none = st
  or_unchanged st (some st') = st'

  abbrev pub behind_quic :
      ClientState F → Result QuicError (Unit {0}) × QuicClient F → ClientState F
  behind_quic st (_, q) = record st { pool = q.server_pool; metrics = q.metrics }

module _ {F R : Type 0} (c : Codec) (texts : Texts) where
  abbrev pub over_tcp : Turn R → UserActivity → ClientState F → ClientState F
  over_tcp turn activity st = or_unchanged st (
      simulate_user_activity c turn.world texts turn.last_error turn.fuel turn.pages turn.network
        turn.ticket activity st)

  abbrev pub over_quic : Turn R → UserActivity → ClientState F → ClientState F
  over_quic turn activity st = behind_quic st (
      simulate_quic_activity turn.quic_world turn.quic_ticket activity
        (record { server_pool = st.pool; metrics = st.metrics }))

  -- The client that an activity is given to; its errors are only logged.
  abbrev pub act : Turn R → UserActivity → ClientState F → ClientState F
  act turn (quic_web_browsing pages resources concurrent) st =
      over_quic turn (quic_web_browsing pages resources concurrent) st
  act turn (web_browsing pages requests) st = over_tcp turn (web_browsing pages requests) st
  act turn (file_download size chunk) st = over_tcp turn (file_download size chunk) st
  act turn (file_upload size chunk) st = over_tcp turn (file_upload size chunk) st

module _ {F : Type 0} (fl : Float32) (c : Codec) (texts : Texts) (config : TestConfig fl.F)
    (turns : ℕ → Turn fl.F) where
  -- The loop of `simulate_user_behavior`, from the turn `i` on, in a session of so many nanoseconds.
  pub user_loop : (fuel session i : ℕ) → ClientState F → UserRun F
  user_loop zero session i st = (out_of_fuel, [], st)
  user_loop (suc fuel) session i st = elim (ltb (turns i).elapsed session) [
    | false ↦ (finished, [], st)
    | true ↦ elim (generate_think_time fl config (turns i)) [
      | none ↦ (panicked, [], st)
      | some think ↦ elim (is_over fl session think (turns i)) [
        | true ↦ (finished, [], st)
        | false ↦
            let activity = choose_random_activity fl config (turns i) in
            let st' = act c texts (turns i) activity st in
            having_done i activity (elim st'.panicked [
              | true ↦ (panicked, [], st')
              | false ↦ user_loop fuel session (i + 1) st'
            ])
      ]
    ]
  ]

  -- `simulate_user_behavior`, behind the permit
  unfoldable pub simulate_user_behavior : (fuel : ℕ) (draw : ℕ → ℕ → ℕ) → ClientState F → UserRun F
  unfolding user_loop generate_think_time choose_random_activity simulate_user_activity
      simulate_quic_activity
  simulate_user_behavior fuel draw st = on_finish (
      user_loop fuel (session_secs fl config draw * 1000000000) 0
        (on_metrics increment_active_users st))
