-- ===== src/Client/Simulator/Sessions.antt =====
-- client/src/simulator.rs: how a user's session goes, from its start to its end.
use npt.Prelude.{
  subst, sym, ℕ, zero, suc, ◌+◌, ◌*◌, ◌/◌, ◌≤◌, ◌<◌, ◌%◌, ◌^◌, ◌≡◌, refl, ◌∙◌, List, [], ◌∷◌, some,
  length, Bool, true, false, ◌||◌, ltb, ltb→lt, arith, Bool-cases, inl, inr,
}
use npt.Prelude.Float.{Float32}
use npt.Shared.Config.{TestConfig}
use npt.Shared.Protocol.{UserActivity, web_browsing, file_download, file_upload, quic_web_browsing}
use npt.Shared.Metrics.{MetricsCollector, increment_active_users}
use npt.Shared.Metrics.Users.{users_in_and_out}
use npt.Wire.{Codec, Texts}
use npt.Client.TcpClient.{ClientState, on_metrics}
use npt.Client.Simulator.{
  Turn, generate_think_time, choose_random_activity, is_over, finished, panicked, out_of_fuel,
  UserRun, having_done, on_finish, act, user_loop, session_secs, simulate_user_behavior,
}
use npt.Client.Simulator.Users.{Ranged, act-Keeps}

abbrev pub Within : (low high n : ℕ) → Type 0
Within low high n = (low ≤ n) × (n ≤ high)

-- What the client can be asked for: the numbers of `choose_random_activity`.
abbrev pub IsPlanned : (chunk_size : ℕ × ℕ) → UserActivity → Type 0
IsPlanned chunk_size (web_browsing pages (low, high)) =
    Within 1 5 pages × Within 2 5 low × Within 5 10 high
IsPlanned chunk_size (file_download size chunk) = Within 1024 1048576 size × (chunk ≡ chunk_size)
IsPlanned chunk_size (file_upload size chunk) = Within 1024 1048576 size × (chunk ≡ chunk_size)
IsPlanned chunk_size (quic_web_browsing pages (low, high) concurrent) =
    Within 1 5 pages × Within 2 5 low × Within 5 10 high × Within 1 4 concurrent

neither : (a b : Bool) → (a || b) ≡ false → (a ≡ false) × (b ≡ false)
neither true b h = absurd cc
neither false b h = (refl, h)

ltb→le : (a b : ℕ) → ltb a b ≡ false → b ≤ a
ltb→le a b h = ground arith

-- The draws of a turn are in their ranges.
abbrev pub Draws : {R : Type 0} → Turn R → Type 0
Draws turn = (i low high : ℕ) → low ≤ high → Within low high (turn.gen_range i low high)

module _ (fl : Float32) (config : TestConfig fl.F) where
  chosen-IsPlanned :
      (turn : Turn fl.F)
      → Draws turn
      → IsPlanned config.user_behavior.tcp_settings.request_size_range
          (choose_random_activity fl config turn)
  unfolding choose_random_activity
  chosen-IsPlanned turn d =
      let weights = config.user_behavior.activity_weights in
      let web = weights.web_browsing in
      let download = fl.add web weights.file_download in
      let upload = fl.add download weights.file_upload in
      let g = turn.gen_range in
      let small : Within 1 5 (g 1 1 5) × Within 2 5 (g 2 2 5) × Within 5 10 (g 3 5 10) =
        (d 1 1 5 (omega arith), d 2 2 5 (omega arith), d 3 5 10 (omega arith)) in
      elim (Bool-cases (fl.lt turn.random_weight web)) [
        | inl e ↦ rw e small
        | inr e ↦ elim (Bool-cases (fl.lt turn.random_weight download)) [
          | inl f ↦ rw (e, f) (d 1 1024 1048576 (omega arith), refl)
          | inr f ↦ elim (Bool-cases (fl.lt turn.random_weight upload)) [
            | inl g ↦ rw (e, f, g) (d 1 1024 1048576 (omega arith), refl)
            | inr g ↦ rw (e, f, g) (small.0, small.1, small.2, d 4 1 4 (omega arith))
          ]
        ]
      ]

  -- The think times, in the milliseconds of a `u64`: a range that is not empty, above zero.
  abbrev pub Thinks : Type 0
  Thinks =
      let (low, high) = config.user_behavior.think_time_range in
      (0 < low) × (low ≤ high) × (high < 2 ^ 64)

  -- The think time that a turn draws
  abbrev pub think_of : Turn fl.F → ℕ
  think_of turn =
      let (low, high) = config.user_behavior.think_time_range in turn.gen_range 0 low high

  think_drawn :
      (turn : Turn fl.F) → Thinks → generate_think_time fl config turn ≡ some (think_of turn)
  unfolding generate_think_time
  think_drawn turn (a, b, c) =
      let low = config.user_behavior.think_time_range.0 in
      let high = config.user_behavior.think_time_range.1 in
      let low_kept : low % 2 ^ 64 ≡ low = omega arith in
      let high_kept : high % 2 ^ 64 ≡ high = omega arith in
      let not_empty : ltb high low ≡ false = ground arith in
      rw (low_kept, high_kept, not_empty) refl

  -- The clock goes forward, and a sleep takes its time at least.
  abbrev pub Ticks : (turns : ℕ → Turn fl.F) → Type 0
  Ticks turns =
      (i : ℕ)
      → ((turns i).elapsed + think_of (turns i) * 1000000 ≤ (turns i).woken)
        × ((turns i).woken ≤ (turns (i + 1)).elapsed)

  -- The activities of the turns from `i` on, each the one that its turn chose, in the plan, and started in
  -- the time of the session that leaves its think time once more, before the user is stopped.
  abbrev pub Follows : (turns : ℕ → Turn fl.F) (session i : ℕ) → List (ℕ × UserActivity) → Type 0
  Follows turns session i [] = Unit {0}
  Follows turns session i ((j, activity) ∷ done) =
      (j ≡ i)
      × (activity ≡ choose_random_activity fl config (turns i))
      × IsPlanned config.user_behavior.tcp_settings.request_size_range activity
      × (think_of (turns i) * 1000000 + (turns i).woken ≤ session)
      × ((turns i).stopped ≡ false)
      × Follows turns session (i + 1) done

  -- Both tests behind the sleep let the user go on.
  goes_on :
      (session think : ℕ) (turn : Turn fl.F)
      → is_over fl session think turn ≡ false
      → (think * 1000000 + turn.woken ≤ session) × (turn.stopped ≡ false)
  goes_on session think turn h =
      let (awake, running) = neither (ltb session (think * 1000000 + turn.woken)) turn.stopped h in
      (ltb→le session (think * 1000000 + turn.woken) awake, running)

  chosen-Ranged :
      (let (low, high) = config.user_behavior.tcp_settings.request_size_range in low ≤ high)
      → (activity : UserActivity)
      → IsPlanned config.user_behavior.tcp_settings.request_size_range activity
      → Ranged activity
  chosen-Ranged h (web_browsing pages (low, high)) p = omega (arith, p.1, p.2)
  chosen-Ranged h (file_download size chunk) p = tt
  chosen-Ranged h (file_upload size chunk) p = subst (λ (r : ℕ × ℕ). r.0 ≤ r.1) (sym p.1) h
  chosen-Ranged h (quic_web_browsing pages resources concurrent) p = tt

  module _ {F : Type 0} (c : Codec) (texts : Texts) (turns : ℕ → Turn fl.F) (session : ℕ)
      (thinks : Thinks) (ticks : Ticks turns) (draws : (i : ℕ) → Draws (turns i))
      (fueled : (i a : ℕ) → length ((turns i).network.dial a).incoming < (turns i).fuel)
      (chunks : let (low, high) = config.user_behavior.tcp_settings.request_size_range in
        low ≤ high) where
    -- What a run of the loop from the turn `i` on comes to
    abbrev Runs : (i : ℕ) (st : ClientState F) → UserRun F → Type 0
    Runs i st (f, done, st') =
        (f ≡ finished)
        × Follows turns session i done
        × (st'.metrics.active_users ≡ st.metrics.active_users)

    more-Runs :
        (i : ℕ) (st st' : ClientState F) (r : UserRun F)
        → think_of (turns i) * 1000000 + (turns i).woken ≤ session
        → (turns i).stopped ≡ false
        → st'.metrics.active_users ≡ st.metrics.active_users
        → Runs (i + 1) st' r
        → Runs i st (having_done i (choose_random_activity fl config (turns i)) r)
    more-Runs i st st' (f, done, st'') h s same (e, follows, same') =
        (e, (refl, refl, chosen-IsPlanned (turns i) (draws i), h, s, follows), same' ∙ same)

    loop-Runs :
        (n i : ℕ) (st : ClientState F)
        → st.panicked ≡ false
        → session ≤ (turns i).elapsed + n * 1000000
        → Runs i st (user_loop fl c texts config turns (suc n) session i st)
    unfolding user_loop
    loop-Runs zero i st q h = elim (Bool-cases (ltb (turns i).elapsed session)) [
      | inr over ↦ rw (over, user_loop) (refl, tt, refl)
      | inl more ↦ absurd (omega (arith, ltb→lt (turns i).elapsed session more))
    ]
    loop-Runs (suc n) i st q h = elim (Bool-cases (ltb (turns i).elapsed session)) [
      | inr over ↦ rw (over, user_loop) (refl, tt, refl)
      | inl more ↦ elim (Bool-cases (is_over fl session (think_of (turns i)) (turns i))) [
        | inl over ↦ rw (more, think_drawn (turns i) thinks, over, user_loop) (refl, tt, refl)
        | inr on ↦
            let (in_time, running) = goes_on session (think_of (turns i)) (turns i) on in
            let activity = choose_random_activity fl config (turns i) in
            let st' = act c texts (turns i) activity st in
            let (kept, calm) =
              act-Keeps c texts (turns i) activity st (fueled i)
                (chosen-Ranged chunks activity (chosen-IsPlanned (turns i) (draws i))) in
            let (low, _) = draws i 0 _ _ thinks.1 in
            let rest =
              loop-Runs n (i + 1) st' (calm q)
                (omega (arith, h, low, thinks.0, (ticks i).0, (ticks i).1)) in
            rw (more, think_drawn (turns i) thinks, on, calm q, user_loop)
              (more-Runs i st st' (user_loop fl c texts config turns (suc n) session (i + 1) st')
                in_time running kept rest)
      ]
    ]

module _ {F : Type 0} (fl : Float32) (config : TestConfig fl.F) where
  -- What the task of a user comes to, in a session of so many nanoseconds
  abbrev pub EndsWell :
      (turns : ℕ → Turn fl.F) (session : ℕ) (before : MetricsCollector F) → UserRun F → Type 0
  EndsWell turns session before (f, done, st) =
      (f ≡ finished)
      × Follows fl config turns session 0 done
      × (st.metrics.active_users ≡ before.active_users)

  on_finish-EndsWell :
      (turns : ℕ → Turn fl.F) (session : ℕ) (st : ClientState F) (r : UserRun F)
      → st.metrics.active_users + 1 < 2 ^ 32
      → EndsWell turns session (increment_active_users st.metrics) r
      → EndsWell turns session st.metrics (on_finish r)
  on_finish-EndsWell turns session st (finished, done, st') h (e, follows, same) =
      (refl, follows, users_in_and_out st.metrics st'.metrics h same)
  on_finish-EndsWell turns session st (panicked, done, st') h (e, follows, same) = absurd cc
  on_finish-EndsWell turns session st (out_of_fuel, done, st') h (e, follows, same) = absurd cc

  -- The task of a simulated user ends, with fuel for one turn in each millisecond of the configured
  -- duration and one more, and its metrics count as many active users as before. Its activities are
  -- those that its turns chose, one in each turn from the first on, with their numbers in the ranges
  -- of the plan, and none starts once the user is stopped, or when less of the session is left than
  -- its think time. The think times are above zero in a range that is not empty, the range of the
  -- requests' sizes is not empty, the task has not panicked before, the random numbers are in their
  -- ranges, the clock goes forward, a sleep takes its time at least, the bytes that come on a
  -- connection are fewer than the fuel of its activity, and the count of the active users has room for
  -- one more.
  pub simulate_user-EndsWell :
      (c : Codec) (texts : Texts) (turns : ℕ → Turn fl.F) (draw : ℕ → ℕ → ℕ) (st : ClientState F)
      → Thinks fl config
      → Ticks fl config turns
      → ((i : ℕ) → Draws (turns i))
      → ((i a : ℕ) → length ((turns i).network.dial a).incoming < (turns i).fuel)
      → (let (low, high) = config.user_behavior.tcp_settings.request_size_range in low ≤ high)
      → ((low high : ℕ) → low ≤ high → Within low high (draw low high))
      → st.panicked ≡ false
      → st.metrics.active_users + 1 < 2 ^ 32
      → EndsWell turns
          (session_secs fl config draw * 1000000000)
          st.metrics
          (simulate_user_behavior fl c texts config turns (suc config.duration) draw st)
  unfolding simulate_user_behavior
  simulate_user-EndsWell c texts turns draw st thinks ticks draws fueled chunks drawn q h =
      on_finish-EndsWell turns _ st _ h (
        loop-Runs fl config c texts turns _ thinks ticks draws fueled chunks config.duration 0
          (on_metrics increment_active_users st) q
          (omega
            (arith, (drawn (config.duration / 1000 / 2) (config.duration / 1000) (omega arith)).1)))
