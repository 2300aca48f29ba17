-- ===== src/Client/Tui/Histories.antt =====
-- client/src/tui.rs: the histories behind the charts, and the chart data that is kept on them.
use npt.Prelude.{
  ◌⊎◌, ◌&&◌, ℕ, ◌+◌, ◌-◌, ◌≤◌, ◌≡◌, refl, ap, sym, ◌∙◌, List, [], ◌∷◌, ◌++◌, Option, none, some,
  length, drop, map, length-append, length-drop, length-replicate, drop-append_le, drop-drop, Bool,
  true, false, ltb, Bool-cases, inl, inr, ltb→lt, arith, if◌then◌else◌,
}
use npt.Prelude.Float.{Float64}
use npt.Shared.LogBuffer.{LogBuffer, len}
use npt.Shared.Metrics.{MetricsCollector}
use npt.Client.Tui.{
  ThroughputPoint, CachedChartData, ClientTui, new, quit, logs, up, down, other, pushed, trimmed,
  on_key, latest_throughput, latest_latency, latest_errors, with_points, extended, datasets,
  update_metrics, TuiStep, pressed, refreshed, tui_step, run,
}

-- The last 120
abbrev pub newest {ℓ} : {A : Type ℓ} → List A → List A
newest xs = drop (length xs - 120) xs

short_test : (n : ℕ) → n ≤ 120 → ltb 120 n ≡ false
short_test n h = ground arith

pub ltb→le : (a b : ℕ) → ltb a b ≡ false → b ≤ a
ltb→le a b h = ground arith

module _ {ℓ} {A : Type ℓ} where
  length-newest : (xs : List A) → length (newest xs) ≤ 120
  length-newest xs = omega (arith, length-drop (length xs - 120) xs)

  trimmed_newest : (xs : List A) → length xs ≤ 121 → trimmed xs ≡ newest xs
  trimmed_newest xs h = elim (Bool-cases (ltb 120 (length xs))) [
    | inl more ↦
        let one : 1 ≡ length xs - 120 = omega (arith, ltb→lt 120 (length xs) more) in
        rw more (ap (λ n. drop n xs) one)
    | inr all ↦
        let none_left : 0 ≡ length xs - 120 = omega (arith, ltb→le 120 (length xs) all) in
        rw all (ap (λ n. drop n xs) none_left)
  ]

  -- One more at the end, and one less at the front when they are too many.
  trimmed-pushed :
      (o : Option A) (xs : List A) → trimmed (pushed o (newest xs)) ≡ newest (pushed o xs)
  trimmed-pushed none xs = rw (short_test (length (newest xs)) (length-newest xs)) refl
  trimmed-pushed (some x) xs =
      let k = length xs - 120 in
      let ys = xs ++ x ∷ [] in
      let zs = newest xs ++ x ∷ [] in
      let size = length-append (newest xs) (x ∷ []) in
      let size' = length-append xs (x ∷ []) in
      let left : k + (length zs - 120) ≡ length ys - 120 =
        omega (arith, size, size', length-drop k xs) in
      trimmed_newest zs (omega (arith, size, length-newest xs))
      ∙ ap (λ l. drop (length zs - 120) l) (sym (drop-append_le k xs (x ∷ []) (omega arith)))
      ∙ drop-drop (length zs - 120) k ys
      ∙ ap (λ n. drop n ys) left

-- All the points that a sequence of steps adds to those in `acc`
abbrev pub all_pushed : {S A : Type 0} → (S → Option A) → List S → (acc : List A) → List A
all_pushed point [] acc = acc
all_pushed point (s ∷ steps) acc = all_pushed point steps (pushed (point s) acc)

module _ (fl : Float64) where
  open fl use {F}

  -- The steps in front of the first `q` or Esc
  abbrev pub until_quit : List (TuiStep fl) → List (TuiStep fl)
  until_quit [] = []
  until_quit (pressed quit log ∷ steps) = []
  until_quit (pressed logs log ∷ steps) = pressed logs log ∷ until_quit steps
  until_quit (pressed up log ∷ steps) = pressed up log ∷ until_quit steps
  until_quit (pressed down log ∷ steps) = pressed down log ∷ until_quit steps
  until_quit (pressed other log ∷ steps) = pressed other log ∷ until_quit steps
  until_quit (refreshed now m ∷ steps) = refreshed now m ∷ until_quit steps

  -- The points of a step of a panel that has started at the time `start`
  abbrev pub point_at :
      {A : Type 0} → (F → MetricsCollector F → Option A) → (start : ℕ) → TuiStep fl → Option A
  point_at latest start (pressed key log) = none
  point_at latest start (refreshed now m) = latest (fl.as_secs (now - start)) m

  -- The chart data, if there are any, are the columns of the histories.
  abbrev pub Charts :
      Option (CachedChartData F)
      → List (ThroughputPoint F)
      → (latency errors : List (F × F)) → Type 0
  Charts none throughput latency errors = (throughput ≡ []) × (latency ≡ []) × (errors ≡ [])
  Charts (some d) throughput latency errors =
      (d.tcp_upload_data ≡ map (λ p. (p.elapsed, p.tcp_upload)) throughput)
      × (d.tcp_download_data ≡ map (λ p. (p.elapsed, p.tcp_download)) throughput)
      × (d.udp_data ≡ map (λ p. (p.elapsed, p.udp)) throughput)
      × (d.quic_upload_data ≡ map (λ p. (p.elapsed, p.quic_upload)) throughput)
      × (d.quic_download_data ≡ map (λ p. (p.elapsed, p.quic_download)) throughput)
      × (d.latency_data ≡ latency)
      × (d.error_data ≡ errors)
      × (length d.connection_data ≡ length throughput)

  -- The histories are the newest of these points, and the charts are theirs.
  abbrev pub Shows :
      (start : ℕ)
      → List (ThroughputPoint F)
      → (latency errors : List (F × F)) → ClientTui F
      → Type 0
  Shows start throughput latency errors t =
      (t.start_time ≡ start)
      × (t.throughput_history ≡ newest throughput)
      × (t.latency_history ≡ newest latency)
      × (t.error_history ≡ newest errors)
      × Charts t.cached_datasets t.throughput_history t.latency_history t.error_history

  datasets-Charts :
      (now : ℕ) (m : MetricsCollector F) (t : ClientTui F)
      → Charts (some (datasets fl now m t)) t.throughput_history t.latency_history t.error_history
  datasets-Charts now m t =
      (refl, refl, refl, refl, refl, refl, refl, length-replicate (length t.throughput_history) _)

  trim_same :
      {A : Type 0} (o : Option A) (h xs : List A)
      → h ≡ newest xs
      → trimmed (pushed o h) ≡ newest (pushed o xs)
  trim_same o h xs e = ap (λ l. trimmed (pushed o l)) e ∙ trimmed-pushed o xs

  short : {A : Type 0} (h xs : List A) → h ≡ newest xs → ltb 120 (length h) ≡ false
  short h xs e =
      short_test (length h) (omega (arith, ap (λ (l : List _). length l) e, length-newest xs))

  pushed-Shows :
      (start now : ℕ) (m : MetricsCollector F) (o : Option (ThroughputPoint F))
      (o' o'' : Option (F × F)) (a : List (ThroughputPoint F)) (b c : List (F × F))
      (t : ClientTui F)
      → Shows start a b c t
      → Shows start (pushed o a) (pushed o' b) (pushed o'' c) (with_points fl now m o o' o'' t)
  pushed-Shows start now m none none none a b c t (s, e, e', e'', charts) =
      rw (short t.throughput_history a e, short t.latency_history b e', short t.error_history c e'')
        (s, e, e', e'', charts)
  pushed-Shows start now m (some p) o' o'' a b c t (s, e, e', e'', charts) = (
    s,
    trim_same (some p) _ a e,
    trim_same o' _ b e',
    trim_same o'' _ c e'',
    datasets-Charts now m (extended (some p) o' o'' t),
  )
  pushed-Shows start now m none (some p) o'' a b c t (s, e, e', e'', charts) = (
    s,
    trim_same none _ a e,
    trim_same (some p) _ b e',
    trim_same o'' _ c e'',
    datasets-Charts now m (extended none (some p) o'' t),
  )
  pushed-Shows start now m none none (some p) a b c t (s, e, e', e'', charts) = (
    s,
    trim_same none _ a e,
    trim_same none _ b e',
    trim_same (some p) _ c e'',
    datasets-Charts now m (extended none none (some p) t),
  )

  -- A step other than `quit`
  stepped-Shows :
      (start : ℕ) (step : TuiStep fl) (a : List (ThroughputPoint F)) (b c : List (F × F))
      (t : ClientTui F)
      → Shows start a b c t
      → Shows start
          (pushed (point_at (latest_throughput fl) start step) a)
          (pushed (point_at (latest_latency fl) start step) b)
          (pushed (point_at (latest_errors fl) start step) c)
          (tui_step fl step t)
  unfolding on_key update_metrics
  stepped-Shows start (pressed quit log) a b c t v = v
  stepped-Shows start (pressed logs log) a b c t v = v
  stepped-Shows start (pressed up log) a b c t v =
      elim (Bool-cases (t.show_logs && ltb 0 t.log_scroll)) [ inl e ↦ rw e v | inr e ↦ rw e v ]
  stepped-Shows start (pressed down log) a b c t v =
      elim (Bool-cases (t.show_logs && ltb t.log_scroll (len log - 10))) [
        | inl e ↦ rw e v
        | inr e ↦ rw e v
      ]
  stepped-Shows start (pressed other log) a b c t v = v
  stepped-Shows start (refreshed now m) a b c t (s, e, e', e'', charts) =
      let elapsed = fl.as_secs (now - t.start_time) in
      rw (sym s) (
        pushed-Shows t.start_time now m (latest_throughput fl elapsed m)
          (latest_latency fl elapsed m) (latest_errors fl elapsed m) a b c t
          (refl, e, e', e'', charts))

  pub run_step :
      (step : TuiStep fl) (steps : List (TuiStep fl)) (t : ClientTui F)
      → t.should_quit ≡ false
      → run fl (step ∷ steps) t ≡ run fl steps (tui_step fl step t)
  unfolding run
  run_step step steps t q = rw q refl

  pub run_quit :
      (steps : List (TuiStep fl)) (t : ClientTui F) → t.should_quit ≡ true → run fl steps t ≡ t
  unfolding run
  run_quit [] t q = refl
  run_quit (step ∷ steps) t q = rw q refl

  if_same :
      {q : Bool} (b : Bool) (s t : ClientTui F)
      → s.should_quit ≡ q
      → t.should_quit ≡ q
      → (if b then s else t).should_quit ≡ q
  if_same true s t e e' = e
  if_same false s t e e' = e'

  -- A step goes on with the loop.
  abbrev GoesOn : TuiStep fl → Type 0
  GoesOn step =
      ((steps : List (TuiStep fl)) → until_quit (step ∷ steps) ≡ step ∷ until_quit steps)
      × ((t : ClientTui F) → (tui_step fl step t).should_quit ≡ t.should_quit)

  step-cases : (step : TuiStep fl) → ((log : LogBuffer) × (step ≡ pressed quit log)) ⊎ GoesOn step
  unfolding on_key update_metrics
  step-cases (pressed quit log) = inl (log, refl)
  step-cases (pressed logs log) = inr ((λ steps. refl), λ t. refl)
  step-cases (pressed up log) =
      inr ((λ steps. refl), λ t. if_same (t.show_logs && ltb 0 t.log_scroll) _ _ refl refl)
  step-cases (pressed down log) =
      inr (
        (λ steps. refl),
        λ t. if_same (t.show_logs && ltb t.log_scroll (len log - 10)) _ _ refl refl,
      )
  step-cases (pressed other log) = inr ((λ steps. refl), λ t. refl)
  step-cases (refreshed now m) = inr ((λ steps. refl), λ t. if_same _ _ _ refl refl)

  run-Shows :
      (start : ℕ) (steps : List (TuiStep fl)) (a : List (ThroughputPoint F)) (b c : List (F × F))
      (t : ClientTui F)
      → t.should_quit ≡ false
      → Shows start a b c t
      → Shows start
          (all_pushed (point_at (latest_throughput fl) start) (until_quit steps) a)
          (all_pushed (point_at (latest_latency fl) start) (until_quit steps) b)
          (all_pushed (point_at (latest_errors fl) start) (until_quit steps) c)
          (run fl steps t)
  unfolding on_key run
  run-Shows start [] a b c t q v = v
  run-Shows start (step ∷ steps) a b c t q v = elim (step-cases step) [
    | inl (log, e) ↦
        rw (e, run_step (pressed quit log) steps t q)
          (rw (run_quit steps (record t { should_quit = true }) refl) v)
    | inr (u, k) ↦
        rw (u steps, run_step step steps t q)
          (run-Shows start steps _ _ _ (tui_step fl step t) (k t ∙ q)
            (stepped-Shows start step a b c t v))
  ]

  -- The histories of the panel, after any steps of its loop: each is the newest 120 of the points that the
  -- refreshes in front of the first `q` or Esc have taken from the metrics, in their order, whatever
  -- keys are pressed between them; and the data of the charts are their columns, with an active
  -- count for each point of the throughput, or none as long as all three histories are empty.
  pub tui_run-Shows :
      (start : ℕ) (steps : List (TuiStep fl))
      → Shows start
          (all_pushed (point_at (latest_throughput fl) start) (until_quit steps) [])
          (all_pushed (point_at (latest_latency fl) start) (until_quit steps) [])
          (all_pushed (point_at (latest_errors fl) start) (until_quit steps) [])
          (run fl steps (new F start))
  unfolding new
  tui_run-Shows start steps =
      run-Shows start steps [] [] [] (new F start) refl (refl, refl, refl, refl, (refl, refl, refl))
