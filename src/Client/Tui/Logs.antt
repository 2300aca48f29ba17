-- ===== src/Client/Tui/Logs.antt =====
-- client/src/tui.rs: scrolling through the log.
use npt.Prelude.{
  ℕ, ◌-◌, ◌≤◌, ◌≡◌, refl, sym, ap, ◌∙◌, List, [], ◌∷◌, ◌++◌, length, take, drop, min, Bool, true,
  false, ◌&&◌, ltb, ltb→lt, length-take, length-drop, take-append-drop, arith, Bool-cases, inl, inr,
  if◌then◌else◌,
}
use npt.Prelude.Float.{Float64}
use npt.Shared.LogBuffer.{LogBuffer, LogEntry, get_entries, len}
use npt.Client.Tui.Histories.{ltb→le, run_step, run_quit}
use npt.Client.Tui.{
  ClientTui, new, Key, quit, logs, up, down, other, on_key, start_index, displayed_logs,
  update_metrics, TuiStep, pressed, refreshed, tui_step, run,
}

start_index_lem : (total scroll : ℕ) → start_index total scroll ≡ total - 8 - min scroll (total - 8)
start_index_lem total scroll = elim (Bool-cases (ltb 8 total)) [
  | inl e ↦ rw e refl
  | inr e ↦ rw e (omega (arith, ltb→le 8 total e))
]

module _ (fl : Float64) where
  open fl use {F}

  -- The log has at most `n` entries whenever a key is pressed.
  abbrev pub Logged : (n : ℕ) → List (TuiStep fl) → Type 0
  Logged n [] = Unit {0}
  Logged n (pressed key log ∷ steps) = (len log ≤ n) × Logged n steps
  Logged n (refreshed now m ∷ steps) = Logged n steps

  if_scrolled :
      {n : ℕ} (b : Bool) (s t : ClientTui F)
      → (b ≡ true → s.log_scroll ≤ n)
      → t.log_scroll ≤ n
      → (if b then s else t).log_scroll ≤ n
  if_scrolled true s t h h' = h refl
  if_scrolled false s t h h' = h'

  and_right : (a b : Bool) → (a && b) ≡ true → b ≡ true
  and_right true b h = h
  and_right false b h = absurd cc

  key-scroll :
      (n : ℕ) (key : Key) (log : LogBuffer) (t : ClientTui F)
      → len log ≤ n
      → t.log_scroll ≤ n - 10
      → (on_key key log t).log_scroll ≤ n - 10
  unfolding on_key
  key-scroll n quit log t h s = s
  key-scroll n logs log t h s = omega arith
  key-scroll n up log t h s =
      if_scrolled (t.show_logs && ltb 0 t.log_scroll) _ t (λ e. omega (arith, s)) s
  key-scroll n down log t h s =
      if_scrolled (t.show_logs && ltb t.log_scroll (len log - 10)) _ t
        (λ e.
          let below = ltb→lt t.log_scroll (len log - 10) (and_right t.show_logs _ e) in
          omega (arith, h, below))
        s
  key-scroll n other log t h s = s

  step-scroll :
      (n : ℕ) (step : TuiStep fl) (steps : List (TuiStep fl)) (t : ClientTui F)
      → Logged n (step ∷ steps)
      → t.log_scroll ≤ n - 10
      → ((tui_step fl step t).log_scroll ≤ n - 10) × Logged n steps
  unfolding update_metrics
  step-scroll n (pressed key log) steps t (h, l) s = (key-scroll n key log t h s, l)
  step-scroll n (refreshed now m) steps t l s = (if_scrolled _ _ _ (λ e. s) s, l)

  run-scroll :
      (n : ℕ) (steps : List (TuiStep fl)) (t : ClientTui F)
      → Logged n steps
      → t.log_scroll ≤ n - 10
      → (run fl steps t).log_scroll ≤ n - 10
  unfolding run
  run-scroll n [] t l s = s
  run-scroll n (step ∷ steps) t l s = elim (Bool-cases t.should_quit) [
    | inl e ↦ rw (run_quit fl (step ∷ steps) t e) s
    | inr e ↦
        let (s', l') = step-scroll n step steps t l s in
        rw (run_step fl step steps t e) (run-scroll n steps (tui_step fl step t) l' s')
  ]

  -- The entries of a log, cut into those before the shown ones, these, and those behind
  abbrev pub Cut : (entries shown : List LogEntry) (scroll : ℕ) → Type 0
  Cut entries shown scroll =
      (older newer : List LogEntry) × (entries ≡ older ++ (shown ++ newer))
      × (length shown ≡ min 8 (length entries))
      × (length newer ≡ min scroll (length entries - 8))
      × (min 2 (length entries - 8) ≤ length older)

  shown-Cut :
      (entries : List LogEntry) (scroll : ℕ)
      → scroll ≤ length entries - 10
      → Cut entries (take 8 (drop (start_index (length entries) scroll) entries)) scroll
  shown-Cut entries scroll h =
      let k = start_index (length entries) scroll in
      let rest = drop k entries in
      let size = length-drop k entries in
      let at : k ≡ length entries - 8 - min scroll (length entries - 8) =
        start_index_lem (length entries) scroll in
      (
        take k entries,
        drop 8 rest,
        sym (ap (λ l. take k entries ++ l) (take-append-drop 8 rest) ∙ take-append-drop k entries),
        omega (arith, length-take 8 rest, size, at, h),
        omega (arith, length-drop 8 rest, size, at, h),
        omega (arith, length-take k entries, at, h),
      )

  -- What the panel shows of a log behind any steps of its loop, if the log has had at most as many entries
  -- at each key as it has now: a run of its entries, eight or all of them, with as many newer ones
  -- behind it as the panel is scrolled by, where there are as many. But scrolling ends too early: of a
  -- log with more than eight entries the oldest, and with more than nine the two oldest, cannot be
  -- reached.
  pub tui_run-Cut :
      (start : ℕ) (steps : List (TuiStep fl)) (log : LogBuffer)
      → Logged (len log) steps
      → let t = run fl steps (new F start) in
        Cut (get_entries log) (displayed_logs log t) t.log_scroll
  unfolding new displayed_logs get_entries len
  tui_run-Cut start steps log l =
      shown-Cut log.entries _ (run-scroll (len log) steps (new F start) l (omega arith))
