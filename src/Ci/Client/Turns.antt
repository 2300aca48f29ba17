-- ===== src/Ci/Client/Turns.antt =====
-- ci/src/client.rs: what one turn of the watchdog records.
use npt.Prelude.{
  ◌+◌, ◌<◌, ◌⊎◌, ℕ, ◌*◌, ◌%◌, ◌^◌, ◌≡◌, refl, ap, ◌∙◌, List, [], ◌∷◌, ◌++◌, append-nil, true, false,
  arith, Bool-cases, inl, inr,
}
use npt.Prelude.Float.{Float64}
use npt.Ci.Client.{ConnState, StallEvent, PortRun}
use npt.Ci.Client.Watchdog.{is_new_stall, stall_event, watch_all, watchdog_tick}

-- A flow has stalled: it counts for the watchdog, is in no stall yet, and its last bytes came more than
-- `stall_ms` before `now`.
pub record Stalled (stall_ms now : ℕ) (c : ConnState) : Type 0 where
  pub is_connected : c.connected ≡ true
  pub is_whole : c.disconnected ≡ false
  pub has_received : c.first_recv ≡ true
  pub is_quiet : c.last_recv_ms + stall_ms < now
  pub is_new : c.in_stall ≡ false

is_new_stall-Stalled :
    (stall_ms now : ℕ) (c : ConnState) → is_new_stall stall_ms now c ≡ true → Stalled stall_ms now c
is_new_stall-Stalled stall_ms now c e = ground arith

not_new_stall :
    (stall_ms now : ℕ) (c : ConnState)
    → is_new_stall stall_ms now c ≡ false
    → ¬ (Stalled stall_ms now c)
not_new_stall stall_ms now c e h = ground arith

module _ (fl : Float64) where
  open fl use {F}

  -- What the events of a turn say of the flows, in their order: one for each stalled flow, with its gap.
  pub NewStalls : (stall_ms now : ℕ) → List ConnState → List (StallEvent F) → Type 0
  NewStalls stall_ms now [] events = events ≡ []
  NewStalls stall_ms now (c ∷ cs) events =
      (Stalled stall_ms now c
        × ((e : StallEvent F) × (rest : List (StallEvent F)) × (events ≡ e ∷ rest)
            × (e.conn_id ≡ c.id)
            × (e.gap_ms + c.last_recv_ms ≡ now)
            × (e.at_secs ≡ fl.div (fl.of_ℕ now) (fl.of_ℕ 1000))
            × NewStalls stall_ms now cs rest))
      ⊎ ((¬ (Stalled stall_ms now c)) × NewStalls stall_ms now cs events)

  watch_all-NewStalls :
      (stall_ms now : ℕ) (cs : List ConnState)
      → NewStalls stall_ms now cs (watch_all fl stall_ms now cs).1
  unfolding NewStalls
  watch_all-NewStalls stall_ms now [] = refl
  watch_all-NewStalls stall_ms now (c ∷ cs) = elim (Bool-cases (is_new_stall stall_ms now c)) [
    | inl e ↦
        let stalled : Stalled stall_ms now c = is_new_stall-Stalled stall_ms now c e in
        rw e (
          inl (
            stalled,
            (
              stall_event fl now c,
              (watch_all fl stall_ms now cs).1,
              refl,
              refl,
              omega (arith, stalled.is_quiet),
              refl,
              watch_all-NewStalls stall_ms now cs,
            ),
          ))
    | inr e ↦
        rw e (inr (λ h. not_new_stall stall_ms now c e h, watch_all-NewStalls stall_ms now cs))
  ]

  watch_all-again :
      (stall_ms now : ℕ) (cs : List ConnState)
      → watch_all fl stall_ms now (watch_all fl stall_ms now cs).0
        ≡ ((watch_all fl stall_ms now cs).0, [])
  watch_all-again stall_ms now [] = refl
  watch_all-again stall_ms now (c ∷ cs) =
      let again = watch_all-again stall_ms now cs in
      elim (Bool-cases (is_new_stall stall_ms now c)) [
        | inl e ↦
            let no_more : is_new_stall stall_ms now (record c { in_stall = true }) ≡ false =
              ground arith in
            rw (e, no_more)
              (ap
                (λ p.
                  let stalled : ConnState = record c { in_stall = true } in (stalled ∷ p.0, p.1))
                again)
        | inr e ↦ rw (e, e) (ap (λ p. (c ∷ p.0, p.1)) again)
      ]

  -- A turn of the watchdog in the test's time records a stall for exactly the flows that are connected, not
  -- disconnected, have received something, are in no stall yet, and have received nothing for longer
  -- than stall_secs; each with its gap and the time, in the order of the flows. A second turn at the
  -- same time records nothing and changes nothing.
  pub tick_reports :
      (stall_secs now : ℕ) (r : PortRun F)
      → r.winding_down ≡ false
      → let r' = watchdog_tick fl stall_secs true now r in
        ((events : List (StallEvent F)) × (r'.stalls ≡ r.stalls ++ events)
          × NewStalls ((stall_secs * 1000) % 2 ^ 64) now r.conns events)
        × (watchdog_tick fl stall_secs true now r' ≡ r')
  unfolding watchdog_tick
  tick_reports stall_secs now r h =
      let stall_ms = (stall_secs * 1000) % 2 ^ 64 in
      let again = watch_all-again stall_ms now r.conns in
      let first = watch_all fl stall_ms now r.conns in
      rw h (
        (first.1, refl, watch_all-NewStalls stall_ms now r.conns),
        ap
              (λ p. record r {
                conns = p.0;
                winding_down = false;
                stalls = (r.stalls ++ first.1) ++ p.1;
              })
              again
            ∙ ap (λ l. record r { conns = first.0; winding_down = false; stalls = l })
                (append-nil (r.stalls ++ first.1)),
      )
