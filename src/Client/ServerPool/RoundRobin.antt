-- ===== src/Client/ServerPool/RoundRobin.antt =====
-- client/src/server_pool.rs: `get_server` under the round-robin strategy.
use npt.Prelude.{
  ℕ, zero, suc, ◌+◌, ◌-◌, ◌%◌, ◌^◌, ◌≤◌, ◌<◌, ◌≡◌, refl, ap, ap₂, sym, ◌∙◌, List, [], ◌∷◌, ◌++◌,
  Option, some, length, take, drop, get_elem?, get_elem?-IsSome, false, drop-get_elem?, length-drop,
  take_all, ◌==◌, arith,
}
use npt.Shared.Config.{round_robin}
use npt.Client.ServerPool.{
  ServerInfo, ServerPool, Chance, address_of, select, healthy_servers, get_server,
}

-- `n` calls of `get_server` in a row, with no other call between them.
abbrev pub draws : ℕ → Chance → ServerPool → List (Option ℕ)
draws zero chance p = []
draws (suc n) chance p = let (a, p') = get_server chance p in a ∷ draws n chance p'

-- The servers that the indices `j`, `j + 1` and so on choose.
window : List ServerInfo → ℕ → ℕ → List (Option ℕ)
window l j zero = []
window l j (suc k) = address_of (get_elem? l (j % length l)) ∷ window l (j + 1) k

get_server_round_robin :
    (chance : Chance) (p : ServerPool)
    → p.config.strategy ≡ round_robin
    → 0 < length (healthy_servers p)
    → p.round_robin_index + 1 < 2 ^ 64
    → get_server chance p ≡ (
      address_of (get_elem? (healthy_servers p) (p.round_robin_index % length (healthy_servers p))),
      record p { round_robin_index = p.round_robin_index + 1 },
    )
unfolding get_server select
get_server_round_robin chance p e h fits =
    let more : (length (healthy_servers p) == 0) ≡ false = ground arith in
    let next : (p.round_robin_index + 1) % 2 ^ 64 ≡ p.round_robin_index + 1 = omega arith in
    rw more (
      ap (λ s. select s chance (healthy_servers p) p) e
      ∙ ap
          (λ k. (
            address_of
                (get_elem? (healthy_servers p) (p.round_robin_index % length (healthy_servers p))),
            record p { round_robin_index = k },
          ))
          next)

draws-window :
    (n : ℕ) (chance : Chance) (p : ServerPool)
    → p.config.strategy ≡ round_robin
    → 0 < length (healthy_servers p)
    → p.round_robin_index + n < 2 ^ 64
    → draws n chance p ≡ window (healthy_servers p) p.round_robin_index n
unfolding window
draws-window zero chance p e h fits = refl
draws-window (suc n) chance p e h fits =
    let one = get_server_round_robin chance p e h (omega arith) in
    rw one (
      ap
        (λ l.
          address_of
            (get_elem? (healthy_servers p) (p.round_robin_index % length (healthy_servers p)))
          ∷ l)
        (draws-window n chance (record p { round_robin_index = p.round_robin_index + 1 }) e h
          (omega arith)))

mod_next : (j n : ℕ) → j % n + 1 < n → (j + 1) % n ≡ j % n + 1
mod_next j n h = grind arith

mod_wraps : (j n : ℕ) → j % n + 1 ≡ n → (j + 1) % n ≡ 0
mod_wraps j n h = grind arith

window-append :
    (l : List ServerInfo) (j a b : ℕ) → window l j (a + b) ≡ window l j a ++ window l (j + a) b
unfolding window
window-append l j zero b = ap₂ (window l) (omega arith) (omega arith)
window-append l j (suc a) b =
    ap (window l j) (shift a b)
    ∙ ap (λ r. address_of (get_elem? l (j % length l)) ∷ r)
        (window-append l (j + 1) a b ∙ ap (λ k. window l (j + 1) a ++ window l k b) (omega arith))
  where
    shift : (a b : ℕ) → suc a + b ≡ suc (a + b)
    shift a b = omega arith

abbrev pub addresses : List ServerInfo → List (Option ℕ)
addresses [] = []
addresses (s ∷ l) = some s.address ∷ addresses l

-- As long as the index does not come to the end of the list, the window is a part of the list.
window_inside :
    (k : ℕ) (l : List ServerInfo) (j : ℕ)
    → 0 < length l
    → j % length l + k ≤ length l
    → window l j k ≡ addresses (take k (drop (j % length l) l))
unfolding window
window_inside zero l j h r = refl
window_inside (suc zero) l j h r =
    let (s, e) = get_elem?-IsSome l (j % length l) (omega arith) in
    rw (e, drop-get_elem? l (j % length l) e)
window_inside (suc (suc k)) l j h r =
    let (s, e) = get_elem?-IsSome l (j % length l) (omega arith) in
    let next = mod_next j (length l) (omega arith) in
    rw (e, drop-get_elem? l (j % length l) e)
      (ap (λ t. some s.address ∷ t)
        (window_inside (suc k) l (j + 1) h (omega arith)
          ∙ ap (λ i. addresses (take (suc k) (drop i l))) (next ∙ plus_one (j % length l))))
  where
    plus_one : (i : ℕ) → i + 1 ≡ suc i
    plus_one i = omega arith

addresses-append : (l m : List ServerInfo) → addresses (l ++ m) ≡ addresses l ++ addresses m
addresses-append [] m = refl
addresses-append (s ∷ l) m = ap (λ t. some s.address ∷ t) (addresses-append l m)

-- Going on to the end of a round brings the index back to the start.
round_end : (j n : ℕ) → 0 < n → (j + (n - j % n)) % n ≡ 0
round_end j n h = grind arith

window_round :
    (l : List ServerInfo) (j : ℕ)
    → 0 < length l
    → window l j (length l) ≡ addresses (drop (j % length l) l ++ take (j % length l) l)
window_round l j h =
    let n = length l in
    let r = j % n in
    let split : n ≡ (n - r) + r = omega arith in
    let stop : (j + (n - r)) % n ≡ 0 = round_end j n h in
    let from : (j + (n - r)) % n + r ≤ n = omega arith in
    ap (window l j) split
    ∙ window-append l j (n - r) r
    ∙ ap₂ (λ x y. x ++ y)
        (window_inside (n - r) l j h (omega arith)
          ∙ ap addresses (take_all (n - r) (drop r l) (omega (arith, length-drop r l))))
        (window_inside r l (j + (n - r)) h from ∙ ap (λ i. addresses (take r (drop i l))) stop)
    ∙ sym (addresses-append (drop r l) (take r l))

-- As many calls of `get_server` in a row as there are healthy servers choose each of them once, in the
-- order of the map from where the index stands on and then from its beginning, as long as the index
-- does not wrap round at 2^64.
pub draws_in_turn :
    (chance : Chance) (p : ServerPool)
    → p.config.strategy ≡ round_robin
    → 0 < length (healthy_servers p)
    → p.round_robin_index + length (healthy_servers p) < 2 ^ 64
    → let start = p.round_robin_index % length (healthy_servers p) in
      draws (length (healthy_servers p)) chance p
      ≡ addresses (drop start (healthy_servers p) ++ take start (healthy_servers p))
draws_in_turn chance p e h fits =
    draws-window (length (healthy_servers p)) chance p e h fits
    ∙ window_round (healthy_servers p) p.round_robin_index h
