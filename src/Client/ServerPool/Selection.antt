-- ===== src/Client/ServerPool/Selection.antt =====
-- client/src/server_pool.rs: which server `get_server` chooses.
use npt.Prelude.{
  ℕ, zero, suc, ◌%◌, ◌≤◌, ◌<◌, ◌≡◌, refl, ap, List, [], ◌∷◌, none, some, length, get_elem?,
  get_elem?-IsSome, Bool, true, false, At, filter-At, At-filter, ltb, ◌==◌, if◌then◌else◌, arith,
  Bool-cases, inl, inr, ◌⊎◌, ==→eq,
}
use npt.Shared.Config.{Strategy, round_robin, random, least_connections, hash_based}
use npt.Client.ServerPool.{
  ServerInfo, ServerPool, Chance, values, address_of, least, select, healthy_servers, get_server,
}

least-At : (best : ServerInfo) (l : List ServerInfo) → At (least best l) (best ∷ l)
least-At best [] = (0, refl)
least-At best (s ∷ l) =
    let smaller = ltb s.active_connections best.active_connections in
    lift smaller (least-At (if smaller then s else best) l)
  where
    lift : (b : Bool) {t : ServerInfo} → At t ((if b then s else best) ∷ l) → At t (best ∷ s ∷ l)
    lift true (i, h) = (suc i, h)
    lift false (zero, h) = (zero, h)
    lift false (suc i, h) = (suc (suc i), h)

least-le :
    (best : ServerInfo) (l : List ServerInfo) {t : ServerInfo}
    → At t (best ∷ l)
    → (least best l).active_connections ≤ t.active_connections
least-le best [] (zero, h) = ground arith
least-le best [] (suc i, h) = cc
least-le best (s ∷ l) (i, h) =
    step (ltb s.active_connections best.active_connections) refl i h
      (λ u at. least-le u l {t = u} (0, refl)) (λ u j e. least-le u l (suc j, e))
  where
    step :
        (b : Bool)
        → ltb s.active_connections best.active_connections ≡ b
        → (i : ℕ) {t : ServerInfo} → get_elem? (best ∷ s ∷ l) i ≡ some t
        → ((u : ServerInfo) → Unit {0} → (least u l).active_connections ≤ u.active_connections)
        → ((u : ServerInfo) (j : ℕ)
            → get_elem? l j ≡ some t
            → (least u l).active_connections ≤ t.active_connections)
        → (least (if b then s else best) l).active_connections ≤ t.active_connections
    step true e zero h here there = ground (arith, here s tt)
    step true e (suc zero) h here there = ground (arith, here s tt)
    step true e (suc (suc i)) h here there = there s i h
    step false e zero h here there = ground (arith, here best tt)
    step false e (suc zero) h here there = ground (arith, here best tt)
    step false e (suc (suc i)) h here there = there best i h

-- The chosen server of a list that is not empty is one of the list.
select-At :
    (strategy : Strategy) (chance : Chance) (l : List ServerInfo) (p : ServerPool)
    → 0 < length l
    → chance.gen_range (length l) < length l
    → (s : ServerInfo) × At s l × ((select strategy chance l p).0 ≡ some s.address)
unfolding select
select-At round_robin chance l p h r =
    let (s, e) = get_elem?-IsSome l (p.round_robin_index % length l) (omega arith) in
    (s, (p.round_robin_index % length l, e), ap address_of e)
select-At random chance l p h r =
    let (s, e) = get_elem?-IsSome l (chance.gen_range (length l)) r in
    (s, (chance.gen_range (length l), e), ap address_of e)
select-At least_connections chance [] p h r = elim h [ ]
select-At least_connections chance (s ∷ l) p h r = (least s l, least-At s l, refl)
select-At hash_based chance l p h r =
    let (s, e) = get_elem?-IsSome l (chance.new_uuid % length l) (omega arith) in
    (s, (chance.new_uuid % length l, e), ap address_of e)

-- With a random generator that keeps to its range, every strategy chooses among the healthy servers
-- of the pool: there is no answer exactly if no server is healthy, and then the pool is unchanged.
pub get_server-is_healthy :
    (chance : Chance) (p : ServerPool)
    → ((n : ℕ) → 0 < n → chance.gen_range n < n)
    → ((healthy_servers p ≡ []) × (get_server chance p ≡ (none, p)))
      ⊎ ((s : ServerInfo) × At s (values p.servers)
          × (s.is_healthy ≡ true)
          × ((get_server chance p).0 ≡ some s.address))
unfolding get_server
get_server-is_healthy chance p fair = elim (Bool-cases (length (healthy_servers p) == 0)) [
  | inl empty ↦
      inl (no_items (healthy_servers p) (==→eq (length (healthy_servers p)) 0 empty), rw empty)
  | inr some_left ↦
      let (s, at, e) =
        select-At p.config.strategy chance (healthy_servers p) p (ground arith)
          (fair (length (healthy_servers p)) (ground arith)) in
      let (at', healthy) = filter-At (λ s. s.is_healthy) (values p.servers) at in
      inr (s, at', healthy, rw some_left e)
]
  where
    no_items : (l : List ServerInfo) → length l ≡ 0 → l ≡ []
    no_items [] e = refl
    no_items (s ∷ l) e = absurd (omega arith)

-- By the least connections, the chosen server has no more connections than any healthy server.
pub get_server-least :
    (chance : Chance) (p : ServerPool) (t : ServerInfo)
    → p.config.strategy ≡ least_connections
    → At t (values p.servers)
    → t.is_healthy ≡ true
    → (s : ServerInfo) × ((get_server chance p).0 ≡ some s.address)
      × At s (healthy_servers p)
      × (s.active_connections ≤ t.active_connections)
unfolding get_server select
get_server-least chance p t strategy at healthy =
    choose (healthy_servers p) refl (At-filter (λ s. s.is_healthy) (values p.servers) at healthy)
  where
    choose :
        (l : List ServerInfo)
        → healthy_servers p ≡ l
        → At t l
        → (s : ServerInfo) × ((get_server chance p).0 ≡ some s.address)
          × At s (healthy_servers p)
          × (s.active_connections ≤ t.active_connections)
    choose [] e (i, h) = cc
    choose (s ∷ l) e at' =
        let more : (length (s ∷ l) == 0) ≡ false = ground arith in
        (least s l, rw (e, strategy, more), rw e (least-At s l), least-le s l at')
