-- ===== src/Client/ServerPool/Accounting.antt =====
-- client/src/server_pool.rs: the pool as a collection of independent servers, and the count of the
-- connections of each.
use npt.Prelude.{
  ℕ, ◌+◌, ◌%◌, ◌^◌, ◌≡◌, refl, ap, ◌∙◌, List, [], ◌∷◌, Option, none, some, Bool, true, false, ◌==◌,
  if◌then◌else◌, arith,
}
use npt.Prelude.Table.{lookup, modify, lookup-modify}
use npt.Shared.Config.{HealthCheckConfig}
use npt.Client.ServerPool.{
  ServerInfo, ServerPool, increment_connections, decrement_connections, failed, succeeded, checked,
  mark_connection_start, mark_connection_end, mark_connection_failed, mark_connection_success,
  health_check,
}

-- A call on the pool, or a result of a health check, in the order in which they take the entry of the
-- map; times come with the calls.
pub data PoolEvent : Type 0 where
  started : ℕ → ℕ → PoolEvent
  ended : ℕ → PoolEvent
  was_refused : ℕ → PoolEvent
  was_reached : ℕ → PoolEvent
  probed : ℕ → ℕ → Bool → PoolEvent

abbrev pub on_pool : PoolEvent → ServerPool → ServerPool
on_pool (started now a) p = mark_connection_start now a p
on_pool (ended a) p = mark_connection_end a p
on_pool (was_refused a) p = mark_connection_failed a p
on_pool (was_reached a) p = mark_connection_success a p
on_pool (probed now a reached) p = health_check now a reached p

abbrev pub target : PoolEvent → ℕ
target (started now a) = a
target (ended a) = a
target (was_refused a) = a
target (was_reached a) = a
target (probed now a reached) = a

-- What an event does to the one server that it is about.
abbrev pub on_server : HealthCheckConfig → PoolEvent → ServerInfo → ServerInfo
on_server h (started now a) s = increment_connections now s
on_server h (ended a) s = decrement_connections s
on_server h (was_refused a) s = failed h.failure_threshold s
on_server h (was_reached a) s = succeeded h.recovery_threshold s
on_server h (probed now a reached) s =
    checked h.failure_threshold h.recovery_threshold now reached s

abbrev pub on_pool_all : List PoolEvent → ServerPool → ServerPool
on_pool_all [] p = p
on_pool_all (e ∷ es) p = on_pool_all es (on_pool e p)

-- The events about one server, one after the other; those about others are passed over.
abbrev pub on_server_all : HealthCheckConfig → ℕ → List PoolEvent → ServerInfo → ServerInfo
on_server_all h a [] s = s
on_server_all h a (e ∷ es) s = on_server_all h a es (if target e == a then on_server h e s else s)

abbrev pub map_some {ℓ} : {A : Type ℓ} → (A → A) → Option A → Option A
map_some f none = none
map_some f (some a) = some (f a)

pub on_pool-config : (e : PoolEvent) (p : ServerPool) → (on_pool e p).config ≡ p.config
unfolding mark_connection_start mark_connection_end mark_connection_failed mark_connection_success
    health_check
on_pool-config (started now a) p = refl
on_pool-config (ended a) p = refl
on_pool-config (was_refused a) p = refl
on_pool-config (was_reached a) p = refl
on_pool-config (probed now a reached) p = refl

pub on_pool-servers :
    (e : PoolEvent) (p : ServerPool)
    → (on_pool e p).servers ≡ modify (target e) (on_server p.config.health_check e) p.servers
unfolding mark_connection_start mark_connection_end mark_connection_failed mark_connection_success
    health_check
on_pool-servers (started now a) p = refl
on_pool-servers (ended a) p = refl
on_pool-servers (was_refused a) p = refl
on_pool-servers (was_reached a) p = refl
on_pool-servers (probed now a reached) p = refl

lookup-on_pool :
    (e : PoolEvent) (p : ServerPool) (a : ℕ)
    → lookup a (on_pool e p).servers
      ≡ map_some
          (λ s. if target e == a then on_server p.config.health_check e s else s)
          (lookup a p.servers)
lookup-on_pool e p a =
    ap (lookup a) (on_pool-servers e p)
    ∙ lookup-modify (target e) a (on_server p.config.health_check e) p.servers
    ∙ pick (target e == a) (lookup a p.servers)
  where
    pick :
        (b : Bool) (o : Option ServerInfo)
        → (if b
            then (elim o [ none ↦ none | some s ↦ some (on_server p.config.health_check e s) ])
            else o)
          ≡ map_some (λ s. if b then on_server p.config.health_check e s else s) o
    pick true none = refl
    pick true (some s) = refl
    pick false none = refl
    pick false (some s) = refl

-- After any calls and health checks, interleaved in any way, the entry of each server in the pool is
-- what the events about that server alone make of it: no event changes another server, adds one or
-- removes one, and the thresholds are those of the configuration.
pub lookup-on_pool_all :
    (es : List PoolEvent) (p : ServerPool) (a : ℕ)
    → lookup a (on_pool_all es p).servers
      ≡ map_some (on_server_all p.config.health_check a es) (lookup a p.servers)
lookup-on_pool_all [] p a = same (lookup a p.servers)
  where
    same : (o : Option ServerInfo) → o ≡ map_some (λ s. s) o
    same none = refl
    same (some s) = refl
lookup-on_pool_all (e ∷ es) p a =
    lookup-on_pool_all es (on_pool e p) a
    ∙ ap (λ c. map_some (on_server_all c.health_check a es) (lookup a (on_pool e p).servers))
        (on_pool-config e p)
    ∙ ap (map_some (on_server_all p.config.health_check a es)) (lookup-on_pool e p a)
    ∙ join (lookup a p.servers)
  where
    join :
        (o : Option ServerInfo)
        → map_some
            (on_server_all p.config.health_check a es)
            (map_some (λ s. if target e == a then on_server p.config.health_check e s else s) o)
          ≡ map_some (on_server_all p.config.health_check a (e ∷ es)) o
    join none = refl
    join (some s) = refl

-- The connections that an event starts, and that it ends.
abbrev pub opens : PoolEvent → ℕ
opens (started now a) = 1
opens _ = 0

abbrev pub closes : PoolEvent → ℕ
closes (ended a) = 1
closes _ = 0

-- The connections that were started, and ended, at one server.
abbrev pub starts_at : ℕ → List PoolEvent → ℕ
starts_at a [] = 0
starts_at a (e ∷ es) = (if target e == a then opens e else 0) + starts_at a es

abbrev pub ends_at : ℕ → List PoolEvent → ℕ
ends_at a [] = 0
ends_at a (e ∷ es) = (if target e == a then closes e else 0) + ends_at a es

module _ (h : HealthCheckConfig) where
  active_step :
      (e : PoolEvent) (s : ServerInfo)
      → ((on_server h e s).active_connections + closes e) % 2 ^ 32
        ≡ (s.active_connections + opens e) % 2 ^ 32
  unfolding increment_connections decrement_connections failed succeeded checked
  active_step (started now a) s = omega arith
  active_step (ended a) s = omega arith
  active_step (was_refused a) s = ground arith
  active_step (was_reached a) s = ground arith
  active_step (probed now a true) s = ground arith
  active_step (probed now a false) s = ground arith

  active_balance :
      (a : ℕ) (es : List PoolEvent) (s : ServerInfo)
      → ((on_server_all h a es s).active_connections + ends_at a es) % 2 ^ 32
        ≡ (s.active_connections + starts_at a es) % 2 ^ 32
  active_balance a [] s = omega arith
  active_balance a (e ∷ es) s =
      at (target e == a) (active_balance a es (on_server h e s)) (active_balance a es s)
    where
      at :
          (b : Bool)
          → ((on_server_all h a es (on_server h e s)).active_connections + ends_at a es) % 2 ^ 32
            ≡ ((on_server h e s).active_connections + starts_at a es) % 2 ^ 32
          → ((on_server_all h a es s).active_connections + ends_at a es) % 2 ^ 32
            ≡ (s.active_connections + starts_at a es) % 2 ^ 32
          → ((on_server_all h a es (if b then on_server h e s else s)).active_connections
                + ((if b then closes e else 0) + ends_at a es))
              % 2 ^ 32
            ≡ (s.active_connections + ((if b then opens e else 0) + starts_at a es)) % 2 ^ 32
      at true here there = omega (arith, active_step e s)
      at false here there = omega arith

-- The count of a server's connections, for a server of the pool that had none: the connections started
-- less those ended, modulo 2^32, after any calls and health checks.
pub active_connections-on_pool_all :
    (es : List PoolEvent) (p : ServerPool) (a : ℕ) (s : ServerInfo)
    → lookup a p.servers ≡ some s
    → s.active_connections ≡ 0
    → (s' : ServerInfo) × (lookup a (on_pool_all es p).servers ≡ some s')
      × ((s'.active_connections + ends_at a es) % 2 ^ 32 ≡ starts_at a es % 2 ^ 32)
active_connections-on_pool_all es p a s e z = (
  on_server_all p.config.health_check a es s,
  lookup-on_pool_all es p a ∙ ap (map_some (on_server_all p.config.health_check a es)) e,
  omega (arith, active_balance p.config.health_check a es s),
)
