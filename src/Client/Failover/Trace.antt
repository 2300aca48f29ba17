-- ===== src/Client/Failover/Trace.antt =====
-- client/src/tcp_client.rs, `connect_with_failover`: what a call does to the pool, on every branch.
use npt.Prelude.{
  ℕ, zero, suc, ◌+◌, ◌<◌, ◌≤◌, ◌≡◌, refl, ap, ap₂, subst, sym, ◌∙◌, List, [], ◌∷◌, ◌++◌, Option,
  none, some, length, true, false, ◌==◌, arith, Bool-cases, inl, inr,
}
use npt.Prelude.Result.{Result, ok, err}
use npt.Prelude.Table.{modify}
use npt.Shared.Config.{round_robin, random, least_connections, hash_based, Strategy}
use npt.Client.ServerPool.{
  ServerInfo, ServerPool, Chance, healthy_servers, select, get_server, mark_connection_failed,
}
use npt.Client.ServerPool.Accounting.{
  PoolEvent, target, on_server, on_pool-config, on_pool-servers, started, was_refused, was_reached,
  on_pool, on_pool_all,
}
use npt.Client.Failover.{
  Attempt, ConnectError, no_healthy_servers, all_attempts_failed, max_retries, backoff,
  connect_from, attempt_on, connect_with_failover,
}

-- Two pools that differ at most in the index of the round robin.
pub record SameServers (p q : ServerPool) : Type 0 where
  pub servers : p.servers ≡ q.servers
  pub config : p.config ≡ q.config

select-SameServers :
    (strategy : Strategy) (chance : Chance) (l : List ServerInfo) (p : ServerPool)
    → SameServers (select strategy chance l p).1 p
unfolding select
select-SameServers round_robin chance l p = record { servers = refl; config = refl }
select-SameServers random chance l p = record { servers = refl; config = refl }
select-SameServers least_connections chance l p = record { servers = refl; config = refl }
select-SameServers hash_based chance l p = record { servers = refl; config = refl }

get_server-SameServers : (chance : Chance) (p : ServerPool) → SameServers (get_server chance p).1 p
unfolding get_server
get_server-SameServers chance p = elim (Bool-cases (length (healthy_servers p) == 0)) [
  | inl e ↦ rw e (record { servers = refl; config = refl })
  | inr e ↦ rw e (select-SameServers p.config.strategy chance (healthy_servers p) p)
]

pub on_pool-SameServers :
    (e : PoolEvent) (p q : ServerPool) → SameServers p q → SameServers (on_pool e p) (on_pool e q)
on_pool-SameServers e p q same = record {
  servers =
      on_pool-servers e p
      ∙ ap₂ (λ t k. modify (target e) (on_server k.health_check e) t) same.servers same.config
      ∙ sym (on_pool-servers e q);
  config = on_pool-config e p ∙ same.config ∙ sym (on_pool-config e q);
}

on_pool_all-SameServers :
    (es : List PoolEvent) (p q : ServerPool)
    → SameServers p q
    → SameServers (on_pool_all es p) (on_pool_all es q)
on_pool_all-SameServers [] p q s = s
on_pool_all-SameServers (e ∷ es) p q s =
    on_pool_all-SameServers es (on_pool e p) (on_pool e q) (on_pool-SameServers e p q s)

-- The servers that refused a connection, as events of the pool.
abbrev pub refusals : List ℕ → List PoolEvent
refusals [] = []
refusals (a ∷ rest) = was_refused a ∷ refusals rest

-- The sleeps behind `n` failed attempts from `attempt` on.
abbrev pub backoffs : ℕ → ℕ → ℕ
backoffs attempt zero = 0
backoffs attempt (suc n) = backoff attempt + backoffs (attempt + 1) n

-- The same for a whole call, in milliseconds: 100 behind the first, 200 more behind the second, and
-- nothing behind the third, which is the last.
abbrev pub slept_after : ℕ → ℕ
slept_after zero = 0
slept_after (suc zero) = 100
slept_after (suc (suc _)) = 300

backoffs-slept_after : (n : ℕ) → n ≤ 3 → backoffs 0 n ≡ slept_after n
backoffs-slept_after zero h = refl
backoffs-slept_after (suc zero) h = refl
backoffs-slept_after (suc (suc zero)) h = refl
backoffs-slept_after (suc (suc (suc zero))) h = refl
backoffs-slept_after (suc (suc (suc (suc n)))) h = omega (arith, h)

-- What the attempts from `attempt` on have met, on the pool `p`, if the servers `refused` refused one after
-- the other: each was the choice of the pool at that moment and was not reached, and so was the last one,
-- if there is one, and was reached. A refusal is marked before the next choice.
abbrev pub Meets :
    (env : ℕ → Attempt) (attempt : ℕ) (p : ServerPool)
    → (refused : List ℕ) → Result ConnectError ℕ
    → Type 0
Meets env attempt p [] (ok a) =
    ((get_server (env attempt).chance p).0 ≡ some a) × ((env attempt).reaches a ≡ true)
Meets env attempt p [] (err no_healthy_servers) = (get_server (env attempt).chance p).0 ≡ none
Meets env attempt p [] (err all_attempts_failed) = Unit {0}
Meets env attempt p (a ∷ refused) r =
    ((get_server (env attempt).chance p).0 ≡ some a)
    × ((env attempt).reaches a ≡ false)
    × Meets env (attempt + 1) (on_pool (was_refused a) (get_server (env attempt).chance p).1)
        refused r

-- What a call with `left` attempts has done to the pool `p`, which leaves the pool `q`, by its result.
abbrev pub Outcome :
    (env : ℕ → Attempt) (attempt : ℕ) (r : Result ConnectError ℕ)
    → (left : ℕ) (sleeps : ℕ → ℕ) (p q : ServerPool) (slept : ℕ) → Type 0
Outcome env attempt (ok a) left sleeps p q slept =
    (refused : List ℕ) × (length refused < left)
    × SameServers q (
        on_pool_all
          (refusals refused ++ started (env (attempt + length refused)).now a ∷ was_reached a ∷ [])
          p)
    × (slept ≡ sleeps (length refused))
    × Meets env attempt p refused (ok a)
Outcome env attempt (err all_attempts_failed) left sleeps p q slept =
    (refused : List ℕ) × (length refused ≡ left)
    × SameServers q (on_pool_all (refusals refused) p)
    × (slept ≡ sleeps (length refused))
    × Meets env attempt p refused (err all_attempts_failed)
Outcome env attempt (err no_healthy_servers) left sleeps p q slept =
    (refused : List ℕ) × (length refused < left)
    × SameServers q (on_pool_all (refusals refused) p)
    × (slept ≡ sleeps (length refused))
    × Meets env attempt p refused (err no_healthy_servers)

then_same : {p q r : ServerPool} → SameServers p q → SameServers q r → SameServers p r
then_same a b = record { servers = a.servers ∙ b.servers; config = a.config ∙ b.config }

module _ (env : ℕ → Attempt) where
  -- A refused attempt in front of what the rest of the attempts did.
  after_refusal :
      (r : Result ConnectError ℕ) (left attempt a : ℕ) (p q : ServerPool) (slept : ℕ)
      → (get_server (env attempt).chance p).0 ≡ some a
      → (env attempt).reaches a ≡ false
      → Outcome env
          (attempt + 1)
          r
          left
          (backoffs (attempt + 1))
          (on_pool (was_refused a) (get_server (env attempt).chance p).1)
          q
          slept
      → Outcome env attempt r (suc left) (backoffs attempt) p q (backoff attempt + slept)
  after_refusal (ok b) left attempt a p q slept c n (rs, h, s, e, m) =
      let p' = (get_server (env attempt).chance p).1 in
      let same = get_server-SameServers (env attempt).chance p in
      (
        a ∷ rs,
        omega arith,
        subst
            (λ k.
              SameServers q
                (on_pool_all (refusals (a ∷ rs) ++ started (env k).now b ∷ was_reached b ∷ []) p))
            (omega arith)
            (then_same s (
              on_pool_all-SameServers
                (refusals rs ++ started (env (attempt + 1 + length rs)).now b ∷ was_reached b ∷ [])
                _ _ (on_pool-SameServers (was_refused a) p' p same))),
        ap (λ t. backoff attempt + t) e,
        (c, n, m),
      )
  after_refusal (err all_attempts_failed) left attempt a p q slept c n (rs, h, s, e, m) =
      let p' = (get_server (env attempt).chance p).1 in
      let same = get_server-SameServers (env attempt).chance p in
      (
        a ∷ rs,
        ap suc h,
        then_same s (
            on_pool_all-SameServers (refusals rs) _ _
              (on_pool-SameServers (was_refused a) p' p same)),
        ap (λ t. backoff attempt + t) e,
        (c, n, m),
      )
  after_refusal (err no_healthy_servers) left attempt a p q slept c n (rs, h, s, e, m) =
      let p' = (get_server (env attempt).chance p).1 in
      let same = get_server-SameServers (env attempt).chance p in
      (
        a ∷ rs,
        omega arith,
        then_same s (
            on_pool_all-SameServers (refusals rs) _ _
              (on_pool-SameServers (was_refused a) p' p same)),
        ap (λ t. backoff attempt + t) e,
        (c, n, m),
      )

  -- The outcome of a loop that had slept `slept` milliseconds before.
  abbrev pub OutcomeFrom :
      (left attempt : ℕ) (p : ServerPool) (slept : ℕ)
      → Result ConnectError ℕ × ServerPool × ℕ
      → Type 0
  OutcomeFrom left attempt p slept (r, q, total) =
      (extra : ℕ) × (total ≡ slept + extra)
      × Outcome env attempt r left (backoffs attempt) p q extra

  connect_from-Outcome :
      (left attempt : ℕ) (p : ServerPool) (slept : ℕ)
      → OutcomeFrom left attempt p slept (connect_from left attempt env p slept)
  unfolding connect_from
  connect_from-Outcome zero attempt p slept =
      (0, omega arith, ([], refl, record { servers = refl; config = refl }, refl, tt))
  connect_from-Outcome (suc left) attempt p slept =
      on_choice (get_server (env attempt).chance p).0 refl (connect_from-Outcome left (attempt + 1))
    where
      on_choice :
          (o : Option ℕ)
          → (get_server (env attempt).chance p).0 ≡ o
          → ((p' : ServerPool) (slept' : ℕ)
              → OutcomeFrom left
                  (attempt + 1)
                  p'
                  slept'
                  (connect_from left (attempt + 1) env p' slept'))
          → OutcomeFrom (suc left) attempt p slept (
              attempt_on
                (env attempt)
                attempt
                slept
                (connect_from left (attempt + 1) env)
                (o, (get_server (env attempt).chance p).1))
      on_choice none c rest = (
        0,
        omega arith,
        ([], omega arith, get_server-SameServers (env attempt).chance p, refl, c),
      )
      on_choice (some a) c rest = elim (Bool-cases ((env attempt).reaches a)) [
        | inl reached ↦ rw reached (
          0,
          omega arith,
          (
            [],
            omega arith,
            subst
                (λ k.
                  SameServers
                    (on_pool_all (started (env attempt).now a ∷ was_reached a ∷ [])
                      (get_server (env attempt).chance p).1)
                    (on_pool_all (started (env k).now a ∷ was_reached a ∷ []) p))
                (omega arith)
                (on_pool_all-SameServers (started (env attempt).now a ∷ was_reached a ∷ []) _ p
                  (get_server-SameServers (env attempt).chance p)),
            refl,
            (c, reached),
          ),
        )
        | inr not_reached ↦
            let p' = (get_server (env attempt).chance p).1 in
            let (extra, e, o) = rest (mark_connection_failed a p') (slept + backoff attempt) in
            rw not_reached (
              backoff attempt + extra,
              omega arith,
              after_refusal _ left attempt a p _ extra c not_reached o,
            )
      ]

Outcome-times :
    (env : ℕ → Attempt) (r : Result ConnectError ℕ) (p q : ServerPool) (slept : ℕ)
    → Outcome env 0 r 3 (backoffs 0) p q slept
    → Outcome env 0 r 3 slept_after p q slept
Outcome-times env (ok a) p q slept (rs, h, s, e, m) =
    (rs, h, s, e ∙ backoffs-slept_after (length rs) (omega arith), m)
Outcome-times env (err all_attempts_failed) p q slept (rs, h, s, e, m) =
    (rs, h, s, e ∙ backoffs-slept_after (length rs) (omega arith), m)
Outcome-times env (err no_healthy_servers) p q slept (rs, h, s, e, m) =
    (rs, h, s, e ∙ backoffs-slept_after (length rs) (omega arith), m)

-- What a call of `connect_with_failover` does, on every branch, with random generators of any kind. If
-- it gives a server, then at most two servers refused before, and it has one more connection, started at
-- the time of its attempt, and one more success. If all attempts failed, three servers refused; if no
-- server was left to choose, fewer. Each of these servers was the choice of the pool at its attempt, one
-- that refused was not reached at that attempt and was marked as failed before the next choice, and the
-- given one was reached. Nothing else changed in the servers or the configuration, and the time slept is
-- 0 ms behind no refusal, 100 ms behind one, and 300 ms behind two or three.
pub connect_with_failover-Outcome :
    (env : ℕ → Attempt) (p : ServerPool)
    → let (r, q, slept) = connect_with_failover env p in
      Outcome env 0 r max_retries slept_after p q slept
unfolding connect_with_failover
connect_with_failover-Outcome env p =
    let (extra, e, o) = connect_from-Outcome env max_retries 0 p 0 in
    Outcome-times env _ p _ _ (
      subst
        (Outcome env 0 (connect_from 3 0 env p 0).0 3 (backoffs 0) p (connect_from 3 0 env p 0).1)
        (omega arith) o)
