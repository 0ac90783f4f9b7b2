-- ===== src/Pool/Invariant/Runs.antt =====
-- Whole lives of a pool: any calls of its methods, in any order.
use mongodb_engine.Base.{ℕ, ◌^◌, ◌≤◌, ◌<◌, ◌≡◌, ◌↔◌, refl, true, Option, Bytes, length, arith}
use mongodb_engine.Pool.Defs.{MongoConnectionPool, Driver, new_pool}
use mongodb_engine.Pool.Ops.{
  acquire_connection, release_connection, cleanup, is_healthy, set_max_connections,
  set_connection_timeout, set_idle_timeout,
}
use mongodb_engine.Pool.Invariant.{Inv, IsFresh, count-le}
use mongodb_engine.Pool.Invariant.Steps.{acquire-Inv, release-Inv}

-- One call. The mutex makes calls of several threads a sequence of these.
pub data Step : MongoConnectionPool → MongoConnectionPool → Type 0 where
  acquires :
      (p : MongoConnectionPool) (d : Driver) (now later : ℕ)
      → IsFresh d p
      → Step p (acquire_connection d now later p).1
  releases :
      (p : MongoConnectionPool) (client : Option ℕ) (now : ℕ)
      → Step p (release_connection client now p)
  cleans : (p : MongoConnectionPool) → Step p (cleanup p)
  resizes : (p : MongoConnectionPool) (n : ℕ) → n < 2 ^ 64 → Step p (set_max_connections n p)
  sets_timeout : (p : MongoConnectionPool) (n : ℕ) → Step p (set_connection_timeout n p)
  sets_idle : (p : MongoConnectionPool) (n : ℕ) → Step p (set_idle_timeout n p)

pub data Reach (p : MongoConnectionPool) : MongoConnectionPool → Type 0 where
  here : Reach p p
  next : {q r : MongoConnectionPool} → Reach p q → Step q r → Reach p r

Step-Inv : {p q : MongoConnectionPool} → Step p q → Inv p → Inv q
unfolding cleanup set_max_connections set_connection_timeout set_idle_timeout
Step-Inv (acquires p d now later f) h = acquire-Inv d now later p f h
Step-Inv (releases p client now) h = release-Inv client now p h
Step-Inv (cleans p) h = record {
  counted = refl;
  distinct = tt;
  sized = omega arith;
  limited = h.limited;
}
Step-Inv (resizes p n lt) h = record {
  counted = h.counted;
  distinct = h.distinct;
  sized = h.sized;
  limited = lt;
}
Step-Inv (sets_timeout p n) h = record {
  counted = h.counted;
  distinct = h.distinct;
  sized = h.sized;
  limited = h.limited;
}
Step-Inv (sets_idle p n) h = record {
  counted = h.counted;
  distinct = h.distinct;
  sized = h.sized;
  limited = h.limited;
}

new_pool-Inv : (s : Bytes) → Inv (new_pool s)
unfolding new_pool
new_pool-Inv s = record {
  counted = refl;
  distinct = tt;
  sized = omega arith;
  limited = omega arith;
}

-- After any calls of a new pool's methods, where the driver opens no client at an address that the
-- pool still holds: `active_connections` is the number of connections in use, no two connections
-- have one client, and the sizes fit 64 bits.
pub Reach-Inv : (s : Bytes) {p : MongoConnectionPool} → Reach (new_pool s) p → Inv p
Reach-Inv s here = new_pool-Inv s
Reach-Inv s (next r st) = Step-Inv st (Reach-Inv s r)

-- For a pool in such a state the health check asks exactly that the pool is within its limit.
is_healthy_iff :
    {p : MongoConnectionPool}
    → Inv p
    → (is_healthy p ≡ true) ↔ (length p.connections ≤ p.max_connections)
unfolding is_healthy
is_healthy_iff {p} h = (λ e. ground arith, λ e. ground (arith, count-le p.connections, h.counted))
