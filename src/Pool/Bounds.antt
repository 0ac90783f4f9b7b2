-- ===== src/Pool/Bounds.antt =====
-- How large the pool gets.
use mongodb_engine.Base.{
  ℕ, ◌≤◌, ◌≡◌, refl, true, List, [], ◌∷◌, Option, none, some, Bytes, length, ◌++◌, length-append,
  ltb, ltb→lt, leb, if-both, if◌then◌else◌, Bool-cases, Option-cases, inl, inr, arith,
}
use mongodb_engine.Pool.Defs.{MongoConnectionInfo, MongoConnectionPool, Driver, new_pool}
use mongodb_engine.Pool.Ops.{
  acquire_connection, acquire_swept, acquire_new, create_new_connection, keep_fresh,
  cleanup_idle_connections, find_available_connection, give_back, is_lent, release_connection,
  cleanup, set_max_connections, set_connection_timeout, set_idle_timeout,
}
use mongodb_engine.Pool.Invariant.{find-lend, length-keep_fresh}
use mongodb_engine.Pool.Invariant.Runs.{
  Step, Reach, here, next, acquires, releases, cleans, resizes, sets_timeout, sets_idle,
}

abbrev raised : {p q : MongoConnectionPool} → Step p q → ℕ → ℕ
raised (resizes p n l) m = if leb m n then n else m
raised _ m = m

-- The largest limit that the pool ever had: a new one has ten.
abbrev pub peak : {p q : MongoConnectionPool} → Reach p q → ℕ
peak here = 10
peak (next r st) = raised st (peak r)

pub record Within (m : ℕ) (p : MongoConnectionPool) : Type 0 where
  pub size : length p.connections ≤ m
  pub limit : p.max_connections ≤ m

length-give_back :
    (c now : ℕ) (is : List MongoConnectionInfo) → length (give_back c now is) ≡ length is
unfolding give_back
length-give_back c now [] = refl
length-give_back c now (i ∷ is) = ground (arith, length-give_back c now is)

Within-new :
    (d : Driver) (now m : ℕ) (p : MongoConnectionPool)
    → Within m p
    → Within m (acquire_new d now p).1
unfolding acquire_new
Within-new d now m p h = elim (Bool-cases (ltb (length p.connections) p.max_connections)) [
  | inr e ↦ rw e h
  | inl e ↦ rw e (elim (Option-cases (create_new_connection d p).0) [
    | inl n ↦ rw n (record { size = h.size; limit = h.limit })
    | inr (c, n) ↦ rw n (record {
      size =
          grows
            (record {
              client = c;
              last_used = now;
              in_use = true;
              connection_string = p.base_connection_string;
              connection_id = p.next_connection_id;
            })
            e;
      limit = h.limit;
    })
  ])
]
  where
    grows :
        (i : MongoConnectionInfo)
        → ltb (length p.connections) p.max_connections ≡ true
        → length (p.connections ++ i ∷ []) ≤ m
    grows i e = omega (
      arith,
      length-append p.connections (i ∷ []),
      ltb→lt (length p.connections) p.max_connections e,
      h.limit,
    )

Within-acquire :
    (d : Driver) (now later m : ℕ) (p : MongoConnectionPool)
    → Within m p
    → Within m (acquire_connection d now later p).1
unfolding acquire_connection acquire_swept cleanup_idle_connections
Within-acquire d now later m p h =
    let swept = keep_fresh now p.idle_timeout p.connections in
    let less : length swept ≤ m =
      omega (arith, length-keep_fresh now p.idle_timeout p.connections, h.size) in
    elim (Option-cases (find_available_connection swept)) [
      | inl e ↦
          rw (e, acquire_swept)
            (Within-new d later m (cleanup_idle_connections now p)
              (record { size = less; limit = h.limit }))
      | inr (i, e) ↦
          rw (e, acquire_swept)
            (record { size = omega (arith, (find-lend later swept i e).1); limit = h.limit })
    ]

Within-release :
    (client : Option ℕ) (now m : ℕ) (p : MongoConnectionPool)
    → Within m p
    → Within m (release_connection client now p)
unfolding release_connection
Within-release none now m p h = h
Within-release (some c) now m p h =
    if-both (Within m) (is_lent c p.connections)
      (record {
        size = omega (arith, length-give_back c now p.connections, h.size);
        limit = h.limit;
      })
      h

Within-raised :
    {p q : MongoConnectionPool} (st : Step p q) (m : ℕ) → Within m p → Within (raised st m) q
unfolding cleanup set_max_connections set_connection_timeout set_idle_timeout
Within-raised (acquires p d now later f) m h = Within-acquire d now later m p h
Within-raised (releases p client now) m h = Within-release client now m p h
Within-raised (cleans p) m h = record { size = omega arith; limit = h.limit }
Within-raised (resizes p n lt) m h = record { size = ground (arith, h.size); limit = ground arith }
Within-raised (sets_timeout p n) m h = record { size = h.size; limit = h.limit }
Within-raised (sets_idle p n) m h = record { size = h.size; limit = h.limit }

peak-Within : (s : Bytes) {p : MongoConnectionPool} (r : Reach (new_pool s) p) → Within (peak r) p
unfolding new_pool
peak-Within s here = record { size = omega arith; limit = omega arith }
peak-Within s (next r st) = Within-raised st (peak r) (peak-Within s r)

-- In any life of a pool in which the driver opens no client at an address that the pool still holds,
-- the pool never has more connections than the largest limit that it ever had, which is ten before
-- the first call.
pub peak_bound :
    (s : Bytes) {p : MongoConnectionPool} (r : Reach (new_pool s) p) → length p.connections ≤ peak r
peak_bound s r = (peak-Within s r).size
