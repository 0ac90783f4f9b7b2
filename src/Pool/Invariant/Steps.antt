-- ===== src/Pool/Invariant/Steps.antt =====
-- Every method of the pool keeps the invariant.
use mongodb_engine.Base.{
  ℕ, ◌+◌, ◌<◌, ◌≡◌, true, List, [], ◌∷◌, ◌++◌, Option, none, some, length, length-append, ltb,
  ltb→lt, Bool-cases, Option-cases, inl, inr, arith,
}
use mongodb_engine.Pool.Defs.{MongoConnectionInfo, MongoConnectionPool, Driver, increment}
use mongodb_engine.Pool.Ops.{
  create_new_connection, cleanup_idle_connections, find_available_connection, acquire_new,
  acquire_swept, acquire_connection, is_lease, give_back, is_lent, release_connection,
}
use mongodb_engine.Pool.Invariant.{
  Inv, Absent, Distinct, IsFresh, count_in_use, count-le, find-lend, lend-Distinct, count-append,
  Distinct-concat, create-opened, cleanup_idle-Inv, keep_fresh-Absent,
}

acquire_new-Inv :
    (d : Driver) (now : ℕ) (p : MongoConnectionPool)
    → IsFresh d p
    → Inv p
    → Inv (acquire_new d now p).1
unfolding acquire_new
acquire_new-Inv d now p f h = elim (Bool-cases (ltb (length p.connections) p.max_connections)) [
  | inr e ↦ rw e h
  | inl e ↦ rw e (elim (Option-cases (create_new_connection d p).0) [
    | inl n ↦ rw n (record {
      counted = h.counted;
      distinct = h.distinct;
      sized = h.sized;
      limited = h.limited;
    })
    | inr (c, n) ↦ rw n (grown c n (ltb→lt (length p.connections) p.max_connections e))
  ])
]
  where
    info : ℕ → MongoConnectionInfo
    info c = record {
      client = c;
      last_used = now;
      in_use = true;
      connection_string = p.base_connection_string;
      connection_id = p.next_connection_id;
    }

    grown :
        (c : ℕ)
        → (create_new_connection d p).0 ≡ some c
        → length p.connections < p.max_connections
        → Inv (record p {
          connections = p.connections ++ info c ∷ [];
          next_connection_id = increment p.next_connection_id;
          active_connections = increment p.active_connections;
          total_connections_created = increment p.total_connections_created;
          destroyed = (create_new_connection d p).1 ++ p.destroyed;
        })
    grown c n lt = record {
      counted = omega (
        arith,
        h.counted,
        count-append p.connections (info c ∷ []),
        count-le p.connections,
        h.limited,
      );
      distinct = Distinct-concat p.connections (info c) h.distinct (f _ c (create-opened d p c n));
      sized = omega (arith, length-append p.connections (info c ∷ []), h.limited);
      limited = h.limited;
    }

acquire_swept-Inv :
    (d : Driver) (now : ℕ) (p : MongoConnectionPool)
    → IsFresh d p
    → Inv p
    → Inv (acquire_swept d now p).1
unfolding acquire_swept
acquire_swept-Inv d now p f h = elim (Option-cases (find_available_connection p.connections)) [
  | inl e ↦ rw (e, acquire_swept) (acquire_new-Inv d now p f h)
  | inr (i, e) ↦
      let (c, l, lt) = find-lend now p.connections i e in
      rw (e, acquire_swept)
        (record {
          counted = omega (arith, h.counted, h.sized);
          distinct = lend-Distinct now p.connections h.distinct;
          sized = omega (arith, h.sized);
          limited = h.limited;
        })
]

-- Acquiring keeps the invariant, if the driver opens no client at an address that the pool holds.
pub acquire-Inv :
    (d : Driver) (now later : ℕ) (p : MongoConnectionPool)
    → IsFresh d p
    → Inv p
    → Inv (acquire_connection d now later p).1
unfolding acquire_connection cleanup_idle_connections
acquire-Inv d now later p f h =
    acquire_swept-Inv d later (cleanup_idle_connections now p)
      (λ s c e. keep_fresh-Absent c now p.idle_timeout p.connections (f s c e))
      (cleanup_idle-Inv now p h)

give_back-count :
    (c now : ℕ) (is : List MongoConnectionInfo)
    → is_lent c is ≡ true
    → (count_in_use is ≡ count_in_use (give_back c now is) + 1)
      × (length (give_back c now is) ≡ length is)
unfolding give_back is_lent
give_back-count c now [] h = absurd (cc)
give_back-count c now (i ∷ is) h = ground (arith, give_back-count c now is)

give_back-Absent :
    (x c now : ℕ) (is : List MongoConnectionInfo) → Absent x is → Absent x (give_back c now is)
unfolding give_back
give_back-Absent x c now [] h = tt
give_back-Absent x c now (i ∷ is) h = elim (Bool-cases (is_lease c i)) [
  | inl e ↦ rw (e, give_back) h
  | inr e ↦ rw (e, give_back) (h.0, give_back-Absent x c now is h.1)
]

give_back-Distinct :
    (c now : ℕ) (is : List MongoConnectionInfo) → Distinct is → Distinct (give_back c now is)
unfolding give_back
give_back-Distinct c now [] h = tt
give_back-Distinct c now (i ∷ is) h = elim (Bool-cases (is_lease c i)) [
  | inl e ↦ rw (e, give_back) h
  | inr e ↦
      rw (e, give_back) (give_back-Absent i.client c now is h.0, give_back-Distinct c now is h.1)
]

-- Releasing keeps the invariant, whatever client is given back.
pub release-Inv :
    (client : Option ℕ) (now : ℕ) (p : MongoConnectionPool)
    → Inv p
    → Inv (release_connection client now p)
unfolding release_connection
release-Inv none now p h = h
release-Inv (some c) now p h = elim (Bool-cases (is_lent c p.connections)) [
  | inr e ↦ rw e h
  | inl e ↦
      let (n, l) = give_back-count c now p.connections e in
      rw e (record {
        counted = omega (arith, h.counted, h.sized, count-le p.connections);
        distinct = give_back-Distinct c now p.connections h.distinct;
        sized = omega (arith, h.sized);
        limited = h.limited;
      })
]
