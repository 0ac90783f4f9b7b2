-- ===== src/Pool/Leases.antt =====
-- Who holds a client: what `acquire_connection` lends and `release_connection` takes back.
use mongodb_engine.Base.{
  ℕ, ◌≡◌, ◌≢◌, refl, sym, ◌∙◌, true, false, List, [], ◌∷◌, ◌++◌, some, length, ltb, ◌==◌,
  if◌then◌else◌, Bool-cases, Option-cases, inl, inr, arith,
}
use mongodb_engine.Pool.Defs.{MongoConnectionInfo, MongoConnectionPool, Driver}
use mongodb_engine.Pool.Ops.{
  create_new_connection, keep_fresh, cleanup_idle_connections, find_available_connection,
  lend_available, acquire_new, acquire_swept, acquire_connection, is_lease, give_back, is_lent,
  release_connection,
}
use mongodb_engine.Pool.Invariant.{
  Inv, Absent, Distinct, IsFresh, create-opened, keep_fresh-Absent, keep_fresh-Distinct,
}

-- The leases after a call are those before it and one of `c`, which was not lent before.
pub record Lends (c : ℕ) (before after : List MongoConnectionInfo) : Type 0 where
  pub was_free : is_lent c before ≡ false
  pub is_held : is_lent c after ≡ true
  pub others : (x : ℕ) → x ≢ c → is_lent x after ≡ is_lent x before

pub lent-keep_fresh :
    (x now t : ℕ) (is : List MongoConnectionInfo) → is_lent x (keep_fresh now t is) ≡ is_lent x is
unfolding is_lent keep_fresh
lent-keep_fresh x now t [] = refl
lent-keep_fresh x now t (i ∷ is) = ground (arith, lent-keep_fresh x now t is)

Absent-lent : (c : ℕ) (is : List MongoConnectionInfo) → Absent c is → is_lent c is ≡ false
unfolding is_lent
Absent-lent c [] h = refl
Absent-lent c (i ∷ is) h = ground (arith, Absent-lent c is h.1, h.0)

find-Absent :
    (c : ℕ) (is : List MongoConnectionInfo) (i : MongoConnectionInfo)
    → Absent c is
    → find_available_connection is ≡ some i
    → i.client ≢ c
unfolding find_available_connection
find-Absent c [] i h e = absurd (cc)
find-Absent c (j ∷ is) i h e = elim (Bool-cases j.in_use) [
  | inl u ↦ find-Absent c is i h.1 (ground arith)
  | inr u ↦ λ x. h.0 (ground arith)
]

lend_available-free :
    (later : ℕ) (is : List MongoConnectionInfo) (i : MongoConnectionInfo)
    → Distinct is
    → find_available_connection is ≡ some i
    → (is_lent i.client is ≡ false) × (is_lent i.client (lend_available later is) ≡ true)
unfolding is_lent lend_available find_available_connection
lend_available-free later [] i h e = absurd (cc)
lend_available-free later (j ∷ is) i h e = elim (Bool-cases j.in_use) [
  | inl u ↦ ground (arith, lend_available-free later is i h.1, find-Absent j.client is i h.0)
  | inr u ↦ ground (arith, Absent-lent j.client is h.0)
]

lend_available-others :
    (later x : ℕ) (is : List MongoConnectionInfo) (i : MongoConnectionInfo)
    → find_available_connection is ≡ some i
    → x ≢ i.client
    → is_lent x (lend_available later is) ≡ is_lent x is
unfolding is_lent lend_available find_available_connection
lend_available-others later x [] i e n = absurd (cc)
lend_available-others later x (j ∷ is) i e n = ground (arith, lend_available-others later x is i)

lent-concat :
    (x : ℕ) (is : List MongoConnectionInfo) (i : MongoConnectionInfo)
    → is_lent x (is ++ i ∷ []) ≡ (if is_lent x is then true else is_lease x i)
unfolding is_lent
lent-concat x [] i = ground arith
lent-concat x (j ∷ is) i = ground (arith, lent-concat x is i)

acquire_new-Lends :
    (d : Driver) (now c : ℕ) (p : MongoConnectionPool)
    → IsFresh d p
    → (acquire_new d now p).0 ≡ some c
    → Lends c p.connections (acquire_new d now p).1.connections
unfolding acquire_new
acquire_new-Lends d now c p f h = elim (Bool-cases (ltb (length p.connections) p.max_connections)) [
  | inr e ↦ absurd (cc (rw e at h))
  | inl e ↦ rw e (elim (Option-cases (create_new_connection d p).0) [
    | inl n ↦ absurd (cc (rw n at (rw e at h)))
    | inr (x, n) ↦
        let same : some x ≡ some c = rw n at (rw e at h) in
        let free = Absent-lent x p.connections (f _ x (create-opened d p x n)) in
        rw n (record {
          was_free = ground (arith, free);
          is_held = rw (lent-concat c p.connections _) (ground arith);
          others = λ y ne. rw (lent-concat y p.connections _) (ground arith);
        })
  ])
]

acquire_swept-Lends :
    (d : Driver) (now c : ℕ) (p : MongoConnectionPool)
    → Distinct p.connections
    → IsFresh d p
    → (acquire_swept d now p).0 ≡ some c
    → Lends c p.connections (acquire_swept d now p).1.connections
unfolding acquire_swept
acquire_swept-Lends d now c p v f h =
    elim (Option-cases (find_available_connection p.connections)) [
      | inl e ↦ rw (e, acquire_swept) (acquire_new-Lends d now c p f (rw (e, acquire_swept) at h))
      | inr (i, e) ↦
          let same : some i.client ≡ some c = rw (e, acquire_swept) at h in
          let (free, held) = lend_available-free now p.connections i v e in
          rw (e, acquire_swept)
            (record {
              was_free = ground arith;
              is_held = ground arith;
              others =
                  λ x ne. lend_available-others now x p.connections i e (λ y. ne (ground arith));
            })
    ]

-- A client that `acquire_connection` returns was lent to nobody, is lent now, and no other client
-- changes hands; if the pool has the invariant and the driver opens no client at an address that the
-- pool holds.
pub acquire-Lends :
    (d : Driver) (now later c : ℕ) (p : MongoConnectionPool)
    → Inv p
    → IsFresh d p
    → (acquire_connection d now later p).0 ≡ some c
    → Lends c p.connections (acquire_connection d now later p).1.connections
unfolding acquire_connection cleanup_idle_connections
acquire-Lends d now later c p v f h =
    let swept = cleanup_idle_connections now p in
    let l =
      acquire_swept-Lends d later c swept
        (keep_fresh-Distinct now p.idle_timeout p.connections v.distinct)
        (λ s x e. keep_fresh-Absent x now p.idle_timeout p.connections (f s x e)) h in
    record {
      was_free = sym (lent-keep_fresh c now p.idle_timeout p.connections) ∙ l.was_free;
      is_held = l.is_held;
      others = λ x ne. l.others x ne ∙ lent-keep_fresh x now p.idle_timeout p.connections;
    }

lent-give_back :
    (c now x : ℕ) (is : List MongoConnectionInfo)
    → Distinct is
    → is_lent x (give_back c now is) ≡ (if x == c then false else is_lent x is)
unfolding is_lent give_back
lent-give_back c now x [] h = ground arith
lent-give_back c now x (i ∷ is) h = elim (Bool-cases (is_lease c i)) [
  | inl e ↦ ground (arith, Absent-lent i.client is h.0)
  | inr e ↦ ground (arith, lent-give_back c now x is h.1)
]

-- In a pool with the invariant, after a release the client is lent to nobody, whoever had it, and no
-- other client changes hands.
pub release-lent :
    (c now x : ℕ) (p : MongoConnectionPool)
    → Inv p
    → is_lent x (release_connection (some c) now p).connections
      ≡ (if x == c then false else is_lent x p.connections)
unfolding release_connection
release-lent c now x p v = elim (Bool-cases (is_lent c p.connections)) [
  | inl e ↦ rw e (lent-give_back c now x p.connections v.distinct)
  | inr e ↦ rw e (ground arith)
]
