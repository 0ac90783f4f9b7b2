-- ===== src/Pool/Clients.antt =====
-- Every client that the driver opened is either in the pool or destroyed, and only once.
use mongodb_engine.Base.{
  ap, sym, ◌&&◌, ◌∙◌, ℕ, ◌+◌, ◌≤◌, ◌≡◌, refl, true, List, [], ◌∷◌, ◌++◌, Option, none, some, All,
  length, is_empty, codes, ltb, ◌==◌, if◌then◌else◌, Bool-cases, Option-cases, ◌⊎◌, inl, inr, arith,
}
use mongodb_engine.Pool.Defs.{MongoConnectionInfo, MongoConnectionPool, Driver}
use mongodb_engine.Pool.Ops.{
  create_new_connection, is_stale, keep_fresh, destroy_stale, cleanup_idle_connections,
  find_available_connection, lend_available, acquire_new, acquire_swept, acquire_connection,
  give_back, cleanup, destroy_all,
}
use mongodb_engine.Uri.Print.{to_connection_string}

abbrev pub count : ℕ → List ℕ → ℕ
count c [] = 0
count c (x ∷ xs) = (if x == c then 1 else 0) + count c xs

abbrev pub count_client : ℕ → List MongoConnectionInfo → ℕ
count_client c [] = 0
count_client c (i ∷ is) = (if i.client == c then 1 else 0) + count_client c is

-- How often the client is in the pool or has been destroyed.
abbrev pub known : ℕ → MongoConnectionPool → ℕ
known c p = count_client c p.connections + count c p.destroyed

abbrev pub one_if : ℕ → Option ℕ → ℕ
one_if c none = 0
one_if c (some x) = if x == c then 1 else 0

-- The client that the driver opens for a new connection, whatever becomes of it.
abbrev pub client_opened : Driver → MongoConnectionPool → Option ℕ
client_opened d p =
    if p.parsed_uri.is_valid && d.uri_new (to_connection_string p.parsed_uri)
    then d.client_new (to_connection_string p.parsed_uri)
    else none

-- The client that it opens while a connection is acquired: none where one is idle or the pool is full.
abbrev pub opened_by : Driver → ℕ → MongoConnectionPool → Option ℕ
opened_by d now p =
    let q = cleanup_idle_connections now p in
    elim (find_available_connection q.connections) [
      | some _ ↦ none
      | none ↦ if ltb (length q.connections) q.max_connections then client_opened d q else none
    ]

count-sweep :
    (c now t : ℕ) (is : List MongoConnectionInfo) (log : List ℕ)
    → count_client c (keep_fresh now t is) + count c (destroy_stale now t is log)
      ≡ count_client c is + count c log
unfolding keep_fresh destroy_stale
count-sweep c now t [] log = refl
count-sweep c now t (i ∷ is) log = elim (Bool-cases (is_stale now t i)) [
  | inl e ↦ ground (arith, count-sweep c now t is (i.client ∷ log))
  | inr e ↦ ground (arith, count-sweep c now t is log)
]

known-sweep :
    (c now : ℕ) (p : MongoConnectionPool) → known c (cleanup_idle_connections now p) ≡ known c p
unfolding cleanup_idle_connections
known-sweep c now p = count-sweep c now p.idle_timeout p.connections p.destroyed

count-lend :
    (c now : ℕ) (is : List MongoConnectionInfo)
    → count_client c (lend_available now is) ≡ count_client c is
unfolding lend_available
count-lend c now [] = refl
count-lend c now (i ∷ is) = ground (arith, count-lend c now is)

count-give_back :
    (c x now : ℕ) (is : List MongoConnectionInfo)
    → count_client c (give_back x now is) ≡ count_client c is
unfolding give_back
count-give_back c x now [] = refl
count-give_back c x now (i ∷ is) = ground (arith, count-give_back c x now is)

count-concat :
    (c : ℕ) (is : List MongoConnectionInfo) (i : MongoConnectionInfo)
    → count_client c (is ++ i ∷ []) ≡ count_client c is + (if i.client == c then 1 else 0)
count-concat c [] i = omega arith
count-concat c (j ∷ is) i = omega (arith, count-concat c is i)

count-append : (c : ℕ) (xs ys : List ℕ) → count c (xs ++ ys) ≡ count c xs + count c ys
count-append c [] ys = omega arith
count-append c (x ∷ xs) ys = omega (arith, count-append c xs ys)

-- The client of a creation is kept or destroyed.
create-client :
    (d : Driver) (c : ℕ) (p : MongoConnectionPool)
    → let r = create_new_connection d p in one_if c r.0 + count c r.1 ≡ one_if c (client_opened d p)
unfolding create_new_connection
create-client d c p =
    let s = to_connection_string p.parsed_uri in
    elim (Bool-cases p.parsed_uri.is_valid) [
      | inr v ↦ ground arith
      | inl v ↦ elim (Bool-cases (d.uri_new s)) [
        | inr u ↦ ground arith
        | inl u ↦ elim (Option-cases (d.client_new s)) [
          | inl n ↦ ground arith
          | inr (x, n) ↦
              elim (Bool-cases (
                d.ping x (
                  if is_empty p.parsed_uri.database
                  then codes "admin"
                  else p.parsed_uri.database))) [ inl g ↦ ground arith | inr g ↦ ground arith ]
        ]
      ]
    ]

acquire_new-client :
    (d : Driver) (now c : ℕ) (p : MongoConnectionPool)
    → known c (acquire_new d now p).1
      ≡ known c p
        + one_if c
            (if ltb (length p.connections) p.max_connections then client_opened d p else none)
unfolding acquire_new
acquire_new-client d now c p = elim (Bool-cases (ltb (length p.connections) p.max_connections)) [
  | inr e ↦ rw e (omega arith)
  | inl e ↦
      let made = create-client d c p in
      let log = count-append c (create_new_connection d p).1 p.destroyed in
      rw e (elim (Option-cases (create_new_connection d p).0) [
        | inl n ↦ rw n (omega (arith, log, rw n at made))
        | inr (x, n) ↦ rw n (
            omega (
              arith,
              log,
              rw n at made,
              count-concat c p.connections (record {
                client = x;
                last_used = now;
                in_use = true;
                connection_string = p.base_connection_string;
                connection_id = p.next_connection_id;
              }),
            ))
      ])
]

-- Acquiring neither loses a client nor destroys one twice: of every client there is as much in the
-- pool and among the destroyed ones as before, and one more exactly if it is the client that the driver
-- opened in the call, which it does where the sweep leaves no idle connection and fewer than the limit.
pub acquire-known :
    (d : Driver) (now later c : ℕ) (p : MongoConnectionPool)
    → known c (acquire_connection d now later p).1 ≡ known c p + one_if c (opened_by d now p)
unfolding acquire_connection acquire_swept
acquire-known d now later c p =
    let q = cleanup_idle_connections now p in
    let e = known-sweep c now p in
    elim (Option-cases (find_available_connection q.connections)) [
      | inl n ↦
          let opening : opened_by d now p
              ≡ (if ltb (length q.connections) q.max_connections then client_opened d q else none) =
            rw (n, opened_by) refl in
          rw (n, acquire_swept)
            (rw e at (acquire_new-client d later c q)
              ∙ ap (λ o. known c p + one_if c o) (sym opening))
      | inr (i, n) ↦
          let idle : one_if c (opened_by d now p) ≡ 0 =
            ap (one_if c) {x = opened_by d now p} {y = none} (rw (n, opened_by) refl) in
          rw (n, acquire_swept) (omega (arith, e, idle, count-lend c later q.connections))
    ]

count-destroy_all :
    (c : ℕ) (is : List MongoConnectionInfo) (log : List ℕ)
    → count c (destroy_all is log) ≡ count_client c is + count c log
unfolding destroy_all
count-destroy_all c [] log = omega arith
count-destroy_all c (i ∷ is) log = omega (arith, count-destroy_all c is (i.client ∷ log))

-- `cleanup` leaves the pool empty with no connection active, and has destroyed each client that was
-- in it as often as it was in it.
cleanup_all :
    (c : ℕ) (p : MongoConnectionPool)
    → ((cleanup p).connections ≡ [])
      × ((cleanup p).active_connections ≡ 0)
      × (count c (cleanup p).destroyed ≡ known c p)
unfolding cleanup
cleanup_all c p = (refl, refl, count-destroy_all c p.connections p.destroyed)

find_none :
    (is : List MongoConnectionInfo)
    → find_available_connection is ≡ none
    → All (λ i. i.in_use ≡ true) is
unfolding find_available_connection
find_none [] h = tt
find_none (i ∷ is) h = ground (arith, find_none is)

acquire_new-none :
    (d : Driver) (now : ℕ) (p : MongoConnectionPool)
    → (acquire_new d now p).0 ≡ none
    → (p.max_connections ≤ length p.connections) ⊎ ((create_new_connection d p).0 ≡ none)
unfolding acquire_new
acquire_new-none d now p h = elim (Bool-cases (ltb (length p.connections) p.max_connections)) [
  | inr e ↦ inl (ground arith)
  | inl e ↦ inr (elim (Option-cases (create_new_connection d p).0) [
    | inl n ↦ n
    | inr (x, n) ↦ absurd (cc (rw n at (rw e at h)))
  ])
]

-- When `acquire_connection` returns no client, every connection left after the sweep is in use, and
-- the pool is at its limit or could not create a connection.
pub acquire-none :
    (d : Driver) (now later : ℕ) (p : MongoConnectionPool)
    → (acquire_connection d now later p).0 ≡ none
    → let q = cleanup_idle_connections now p in
      All (λ i. i.in_use ≡ true) q.connections
      × ((q.max_connections ≤ length q.connections) ⊎ ((create_new_connection d q).0 ≡ none))
unfolding acquire_connection acquire_swept
acquire-none d now later p h =
    let q = cleanup_idle_connections now p in
    elim (Option-cases (find_available_connection q.connections)) [
      | inl n ↦ (find_none q.connections n, acquire_new-none d later q (rw (n, acquire_swept) at h))
      | inr (i, n) ↦ absurd (cc (rw (n, acquire_swept) at h))
    ]
