-- ===== src/Pool/Progress.antt =====
-- A client that is given back can be had again.
use mongodb_engine.Base.{
  ℕ, ◌-◌, ◌/◌, ◌≤◌, ◌≡◌, refl, ap, Bool, true, false, List, [], ◌∷◌, Option, none, some, Bool-cases,
  Option-cases, inl, inr, arith,
}
use mongodb_engine.Pool.Defs.{MongoConnectionInfo, MongoConnectionPool, Driver}
use mongodb_engine.Pool.Ops.{
  nanos_per_second, is_stale, keep_fresh, cleanup_idle_connections, find_available_connection,
  acquire_swept, acquire_connection, is_lease, give_back, is_lent, release_connection,
}

abbrev is_found : Option MongoConnectionInfo → Bool
is_found none = false
is_found (some _) = true

abbrev available : List MongoConnectionInfo → Bool
available is = is_found (find_available_connection is)

-- Another connection in front changes nothing.
skipped :
    (now t : ℕ) (i : MongoConnectionInfo) (is : List MongoConnectionInfo)
    → available (keep_fresh now t is) ≡ true
    → available (keep_fresh now t (i ∷ is)) ≡ true
unfolding keep_fresh find_available_connection
skipped now t i is h = elim (Bool-cases (is_stale now t i)) [
  | inl e ↦ rw e h
  | inr e ↦ rw e (elim (Bool-cases i.in_use) [ inl u ↦ rw u h | inr u ↦ rw u refl ])
]

returned-available :
    (c at now t : ℕ) (is : List MongoConnectionInfo)
    → (now - at) / nanos_per_second ≤ t
    → is_lent c is ≡ true
    → available (keep_fresh now t (give_back c at is)) ≡ true
unfolding keep_fresh give_back is_lent find_available_connection
returned-available c at now t [] h l = absurd (cc)
returned-available c at now t (i ∷ is) h l =
    let ready : is_stale now t (record i { last_used = at; in_use = false }) ≡ false =
      ground arith in
    elim (Bool-cases (is_lease c i)) [
      | inl e ↦ rw e (rw ready refl)
      | inr e ↦ rw e (
          skipped now t i (give_back c at is)
            (returned-available c at now t is h (ground (arith, l, e))))
    ]

acquire-available :
    (d : Driver) (now later : ℕ) (p : MongoConnectionPool)
    → available (keep_fresh now p.idle_timeout p.connections) ≡ true
    → (c : ℕ) × ((acquire_connection d now later p).0 ≡ some c)
unfolding acquire_connection cleanup_idle_connections
acquire-available d now later p h =
    elim (Option-cases (find_available_connection (keep_fresh now p.idle_timeout p.connections))) [
      | inl e ↦ absurd (cc (ap is_found e, h))
      | inr (i, e) ↦ (i.client, unfold acquire_swept in rw (e, acquire_swept) refl)
    ]

-- When a client that the pool has lent is given back at `at`, whatever the driver answers then, an
-- `acquire_connection` that comes next and sweeps at `now`, not more than the idle timeout in whole
-- seconds after `at`, gives a client.
pub release-acquire :
    (d : Driver) (c at now later : ℕ) (p : MongoConnectionPool)
    → is_lent c p.connections ≡ true
    → (now - at) / nanos_per_second ≤ p.idle_timeout
    → (x : ℕ) × ((acquire_connection d now later (release_connection (some c) at p)).0 ≡ some x)
unfolding release_connection
release-acquire d c at now later p l h =
    rw l (
      acquire-available d now later _
        (returned-available c at now p.idle_timeout p.connections h l))
