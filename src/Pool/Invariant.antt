-- ===== src/Pool/Invariant.antt =====
-- The invariant of the pool, and how it fares under the parts of `acquire_connection`.
pub mod Steps
pub mod Runs
use mongodb_engine.Base.{
  ℕ, suc, ◌+◌, ◌-◌, ◌*◌, ◌/◌, ◌%◌, ◌^◌, ◌≤◌, ◌<◌, ◌≡◌, ◌≢◌, refl, sym, ap, ◌∙◌, Bool, true, false,
  not, ◌&&◌, List, [], ◌∷◌, ◌++◌, Option, none, some, Bytes, All, All-append, length, length-append,
  ltb, leb, ◌==◌, if◌then◌else◌, Bool-cases, Option-cases, ◌⊎◌, inl, inr, arith,
}
use mongodb_engine.Pool.Defs.{
  MongoConnectionInfo, MongoConnectionPool, Driver, increment, decrement, new_pool,
}
use mongodb_engine.Uri.Print.{to_connection_string}
use mongodb_engine.Pool.Ops.{
  create_new_connection, is_stale, keep_fresh, cleanup_idle_connections, find_available_connection,
  lend_available, acquire_new, acquire_swept, acquire_connection, is_lease, give_back, is_lent,
  release_connection, cleanup, is_healthy, set_max_connections,
}

abbrev pub count_in_use : List MongoConnectionInfo → ℕ
count_in_use [] = 0
count_in_use (i ∷ is) = (if i.in_use then 1 else 0) + count_in_use is

abbrev pub Absent : ℕ → List MongoConnectionInfo → Type 0
Absent c = All (λ i. i.client ≢ c)

-- No two connections have one client.
abbrev pub Distinct : List MongoConnectionInfo → Type 0
Distinct [] = Unit {0}
Distinct (i ∷ is) = Absent i.client is × Distinct is

-- `active_connections` is the number of connections in use, whatever 64 bits do; clients differ; and
-- the sizes fit a `size_t`.
pub record Inv (p : MongoConnectionPool) : Type 0 where
  pub counted : p.active_connections ≡ count_in_use p.connections
  pub distinct : Distinct p.connections
  pub sized : length p.connections < 2 ^ 64
  pub limited : p.max_connections < 2 ^ 64

pub count-le : (is : List MongoConnectionInfo) → count_in_use is ≤ length is
count-le [] = omega arith
count-le (i ∷ is) = ground (arith, count-le is)

pub keep_fresh-Absent :
    (c now t : ℕ) (is : List MongoConnectionInfo) → Absent c is → Absent c (keep_fresh now t is)
unfolding keep_fresh
keep_fresh-Absent c now t [] h = tt
keep_fresh-Absent c now t (i ∷ is) h = elim (Bool-cases (is_stale now t i)) [
  | inl e ↦ rw (e, keep_fresh) (keep_fresh-Absent c now t is h.1)
  | inr e ↦ rw (e, keep_fresh) (h.0, keep_fresh-Absent c now t is h.1)
]

pub keep_fresh-Distinct :
    (now t : ℕ) (is : List MongoConnectionInfo) → Distinct is → Distinct (keep_fresh now t is)
unfolding keep_fresh
keep_fresh-Distinct now t [] h = tt
keep_fresh-Distinct now t (i ∷ is) h = elim (Bool-cases (is_stale now t i)) [
  | inl e ↦ rw (e, keep_fresh) (keep_fresh-Distinct now t is h.1)
  | inr e ↦
      rw (e, keep_fresh) (keep_fresh-Absent i.client now t is h.0, keep_fresh-Distinct now t is h.1)
]

count-keep_fresh :
    (now t : ℕ) (is : List MongoConnectionInfo)
    → count_in_use (keep_fresh now t is) ≡ count_in_use is
unfolding keep_fresh
count-keep_fresh now t [] = refl
count-keep_fresh now t (i ∷ is) = ground (arith, count-keep_fresh now t is)

pub length-keep_fresh :
    (now t : ℕ) (is : List MongoConnectionInfo) → length (keep_fresh now t is) ≤ length is
unfolding keep_fresh
length-keep_fresh now t [] = omega arith
length-keep_fresh now t (i ∷ is) = ground (arith, length-keep_fresh now t is)

pub cleanup_idle-Inv :
    (now : ℕ) (p : MongoConnectionPool) → Inv p → Inv (cleanup_idle_connections now p)
unfolding cleanup_idle_connections
cleanup_idle-Inv now p h = record {
  counted = h.counted ∙ sym (count-keep_fresh now p.idle_timeout p.connections);
  distinct = keep_fresh-Distinct now p.idle_timeout p.connections h.distinct;
  sized = omega (arith, length-keep_fresh now p.idle_timeout p.connections);
  limited = h.limited;
}

-- Lending the first idle connection.
pub find-lend :
    (later : ℕ) (is : List MongoConnectionInfo) (i : MongoConnectionInfo)
    → find_available_connection is ≡ some i
    → (count_in_use (lend_available later is) ≡ count_in_use is + 1)
      × (length (lend_available later is) ≡ length is)
      × (count_in_use is < length is)
unfolding find_available_connection lend_available
find-lend later [] i e = absurd (cc)
find-lend later (j ∷ is) i e = ground (arith, find-lend later is i, count-le is)

lend-Absent :
    (c later : ℕ) (is : List MongoConnectionInfo) → Absent c is → Absent c (lend_available later is)
unfolding lend_available
lend-Absent c later [] h = tt
lend-Absent c later (i ∷ is) h = elim (Bool-cases i.in_use) [
  | inl e ↦ rw (e, lend_available) (h.0, lend-Absent c later is h.1)
  | inr e ↦ rw (e, lend_available) h
]

pub lend-Distinct :
    (later : ℕ) (is : List MongoConnectionInfo) → Distinct is → Distinct (lend_available later is)
unfolding lend_available
lend-Distinct later [] h = tt
lend-Distinct later (i ∷ is) h = elim (Bool-cases i.in_use) [
  | inl e ↦ rw (e, lend_available) (lend-Absent i.client later is h.0, lend-Distinct later is h.1)
  | inr e ↦ rw (e, lend_available) h
]

-- A client that the driver has just opened is at no address that the pool holds.
abbrev pub IsFresh : Driver → MongoConnectionPool → Type 0
IsFresh d p = (s : Bytes) (c : ℕ) → d.client_new s ≡ some c → Absent c p.connections

pub count-append :
    (is js : List MongoConnectionInfo) → count_in_use (is ++ js) ≡ count_in_use is + count_in_use js
count-append [] js = omega arith
count-append (i ∷ is) js = omega (arith, count-append is js)

pub Distinct-concat :
    (is : List MongoConnectionInfo) (i : MongoConnectionInfo)
    → Distinct is
    → Absent i.client is
    → Distinct (is ++ i ∷ [])
Distinct-concat [] i h a = (tt, tt)
Distinct-concat (j ∷ is) i h a = (
  All-append (λ x. x.client ≢ j.client) is (i ∷ []) h.0 ((λ e. a.0 (sym e)), tt),
  Distinct-concat is i h.1 a.1,
)

pub create-opened :
    (d : Driver) (p : MongoConnectionPool) (c : ℕ)
    → (create_new_connection d p).0 ≡ some c
    → d.client_new (to_connection_string p.parsed_uri) ≡ some c
unfolding create_new_connection
create-opened d p c h = ground arith
