-- ===== src/Pool/Exclusive.antt =====
-- The pool against an abstract record of who holds a client.
use mongodb_engine.Base.{
  ℕ, ◌≡◌, refl, sym, ◌∙◌, Bool, true, false, List, [], ◌∷◌, Option, none, some, Bytes, ◌==◌,
  if◌then◌else◌, Bool-cases, Option-cases, length, ltb, ap, inl, inr, arith,
}
use mongodb_engine.Pool.Defs.{MongoConnectionPool, Driver, new_pool}
use mongodb_engine.Pool.Ops.{
  acquire_connection, acquire_new, acquire_swept, cleanup_idle_connections, create_new_connection,
  find_available_connection, keep_fresh, is_lent, release_connection, cleanup, set_max_connections,
  set_connection_timeout, set_idle_timeout,
}
use mongodb_engine.Pool.Invariant.{Inv}
use mongodb_engine.Pool.Invariant.Runs.{
  Step, Reach, here, next, acquires, releases, cleans, resizes, sets_timeout, sets_idle, Reach-Inv,
}
use mongodb_engine.Pool.Leases.{Lends, acquire-Lends, lent-keep_fresh, release-lent}

-- What a caller sees of a call.
pub data Event : Type 0 where
  lends : ℕ → Event
  returns : ℕ → Event
  clears nothing : Event

abbrev lending : Option ℕ → Event
lending none = Event.nothing
lending (some c) = Event.lends c

abbrev returning : Option ℕ → Event
returning none = Event.nothing
returning (some c) = Event.returns c

abbrev pub event : {p q : MongoConnectionPool} → Step p q → Event
event (acquires p d now later f) = lending (acquire_connection d now later p).0
event (releases p client now) = returning client
event (cleans p) = Event.clears
event (resizes p n l) = Event.nothing
event (sets_timeout p n) = Event.nothing
event (sets_idle p n) = Event.nothing

-- The events of a life, the last one first.
abbrev pub events : {p q : MongoConnectionPool} → Reach p q → List Event
events here = []
events (next r st) = event st ∷ events r

-- Who is lent, by the events alone.
abbrev pub after : Event → (ℕ → Bool) → ℕ → Bool
after (Event.lends c) l x = if x == c then true else l x
after (Event.returns c) l x = if x == c then false else l x
after Event.clears l x = false
after Event.nothing l x = l x

abbrev pub held : List Event → ℕ → Bool
held [] x = false
held (e ∷ es) x = after e (held es) x

-- No client is lent to two callers.
abbrev pub IsAllowed : Event → (ℕ → Bool) → Type 0
IsAllowed (Event.lends c) l = l c ≡ false
IsAllowed _ l = Unit {0}

abbrev pub Exclusive : List Event → Type 0
Exclusive [] = Unit {0}
Exclusive (e ∷ es) = IsAllowed e (held es) × Exclusive es

-- An `acquire_connection` that lends nothing.
acquire_new-keeps :
    (d : Driver) (now : ℕ) (p : MongoConnectionPool)
    → (acquire_new d now p).0 ≡ none
    → (acquire_new d now p).1.connections ≡ p.connections
unfolding acquire_new
acquire_new-keeps d now p h = elim (Bool-cases (ltb (length p.connections) p.max_connections)) [
  | inr e ↦ rw e refl
  | inl e ↦ rw e (elim (Option-cases (create_new_connection d p).0) [
    | inl n ↦ rw n refl
    | inr (c, n) ↦ absurd (cc (rw n at (rw e at h)))
  ])
]

acquire-keeps :
    (d : Driver) (now later x : ℕ) (p : MongoConnectionPool)
    → (acquire_connection d now later p).0 ≡ none
    → is_lent x (acquire_connection d now later p).1.connections ≡ is_lent x p.connections
unfolding acquire_connection acquire_swept cleanup_idle_connections
acquire-keeps d now later x p h =
    let swept = keep_fresh now p.idle_timeout p.connections in
    elim (Option-cases (find_available_connection swept)) [
      | inl e ↦
          rw (e, acquire_swept)
            (ap (is_lent x) (
                acquire_new-keeps d later (cleanup_idle_connections now p)
                  (rw (e, acquire_swept) at h))
              ∙ lent-keep_fresh x now p.idle_timeout p.connections)
      | inr (i, e) ↦ absurd (cc (rw (e, acquire_swept) at h))
    ]

abbrev Agree : MongoConnectionPool → (ℕ → Bool) → Type 0
Agree p l = (x : ℕ) → is_lent x p.connections ≡ l x

Lends-event :
    (c : ℕ) (p q : MongoConnectionPool) (l : ℕ → Bool)
    → Lends c p.connections q.connections
    → Agree p l
    → (l c ≡ false) × Agree q (after (Event.lends c) l)
Lends-event c p q l h a = (
  sym (a c) ∙ h.was_free,
  λ x. elim (Bool-cases (x == c)) [
    | inl e ↦ ground (arith, h.is_held)
    | inr e ↦ ground (arith, h.others x, a x)
  ],
)

Step-event :
    {p q : MongoConnectionPool} (st : Step p q) (l : ℕ → Bool)
    → Inv p
    → Agree p l
    → IsAllowed (event st) l × Agree q (after (event st) l)
unfolding cleanup set_max_connections set_connection_timeout set_idle_timeout is_lent
Step-event (acquires p d now later f) l v a = go (acquire_connection d now later p).0 refl
  where
    go :
        (o : Option ℕ)
        → (acquire_connection d now later p).0 ≡ o
        → IsAllowed (lending o) l × Agree (acquire_connection d now later p).1 (after (lending o) l)
    go none e = (tt, λ x. acquire-keeps d now later x p e ∙ a x)
    go (some c) e =
        Lends-event c p (acquire_connection d now later p).1 l (acquire-Lends d now later c p v f e)
          a
Step-event (releases p none now) l v a = unfold release_connection in (tt, a)
Step-event (releases p (some c) now) l v a =
    (tt, λ x. release-lent c now x p v ∙ ap (λ b. if x == c then false else b) (a x))
Step-event (cleans p) l v a = (tt, λ x. refl)
Step-event (resizes p n lt) l v a = (tt, a)
Step-event (sets_timeout p n) l v a = (tt, a)
Step-event (sets_idle p n) l v a = (tt, a)

-- In any life of a pool in which the driver opens no client at an address that the pool still holds,
-- a client is lent only while, by the calls so far, nobody has it; and the pool has for lent exactly
-- the clients that those calls lent and neither took back nor cleared.
pub events-Exclusive :
    (s : Bytes) {p : MongoConnectionPool} (r : Reach (new_pool s) p)
    → Exclusive (events r) × ((x : ℕ) → is_lent x p.connections ≡ held (events r) x)
events-Exclusive s here = (tt, λ x. unfold new_pool is_lent in refl)
events-Exclusive s (next r st) =
    let (excl, agree) = events-Exclusive s r in
    let (allowed, then_) = Step-event st (held (events r)) (Reach-Inv s r) agree in
    ((allowed, excl), then_)
