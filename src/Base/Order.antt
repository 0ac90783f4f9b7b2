-- ===== src/Base/Order.antt =====
-- The order of a `std::map` that has strings for its keys.
use mongodb_engine.Base.Tests.{Bool-cases}
use mongodb_engine.Base.Text.{Bytes, All, All-map, insert, modify, str_eq, str_eq_iff, lt_bytes}
use mathlib.Core.Path.{◌≡◌, refl, ap}
use mathlib.Core.Logic.{inl, inr}
use mathlib.Core.Bool.{true, false}
use mathlib.Core.List.{List, [], ◌∷◌, ◌++◌}
use native.Mathlib.Omega.{arith}

lt_bytes_trans : (a b c : Bytes) → lt_bytes a b ≡ true → lt_bytes b c ≡ true → lt_bytes a c ≡ true
unfolding lt_bytes
lt_bytes_trans (x ∷ a) (y ∷ b) (z ∷ c) h k = ground (arith, lt_bytes_trans a b c)
lt_bytes_trans _ _ _ h k = ground arith

lt_bytes_connex : (a b : Bytes) → str_eq a b ≡ false → lt_bytes b a ≡ false → lt_bytes a b ≡ true
unfolding lt_bytes str_eq
lt_bytes_connex (x ∷ a) (y ∷ b) h k = ground (arith, lt_bytes_connex a b)
lt_bytes_connex _ _ h k = ground arith

-- Each name stands before all that follow it, so that none stands there twice.
abbrev pub Sorted {ℓ} : {V : Type ℓ} → List (Bytes × V) → Type 0
Sorted [] = Unit
Sorted (e ∷ m) = All (λ f. lt_bytes e.0 f.0 ≡ true) m × Sorted m

module _ {V : Type 0} (P : Bytes × V → Type 0) where
  pub All-insert :
      (k : Bytes) (v : V) (m : List (Bytes × V)) → P (k, v) → All P m → All P (insert k v m)
  unfolding insert
  All-insert k v [] p h = (p, tt)
  All-insert k v ((j, w) ∷ m) p h = elim (Bool-cases (str_eq j k)) [
    | inl e ↦ rw (e, insert) (p, h.1)
    | inr e ↦
        rw (e, insert)
          (elim (Bool-cases (lt_bytes k j)) [
            | inl l ↦ rw l (p, h)
            | inr l ↦ rw l (h.0, All-insert k v m p h.1)
          ])
  ]

  pub All-modify :
      (k : Bytes) (f : V → V) (m : List (Bytes × V))
      → ((j : Bytes) (v : V) → P (j, v) → P (j, f v))
      → All P m
      → All P (modify k f m)
  unfolding modify
  All-modify k f [] p h = tt
  All-modify k f ((j, w) ∷ m) p h = elim (Bool-cases (str_eq j k)) [
    | inl e ↦ rw (e, modify) (p j w h.0, h.1)
    | inr e ↦ rw (e, modify) (h.0, All-modify k f m p h.1)
  ]

module _ {V : Type 0} where
  pub insert-Sorted : (k : Bytes) (v : V) (m : List (Bytes × V)) → Sorted m → Sorted (insert k v m)
  unfolding insert
  insert-Sorted k v [] h = (tt, tt)
  insert-Sorted k v ((j, w) ∷ m) h = elim (Bool-cases (str_eq j k)) [
    | inl e ↦ let same : j ≡ k = (str_eq_iff j k).0 e in rw (e, insert) (rw (← same) h.0, h.1)
    | inr e ↦
        rw (e, insert)
          (elim (Bool-cases (lt_bytes k j)) [
            | inl l ↦ rw l ((l, All-map m (λ f b. lt_bytes_trans k j f.0 l b) h.0), h)
            | inr l ↦ rw l (
              All-insert (λ f. lt_bytes j f.0 ≡ true) k v m (lt_bytes_connex j k e l) h.0,
              insert-Sorted k v m h.1,
            )
          ])
  ]

  pub modify-Sorted :
      (k : Bytes) (f : V → V) (m : List (Bytes × V)) → Sorted m → Sorted (modify k f m)
  unfolding modify
  modify-Sorted k f [] h = tt
  modify-Sorted k f ((j, w) ∷ m) h = elim (Bool-cases (str_eq j k)) [
    | inl e ↦ rw (e, modify) h
    | inr e ↦
        rw (e, modify)
          (All-modify (λ g. lt_bytes j g.0 ≡ true) k f m (λ i v p. p) h.0, modify-Sorted k f m h.1)
  ]

lt_bytes-ne : (a b : Bytes) → lt_bytes a b ≡ true → str_eq a b ≡ false
unfolding lt_bytes str_eq
lt_bytes-ne (x ∷ a) (y ∷ b) h = ground (arith, lt_bytes-ne a b)
lt_bytes-ne _ _ h = ground arith

lt_bytes_asymm : (a b : Bytes) → lt_bytes a b ≡ true → lt_bytes b a ≡ false
unfolding lt_bytes
lt_bytes_asymm (x ∷ a) (y ∷ b) h = ground (arith, lt_bytes_asymm a b)
lt_bytes_asymm _ _ h = ground arith

-- A key behind all others joins them at the end.
pub insert_last {ℓ} :
    {V : Type ℓ} (k : Bytes) (v : V) (m : List (Bytes × V))
    → All (λ e. lt_bytes e.0 k ≡ true) m
    → insert k v m ≡ m ++ (k, v) ∷ []
unfolding insert
insert_last k v [] h = refl
insert_last k v ((j, w) ∷ m) h =
    rw (lt_bytes-ne j k h.0, lt_bytes_asymm j k h.0) (ap (◌∷◌ (j, w)) (insert_last k v m h.1))
