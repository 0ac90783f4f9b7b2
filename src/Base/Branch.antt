-- ===== src/Base/Branch.antt =====
-- A property of both branches is one of the whole.
use mathlib.Core.Path.{◌≡◌, refl}
use mathlib.Core.Bool.{Bool, true, false}
use mathlib.Core.Option.{Option, none, some}
use mathlib.Core.List.{List, [], ◌∷◌}
use mongodb_engine.Base.Tests.{if◌then◌else◌}

pub if-both {ℓ κ} :
    {A : Type ℓ} (P : A → Type κ) (b : Bool) {x y : A} → P x → P y → P (if b then x else y)
if-both P true h k = h
if-both P false h k = k

pub if-false {ℓ κ} :
    {A : Type ℓ} (P : A → Type κ) (b : Bool) (x y : A) → b ≡ false → P y → P (if b then x else y)
if-false P true x y e h = absurd (cc)
if-false P false x y e h = h

pub option-both {ℓ κ μ} :
    {A : Type ℓ} {B : Type κ} (P : B → Type μ) (o : Option A) {x : B} {f : A → B}
    → P x
    → ((a : A) → P (f a))
    → P (elim o [ none ↦ x | some a ↦ f a ])
option-both P none h k = h
option-both P (some a) h k = k a

pub option-known {ℓ κ μ} :
    {A : Type ℓ} {B : Type κ} (P : B → Type μ) (o : Option A) {x : B} {f : A → B}
    → (o ≡ none → P x)
    → ((a : A) → o ≡ some a → P (f a))
    → P (elim o [ none ↦ x | some a ↦ f a ])
option-known P none h k = h refl
option-known P (some a) h k = k a refl

pub list-both {ℓ κ μ} :
    {A : Type ℓ} {B : Type κ} (P : B → Type μ) (o : List A) {x : B} {f : A → List A → B}
    → P x
    → ((a : A) (rest : List A) → P (f a rest))
    → P (elim o [ [] ↦ x | a ∷ rest ↦ f a rest ])
list-both P [] h k = h
list-both P (a ∷ rest) h k = k a rest
