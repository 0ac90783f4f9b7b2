-- ===== src/Base/Text.antt =====
-- Byte strings, as `std::string` and `std::map` of strings use them.
use mongodb_engine.Base.Tests.{◌==◌, ltb, Option-cases, if◌then◌else◌}
use mongodb_engine.Base.Lists.{length, take, drop}
use Prim.Native.Char.{code}
use Prim.Native.Nat.{◌+◌, ◌≤◌, ℕ, zero, suc, ◌<◌}
use Prim.Native.String.{String}
use mathlib.Core.Path.{sym, ◌∙◌, ◌≡◌, refl, ap}
use mathlib.Core.Logic.{◌≢◌, ◌↔◌, inl, inr}
use mathlib.Core.Bool.{Bool, true, false, ◌&&◌, ◌||◌}
use mathlib.Core.Option
use mathlib.Core.Option.{Option, none, some}
use mathlib.Core.List.{List, [], ◌∷◌, ◌++◌}
use native.Mathlib.Omega.{arith}

abbrev pub Bytes : Type 0
Bytes = List ℕ

-- The bytes of a literal; every literal of the sources is ASCII.
abbrev pub codes : String → Bytes
codes String.[] = []
codes (String.◌∷◌ c s) = code c ∷ codes s

-- `s.find(c)`; `none` is `npos`.
unfoldable pub find : ℕ → Bytes → Option ℕ
find c [] = none
find c (x ∷ s) = if x == c then some 0 else Option.map suc (find c s)

-- `a == b` on strings.
unfoldable pub str_eq : Bytes → Bytes → Bool
str_eq [] [] = true
str_eq (x ∷ a) (y ∷ b) = x == y && str_eq a b
str_eq _ _ = false

unfoldable pub starts_with : Bytes → Bytes → Bool
starts_with [] s = true
starts_with (x ∷ p) [] = false
starts_with (x ∷ p) (y ∷ s) = x == y && starts_with p s

-- `s.find(p) != npos` for a string `p`.
unfoldable pub contains_sub : Bytes → Bytes → Bool
contains_sub p [] = starts_with p []
contains_sub p (x ∷ s) = starts_with p (x ∷ s) || contains_sub p s

-- `s.find(p)` for a string `p`.
unfoldable pub find_sub : Bytes → Bytes → Option ℕ
find_sub p [] = if starts_with p [] then some 0 else none
find_sub p (x ∷ s) = if starts_with p (x ∷ s) then some 0 else Option.map suc (find_sub p s)

-- `s.find(c, pos)`.
abbrev pub find_from : ℕ → Bytes → ℕ → Option ℕ
find_from c s pos = elim (find c (drop pos s)) [ none ↦ none | some i ↦ some (pos + i) ]

-- `a < b` on strings: the order of a `std::map`.
unfoldable pub lt_bytes : Bytes → Bytes → Bool
lt_bytes [] [] = false
lt_bytes [] (y ∷ b) = true
lt_bytes (x ∷ a) [] = false
lt_bytes (x ∷ a) (y ∷ b) = if x == y then lt_bytes a b else ltb x y

-- No byte of the text is `c`.
abbrev pub Avoids : ℕ → Bytes → Type 0
Avoids c [] = Unit {0}
Avoids c (x ∷ s) = (x ≢ c) × Avoids c s

abbrev pub All {ℓ κ} : {A : Type ℓ} → (A → Type κ) → List A → Type κ
All P [] = Unit
All P (x ∷ xs) = P x × All P xs

pub All-append {ℓ κ} :
    {A : Type ℓ} (P : A → Type κ) (xs ys : List A) → All P xs → All P ys → All P (xs ++ ys)
All-append P [] ys hx hy = hy
All-append P (x ∷ xs) ys hx hy = (hx.0, All-append P xs ys hx.1 hy)

pub All-map {ℓ κ μ} :
    {A : Type ℓ} {P : A → Type κ} {Q : A → Type μ} (xs : List A)
    → ((x : A) → P x → Q x)
    → All P xs
    → All Q xs
All-map [] f h = tt
All-map (x ∷ xs) f h = (f x h.0, All-map xs f h.1)

pub Avoids-append : (c : ℕ) (a b : Bytes) → Avoids c a → Avoids c b → Avoids c (a ++ b)
Avoids-append c [] b ha hb = hb
Avoids-append c (x ∷ a) b ha hb = (ha.0, Avoids-append c a b ha.1 hb)

pub Avoids-take : (c n : ℕ) (s : Bytes) → Avoids c s → Avoids c (take n s)
Avoids-take c zero s h = tt
Avoids-take c (suc n) [] h = tt
Avoids-take c (suc n) (x ∷ s) h = (h.0, Avoids-take c n s h.1)

pub Avoids-drop : (c n : ℕ) (s : Bytes) → Avoids c s → Avoids c (drop n s)
Avoids-drop c zero s h = h
Avoids-drop c (suc n) [] h = tt
Avoids-drop c (suc n) (x ∷ s) h = Avoids-drop c n s h.1

pub find-none : (c : ℕ) (s : Bytes) → find c s ≡ none → Avoids c s
unfolding find
find-none c [] h = tt
find-none c (x ∷ s) h = ground (arith, find-none c s)

-- What stands before the first `c`, and after it.
pub find-some :
    (c : ℕ) (s : Bytes) (i : ℕ)
    → find c s ≡ some i
    → Avoids c (take i s) × (s ≡ take i s ++ c ∷ drop (suc i) s)
unfolding find
find-some c [] i h = absurd (cc)
find-some c (x ∷ s) zero h = ground arith
find-some c (x ∷ s) (suc i) h = ground (arith, find-some c s i)

pub find-Avoids : (c : ℕ) (s : Bytes) → Avoids c s → find c s ≡ none
unfolding find
find-Avoids c [] h = refl
find-Avoids c (x ∷ s) h = ground (arith, find-Avoids c s h.1)

pub find-append : (c : ℕ) (a b : Bytes) → Avoids c a → find c (a ++ c ∷ b) ≡ some (length a)
unfolding find
find-append c [] b h = ground arith
find-append c (x ∷ a) b h = ground (arith, find-append c a b h.1)

pub find_lt : (c : ℕ) (s : Bytes) (i : ℕ) → find c s ≡ some i → i < length s
unfolding find
find_lt c [] i h = absurd (cc)
find_lt c (x ∷ s) zero h = omega arith
find_lt c (x ∷ s) (suc i) h = ground (arith, find_lt c s i)

pub str_eq_iff : (a b : Bytes) → (str_eq a b ≡ true) ↔ (a ≡ b)
unfolding str_eq
str_eq_iff (x ∷ a) (y ∷ b) = ground (arith, str_eq_iff a b)
str_eq_iff _ _ = ground arith

pub str_eq_refl : (a : Bytes) → str_eq a a ≡ true
str_eq_refl a = (str_eq_iff a a).1 refl

drop-split :
    (c n i : ℕ) (s : Bytes)
    → drop n s ≡ take i (drop n s) ++ c ∷ drop (suc i) (drop n s)
    → s ≡ take (n + i) s ++ c ∷ drop (suc (n + i)) s
drop-split c zero i s h = ground (arith, h)
drop-split c (suc n) i [] h = absurd (not-nil _ _ h)
  where
    not-nil : (a b : Bytes) → [] ≡ a ++ c ∷ b → ⊥
    not-nil [] b e = cc
    not-nil (x ∷ a) b e = cc
drop-split c (suc n) i (x ∷ s) h =
    let e : suc n + i ≡ suc (n + i) = omega arith in rw e (ap (◌∷◌ x) (drop-split c n i s h))

-- A position in a text splits it there.
pub find_from-some :
    (c : ℕ) (s : Bytes) (pos i : ℕ)
    → find_from c s pos ≡ some i
    → (pos ≤ i) × (s ≡ take i s ++ c ∷ drop (suc i) s)
find_from-some c s pos i h = elim (Option-cases (find c (drop pos s))) [
  | inl e ↦ absurd (cc (rw (e, find_from) at h))
  | inr (j, e) ↦
      let k : pos + j ≡ i = ground arith in
      rw (← k) (omega arith, drop-split c pos j s (find-some c (drop pos s) j e).1)
]

take_nil {ℓ} : {A : Type ℓ} (m : ℕ) → take {A = A} m [] ≡ []
take_nil zero = refl
take_nil (suc m) = refl

drop-take {ℓ} : {A : Type ℓ} (n j : ℕ) (xs : List A) → drop n (take (n + j) xs) ≡ take j (drop n xs)
drop-take zero j xs = ap (λ k. take k xs) (omega arith)
drop-take (suc n) j [] = ap (drop (suc n)) (take_nil (suc n + j)) ∙ sym (take_nil j)
drop-take (suc n) j (x ∷ xs) =
    ap (λ k. drop (suc n) (take k (x ∷ xs))) {x = suc n + j} {y = suc (n + j)} (omega arith)
    ∙ drop-take n j xs

-- No `c` stands between the position and the place that is found.
pub find_from-Avoids :
    (c : ℕ) (s : Bytes) (pos i : ℕ) → find_from c s pos ≡ some i → Avoids c (drop pos (take i s))
find_from-Avoids c s pos i h = elim (Option-cases (find c (drop pos s))) [
  | inl e ↦ absurd (cc (rw (e, find_from) at h))
  | inr (j, e) ↦
      let k : pos + j ≡ i = ground arith in
      rw (← k, drop-take pos j s) (find-some c (drop pos s) j e).0
]

starts_with-append : (p s : Bytes) → starts_with p (p ++ s) ≡ true
unfolding starts_with
starts_with-append [] s = refl
starts_with-append (x ∷ p) s = ground (arith, starts_with-append p s)

contains_sub_start : (p s : Bytes) → starts_with p s ≡ true → contains_sub p s ≡ true
unfolding contains_sub
contains_sub_start p [] h = h
contains_sub_start p (x ∷ s) h = ground arith

pub contains_sub-append_right :
    (p a b : Bytes) → contains_sub p b ≡ true → contains_sub p (a ++ b) ≡ true
unfolding contains_sub
contains_sub-append_right p [] b h = h
contains_sub-append_right p (x ∷ a) b h = ground (arith, contains_sub-append_right p a b h)

-- A text that stands in the middle is found.
pub contains_sub-append : (p a b : Bytes) → contains_sub p (a ++ (p ++ b)) ≡ true
contains_sub-append p a b =
    contains_sub-append_right p a (p ++ b) (contains_sub_start p (p ++ b) (starts_with-append p b))

pub take-suc :
    (p : ℕ) (s : Bytes) (c : ℕ) (r : Bytes)
    → s ≡ take p s ++ c ∷ r
    → take (suc p) s ≡ take p s ++ c ∷ []
take-suc zero [] c r h = absurd (cc)
take-suc zero (x ∷ s) c r h = ground arith
take-suc (suc p) [] c r h = absurd (cc)
take-suc (suc p) (x ∷ s) c r h = ground (arith, take-suc p s c r)

-- A `std::map` keyed by strings: its pairs in the order of the keys.
module _ {ℓ} {V : Type ℓ} where
  unfoldable pub lookup : Bytes → List (Bytes × V) → Option V
  lookup k [] = none
  lookup k ((j, v) ∷ m) = if str_eq j k then some v else lookup k m

  -- `m[k] = v`.
  unfoldable pub insert : Bytes → V → List (Bytes × V) → List (Bytes × V)
  insert k v [] = (k, v) ∷ []
  insert k v ((j, w) ∷ m) =
      if str_eq j k
      then (k, v) ∷ m
      else if lt_bytes k j
      then (k, v) ∷ (j, w) ∷ m
      else (j, w) ∷ insert k v m

  pub lookup-insert :
      (k j : Bytes) (v : V) (m : List (Bytes × V))
      → lookup j (insert k v m) ≡ (if str_eq k j then some v else lookup j m)
  unfolding lookup insert
  lookup-insert k j v [] = refl
  lookup-insert k j v ((i, w) ∷ m) =
      ground (arith, str_eq_iff k j, str_eq_iff i k, str_eq_iff i j, lookup-insert k j v m)

  -- A write through `m.find(k)->second`.
  unfoldable pub modify : Bytes → (V → V) → List (Bytes × V) → List (Bytes × V)
  modify k f [] = []
  modify k f ((j, v) ∷ m) = if str_eq j k then (j, f v) ∷ m else (j, v) ∷ modify k f m

  pub lookup-modify :
      (k j : Bytes) (f : V → V) (m : List (Bytes × V)) (v : V)
      → lookup k m ≡ some v
      → lookup j (modify k f m) ≡ (if str_eq k j then some (f v) else lookup j m)
  unfolding lookup modify
  lookup-modify k j f [] v h = absurd (cc)
  lookup-modify k j f ((i, w) ∷ m) v h =
      ground (arith, str_eq_iff k j, str_eq_iff i k, str_eq_iff i j, lookup-modify k j f m v)
