-- ===== src/Handler/Scanner/Elements.antt =====
-- Rows by their number.
use mongodb_engine.Base.{
  ℕ, suc, zero, ◌≤◌, ◌<◌, ◌≡◌, refl, ap, List, [], ◌∷◌, map, none, some, length, drop, arith,
}
use mongodb_engine.Handler.Scanner.{get_elem?}

module _ {ℓ} {A : Type ℓ} where
  -- What is left behind row `k`.
  pub drop-get_elem? :
      (xs : List A) (k : ℕ) (x : A) → get_elem? xs k ≡ some x → drop k xs ≡ x ∷ drop (suc k) xs
  drop-get_elem? [] k x h = absurd (cc)
  drop-get_elem? (y ∷ ys) zero x h = cc
  drop-get_elem? (y ∷ ys) (suc k) x h = drop-get_elem? ys k x h

  pub get_elem?-none : (xs : List A) (k : ℕ) → k ≤ length xs → get_elem? xs k ≡ none → k ≡ length xs
  get_elem?-none [] k l h = omega arith
  get_elem?-none (y ∷ ys) zero l h = absurd (cc)
  get_elem?-none (y ∷ ys) (suc k) l h = ap suc (get_elem?-none ys k (omega arith) h)

  pub get_elem?-lt : (xs : List A) (k : ℕ) (x : A) → get_elem? xs k ≡ some x → k < length xs
  get_elem?-lt [] k x h = absurd (cc)
  get_elem?-lt (y ∷ ys) zero x h = omega arith
  get_elem?-lt (y ∷ ys) (suc k) x h = omega (arith, get_elem?-lt ys k x h)

  pub drop-length : (xs : List A) → drop (length xs) xs ≡ []
  drop-length [] = refl
  drop-length (x ∷ xs) = drop-length xs

  pub get_elem?-ge : (xs : List A) (k : ℕ) → length xs ≤ k → get_elem? xs k ≡ none
  get_elem?-ge [] k h = refl
  get_elem?-ge (y ∷ ys) zero h = absurd (omega arith)
  get_elem?-ge (y ∷ ys) (suc k) h = get_elem?-ge ys k (omega arith)

pub get_elem?-map {ℓ κ} :
    {A : Type ℓ} {B : Type κ} (f : A → B) (xs : List A) (k : ℕ)
    → get_elem? (map f xs) k ≡ elim (get_elem? xs k) [ none ↦ none | some x ↦ some (f x) ]
get_elem?-map f [] k = refl
get_elem?-map f (x ∷ xs) zero = refl
get_elem?-map f (x ∷ xs) (suc k) = get_elem?-map f xs k

pub length-map {ℓ κ} :
    {A : Type ℓ} {B : Type κ} (f : A → B) (xs : List A) → length (map f xs) ≡ length xs
length-map f [] = refl
length-map f (x ∷ xs) = ap suc (length-map f xs)
