-- ===== src/Uri/Split.antt =====
-- `split_string` takes apart what a separator joins.
use mongodb_engine.Base.{
  ℕ, ◌≡◌, ◌≢◌, refl, ap, ◌∙◌, List, [], ◌∷◌, ◌++◌, Bytes, Avoids, All, ◌==◌, arith, append-nil,
  append_assoc, ==_iff, Bool-cases, inl, inr, Avoids-append,
}
use mongodb_engine.Uri.Helpers.{split_from, split_string, push_item}
use mongodb_engine.Uri.Print.{print_more, join}

-- An item of a list: not empty, and with no separator in it.
abbrev pub IsItem : ℕ → Bytes → Type 0
IsItem d s = (s ≢ []) × Avoids d s

split_from-Avoids :
    (item : Bytes) (d : ℕ) (s rest : Bytes)
    → Avoids d s
    → split_from item d (s ++ rest) ≡ split_from (item ++ s) d rest
unfolding split_from
split_from-Avoids item d [] rest h = rw append-nil
split_from-Avoids item d (c ∷ s) rest h = elim (Bool-cases (c == d)) [
  | inl e ↦ absurd (h.0 (ground arith))
  | inr e ↦ rw (e, split_from) (split_from-Avoids (item ++ c ∷ []) d s rest h.1 ∙ rw append_assoc)
]

push_item-ne : (item : Bytes) (rest : List Bytes) → item ≢ [] → push_item item rest ≡ item ∷ rest
push_item-ne [] rest h = absurd (h refl)
push_item-ne (c ∷ s) rest h = refl

split_from-print_more :
    (item : Bytes) (d : ℕ) (xs : List Bytes)
    → item ≢ []
    → All (IsItem d) xs
    → split_from item d (print_more d xs) ≡ item ∷ xs
unfolding split_from print_more
split_from-print_more item d [] ne h = push_item-ne item [] ne
split_from-print_more item d (x ∷ xs) ne h =
    rw ((==_iff d d).1 refl, split_from)
      (push_item-ne item _ ne
        ∙ ap (◌∷◌ item) (
            split_from-Avoids [] d x (print_more d xs) h.0.1
            ∙ split_from-print_more x d xs h.0.0 h.1))

-- Splitting what `join` wrote gives back the items.
pub split_string-join :
    (d : ℕ) (xs : List Bytes) → All (IsItem d) xs → split_string (join d xs) d ≡ xs
unfolding split_string join
split_string-join d [] h = unfold split_from in refl
split_string-join d (x ∷ xs) h =
    split_from-Avoids [] d x (print_more d xs) h.0.1 ∙ split_from-print_more x d xs h.0.0 h.1

push_item-IsItem :
    (item : Bytes) (d : ℕ) (rest : List Bytes)
    → Avoids d item
    → All (IsItem d) rest
    → All (IsItem d) (push_item item rest)
push_item-IsItem [] d rest h k = k
push_item-IsItem (c ∷ s) d rest h k = (((λ e. cc), h), k)

split_from-IsItem :
    (item : Bytes) (d : ℕ) (s : Bytes) → Avoids d item → All (IsItem d) (split_from item d s)
unfolding split_from
split_from-IsItem [] d [] h = tt
split_from-IsItem (x ∷ item) d [] h = (((λ e. cc), h), tt)
split_from-IsItem item d (c ∷ s) h = elim (Bool-cases (c == d)) [
  | inl e ↦
      rw (e, split_from)
        (push_item-IsItem item d (split_from [] d s) h (split_from-IsItem [] d s tt))
  | inr e ↦
      rw (e, split_from)
        (split_from-IsItem (item ++ c ∷ []) d s
          (Avoids-append d item (c ∷ []) h ((λ x. ground arith), tt)))
]

-- Whatever the text, no part is empty or holds the separator.
split_string-IsItem : (d : ℕ) (s : Bytes) → All (IsItem d) (split_string s d)
unfolding split_string
split_string-IsItem d s = split_from-IsItem [] d s tt
