-- ===== src/Schema/Order.antt =====
-- What the order of the sampled documents leaves as it is.
use mathlib.Core.Bool.{Bool-set}
use mathlib.Core.List.{Perm, Permᴰ}
use mathlib.Core.Logic.{∥∥₁_elim}
use mongodb_engine.Base.{
  ◌≡◌, refl, sym, ap, ap₂, ◌∙◌, Bool, true, false, ◌||◌, List, [], ◌∷◌, ◌++◌, Option, none, some,
  Bytes, lookup, Bool-cases, inl, inr, arith,
}
use mongodb_engine.Schema.Fields.{Document}
use mongodb_engine.Schema.Names.{is_valid_sql_identifier}
use mongodb_engine.Schema.Registry.{analyze_all}
use mongodb_engine.Schema.Types.{FieldType, is_string, is_long}
use mongodb_engine.Schema.Join.{
  values_of, all_values, join_type, join_types, type_of, long-code, analyze_all-join,
}

abbrev pub is_text : Option FieldType → Bool
is_text none = false
is_text (some t) = is_string t

abbrev pub is_column : Option FieldType → Bool
is_column none = false
is_column (some t) = true

abbrev any : (FieldType → Bool) → List FieldType → Bool
any p [] = false
any p (t ∷ ts) = p t || any p ts

any-append :
    (p : FieldType → Bool) (xs ys : List FieldType) → any p (xs ++ ys) ≡ (any p xs || any p ys)
any-append p [] ys = refl
any-append p (x ∷ xs) ys = ground (arith, any-append p xs ys)

join_type-text : (t x : FieldType) → is_string (join_type t x) ≡ (is_string t || is_string x)
join_type-text t x = elim (Bool-cases (is_long t)) [
  | inl l ↦ ground (arith, ap is_string (long-code t l))
  | inr l ↦ ground arith
]

join-text :
    (t : Option FieldType) (xs : List FieldType)
    → is_text (join_types t xs) ≡ (is_text t || any is_string xs)
join-text none [] = refl
join-text (some t) [] = ground arith
join-text none (x ∷ xs) = join-text (some x) xs
join-text (some t) (x ∷ xs) =
    ground (arith, join-text (some (join_type t x)) xs, join_type-text t x)

join-column :
    (t : Option FieldType) (xs : List FieldType)
    → is_column (join_types t xs) ≡ (is_column t || any (λ _. true) xs)
join-column none [] = refl
join-column (some t) [] = refl
join-column none (x ∷ xs) = join-column (some x) xs
join-column (some t) (x ∷ xs) = join-column (some (join_type t x)) xs

-- The values of one sampled document.
abbrev of_document : Bytes → Option Document → List FieldType
of_document name none = []
of_document name (some doc) = values_of name doc

all_values-cons :
    (name : Bytes) (d : Option Document) (docs : List (Option Document))
    → all_values name (d ∷ docs) ≡ of_document name d ++ all_values name docs
all_values-cons name none docs = refl
all_values-cons name (some d) docs = refl

any-cons :
    (p : FieldType → Bool) (name : Bytes) (d : Option Document) (docs : List (Option Document))
    → any p (all_values name (d ∷ docs))
      ≡ (any p (of_document name d) || any p (all_values name docs))
any-cons p name d docs =
    ap (any p) (all_values-cons name d docs)
    ∙ any-append p (of_document name d) (all_values name docs)

any-two :
    (p : FieldType → Bool) (name : Bytes) (d e : Option Document) (docs : List (Option Document))
    → any p (all_values name (d ∷ e ∷ docs))
      ≡ (any p (of_document name d) || (any p (of_document name e) || any p (all_values name docs)))
any-two p name d e docs =
    any-cons p name d (e ∷ docs)
    ∙ ap (λ b. any p (of_document name d) || b) (any-cons p name e docs)

or_swap : (x y z : Bool) → (x || (y || z)) ≡ (y || (x || z))
or_swap x y z = ground arith

any-Permᴰ :
    (p : FieldType → Bool) (name : Bytes) {a b : List (Option Document)}
    → Permᴰ a b
    → any p (all_values name a) ≡ any p (all_values name b)
any-Permᴰ p name Permᴰ.nil = refl
any-Permᴰ p name (Permᴰ.cons {a} {b} {l₁} {l₂} e q) =
    any-cons p name a l₁
    ∙ ap₂ (λ x y. any p (of_document name x) || y) e (any-Permᴰ p name q)
    ∙ sym (any-cons p name b l₂)
any-Permᴰ p name (Permᴰ.swap {a} {b} {a'} {b'} {l} e f) =
    any-two p name a b l
    ∙ or_swap (any p (of_document name a)) (any p (of_document name b)) (any p (all_values name l))
    ∙ ap₂
        (λ x y.
          any p (of_document name x) || (any p (of_document name y) || any p (all_values name l)))
        f e
    ∙ sym (any-two p name a' b' l)
any-Permᴰ p name (Permᴰ.trans q r) = any-Permᴰ p name q ∙ any-Permᴰ p name r

-- Whether a valid name is a column, and whether that column has the type of a text, do not depend on
-- the order in which the documents were sampled.
pub analyze_all-Perm :
    (name : Bytes) (docs other : List (Option Document))
    → is_valid_sql_identifier name ≡ true
    → Perm docs other
    → (is_column (type_of (lookup name (analyze_all docs [])))
        ≡ is_column (type_of (lookup name (analyze_all other []))))
      × (is_text (type_of (lookup name (analyze_all docs [])))
          ≡ is_text (type_of (lookup name (analyze_all other []))))
analyze_all-Perm name docs other v q =
    let same : (p : FieldType → Bool)
        → any p (all_values name docs) ≡ any p (all_values name other) =
      λ p. ∥∥₁_elim q (Bool-set _ _) (any-Permᴰ p name) in
    let column : (ds : List (Option Document))
        → is_column (type_of (lookup name (analyze_all ds [])))
          ≡ any (λ _. true) (all_values name ds) =
      λ ds. ap is_column (analyze_all-join name ds v) ∙ join-column none (all_values name ds) in
    let text : (ds : List (Option Document))
        → is_text (type_of (lookup name (analyze_all ds []))) ≡ any is_string (all_values name ds) =
      λ ds. ap is_text (analyze_all-join name ds v) ∙ join-text none (all_values name ds) in
    (
      column docs ∙ same (λ _. true) ∙ sym (column other),
      text docs ∙ same is_string ∙ sym (text other),
    )
