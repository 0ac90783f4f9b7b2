-- ===== src/Schema/Normal.antt =====
-- Normalised names and SQL identifiers.
use mongodb_engine.Base.{
  ℕ, ◌≡◌, refl, ap₂, ◌∙◌, true, false, not, ◌&&◌, [], ◌∷◌, map, Bytes, length, is_empty, leb, ◌==◌,
  Bool-cases, inl, inr, arith,
}
use mongodb_engine.Base.Int.{is_digit}
use mongodb_engine.Uri.Helpers.{is_alnum}
use mongodb_engine.Schema.Names.{
  is_word, normalize_byte, guard_digit, normalize_field_name, all_word, is_valid_sql_identifier,
}

normalize_byte-word : (c : ℕ) → is_word (normalize_byte c) ≡ true
unfolding normalize_byte
normalize_byte-word c = elim (Bool-cases (is_alnum c)) [
  | inl a ↦ rw (a, normalize_byte) (rw a)
  | inr a ↦ elim (Bool-cases (c == b'_')) [
    | inl u ↦ rw (a, u, normalize_byte) (rw (a, u))
    | inr u ↦ rw (a, u, normalize_byte)
  ]
]

all_word-cons : (c : ℕ) (s : Bytes) → is_word c ≡ true → all_word (c ∷ s) ≡ all_word s
unfolding all_word
all_word-cons c s h = elim (Bool-cases (is_alnum c)) [ inl a ↦ rw a | inr a ↦ rw (a, (rw a at h)) ]

all_word-normalize : (s : Bytes) → all_word (map normalize_byte s) ≡ true
all_word-normalize [] = unfold all_word in refl
all_word-normalize (c ∷ s) =
    all_word-cons (normalize_byte c) (map normalize_byte s) (normalize_byte-word c)
    ∙ all_word-normalize s

valid-guard :
    (n : ℕ) (t : Bytes)
    → is_word n ≡ true
    → all_word t ≡ true
    → is_valid_sql_identifier (guard_digit (n ∷ t)) ≡ leb (length (guard_digit (n ∷ t))) 64
unfolding is_valid_sql_identifier guard_digit
valid-guard n t h k = elim (Bool-cases (is_digit n)) [
  | inl d ↦ rw d (ground (arith, all_word-cons n t h))
  | inr d ↦ rw d (ground arith)
]

-- The normalised form of any name is an identifier that SQL takes, exactly if the name is not empty
-- and the form is at most 64 bytes long.
pub is_valid-normalize :
    (name : Bytes)
    → is_valid_sql_identifier (normalize_field_name name)
      ≡ (not (is_empty name) && leb (length (normalize_field_name name)) 64)
unfolding normalize_field_name
is_valid-normalize [] = unfold is_valid_sql_identifier guard_digit in refl
is_valid-normalize (c ∷ s) =
    valid-guard (normalize_byte c) (map normalize_byte s) (normalize_byte-word c)
      (all_word-normalize s)

normalize_byte_word : (c : ℕ) → is_word c ≡ true → normalize_byte c ≡ c
unfolding normalize_byte
normalize_byte_word c h = elim (Bool-cases (is_alnum c)) [
  | inl a ↦ rw a
  | inr a ↦ rw (a, (rw a at h))
]

normalize_all : (s : Bytes) → all_word s ≡ true → map normalize_byte s ≡ s
unfolding all_word
normalize_all [] h = refl
normalize_all (c ∷ s) h = elim (Bool-cases (is_word c)) [
  | inl w ↦ ap₂ ◌∷◌ (normalize_byte_word c w) (normalize_all s (rw (all_word-cons c s w) at h))
  | inr w ↦ absurd (ground arith)
]

valid-parts :
    (c : ℕ) (s : Bytes)
    → is_valid_sql_identifier (c ∷ s) ≡ true
    → (is_word c ≡ true) × (is_digit c ≡ false) × (all_word s ≡ true)
unfolding is_valid_sql_identifier
valid-parts c s h = ground arith

-- An identifier is its own normalised form.
pub normalize-is_valid :
    (name : Bytes) → is_valid_sql_identifier name ≡ true → normalize_field_name name ≡ name
unfolding normalize_field_name guard_digit
normalize-is_valid [] h = refl
normalize-is_valid (c ∷ s) h =
    let (w, d, a) = valid-parts c s h in rw (normalize_byte_word c w, normalize_all s a) (rw d)
