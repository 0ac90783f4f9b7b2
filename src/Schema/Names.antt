-- ===== src/Schema/Names.antt =====
-- `normalize_field_name` and `is_valid_sql_identifier`: src/mongodb_schema.cc.
use mongodb_engine.Base.{
  ℕ, Bool, true, false, not, ◌&&◌, ◌||◌, [], ◌∷◌, map, Bytes, length, ltb, ◌==◌, if◌then◌else◌,
}
use mongodb_engine.Base.Int.{is_digit}
use mongodb_engine.Uri.Helpers.{is_alpha, is_alnum}

-- `isalnum(c) || c == '_'`
abbrev pub is_word : ℕ → Bool
is_word c = is_alnum c || c == b'_'

unfoldable pub normalize_byte : ℕ → ℕ
normalize_byte c = if not (is_alnum c) && not (c == b'_') then b'_' else c

-- `_` in front of a leading digit.
unfoldable pub guard_digit : Bytes → Bytes
guard_digit [] = []
guard_digit (c ∷ s) = if is_digit c then b'_' ∷ c ∷ s else c ∷ s

unfoldable pub normalize_field_name : Bytes → Bytes
normalize_field_name name = guard_digit (map normalize_byte name)

unfoldable pub all_word : Bytes → Bool
all_word [] = true
all_word (c ∷ s) = if not (is_alnum c) && not (c == b'_') then false else all_word s

unfoldable pub is_valid_sql_identifier : Bytes → Bool
is_valid_sql_identifier [] = false
is_valid_sql_identifier (c ∷ s) =
    if ltb 64 (length (c ∷ s))
    then false
    else if not (is_alpha c) && not (c == b'_')
    then false
    else all_word s
