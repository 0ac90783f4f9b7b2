-- ===== src/Uri/Validate.antt =====
-- The validation functions of `MongoURIParser`: src/mongodb_uri_parser.cc, "Validation functions".
use mongodb_engine.Base.{
  ℕ, ◌+◌, Bool, true, false, not, ◌&&◌, ◌||◌, [], ◌∷◌, none, some, Bytes, codes, find, str_eq,
  length, is_empty, ltb, leb, ◌==◌, if◌then◌else◌,
}
use mongodb_engine.Base.Int.{ℤ, pos, negsuc}
use mongodb_engine.Uri.Helpers.{is_alnum}

-- `[a-zA-Z0-9\-\.]`
abbrev pub is_host_byte : ℕ → Bool
is_host_byte c = is_alnum c || c == b'-' || c == b'.'

-- `[a-zA-Z0-9\-\.]{0,k}[a-zA-Z0-9]`, on the whole text; `n` counts what the class has taken.
unfoldable pub match_tail : ℕ → Bytes → Bool
match_tail n [] = false
match_tail n (c ∷ []) = is_alnum c && leb n 251
match_tail n (c ∷ d ∷ s) = is_host_byte c && match_tail (n + 1) (d ∷ s)

-- `regex_match` with `^[a-zA-Z0-9]([a-zA-Z0-9\-\.]{0,251}[a-zA-Z0-9])?$`
unfoldable pub match_hostname : Bytes → Bool
match_hostname [] = false
match_hostname (c ∷ s) = is_alnum c && (is_empty s || match_tail 0 s)

unfoldable pub validate_hostname : Bytes → Bool
validate_hostname hostname =
    if is_empty hostname || ltb 253 (length hostname)
    then false
    else if str_eq hostname (codes "localhost")
    then true
    else match_hostname hostname

unfoldable pub validate_port : ℤ → Bool
validate_port (pos port) = ltb 0 port && leb port 65535
validate_port (negsuc n) = false

-- `find_first_of` of the characters that a database name may not hold.
abbrev pub is_invalid_byte : ℕ → Bool
is_invalid_byte c =
    c == b'/'
    || c == b'\\'
    || c == b'.'
    || c == b' '
    || c == b'"'
    || c == b'$'
    || c == b'*'
    || c == b'<'
    || c == b'>'
    || c == b':'
    || c == b'|'
    || c == b'?'

unfoldable pub has_invalid_byte : Bytes → Bool
has_invalid_byte [] = false
has_invalid_byte (c ∷ s) = is_invalid_byte c || has_invalid_byte s

unfoldable pub validate_database_name : Bytes → Bool
validate_database_name database =
    if is_empty database || ltb 64 (length database) then false else not (has_invalid_byte database)

abbrev starts_with_dollar : Bytes → Bool
starts_with_dollar [] = false
starts_with_dollar (c ∷ s) = c == b'$'

unfoldable pub validate_collection_name : Bytes → Bool
validate_collection_name collection =
    if is_empty collection || ltb 120 (length collection)
    then false
    else if starts_with_dollar collection
    then false
    else elim (find 0 collection) [ none ↦ true | some _ ↦ false ]
