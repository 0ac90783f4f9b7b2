-- ===== src/Uri/Helpers.antt =====
-- The private helper functions of `MongoURIParser`: src/mongodb_uri_parser.cc, "Helper functions".
use mongodb_engine.Base.{
  ℕ, suc, ◌+◌, ◌-◌, ◌*◌, ◌%◌, Bool, true, false, not, ◌&&◌, ◌||◌, List, [], ◌∷◌, ◌++◌, Option, none,
  some, Bytes, find, take, drop, is_empty, leb, ◌==◌, if◌then◌else◌,
}
use mongodb_engine.Base.Int.{is_digit, is_space}

abbrev pub is_upper : ℕ → Bool
is_upper c = leb b'A' c && leb c b'Z'

abbrev pub is_lower : ℕ → Bool
is_lower c = leb b'a' c && leb c b'z'

-- `isalpha` and `isalnum` in the "C" locale.
abbrev pub is_alpha : ℕ → Bool
is_alpha c = is_upper c || is_lower c

abbrev pub is_alnum : ℕ → Bool
is_alnum c = is_alpha c || is_digit c

abbrev pub hex_digit : ℕ → Option ℕ
hex_digit c =
    if is_digit c
    then some (c - b'0')
    else if leb b'a' c && leb c b'f'
    then some (c - 87)
    else if leb b'A' c && leb c b'F'
    then some (c - 55)
    else none

-- One digit after white space or a sign, as a byte; no digit leaves 0.
abbrev hex_single : ℕ → ℕ
hex_single b = elim (hex_digit b) [ none ↦ 0 | some v ↦ v ]

-- `istringstream(two characters) >> hex >> hex_val`, cast to `char`: leading white space is skipped,
-- a sign is read, reading stops at the first character that is no digit, and a failure gives 0. Of two bytes of white
-- space nothing is read, and C++ leaves the variable as it was, uninitialised; it is 0 here.
unfoldable pub hex_value : ℕ → ℕ → ℕ
hex_value a b =
    if is_space a || a == b'+'
    then hex_single b
    else if a == b'-'
    then (256 - hex_single b) % 256
    else elim (hex_digit a) [
      | none ↦ 0
      | some x ↦ elim (hex_digit b) [ none ↦ x | some y ↦ x * 16 + y ]
    ]

abbrev decode_plain : ℕ → ℕ
decode_plain c = if c == b'+' then b' ' else c

-- A `%` with fewer than two characters behind it stands for itself.
unfoldable pub url_decode : Bytes → Bytes
url_decode [] = []
url_decode (c ∷ []) = decode_plain c ∷ []
url_decode (c ∷ a ∷ []) = decode_plain c ∷ url_decode (a ∷ [])
url_decode (c ∷ a ∷ b ∷ s) = elim (c == b'%') [
  | true ↦ hex_value a b ∷ url_decode s
  | false ↦ decode_plain c ∷ url_decode (a ∷ b ∷ s)
]

unfoldable pub split_key_value : Bytes → ℕ → Bytes × Bytes
split_key_value kv delimiter = elim (find delimiter kv) [
  | none ↦ (kv, [])
  | some i ↦ (take i kv, drop (suc i) kv)
]

abbrev pub push_item : Bytes → List Bytes → List Bytes
push_item item rest = if is_empty item then rest else item ∷ rest

-- `getline` up to each delimiter; `item` is what it has read of the current one.
unfoldable pub split_from : Bytes → ℕ → Bytes → List Bytes
split_from item delimiter [] = push_item item []
split_from item delimiter (c ∷ s) = elim (c == delimiter) [
  | true ↦ push_item item (split_from [] delimiter s)
  | false ↦ split_from (item ++ c ∷ []) delimiter s
]

unfoldable pub split_string : Bytes → ℕ → List Bytes
split_string s delimiter = split_from [] delimiter s

unfoldable pub all_identifier : Bytes → Bool
all_identifier [] = true
all_identifier (c ∷ s) = (is_alnum c || c == b'_') && all_identifier s

unfoldable pub is_valid_identifier : Bytes → Bool
is_valid_identifier s = not (is_empty s) && all_identifier s
