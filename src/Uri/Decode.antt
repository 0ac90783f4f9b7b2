-- ===== src/Uri/Decode.antt =====
-- `url_decode` against percent-encoding.
use mongodb_engine.Base.{
  ℕ, ◌+◌, ◌/◌, ◌%◌, ◌<◌, ◌≡◌, ◌≢◌, refl, false, ◌||◌, ◌*◌, ◌==◌, some, [], ◌∷◌, ◌++◌, Bytes, All,
  ltb, if◌then◌else◌, arith,
}
use mongodb_engine.Base.Int.{is_space}
use mongodb_engine.Uri.Helpers.{hex_digit, hex_value, url_decode}

-- The specification: every byte as `%` and two hexadecimal digits.
abbrev pub hex_char : ℕ → ℕ
hex_char n = if ltb n 10 then b'0' + n else 55 + n

abbrev pub percent_encode : Bytes → Bytes
percent_encode [] = []
percent_encode (c ∷ s) = b'%' ∷ hex_char (c / 16) ∷ hex_char (c % 16) ∷ percent_encode s

hex_digit-hex_char : (v : ℕ) → v < 16 → hex_digit (hex_char v) ≡ some v
hex_digit-hex_char v h = ground arith

hex_char_plain :
    (v : ℕ)
    → v < 16
    → ((is_space (hex_char v) || hex_char v == b'+') ≡ false) × ((hex_char v == b'-') ≡ false)
hex_char_plain v h = (ground arith, ground arith)

hex_value-hex_char : (x y : ℕ) → x < 16 → y < 16 → hex_value (hex_char x) (hex_char y) ≡ x * 16 + y
unfolding hex_value
hex_value-hex_char x y hx hy =
    let (a, b) = hex_char_plain x hx in rw (a, b, hex_digit-hex_char x hx, hex_digit-hex_char y hy)

-- Decoding the percent-encoding of any bytes gives them back, whatever text follows.
pub url_decode-percent_encode :
    (s rest : Bytes)
    → All (λ c. c < 256) s
    → url_decode (percent_encode s ++ rest) ≡ s ++ url_decode rest
unfolding url_decode
url_decode-percent_encode [] rest h = refl
url_decode-percent_encode (c ∷ s) rest h = ground (
  arith,
  hex_value-hex_char (c / 16) (c % 16) (omega arith) (omega arith),
  url_decode-percent_encode s rest h.1,
)

-- A text with no `%` and no `+` is left as it is.
pub url_decode_plain : (s : Bytes) → All (λ c. (c ≢ b'%') × (c ≢ b'+')) s → url_decode s ≡ s
unfolding url_decode
url_decode_plain [] h = refl
url_decode_plain (c ∷ []) h = ground arith
url_decode_plain (c ∷ a ∷ []) h = ground arith
url_decode_plain (c ∷ a ∷ b ∷ s) h = ground (arith, url_decode_plain (a ∷ b ∷ s) h.1)
