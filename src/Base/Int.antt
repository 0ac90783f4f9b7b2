-- ===== src/Base/Int.antt =====
-- The C++ `int`, as an integer, with `std::stoi` and `std::to_string` of the standard library.
use mongodb_engine.Base.Tests.{◌==◌, leb, ltb, if◌then◌else◌}
use Prim.Native.Nat.{ℕ, zero, suc, ◌+◌, ◌-◌, ◌*◌, ◌/◌, ◌%◌, ◌^◌}
use mathlib.Core.Bool.{Bool, false, ◌&&◌, ◌||◌}
use mathlib.Core.Option
use mathlib.Core.Option.{Option, none, some}
use mathlib.Core.List.{List, [], ◌∷◌}

-- `negsuc n` is -(n + 1).
pub data ℤ : Type 0 where
  pos : ℕ → ℤ
  negsuc : ℕ → ℤ

abbrev pub neg : ℕ → ℤ
neg zero = pos 0
neg (suc n) = negsuc n

abbrev pub eq_int : ℤ → ℤ → Bool
eq_int (pos a) (pos b) = a == b
eq_int (negsuc a) (negsuc b) = a == b
eq_int _ _ = false

abbrev pub is_digit : ℕ → Bool
is_digit c = leb b'0' c && leb c b'9'

-- `isspace` in the "C" locale.
abbrev pub is_space : ℕ → Bool
is_space c = c == 32 || (leb 9 c && leb c 13)

unfoldable pub skip_space : List ℕ → List ℕ
skip_space [] = []
skip_space (c ∷ s) = if is_space c then skip_space s else c ∷ s

-- The longest run of digits, as a number.
unfoldable pub read_digits : ℕ → List ℕ → ℕ
read_digits acc [] = acc
read_digits acc (c ∷ s) = if is_digit c then read_digits (acc * 10 + (c - b'0')) s else acc

-- `none` where there is no digit to convert.
unfoldable pub read_unsigned : List ℕ → Option ℕ
read_unsigned [] = none
read_unsigned (c ∷ s) = if is_digit c then some (read_digits 0 (c ∷ s)) else none

unfoldable pub read_signed : List ℕ → Option ℤ
read_signed [] = none
read_signed (c ∷ s) =
    if c == b'-'
    then Option.map neg (read_unsigned s)
    else if c == b'+'
    then Option.map pos (read_unsigned s)
    else Option.map pos (read_unsigned (c ∷ s))

abbrev pub fits_int : ℤ → Bool
fits_int (pos n) = ltb n (2 ^ 31)
fits_int (negsuc n) = ltb n (2 ^ 31)

abbrev keep_int : ℤ → Option ℤ
keep_int z = if fits_int z then some z else none

-- `std::stoi`: white space, a sign, digits, and whatever follows is ignored. `none` is either
-- exception, `invalid_argument` and `out_of_range`.
unfoldable pub stoi : List ℕ → Option ℤ
stoi s = elim (read_signed (skip_space s)) [ none ↦ none | some z ↦ keep_int z ]

-- The digits of `n` before `rest`; the fuel is `suc n`, which is more than the digits.
unfoldable pub print_digits : ℕ → ℕ → List ℕ → List ℕ
print_digits zero n rest = rest
print_digits (suc f) n rest =
    let more = print_digits f (n / 10) ((b'0' + n % 10) ∷ rest) in
    if ltb n 10 then (b'0' + n) ∷ rest else more

unfoldable pub print_nat : ℕ → List ℕ
print_nat n = print_digits (suc n) n []

-- `std::to_string`.
unfoldable pub to_string : ℤ → List ℕ
to_string (pos n) = print_nat n
to_string (negsuc n) = b'-' ∷ print_nat (suc n)
