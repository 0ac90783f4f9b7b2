-- ===== src/Base/Decimal.antt =====
-- `std::stoi` reads back what `std::to_string` writes.
use mongodb_engine.Base.Tests.{Bool-cases, ltb}
use mongodb_engine.Base.Int.{
  ℤ, pos, negsuc, fits_int, is_digit, skip_space, read_digits, read_unsigned, read_signed, stoi,
  print_digits, print_nat, to_string,
}
use mongodb_engine.Base.Text.{Bytes, Avoids}
use Prim.Native.Nat.{ℕ, zero, suc, ◌+◌, ◌/◌, ◌%◌, ◌^◌, ◌<◌}
use mathlib.Core.Path.{◌≡◌, refl, sym, ap, ◌∙◌}
use mathlib.Core.Logic.{◌≢◌, inl, inr}
use mathlib.Core.Bool.{true, false}
use mathlib.Core.Option.{some}
use mathlib.Core.List.{[], ◌∷◌}
use native.Mathlib.Omega.{arith}

read_digits-print_digits :
    (f n : ℕ) (rest : Bytes) → n < f → read_digits 0 (print_digits f n rest) ≡ read_digits n rest
unfolding read_digits print_digits
read_digits-print_digits zero n rest h = elim h [ ]
read_digits-print_digits (suc f) n rest h = elim (Bool-cases (ltb n 10)) [
  | inl t ↦ ground arith
  | inr t ↦
      rw t
        (read_digits-print_digits f (n / 10) ((b'0' + n % 10) ∷ rest) (ground arith) ∙ ground arith)
]

-- The text of a number begins with a digit.
print_digits-starts :
    (f n : ℕ) (rest : Bytes)
    → n < f
    → (c : ℕ) × (s : Bytes) × (print_digits f n rest ≡ c ∷ s) × (is_digit c ≡ true)
unfolding print_digits
print_digits-starts zero n rest h = elim h [ ]
print_digits-starts (suc f) n rest h = elim (Bool-cases (ltb n 10)) [
  | inl t ↦ (b'0' + n, rest, ground arith, ground arith)
  | inr t ↦ rw t (print_digits-starts f (n / 10) ((b'0' + n % 10) ∷ rest) (ground arith))
]

read_signed-digit :
    (c : ℕ) (s : Bytes)
    → is_digit c ≡ true
    → read_signed (skip_space (c ∷ s)) ≡ some (pos (read_digits 0 (c ∷ s)))
unfolding read_signed skip_space read_unsigned
read_signed-digit c s h = ground arith

-- The digits of a number hold no byte that is no digit.
print_digits-Avoids :
    (c f n : ℕ) (rest : Bytes)
    → is_digit c ≡ false
    → Avoids c rest
    → Avoids c (print_digits f n rest)
unfolding print_digits
print_digits-Avoids c zero n rest h a = a
print_digits-Avoids c (suc f) n rest h a = elim (Bool-cases (ltb n 10)) [
  | inl t ↦ rw t (ground arith)
  | inr t ↦
      rw t (print_digits-Avoids c f (n / 10) ((b'0' + n % 10) ∷ rest) h ((λ e. ground arith), a))
]

read_digits-zero : (n : ℕ) → read_digits n [] ≡ n
unfolding read_digits
read_digits-zero n = refl

-- A number in digits is read after a sign too.
read_unsigned-print_nat : (n : ℕ) → read_unsigned (print_nat n) ≡ some n
unfolding print_nat read_unsigned
read_unsigned-print_nat n =
    let (c, s, e, d) = print_digits-starts (suc n) n [] (omega arith) in
    let read : read_digits 0 (c ∷ s) ≡ n =
      ap (read_digits 0) (sym e)
      ∙ read_digits-print_digits (suc n) n [] (omega arith)
      ∙ read_digits-zero n in
    rw e (rw d (ap some read))

read_signed_minus :
    (t : Bytes) (n : ℕ)
    → read_unsigned t ≡ some (suc n)
    → read_signed (skip_space (b'-' ∷ t)) ≡ some (negsuc n)
unfolding skip_space read_signed
read_signed_minus t n e = rw e refl

stoi_minus :
    (t : Bytes) (n : ℕ)
    → read_unsigned t ≡ some (suc n)
    → n < 2 ^ 31
    → stoi (b'-' ∷ t) ≡ some (negsuc n)
unfolding stoi
stoi_minus t n e h = ground (arith, read_signed_minus t n e)

stoi-digit :
    (t : Bytes) (c n : ℕ) (s : Bytes)
    → t ≡ c ∷ s
    → is_digit c ≡ true
    → read_digits 0 t ≡ n
    → n < 2 ^ 31
    → stoi t ≡ some (pos n)
unfolding stoi
stoi-digit t c n s e d v h =
    let r : read_signed (skip_space t) ≡ some (pos n) = rw (e, read_signed-digit c s d, ← e, v) in
    ground (arith, r)

pub stoi-to_string : (n : ℕ) → n < 2 ^ 31 → stoi (to_string (pos n)) ≡ some (pos n)
unfolding to_string print_nat
stoi-to_string n h =
    let (c, s, e, d) = print_digits-starts (suc n) n [] (omega arith) in
    stoi-digit _ c n s e d
      (read_digits-print_digits (suc n) n [] (omega arith) ∙ unfold read_digits in refl) h

-- Every `int` is read back.
pub stoi-to_string_int : (z : ℤ) → fits_int z ≡ true → stoi (to_string z) ≡ some z
stoi-to_string_int (pos n) h = stoi-to_string n (ground arith)
stoi-to_string_int (negsuc n) h =
    unfold to_string in
    stoi_minus (print_nat (suc n)) n (read_unsigned-print_nat (suc n)) (ground arith)

pub to_string-Avoids : (c n : ℕ) → is_digit c ≡ false → Avoids c (to_string (pos n))
unfolding to_string print_nat
to_string-Avoids c n h = print_digits-Avoids c (suc n) n [] h tt

print_nat-Avoids : (c n : ℕ) → is_digit c ≡ false → Avoids c (print_nat n)
unfolding print_nat
print_nat-Avoids c n h = print_digits-Avoids c (suc n) n [] h tt

pub to_string_int-Avoids : (c : ℕ) (z : ℤ) → is_digit c ≡ false → c ≢ b'-' → Avoids c (to_string z)
unfolding to_string
to_string_int-Avoids c (pos n) h k = print_nat-Avoids c n h
to_string_int-Avoids c (negsuc n) h k = ((λ e. k (sym e)), print_nat-Avoids c (suc n) h)
