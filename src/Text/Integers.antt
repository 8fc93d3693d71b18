-- ===== src/Text/Integers.antt =====
-- `atoi` and `sprintf` with `%d`, as PCSocket.cpp calls them; `none` is a number that is no `int`.
use erizo.Base.{
  ℕ, zero, suc, ◌<◌, ◌^◌, ◌≡◌, ◌∙◌, refl, true, false, [], ◌∷◌, Option, none, some, Bytes, ℤ, pos,
  negsuc, ◌==◌, ltb, if◌then◌else◌, arith,
}
use erizo.Text.Decimal.{digits_value, digits_onto, skip_space, is_digit}
use erizo.Text.CString.{is_delim}
use erizo.Text.Words.{IsPlain, NoDigits, digits_onto-IsPlain}
use erizo.Text.DecimalRoundTrip.{
  digits_value-digits_onto, digits_value-NoDigit, onto_starts_with_digit,
}

abbrev positive : ℕ → Option ℤ
positive v = if ltb v (2 ^ 31) then some (pos v) else none

abbrev negative : ℕ → Option ℤ
negative zero = some (pos zero)
negative (suc v) = if ltb v (2 ^ 31) then some (negsuc v) else none

signed_int : Bytes → Option ℤ
unfolding digits_value
signed_int [] = some (pos 0)
signed_int (c ∷ cs) =
    if c == b'-'
    then negative (digits_value 0 cs)
    else if c == b'+'
    then positive (digits_value 0 cs)
    else positive (digits_value 0 (c ∷ cs))

unfoldable pub atoi : Bytes → Option ℤ
unfolding signed_int
atoi s = signed_int (skip_space s)

unfoldable pub print_int : ℤ → Bytes
print_int (pos n) = digits_onto 10 n []
print_int (negsuc n) = b'-' ∷ digits_onto 10 (suc n) []

-- The number is an `int` of 32 bits.
abbrev pub IsInt : ℤ → Type 0
IsInt (pos n) = n < 2 ^ 31
IsInt (negsuc n) = n < 2 ^ 31

digits_read : (n : ℕ) → n < 10 ^ 10 → digits_value 0 (digits_onto 10 n []) ≡ n
digits_read n h = digits_value-digits_onto 9 n [] h ∙ digits_value-NoDigit n [] tt

atoi-digit :
    (c : ℕ) (cs : Bytes) → is_digit c ≡ true → atoi (c ∷ cs) ≡ positive (digits_value 0 (c ∷ cs))
unfolding atoi signed_int skip_space
atoi-digit c cs d = ground arith

atoi-eq_positive :
    (s : Bytes) (c : ℕ) (cs : Bytes)
    → s ≡ c ∷ cs
    → is_digit c ≡ true
    → atoi s ≡ positive (digits_value 0 s)
atoi-eq_positive s c cs e d = rw e (atoi-digit c cs d)

atoi-minus : (cs : Bytes) → atoi (b'-' ∷ cs) ≡ negative (digits_value 0 cs)
unfolding atoi signed_int skip_space
atoi-minus cs = refl

-- A printed `int` is read back.
pub atoi-print_int : (z : ℤ) → IsInt z → atoi (print_int z) ≡ some z
unfolding print_int
atoi-print_int (pos n) h =
    let (c, cs, e, d) = onto_starts_with_digit 9 n [] in
    atoi-eq_positive (digits_onto 10 n []) c cs e d
    ∙ rw (digits_read n (omega arith)) (ground arith)
atoi-print_int (negsuc n) h =
    atoi-minus (digits_onto 10 (suc n) []) ∙ rw (digits_read (suc n) (omega arith)) (ground arith)

-- A printed `int` has no delimiter, if neither the digits nor the sign are one.
pub print_int-IsPlain :
    (d : Bytes) (z : ℤ) → NoDigits d → is_delim d b'-' ≡ false → IsPlain d (print_int z)
unfolding print_int
print_int-IsPlain d (pos n) nd m = digits_onto-IsPlain d nd 10 n [] tt
print_int-IsPlain d (negsuc n) nd m = (m, digits_onto-IsPlain d nd 10 (suc n) [] tt)
