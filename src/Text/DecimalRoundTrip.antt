-- ===== src/Text/DecimalRoundTrip.antt =====
-- `strtoul` behind `<<`, as SdpInfo.cpp calls them on numbers.
use native.Mathlib.Nat.{pow-suc}
use erizo.Base.{
  ℕ, zero, suc, ◌+◌, ◌*◌, ◌/◌, ◌%◌, ◌^◌, ◌<◌, ◌≡◌, ◌∙◌, refl, true, false, [], ◌∷◌, Bytes, arith,
  ltb, inl, inr, Bool-cases, ltb→lt, lt→ltb,
}
use erizo.Text.Decimal.{digits_value, digits_onto, parse_uint, is_digit, strtoul}

-- A text that does not go on with a digit.
abbrev pub NoDigit : Bytes → Type 0
NoDigit [] = Unit {0}
NoDigit (c ∷ cs) = is_digit c ≡ false

pub digits_value-NoDigit : (acc : ℕ) (s : Bytes) → NoDigit s → digits_value acc s ≡ acc
unfolding digits_value
digits_value-NoDigit acc [] h = refl
digits_value-NoDigit acc (c ∷ cs) h = ground arith

digits_value-digit :
    (acc d v : ℕ) (tail : Bytes)
    → d < 10
    → v ≡ acc * 10 + d
    → digits_value acc ((48 + d) ∷ tail) ≡ digits_value v tail
unfolding digits_value
digits_value-digit acc d v tail h e = ground arith

tenth : (fuel n : ℕ) → n < 10 ^ suc (suc fuel) → n / 10 < 10 ^ suc fuel
tenth fuel n h = omega (arith, pow-suc 10 (suc fuel))

pub digits_value-digits_onto :
    (fuel n : ℕ) (tail : Bytes)
    → n < 10 ^ suc fuel
    → digits_value 0 (digits_onto (suc fuel) n tail) ≡ digits_value n tail
unfolding digits_onto
digits_value-digits_onto zero n tail h =
    rw (lt→ltb n 10 (omega arith)) (digits_value-digit 0 n n tail (omega arith) (omega arith))
digits_value-digits_onto (suc fuel) n tail h = elim (Bool-cases (ltb n 10)) [
  | inl small ↦ rw small (digits_value-digit 0 n n tail (ltb→lt n 10 small) (omega arith))
  | inr large ↦ rw large (
      digits_value-digits_onto fuel (n / 10) ((48 + n % 10) ∷ tail) (tenth fuel n h)
      ∙ digits_value-digit (n / 10) (n % 10) n tail (omega arith) (omega arith))
]

pub onto_starts_with_digit :
    (fuel n : ℕ) (tail : Bytes)
    → (c : ℕ) × (cs : Bytes) × (digits_onto (suc fuel) n tail ≡ c ∷ cs) × (is_digit c ≡ true)
unfolding digits_onto
onto_starts_with_digit zero n tail = elim (Bool-cases (ltb n 10)) [
  | inl small ↦ (48 + n, tail, rw small, ground arith)
  | inr large ↦ (48 + n % 10, tail, rw large, ground arith)
]
onto_starts_with_digit (suc fuel) n tail = elim (Bool-cases (ltb n 10)) [
  | inl small ↦ (48 + n, tail, rw small, ground arith)
  | inr large ↦
      let (c, cs, e, d) = onto_starts_with_digit fuel (n / 10) ((48 + n % 10) ∷ tail) in
      (c, cs, rw large e, d)
]

strtoul-digit :
    (c : ℕ) (cs : Bytes)
    → is_digit c ≡ true
    → digits_value 0 (c ∷ cs) < 2 ^ 64
    → strtoul (c ∷ cs) ≡ digits_value 0 (c ∷ cs)
unfolding strtoul
strtoul-digit c cs d h = ground arith

strtoul-eq_digits_value :
    (s : Bytes) (c : ℕ) (cs : Bytes)
    → s ≡ c ∷ cs
    → is_digit c ≡ true
    → digits_value 0 s < 2 ^ 64
    → strtoul s ≡ digits_value 0 s
strtoul-eq_digits_value s c cs e d h = rw e (strtoul-digit c cs d (rw e at h))

-- An `unsigned int` that `<<` prints is what `strtoul` reads, whatever follows that is no digit.
pub parse_uint-digits_onto :
    (n : ℕ) (tail : Bytes) → n < 2 ^ 32 → NoDigit tail → parse_uint (digits_onto 10 n tail) ≡ n
unfolding parse_uint
parse_uint-digits_onto n tail h nd =
    let (c, cs, e, d) = onto_starts_with_digit 9 n tail in
    let v = digits_value-digits_onto 9 n tail (omega arith) ∙ digits_value-NoDigit n tail nd in
    omega (arith, strtoul-eq_digits_value (digits_onto 10 n tail) c cs e d (omega (arith, v)), v)
