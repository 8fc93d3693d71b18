-- ===== src/Text/Decimal.antt =====
-- `strtoul(s, NULL, 10)`, its truncation to `unsigned int`, and `<<` of an `unsigned int`.
use erizo.Base.{
  ℕ, zero, suc, ◌+◌, ◌-◌, ◌*◌, ◌/◌, ◌%◌, ◌^◌, Bool, true, false, ◌&&◌, ◌||◌, [], ◌∷◌, Bytes, leb,
  ltb, ◌==◌, if◌then◌else◌,
}

abbrev pub is_space : ℕ → Bool
is_space c = c == 32 || (leb 9 c && leb c 13)

abbrev pub is_digit : ℕ → Bool
is_digit c = leb 48 c && leb c 57

-- The value of the digits at the front, behind digits of value `acc`.
unfoldable pub digits_value : ℕ → Bytes → ℕ
digits_value acc [] = acc
digits_value acc (c ∷ cs) =
    let more = digits_value (acc * 10 + (c - 48)) cs in if is_digit c then more else acc

-- Out of range the result is `ULONG_MAX`; a minus sign negates in `unsigned long`.
magnitude : Bool → ℕ → ℕ
magnitude negative v =
    if leb (2 ^ 64) v then 2 ^ 64 - 1 else if negative then (2 ^ 64 - v) % 2 ^ 64 else v

signed : Bytes → ℕ
unfolding magnitude digits_value
signed [] = 0
signed (c ∷ cs) =
    if c == b'-'
    then magnitude true (digits_value 0 cs)
    else if c == b'+'
    then magnitude false (digits_value 0 cs)
    else magnitude false (digits_value 0 (c ∷ cs))

unfoldable pub skip_space : Bytes → Bytes
skip_space [] = []
skip_space (c ∷ cs) = if is_space c then skip_space cs else c ∷ cs

unfoldable pub strtoul : Bytes → ℕ
unfolding signed skip_space
strtoul s = signed (skip_space s)

-- `(unsigned int) strtoul(s, NULL, 10)`
unfoldable pub parse_uint : Bytes → ℕ
unfolding strtoul
parse_uint s = strtoul s % 2 ^ 32

-- The decimal digits of `n` before `tail`. Ten digits are enough for an `unsigned int`.
unfoldable pub digits_onto : ℕ → ℕ → Bytes → Bytes
digits_onto zero n tail = tail
digits_onto (suc fuel) n tail =
    let upper = digits_onto fuel (n / 10) ((48 + n % 10) ∷ tail) in
    if ltb n 10 then (48 + n) ∷ tail else upper

unfoldable pub print_uint : ℕ → Bytes
unfolding digits_onto
print_uint n = digits_onto 10 n []
