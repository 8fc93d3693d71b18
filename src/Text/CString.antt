-- ===== src/Text/CString.antt =====
-- `strstr`, `strtok`, `c_str` and `std::getline` as SdpInfo.cpp calls them. A C string is the list
-- of its bytes up to the terminating zero.
use erizo.Base.{
  ℕ, zero, suc, Bool, true, false, ◌&&◌, ◌||◌, List, [], ◌∷◌, ◌++◌, Option, none, some, Bytes, ◌==◌,
  if◌then◌else◌,
}

-- `c_str()` read as a C string: it ends at the first zero byte.
unfoldable pub c_str : Bytes → Bytes
c_str [] = []
c_str (c ∷ cs) = if c == 0 then [] else c ∷ c_str cs

unfoldable pub starts_with : Bytes → Bytes → Bool
starts_with [] s = true
starts_with (p ∷ ps) [] = false
starts_with (p ∷ ps) (c ∷ cs) = p == c && starts_with ps cs

-- Whether `strstr(s, tag)` is not null.
unfoldable pub strstr : Bytes → Bytes → Bool
unfolding starts_with
strstr [] tag = starts_with tag []
strstr (c ∷ cs) tag = starts_with tag (c ∷ cs) || strstr cs tag

unfoldable pub is_delim : Bytes → ℕ → Bool
is_delim [] c = false
is_delim (d ∷ ds) c = d == c || is_delim ds c

-- The delimiters at the front, and what follows them.
unfoldable pub leading : Bytes → Bytes → Bytes
unfolding is_delim
leading d [] = []
leading d (c ∷ cs) = if is_delim d c then c ∷ leading d cs else []

unfoldable pub skip : Bytes → Bytes → Bytes
unfolding is_delim
skip d [] = []
skip d (c ∷ cs) = if is_delim d c then skip d cs else c ∷ cs

-- The bytes before the first delimiter, and those behind it.
unfoldable pub before : Bytes → Bytes → Bytes
unfolding is_delim
before d [] = []
before d (c ∷ cs) = if is_delim d c then [] else c ∷ before d cs

unfoldable pub behind : Bytes → Bytes → Bytes
unfolding is_delim
behind d [] = []
behind d (c ∷ cs) = if is_delim d c then cs else behind d cs

unfoldable pub token_of : Bytes → Bytes → Option (Bytes × Bytes)
token_of d [] = none
token_of d (c ∷ cs) = some (before d (c ∷ cs), behind d (c ∷ cs))

-- `strtok(NULL, d)` where the saved pointer is at `s`: the token and the pointer saved next.
unfoldable pub next_token : Bytes → Bytes → Option (Bytes × Bytes)
unfolding token_of skip before behind
next_token d s = token_of d (skip d s)

-- `strtok(line, d)` writes a zero behind the token, so as a C string `line` ends with the token.
unfoldable pub cut : Bytes → Bytes → Bytes
unfolding leading skip before
cut d line = leading d line ++ before d (skip d line)

-- The saved pointer behind `strtok(line, d)`; at the end of the line if there is no token.
unfoldable pub saved : Bytes → Bytes → Bytes
unfolding skip behind
saved d line = behind d (skip d line)

-- `while (pch != NULL) pch = strtok(NULL, d)`: the tokens from the saved pointer on. The fuel is
-- the number of calls.
unfoldable pub strtok_loop : ℕ → Bytes → Bytes → List Bytes
strtok_loop zero d s = []
strtok_loop (suc fuel) d s = elim (next_token d s) [
  | none ↦ []
  | some (t, rest) ↦ t ∷ strtok_loop fuel d rest
]

-- The lines that `std::getline` reads: an empty last piece is none.
unfoldable pub lines_from : Bytes → Bytes → List Bytes
lines_from [] [] = []
lines_from (d ∷ cur) [] = (d ∷ cur) ∷ []
lines_from cur (c ∷ cs) =
    let whole = cur ∷ lines_from [] cs in
    let longer = lines_from (cur ++ c ∷ []) cs in if c == b'\n' then whole else longer

unfoldable pub lines : Bytes → List Bytes
unfolding lines_from
lines = lines_from []

-- One `\r` at the very end is erased.
unfoldable pub strip_cr : Bytes → Bytes
strip_cr [] = []
strip_cr (c ∷ []) = if c == b'\r' then [] else c ∷ []
strip_cr (c ∷ d ∷ cs) = c ∷ strip_cr (d ∷ cs)
