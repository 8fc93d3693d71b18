-- ===== src/Text/Lines.antt =====
-- SdpInfo.cpp: a line that was printed, as `std::getline`, `erase` and `c_str` give it back.
use erizo.Base.{
  ℕ, ◌≡◌, refl, ap, sym, ◌∙◌, Bool, true, false, [], ◌∷◌, ◌++◌, Bytes, ◌==◌, if◌then◌else◌, arith,
}
use mathlib.Core.List.{append_assoc, append-nil}
use erizo.Text.CString.{is_delim, c_str, strip_cr, lines, lines_from}
use erizo.Text.Words.{IsPlain}

-- A zero, a newline and a carriage return.
abbrev pub line_delims : Bytes
line_delims = 0 ∷ b'\n' ∷ b'\r' ∷ []

pub IsPlain-append : (d v w : Bytes) → IsPlain d v → IsPlain d w → IsPlain d (v ++ w)
IsPlain-append d [] w h k = k
IsPlain-append d (c ∷ v) w h k = (h.0, IsPlain-append d v w h.1 k)

lines_from-step :
    (cur : Bytes) (c : ℕ) (cs : Bytes)
    → lines_from cur (c ∷ cs)
      ≡ (if c == b'\n' then cur ∷ lines_from [] cs else lines_from (cur ++ c ∷ []) cs)
unfolding lines_from
lines_from-step [] c cs = refl
lines_from-step (d ∷ cur) c cs = refl

if_false : {A : Type 0} (b : Bool) (x y : A) → b ≡ false → (if b then x else y) ≡ y
if_false true x y e = cc
if_false false x y e = refl

no_newline : (c : ℕ) → is_delim line_delims c ≡ false → (c == b'\n') ≡ false
unfolding is_delim
no_newline c h = ground arith

lines_from-IsPlain :
    (w cur rest : Bytes)
    → IsPlain line_delims w
    → lines_from cur (w ++ (b'\n' ∷ rest)) ≡ (cur ++ w) ∷ lines_from [] rest
lines_from-IsPlain [] cur rest h =
    lines_from-step cur b'\n' rest ∙ ap (λ l. l ∷ lines_from [] rest) (sym (append-nil cur))
lines_from-IsPlain (c ∷ w) cur rest h =
    lines_from-step cur c (w ++ (b'\n' ∷ rest))
    ∙ if_false (c == b'\n') _ _ (no_newline c h.0)
    ∙ lines_from-IsPlain w (cur ++ c ∷ []) rest h.1
    ∙ ap (λ l. l ∷ lines_from [] rest) (append_assoc cur (c ∷ []) w)

-- The first line that is read is the one that was printed first.
pub lines-IsPlain :
    (w rest : Bytes) → IsPlain line_delims w → lines (w ++ (b'\n' ∷ rest)) ≡ w ∷ lines rest
unfolding lines
lines-IsPlain w rest h = lines_from-IsPlain w [] rest h

pub strip_cr-IsPlain : (w : Bytes) → IsPlain line_delims w → strip_cr w ≡ w
unfolding strip_cr is_delim
strip_cr-IsPlain [] h = refl
strip_cr-IsPlain (c ∷ []) h = ground arith
strip_cr-IsPlain (c ∷ d ∷ w) h = ap (λ l. c ∷ l) (strip_cr-IsPlain (d ∷ w) h.1)

pub c_str-IsPlain : (w : Bytes) → IsPlain line_delims w → c_str w ≡ w
unfolding c_str is_delim
c_str-IsPlain [] h = refl
c_str-IsPlain (c ∷ w) h = ground (arith, c_str-IsPlain w h.1)
