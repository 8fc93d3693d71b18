-- ===== src/Text/Words.antt =====
-- `strtok` on a text that is made of words with a delimiter behind each.
use erizo.Base.{
  ℕ, zero, suc, ◌+◌, ◌<◌, ◌≡◌, refl, sym, ap, subst, ◌∙◌, Bool, true, false, not, ◌&&◌, [], ◌∷◌,
  ◌++◌, some, Bytes, arith, ltb, Bool-cases, inl, inr, ◌/◌, ◌%◌, ltb→lt,
}
use mathlib.Core.List.{append_assoc}
use erizo.Text.CString.{
  is_delim, skip, before, behind, next_token, token_of, saved, cut, leading, strtok_loop,
}
use erizo.Text.Decimal.{digits_onto}
use erizo.Text.DecimalRoundTrip.{onto_starts_with_digit}

-- No byte of the text is a delimiter.
abbrev pub IsPlain : Bytes → Bytes → Type 0
IsPlain d [] = Unit {0}
IsPlain d (c ∷ cs) = (is_delim d c ≡ false) × IsPlain d cs

-- A word: it is plain and not empty.
abbrev pub IsWord : Bytes → Bytes → Type 0
IsWord d [] = ⊥
IsWord d (c ∷ cs) = IsPlain d (c ∷ cs)

-- The same as a test, to run on a given text.
abbrev pub is_plain : Bytes → Bytes → Bool
is_plain d [] = true
is_plain d (c ∷ cs) = not (is_delim d c) && is_plain d cs

pub is_plain_sound : (d w : Bytes) → is_plain d w ≡ true → IsPlain d w
is_plain_sound d [] e = tt
is_plain_sound d (c ∷ cs) e = (ground arith, is_plain_sound d cs (ground arith))

module _ (d : Bytes) where
  before-IsPlain :
      (w : Bytes) (x : ℕ) (rest : Bytes)
      → IsPlain d w
      → is_delim d x ≡ true
      → before d (w ++ (x ∷ rest)) ≡ w
  unfolding before
  before-IsPlain [] x rest p e = rw e
  before-IsPlain (c ∷ cs) x rest p e = rw p.0 (ap (◌∷◌ c) (before-IsPlain cs x rest p.1 e))

  behind-IsPlain :
      (w : Bytes) (x : ℕ) (rest : Bytes)
      → IsPlain d w
      → is_delim d x ≡ true
      → behind d (w ++ (x ∷ rest)) ≡ rest
  unfolding behind
  behind-IsPlain [] x rest p e = rw e
  behind-IsPlain (c ∷ cs) x rest p e = rw p.0 (behind-IsPlain cs x rest p.1 e)

  before_all : (w : Bytes) → IsPlain d w → before d w ≡ w
  unfolding before
  before_all [] p = refl
  before_all (c ∷ cs) p = rw p.0 (ap (◌∷◌ c) (before_all cs p.1))

  behind_all : (w : Bytes) → IsPlain d w → behind d w ≡ []
  unfolding behind
  behind_all [] p = refl
  behind_all (c ∷ cs) p = rw p.0 (behind_all cs p.1)

  -- `strtok` gives the word up to the delimiter behind it.
  pub next_token-word :
      (w : Bytes) (x : ℕ) (rest : Bytes)
      → IsWord d w
      → is_delim d x ≡ true
      → next_token d (w ++ (x ∷ rest)) ≡ some (w, rest)
  unfolding next_token
  next_token-word [] x rest p e = absurd p
  next_token-word (c ∷ cs) x rest p e =
      rw (p.0, skip, token_of)
        (cc (before-IsPlain (c ∷ cs) x rest p e, behind-IsPlain (c ∷ cs) x rest p e))

  -- The last word needs no delimiter.
  pub next_token_last : (w : Bytes) → IsWord d w → next_token d w ≡ some (w, [])
  unfolding next_token
  next_token_last [] p = absurd p
  next_token_last (c ∷ cs) p =
      rw (p.0, skip, token_of) (cc (before_all (c ∷ cs) p, behind_all (c ∷ cs) p))

  -- A round of the loop that finds a token.
  pub strtok_loop_step :
      (fuel : ℕ) (s t rest : Bytes)
      → next_token d s ≡ some (t, rest)
      → strtok_loop (suc fuel) d s ≡ t ∷ strtok_loop fuel d rest
  unfolding strtok_loop
  strtok_loop_step fuel s t rest e = rw (e, strtok_loop) refl

  pub saved-word :
      (w : Bytes) (x : ℕ) (rest : Bytes)
      → IsWord d w
      → is_delim d x ≡ true
      → saved d (w ++ (x ∷ rest)) ≡ rest
  unfolding saved
  saved-word [] x rest p e = absurd p
  saved-word (c ∷ cs) x rest p e = rw (p.0, skip) (behind-IsPlain (c ∷ cs) x rest p e)

  pub cut-word :
      (w : Bytes) (x : ℕ) (rest : Bytes)
      → IsWord d w
      → is_delim d x ≡ true
      → cut d (w ++ (x ∷ rest)) ≡ w
  unfolding cut
  cut-word [] x rest p e = absurd p
  cut-word (c ∷ cs) x rest p e = rw (p.0, skip, leading) (before-IsPlain (c ∷ cs) x rest p e)

-- Digits with a tail are the digits and then the tail.
pub digits_onto-append :
    (fuel n : ℕ) (tail : Bytes) → digits_onto fuel n tail ≡ digits_onto fuel n [] ++ tail
unfolding digits_onto
digits_onto-append zero n tail = refl
digits_onto-append (suc fuel) n tail = elim (Bool-cases (ltb n 10)) [
  | inl small ↦ rw small
  | inr large ↦ rw large (
      digits_onto-append fuel (n / 10) ((48 + n % 10) ∷ tail)
      ∙ sym (
          ap (λ w. w ++ tail) (digits_onto-append fuel (n / 10) ((48 + n % 10) ∷ []))
          ∙ append_assoc (digits_onto fuel (n / 10) []) ((48 + n % 10) ∷ []) tail))
]

-- No digit is a delimiter.
abbrev pub NoDigits : Bytes → Type 0
NoDigits d = (k : ℕ) → k < 10 → is_delim d (48 + k) ≡ false

module _ (d : Bytes) (nd : NoDigits d) where
  pub digits_onto-IsPlain :
      (fuel n : ℕ) (tail : Bytes) → IsPlain d tail → IsPlain d (digits_onto fuel n tail)
  unfolding digits_onto
  digits_onto-IsPlain zero n tail p = p
  digits_onto-IsPlain (suc fuel) n tail p = elim (Bool-cases (ltb n 10)) [
    | inl small ↦ rw small (nd n (ltb→lt n 10 small), p)
    | inr large ↦
        rw large
          (digits_onto-IsPlain fuel (n / 10) ((48 + n % 10) ∷ tail) (nd (n % 10) (omega arith), p))
  ]

  -- A printed number is a word.
  pub digits_onto-IsWord : (fuel n : ℕ) → IsWord d (digits_onto (suc fuel) n [])
  digits_onto-IsWord fuel n =
      let (c, cs, e, _) = onto_starts_with_digit fuel n [] in
      subst (IsWord d) (sym e) (subst (IsPlain d) e (digits_onto-IsPlain (suc fuel) n [] tt))
