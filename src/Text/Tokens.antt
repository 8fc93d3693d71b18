-- ===== src/Text/Tokens.antt =====
-- The `strtok` loop of SdpInfo.cpp: its fuel and the number of its tokens.
use erizo.Base.{
  ℕ, zero, suc, ◌+◌, ◌*◌, ◌≤◌, ◌<◌, ◌≡◌, refl, ap, ◌⊎◌, inl, inr, false, [], ◌∷◌, none, some, Bytes,
  length, arith, Bool-cases, Option-cases, ◌∙◌, sym,
}
use erizo.Text.CString.{is_delim, skip, behind, next_token, strtok_loop, token_of}

length-skip : (d s : Bytes) → length (skip d s) ≤ length s
unfolding skip
length-skip d [] = omega arith
length-skip d (c ∷ cs) = ground (arith, length-skip d cs)

length-behind : (d s : Bytes) → length (behind d s) ≤ length s
unfolding behind
length-behind d [] = omega arith
length-behind d (c ∷ cs) = ground (arith, length-behind d cs)

-- The first byte behind the delimiters is none itself.
skip-head : (d s : Bytes) (c : ℕ) (cs : Bytes) → skip d s ≡ c ∷ cs → is_delim d c ≡ false
unfolding skip
skip-head d [] c cs e = cc
skip-head d (a ∷ s) c cs e = ground (arith, skip-head d s c cs)

-- The delimiter behind a token is passed over too, unless the text ends.
behind-tail :
    (d : Bytes) (c : ℕ) (cs : Bytes)
    → is_delim d c ≡ false
    → (behind d (c ∷ cs) ≡ []) ⊎ (suc (length (behind d (c ∷ cs))) ≤ length cs)
unfolding behind
behind-tail d c [] h = inl (rw h)
behind-tail d c (a ∷ cs) h = elim (Bool-cases (is_delim d a)) [
  | inl e ↦ inr (rw (h, e) (omega arith))
  | inr e ↦ elim (behind-tail d a cs e) [
    | inl n ↦ inl (rw (h, behind) n)
    | inr n ↦ inr (rw (h, behind) (omega arith))
  ]
]

token_of-shorter :
    (d u t rest : Bytes)
    → ((c : ℕ) (cs : Bytes) → u ≡ c ∷ cs → is_delim d c ≡ false)
    → token_of d u ≡ some (t, rest)
    → ((rest ≡ []) × (1 ≤ length u)) ⊎ (length rest + 2 ≤ length u)
unfolding token_of
token_of-shorter d [] t rest h e = cc
token_of-shorter d (c ∷ cs) t rest h e = ground (arith, behind-tail d c cs (h c cs refl))

-- A call of `strtok` that finds a token leaves nothing, or a rest shorter by two bytes.
next_token-shorter :
    (d s t rest : Bytes)
    → next_token d s ≡ some (t, rest)
    → ((rest ≡ []) × (1 ≤ length s)) ⊎ (length rest + 2 ≤ length s)
unfolding next_token
next_token-shorter d s t rest e =
    ground (arith, token_of-shorter d (skip d s) t rest (skip-head d s) e, length-skip d s)

next_token-nil : (d : Bytes) → next_token d [] ≡ none
unfolding next_token token_of
next_token-nil d = refl

pub strtok_loop-nil : (fuel : ℕ) (d : Bytes) → strtok_loop fuel d [] ≡ []
unfolding strtok_loop next_token token_of
strtok_loop-nil zero d = refl
strtok_loop-nil (suc fuel) d = refl

-- The tokens of a line are at most half as many as its bytes, rounded up.
strtok_loop_bound : (fuel : ℕ) (d s : Bytes) → 2 * length (strtok_loop fuel d s) ≤ length s + 1
unfolding strtok_loop
strtok_loop_bound zero d s = omega arith
strtok_loop_bound (suc fuel) d s = elim (Option-cases (next_token d s)) [
  | inl e ↦ rw (e, strtok_loop) (omega arith)
  | inr (p, e) ↦
      rw (e, strtok_loop)
        (elim (next_token-shorter d s p.0 p.1 e) [
          | inl done ↦
              omega
                (arith, ap length (ap (strtok_loop fuel d) done.0 ∙ strtok_loop-nil fuel d), done.1)
          | inr more ↦ omega (arith, strtok_loop_bound fuel d p.1, more)
        ])
]

-- With a call for each byte and one more, the loop ends because `strtok` gave null: more calls
-- change nothing.
pub strtok_loop_enough :
    (f g : ℕ) (d s : Bytes) → length s < f → length s < g → strtok_loop f d s ≡ strtok_loop g d s
unfolding strtok_loop
strtok_loop_enough zero g d s h k = absurd (omega arith)
strtok_loop_enough (suc f) zero d s h k = absurd (omega arith)
strtok_loop_enough (suc f) (suc g) d s h k = elim (Option-cases (next_token d s)) [
  | inl e ↦ rw (e, strtok_loop)
  | inr (p, e) ↦
      rw (e, strtok_loop)
        (elim (next_token-shorter d s p.0 p.1 e) [
          | inl done ↦ rw done.0 (ap (◌∷◌ p.0) (strtok_loop-nil f d ∙ sym (strtok_loop-nil g d)))
          | inr more ↦
              ap (◌∷◌ p.0)
                (strtok_loop_enough f g d p.1 (omega (arith, more)) (omega (arith, more)))
        ])
]
