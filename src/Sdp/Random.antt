-- ===== src/Sdp/Random.antt =====
-- SdpInfo.cpp: the buffer of `gen_random`.
use erizo.Base.{ℕ, ◌+◌, ◌≡◌, refl, List, [], ◌∷◌, arith, length}
use erizo.Sdp.Print.{gen_random}

-- `gen_random` writes one byte more than the length it is asked for.
length-gen_random : (rs : List ℕ) → length (gen_random rs) ≡ length rs + 1
unfolding gen_random
length-gen_random [] = refl
length-gen_random (r ∷ rs) = omega (arith, length-gen_random rs)
