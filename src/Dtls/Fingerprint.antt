-- ===== src/Dtls/Fingerprint.antt =====
-- DtlsSocket.cpp and DtlsClient.cpp: the fingerprint and its check.
use erizo.Base.{ℕ, zero, suc, ◌*◌, ◌≡◌, ◌≤◌, refl, true, [], ◌∷◌, some, Bytes, arith, length}
use erizo.Dtls.Keys.{compute_fingerprint, strncmp_equal, check_fingerprint}

-- The printed fingerprint of a digest of n bytes, n > 0, has 3 * n bytes with its final zero.
length-compute_fingerprint :
    (digest : Bytes) → 1 ≤ length digest → length (compute_fingerprint digest) ≡ 3 * length digest
unfolding compute_fingerprint
length-compute_fingerprint [] h = omega arith
length-compute_fingerprint (b ∷ []) h = omega arith
length-compute_fingerprint (b ∷ c ∷ bs) h =
    omega (arith, length-compute_fingerprint (c ∷ bs) (omega arith))

strncmp_equal_refl : (a : Bytes) (n : ℕ) → n ≤ length a → strncmp_equal n a a ≡ true
unfolding strncmp_equal
strncmp_equal_refl [] zero h = refl
strncmp_equal_refl [] (suc n) h = absurd (omega arith)
strncmp_equal_refl (x ∷ a) zero h = refl
strncmp_equal_refl (x ∷ a) (suc n) h = ground (arith, strncmp_equal_refl a n (omega arith))

-- A certificate passes the check against the fingerprint that was computed from it, for any length up
-- to that of the fingerprint.
pub check_fingerprint_self :
    (digest : Bytes) (len : ℕ)
    → len ≤ length (compute_fingerprint digest)
    → check_fingerprint (some digest) (compute_fingerprint digest) len ≡ true
unfolding check_fingerprint
check_fingerprint_self digest len h = strncmp_equal_refl (compute_fingerprint digest) len h
