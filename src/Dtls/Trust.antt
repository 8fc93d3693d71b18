-- ===== src/Dtls/Trust.antt =====
-- DtlsFactory.cpp, DtlsClient.cpp and DtlsSocket.cpp: what becomes of the certificate of the peer.
use erizo.Base.{ℕ, ◌≡◌, ◌≤◌, refl, Bool, true, Option, some, Bytes, length, arith}
use erizo.Dtls.Keys.{compute_fingerprint, check_fingerprint, handshake_completed}
use erizo.Dtls.Fingerprint.{check_fingerprint_self}
use erizo.Dtls.Factory.{ssl_verify_callback}

-- No certificate is refused: OpenSSL is told to accept it whatever error it has found, the fingerprint
-- check passes it on the fingerprint that is computed from it, and the keys that the transport is given
-- do not depend on it.
pub any_certificate_trusted :
    (self_signed err : ℕ) (ok : Bool) (base64 : Bytes → Bytes) (digest other : Bytes)
    (material profile : Option Bytes) (len : ℕ)
    → len ≤ length (compute_fingerprint digest)
    → (ssl_verify_callback self_signed ok err ≡ true)
      × (check_fingerprint (some digest) (compute_fingerprint digest) len ≡ true)
      × (handshake_completed base64 (some digest) material profile
          ≡ handshake_completed base64 (some other) material profile)
unfolding ssl_verify_callback handshake_completed
any_certificate_trusted self_signed err ok base64 digest other material profile len h =
    (ground arith, check_fingerprint_self digest len h, refl)
