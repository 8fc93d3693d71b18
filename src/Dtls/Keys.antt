-- ===== src/Dtls/Keys.antt =====
-- src/erizo/dtls/DtlsSocket.cpp and DtlsClient.cpp: fingerprints, and the SRTP keys of a finished
-- handshake. OpenSSL gives the digest of a certificate and the keying material, and base64 is
-- glib's: all three are arguments.
use erizo.Base.{
  ℕ, zero, suc, ◌+◌, ◌/◌, ◌%◌, Bool, true, false, ◌&&◌, ◌||◌, [], ◌∷◌, ◌++◌, Option, none, some,
  Bytes, ◌==◌, take, drop, ltb, if◌then◌else◌, ◌>>=◌,
}

-- A digit of "%X".
unfoldable pub hex_digit : ℕ → ℕ
hex_digit n = if ltb n 10 then 48 + n else 55 + n

-- `computeFingerprint`: two digits for each byte, with a colon between two bytes and a zero at the end.
unfoldable pub compute_fingerprint : Bytes → Bytes
unfolding hex_digit
compute_fingerprint [] = []
compute_fingerprint (b ∷ []) = hex_digit (b / 16) ∷ hex_digit (b % 16) ∷ 0 ∷ []
compute_fingerprint (b ∷ c ∷ bs) =
    hex_digit (b / 16) ∷ hex_digit (b % 16) ∷ b':' ∷ compute_fingerprint (c ∷ bs)

-- `strncmp(a, b, n) == 0`
unfoldable pub strncmp_equal : ℕ → Bytes → Bytes → Bool
strncmp_equal zero a b = true
strncmp_equal (suc n) [] [] = true
strncmp_equal (suc n) (x ∷ a) (y ∷ b) = x == y && (x == 0 || strncmp_equal n a b)
strncmp_equal (suc n) _ _ = false

-- `getRemoteFingerprint`, from the digest of the peer's certificate, if it sent one.
unfoldable pub get_remote_fingerprint : Option Bytes → Option Bytes
unfolding compute_fingerprint
get_remote_fingerprint none = none
get_remote_fingerprint (some digest) = some (compute_fingerprint digest)

-- `checkFingerprint`
unfoldable pub check_fingerprint : Option Bytes → Bytes → ℕ → Bool
unfolding get_remote_fingerprint strncmp_equal
check_fingerprint none fingerprint len = false
check_fingerprint (some digest) fingerprint len =
    strncmp_equal len (compute_fingerprint digest) fingerprint

pub record SrtpSessionKeys : Type 0 where
  pub client_master_key : Bytes
  pub server_master_key : Bytes
  pub client_master_salt : Bytes
  pub server_master_salt : Bytes

-- `getSrtpSessionKeys`; where no material can be exported the four lengths are 0.
unfoldable pub get_srtp_session_keys : Option Bytes → SrtpSessionKeys
get_srtp_session_keys none = record {
  client_master_key = [];
  server_master_key = [];
  client_master_salt = [];
  server_master_salt = [];
}
get_srtp_session_keys (some material) = record {
  client_master_key = take 16 material;
  server_master_key = take 16 (drop 16 material);
  client_master_salt = take 14 (drop 32 material);
  server_master_salt = take 14 (drop 46 material);
}

-- What `DtlsSocketContext::handshakeCompleted` hands to its receiver.
pub data ContextEvent : Type 0 where
  handshake_done : Bytes → Bytes → ContextEvent
  not_authenticated : ContextEvent

-- `handshakeCompleted`, from the peer's digest, the exported material and the name of the negotiated
-- profile. `check` is computed and only printed. A profile that is null is read all the same, `none`.
unfoldable pub handshake_completed :
    (Bytes → Bytes) → Option Bytes → Option Bytes → Option Bytes → Option ContextEvent
unfolding get_remote_fingerprint get_srtp_session_keys
handshake_completed base64 peer material profile = elim (get_remote_fingerprint peer) [
  | none ↦ some not_authenticated
  | some fprint ↦ do
    name ← profile
    let keys = get_srtp_session_keys material
    some (
        handshake_done (base64 (keys.client_master_key ++ keys.client_master_salt))
          (base64 (keys.server_master_key ++ keys.server_master_salt)))
]
