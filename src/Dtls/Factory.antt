-- ===== src/Dtls/Factory.antt =====
-- src/erizo/dtls/DtlsFactory.cpp: the certificate that all factories share, the settings of a factory's
-- OpenSSL context, and the callback that checks a peer's certificate. OpenSSL's calls are taken to
-- succeed where the code asserts it and their result is not an argument.
use erizo.Base.{
  ℕ, ◌*◌, Bool, true, false, not, Option, none, some, Bytes, ◌==◌, ◌++◌, codes, if◌then◌else◌,
}
use erizo.Dtls.Socket.{Socket, client, server, new_socket}
use erizo.Dtls.Keys.{compute_fingerprint}

-- What `createCert` puts into the certificate, besides the public key.
pub record Certificate : Type 0 where
  pub common_name : Bytes
  pub serial : ℕ
  -- the seconds for which it is valid
  pub duration : ℕ
  pub key_bits : ℕ
  pub public_exponent : ℕ
  pub basic_constraints : Bytes

abbrev pub key_length : ℕ
key_length = 1024

-- `createCert`; `serial` is what `rand` gives. The issuer is the subject. The alternative names are
-- made and freed, and `keyLen` is not read.
unfoldable create_cert : Bytes → ℕ → ℕ → ℕ → Certificate
create_cert p_aor expire_days key_len serial = record {
  common_name = codes "sip:" ++ p_aor;
  serial = serial;
  duration = 60 * 60 * 24 * expire_days;
  key_bits = key_length;
  public_exponent = 0x10001;
  basic_constraints = codes "CA:FALSE";
}

-- `Init`, on the static `mCert`.
unfoldable init : Option Certificate → ℕ → Certificate
unfolding create_cert
init (some cert) serial = cert
init none serial = create_cert (codes "sip:licode@lynckia.com") 365 1024 serial

-- What the constructor sets in its OpenSSL context.
pub record Context : Type 0 where
  pub certificate : Certificate
  pub cipher_list : Bytes
  pub verify_peer : Bool
  pub fail_if_no_peer_cert : Bool
  pub session_cache : Bool
  pub tickets : Bool
  pub srtp_profiles : Bytes

-- The constructor, from the certificate that was made before, if any: the new one, and the context.
unfoldable new_factory : Option Certificate → ℕ → Context
unfolding init
new_factory cert serial = record {
  certificate = init cert serial;
  cipher_list = codes "ALL:!ADH:!LOW:!EXP:!MD5:@STRENGTH";
  verify_peer = true;
  fail_if_no_peer_cert = true;
  session_cache = false;
  tickets = false;
  srtp_profiles = codes "SRTP_AES128_CM_SHA1_80";
}

-- `setSrtpProfiles` and `setCipherSuites`, with the result of OpenSSL's call, which is asserted.
unfoldable set_srtp_profiles : Context → Bytes → ℕ → Option Context
set_srtp_profiles c text result =
    if result == 0 then some (record c { srtp_profiles = text }) else none

unfoldable set_cipher_suites : Context → Bytes → ℕ → Option Context
set_cipher_suites c text result =
    if result == 1 then some (record c { cipher_list = text }) else none

-- `createClient` and `createServer`
unfoldable create_client : Socket
unfolding new_socket
create_client = new_socket client

unfoldable create_server : Socket
unfolding new_socket
create_server = new_socket server

-- `getMyCertFingerprint`, from the digest of the certificate.
unfoldable get_my_cert_fingerprint : Bytes → Bytes
unfolding compute_fingerprint
get_my_cert_fingerprint digest = compute_fingerprint digest

-- `SSLVerifyCallback`: `ok` and the error are OpenSSL's, and `self_signed` is its error number
-- X509_V_ERR_DEPTH_ZERO_SELF_SIGNED_CERT. The result tells whether the certificate is accepted.
unfoldable pub ssl_verify_callback : ℕ → Bool → ℕ → Bool
ssl_verify_callback self_signed ok err =
    let peer_to_peer = if not ok then (if err == self_signed then true else ok) else ok in
    if not peer_to_peer then true else peer_to_peer
