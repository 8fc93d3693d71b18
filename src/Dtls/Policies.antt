-- ===== src/Dtls/Policies.antt =====
-- src/erizo/dtls/DtlsSocket.cpp: `createSrtpSessionPolicies`. A failed assertion is `none`; libsrtp's
-- two calls that fill in the cipher of the profile are taken to succeed, as for a known profile.
use erizo.Base.{
  ℕ, Bool, true, not, ◌&&◌, ◌||◌, ◌++◌, Option, none, some, Bytes, ◌==◌, length, if◌then◌else◌,
}
use erizo.Dtls.Socket.{Socket, SocketType, client, server}
use erizo.Dtls.Keys.{SrtpSessionKeys, get_srtp_session_keys}

pub data SsrcType : Type 0 where
  ssrc_any_inbound ssrc_any_outbound : SsrcType

-- The fields of `srtp_policy_t` that are set here.
pub record Policy : Type 0 where
  pub key : Bytes
  pub window_size : ℕ
  pub allow_repeat_tx : Bool
  pub ssrc_type : SsrcType

-- `srtp_profile_get_master_key_length` and `srtp_profile_get_master_salt_length` of
-- `srtp_profile_aes128_cm_sha1_80`
abbrev pub key_len : ℕ
key_len = 16

abbrev pub salt_len : ℕ
salt_len = 14

abbrev policy : Bytes → Bytes → SsrcType → Policy
policy master salt type = record {
  key = master ++ salt;
  window_size = 128;
  allow_repeat_tx = true;
  ssrc_type = type;
}

-- The four tests of a length.
unfoldable pub has_lengths : SrtpSessionKeys → Bool
has_lengths keys = not (
    not (length keys.client_master_key == key_len)
    || not (length keys.client_master_salt == salt_len)
    || not (length keys.server_master_key == key_len)
    || not (length keys.server_master_salt == salt_len))

-- The end: which of the two policies is outbound.
unfoldable pub policies_of : SocketType → SrtpSessionKeys → Policy × Policy
policies_of client keys = (
  policy keys.client_master_key keys.client_master_salt ssrc_any_outbound,
  policy keys.server_master_key keys.server_master_salt ssrc_any_inbound,
)
policies_of server keys = (
  policy keys.server_master_key keys.server_master_salt ssrc_any_outbound,
  policy keys.client_master_key keys.client_master_salt ssrc_any_inbound,
)

-- `createSrtpSessionPolicies`: the outbound and the inbound policy.
unfoldable pub create_srtp_session_policies : Socket → Option Bytes → Option (Policy × Policy)
unfolding has_lengths policies_of
create_srtp_session_policies s material =
    let keys = get_srtp_session_keys material in
    if s.handshake_completed && has_lengths keys
    then some (policies_of s.socket_type keys)
    else none
