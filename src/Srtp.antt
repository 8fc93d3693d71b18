-- ===== src/Srtp.antt =====
-- src/erizo/SrtpChannel.cpp: a pair of SRTP sessions. libsrtp is a parameter: a type of sessions and
-- the calls on it; `srtp_create` is taken to succeed, since the source ignores its status. A call on a
-- null session is undefined behaviour, `none`, and so is a read past the end of a key.
pub mod Channels
use erizo.Base.{
  List, [], ◌∷◌, ◌++◌, take, ℕ, Bool, true, false, not, Option, none, some, Bytes, ◌==◌,
  if◌then◌else◌, ◌>>=◌, ltb, length,
}

pub data TransmissionType : Type 0 where
  sending receiving : TransmissionType

-- The calls of libsrtp. Each gives the session behind it, the status (0 is `err_status_ok`), and the
-- buffer up to the length that the call leaves.
pub record SrtpLibrary (Session : Type 0) : Type 0 where
  -- of glib
  pub g_base64_decode : Bytes → Bytes
  -- from the 30 bytes of the master key and salt
  pub srtp_create : TransmissionType → Bytes → Session
  pub srtp_protect : Session → Bytes → Session × ℕ × Bytes
  pub srtp_unprotect : Session → Bytes → Session × ℕ × Bytes
  pub srtp_protect_rtcp : Session → Bytes → Session × ℕ × Bytes
  pub srtp_unprotect_rtcp : Session → Bytes → Session × ℕ × Bytes

pub record SrtpChannel (Session : Type 0) : Type 0 where
  pub active : Bool
  pub send_session : Option Session
  pub receive_session : Option Session

-- The constructor.
unfoldable pub new_channel : {S : Type 0} → SrtpChannel S
new_channel = record { active = false; send_session = none; receive_session = none }

-- A result below zero is an error, `none`; otherwise the buffer.
abbrev pub status_result : ℕ → Bytes → Option Bytes
status_result status buf = if status == 0 then some buf else none

module _ {S : Type 0} (lib : SrtpLibrary S) where
  open lib use {
    g_base64_decode, srtp_create, srtp_protect, srtp_unprotect, srtp_protect_rtcp,
    srtp_unprotect_rtcp,
  }

  -- `configureSrtpSession`: thirty bytes of the decoded key are read, whatever its length.
  unfoldable pub configure_srtp_session : TransmissionType → Bytes → Option S
  configure_srtp_session type key =
      let akey = g_base64_decode key in
      if ltb (length akey) 30 then none else some (srtp_create type (take 30 akey))

  -- `setRtpParams`
  unfoldable pub set_rtp_params : SrtpChannel S → Bytes → Bytes → Option (SrtpChannel S)
  unfolding configure_srtp_session
  set_rtp_params c sending_key receiving_key = do
    sender ← configure_srtp_session sending sending_key
    receiver ← configure_srtp_session receiving receiving_key
    some (record c { active = true; send_session = some sender; receive_session = some receiver })

  unfoldable pub protect_rtp : SrtpChannel S → Bytes → Option (SrtpChannel S × Option Bytes)
  protect_rtp c buf = if not c.active then some (c, some buf) else (do
    session ← c.send_session
    let (s, status, out) = srtp_protect session buf
    some (record c { send_session = some s }, status_result status out))

  unfoldable pub unprotect_rtp : SrtpChannel S → Bytes → Option (SrtpChannel S × Option Bytes)
  unprotect_rtp c buf = if not c.active then some (c, some buf) else (do
    session ← c.receive_session
    let (s, status, out) = srtp_unprotect session buf
    some (record c { receive_session = some s }, status_result status out))

  unfoldable pub protect_rtcp : SrtpChannel S → Bytes → Option (SrtpChannel S × Option Bytes)
  protect_rtcp c buf = do
    session ← c.send_session
    let (s, status, out) = srtp_protect_rtcp session buf
    some (record c { send_session = some s }, status_result status out)

  unfoldable pub unprotect_rtcp : SrtpChannel S → Bytes → Option (SrtpChannel S × Option Bytes)
  unprotect_rtcp c buf = do
    session ← c.receive_session
    let (s, status, out) = srtp_unprotect_rtcp session buf
    some (record c { receive_session = some s }, status_result status out)

module _ {S : Type 0} where
  -- `setRtcpParams` does nothing and returns false.
  unfoldable set_rtcp_params : SrtpChannel S → Bytes → Bytes → SrtpChannel S × Bool
  set_rtcp_params c sending_key receiving_key = (c, false)

  -- The destructor: the sessions that are given to `srtp_dealloc`.
  unfoldable destroy : SrtpChannel S → List S
  destroy c =
      elim c.send_session [ none ↦ [] | some s ↦ s ∷ [] ]
      ++ elim c.receive_session [ none ↦ [] | some s ↦ s ∷ [] ]

-- `generateBase64Key`, from glib's base64 and thirty random bytes.
unfoldable generate_base64_key : (Bytes → Bytes) → Bytes → Bytes
generate_base64_key base64 random = base64 (take 30 random)
