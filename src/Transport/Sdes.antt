-- ===== src/Transport/Sdes.antt =====
-- src/erizo/SdesTransport.cpp. `none` is undefined behaviour: a call through a null channel or a null
-- session, a packet larger than the buffers, or a key that is too short.
pub mod Keys
pub mod History
pub mod Sound
pub mod Total
use erizo.Base.{
  ℕ, Bool, true, false, not, ◌&&◌, List, [], ◌∷◌, ◌++◌, Option, none, some, Bytes, codes, ◌==◌, leb,
  length, if◌then◌else◌, ◌>>=◌,
}
use erizo.Rtp.RtcpHeader.{is_rtcp}
use erizo.Sdp.Types.{MediaType, audio_type, CryptoInfo, SdpInfo}
use erizo.Nice.Connection.{
  IceState, nice_initial, nice_candidates_gathered, nice_candidates_received, nice_ready,
  nice_finished, nice_failed, is_nice_ready, is_gathered, new_connection,
}
use erizo.Srtp.{
  SrtpLibrary, SrtpChannel, new_channel, set_rtp_params, protect_rtp, unprotect_rtp, protect_rtcp,
  unprotect_rtcp,
}
use erizo.Transport.Base.{
  Transport, transport_initial, transport_started, transport_ready, is_ready, TransportEvent,
  update_state, fits_buffer,
}
use erizo.Transport.Dtls.{enqueue_packet, deliver, add_local}

pub record SdesTransport (S : Type 0) : Type 0 where
  pub base : Transport S
  pub open base use *
  pub crypto_local : CryptoInfo
  pub crypto_remote : CryptoInfo

abbrev pub cipher_suite_name : Bytes
cipher_suite_name = codes "AES_CM_128_HMAC_SHA1_80"

module _ {S : Type 0} where
  -- The constructor, up to the start of the ICE connection; `key` is what `generateBase64Key` gives.
  unfoldable pub new_sdes :
      MediaType → Bytes → Bool → Bool → Bytes → CryptoInfo → SdesTransport S × List TransportEvent
  new_sdes media name bundle rtcp_mux key remote_crypto = (
    record {
      base = record {
        media_type = media;
        rtcp_mux = rtcp_mux;
        bundle = bundle;
        state = transport_initial;
        nice_connection = new_connection media name (if rtcp_mux then 1 else 2);
        ready_rtp = false;
        ready_rtcp = false;
        srtp = some new_channel;
        srtcp = none;
      };
      crypto_local = record {
        tag = 1;
        cipher_suite = cipher_suite_name;
        key_params = key;
        media_type = media;
      };
      crypto_remote = remote_crypto;
    },
    update_state transport_initial ∷ [],
  )

  -- `if( ! srtp_ ) srtp_ = new SrtpChannel();`
  abbrev channel_or_new : Option (SrtpChannel S) → SrtpChannel S
  channel_or_new none = new_channel
  channel_or_new (some c) = c

module _ {S : Type 0} (lib : SrtpLibrary S) where
  pub sdes_set_keys : SdesTransport S → Option (SdesTransport S)
  sdes_set_keys t =
      let local = t.crypto_local.key_params in
      let remote = t.crypto_remote.key_params in
      (do
        first ← set_rtp_params lib (channel_or_new t.srtp) local remote
        again ← if t.rtcp_mux then some first else set_rtp_params lib first local remote
        some (record t {
          base = record t.base {
            srtp = some again;
            srtcp = if t.rtcp_mux then t.srtcp else some new_channel;
            ready_rtp = true;
            ready_rtcp = true;
            state = transport_ready;
          };
        }))

  -- `updateIceState`
  unfoldable pub sdes_ice_state :
      SdesTransport S → IceState → Option (SdesTransport S × List TransportEvent)
  unfolding sdes_set_keys
  sdes_ice_state t nice_candidates_gathered = some (
    record t { base = record t.base { state = transport_started } },
    update_state transport_started ∷ [],
  )
  sdes_ice_state t nice_ready = do u ← sdes_set_keys t; some (u, update_state transport_ready ∷ [])
  sdes_ice_state t nice_initial = some (t, [])
  sdes_ice_state t nice_candidates_received = some (t, [])
  sdes_ice_state t nice_finished = some (t, [])
  sdes_ice_state t nice_failed = some (t, [])

  pub sdes_protect :
      Bool → Bool → Option (SrtpChannel S) → Bytes → Option (Option (SrtpChannel S) × Option Bytes)
  sdes_protect ready rtcp none buf = some (none, some buf)
  sdes_protect false rtcp (some c) buf = some (some c, some buf)
  sdes_protect true true (some c) buf = do (c', out) ← protect_rtcp lib c buf; some (some c', out)
  sdes_protect true false (some c) buf = do (c', out) ← protect_rtp lib c buf; some (some c', out)

  pub sdes_by_rtp :
      SdesTransport S → Bool → ℕ → Bool → Bytes → Option (SdesTransport S × List TransportEvent)
  unfolding sdes_protect
  sdes_by_rtp t rtcp comp ready buf = do
    (c, out) ← sdes_protect ready rtcp t.srtp buf
    some (record t { base = record t.base { srtp = c } }, enqueue_packet ready comp out)

  -- RTCP goes through `srtcp_` if there is one, the rest through `srtp_`.
  pub sdes_send :
      SdesTransport S
      → Bool
      → ℕ
      → Bool
      → Bytes
      → Option (SrtpChannel S)
      → Option (SdesTransport S × List TransportEvent)
  unfolding sdes_protect sdes_by_rtp
  sdes_send t rtcp comp ready buf none = sdes_by_rtp t rtcp comp ready buf
  sdes_send t rtcp comp ready buf (some channel) =
      if rtcp
      then (do
        (c, out) ← sdes_protect ready rtcp (some channel) buf
        some (record t { base = record t.base { srtcp = c } }, enqueue_packet ready comp out))
      else sdes_by_rtp t rtcp comp ready buf

  -- `write`
  unfoldable pub sdes_write :
      SdesTransport S → Bytes → Option (SdesTransport S × List TransportEvent)
  unfolding sdes_send
  sdes_write t buf =
      if not (is_ready t.state)
      then some (t, [])
      else if not (fits_buffer buf)
      then none
      else sdes_send t (is_rtcp buf) (if is_rtcp buf && not t.rtcp_mux then 2 else 1)
          (is_nice_ready t.nice_connection.ice_state) buf t.srtcp

  pub sdes_unprotect :
      Option (SrtpChannel S) → Bytes → Option (Option (SrtpChannel S) × Option Bytes)
  sdes_unprotect none buf = none
  sdes_unprotect (some c) buf = do
    (c', out) ← if is_rtcp buf then unprotect_rtcp lib c buf else unprotect_rtp lib c buf
    some (some c', out)

  -- `onNiceData`: component 2 is read through `srtcp_`, null or not.
  unfoldable pub sdes_nice_data :
      SdesTransport S → ℕ → Bytes → Option (SdesTransport S × List TransportEvent)
  unfolding sdes_unprotect
  sdes_nice_data t component buf =
      if not (is_ready t.state)
      then some (t, [])
      else if not (fits_buffer buf)
      then none
      else if component == 2
      then (do
        (c, out) ← sdes_unprotect t.srtcp buf
        some (record t { base = record t.base { srtcp = c } }, deliver out))
      else (do
        (c, out) ← sdes_unprotect t.srtp buf
        some (record t { base = record t.base { srtp = c } }, deliver out))

abbrev pub add_crypto : SdpInfo → CryptoInfo → SdpInfo
add_crypto sdp info = record sdp { crypto_vector = sdp.crypto_vector ++ (info ∷ []) }

-- `processLocalSdp`
unfoldable pub sdes_local_sdp : {S : Type 0} → SdesTransport S → SdpInfo → SdpInfo
unfolding add_local
sdes_local_sdp t sdp =
    let keyed = add_crypto (record sdp { is_fingerprint = false }) t.crypto_local in
    let both =
      if sdp.is_bundle
      then add_crypto keyed (record t.crypto_local { tag = 1; media_type = audio_type })
      else keyed in
    if is_gathered t.nice_connection.ice_state
    then add_local t.bundle t.nice_connection.local_candidates both
    else both
