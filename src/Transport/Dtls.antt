-- ===== src/Transport/Dtls.antt =====
-- src/erizo/DtlsTransport.cpp. The DTLS sockets appear as `has_dtls_rtcp` (the RTCP socket exists)
-- and as events; `dtlsRtp` always exists. `none` is undefined behaviour or a failed assertion.
pub mod Secure
pub mod History
pub mod Session
pub mod Keyed
pub mod Authentic
pub mod Readiness
pub mod Liveness
pub mod Defined
pub mod Total
use erizo.Base.{
  ℕ, ◌+◌, Bool, true, false, not, ◌&&◌, List, [], ◌∷◌, ◌++◌, Option, none, some, Bytes, ◌==◌, leb,
  ltb, length, if◌then◌else◌, ◌>>=◌, is_some, map,
}
use erizo.Rtp.RtcpHeader.{is_rtcp}
use erizo.Sdp.Types.{MediaType, audio_type, CandidateInfo, SdpInfo}
use erizo.Sdp.Candidate.{add_candidate}
use erizo.Nice.Connection.{
  NiceConnection, IceState, nice_candidates_gathered, nice_ready, nice_initial, nice_finished,
  nice_candidates_received, nice_failed, is_nice_ready, is_gathered, send_data, new_connection,
}
use erizo.Srtp.{
  SrtpLibrary, SrtpChannel, new_channel, set_rtp_params, protect_rtp, unprotect_rtp, protect_rtcp,
  unprotect_rtcp,
}
use erizo.Transport.Base.{
  Transport, TransportState, transport_initial, transport_started, transport_ready, is_ready,
  TransportEvent, update_state, on_transport_data, queue_data, start_rtp, start_rtcp, stop_rtp,
  stop_rtcp, read_rtp, read_rtcp, nice, fits_buffer, update_transport_state,
}

pub record DtlsTransport (S : Type 0) : Type 0 where
  pub base : Transport S
  pub open base use *
  pub has_dtls_rtcp : Bool

-- `DtlsFactory::demuxPacket`
pub data PacketType : Type 0 where
  rtp dtls stun unknown : PacketType

unfoldable pub demux_byte : ℕ → PacketType
demux_byte b =
    if b == 0
    then stun
    else if b == 1
    then stun
    else if leb 128 b && leb b 191
    then rtp
    else if leb 20 b && leb b 64
    then dtls
    else unknown

-- `assert(len>=1)`
unfoldable pub demux_packet : Bytes → Option PacketType
unfolding demux_byte
demux_packet [] = none
demux_packet (b ∷ bs) = some (demux_byte b)

abbrev pub is_dtls : PacketType → Bool
is_dtls dtls = true
is_dtls _ = false

-- The two sockets that can hold a handshake.
pub data SocketContext : Type 0 where
  rtp_context rtcp_context : SocketContext

-- The end of `write`: the packet goes to the queue if it is longer than ten bytes.
abbrev pub enqueue_packet : Bool → ℕ → Option Bytes → List TransportEvent
enqueue_packet ready comp none = []
enqueue_packet ready comp (some out) =
    if leb (length out) 10 then [] else if ready then queue_data comp out ∷ [] else []

-- An unprotected packet that is not empty goes to the listener.
abbrev pub deliver : Option Bytes → List TransportEvent
deliver none = []
deliver (some []) = []
deliver (some (b ∷ bs)) = on_transport_data (b ∷ bs) ∷ []

module _ {S : Type 0} where
  -- The constructor, up to the start of the ICE connection.
  unfoldable pub new_dtls : MediaType → Bytes → Bool → Bool → DtlsTransport S × List TransportEvent
  new_dtls media name bundle rtcp_mux = (
    record {
      base = record {
        media_type = media;
        rtcp_mux = rtcp_mux;
        bundle = bundle;
        state = transport_initial;
        nice_connection = new_connection media name (if rtcp_mux then 1 else 2);
        ready_rtp = false;
        ready_rtcp = false;
        srtp = none;
        srtcp = none;
      };
      has_dtls_rtcp = not rtcp_mux;
    },
    update_state transport_initial ∷ [],
  )

  -- `updateTransportState` on the whole object.
  abbrev dtls_state : DtlsTransport S → TransportState → DtlsTransport S × List TransportEvent
  dtls_state t state =
      (record t { base = record t.base { state = state } }, update_state state ∷ [])

  -- `updateIceState`
  unfoldable pub dtls_ice_state : DtlsTransport S → IceState → DtlsTransport S × List TransportEvent
  dtls_ice_state t nice_candidates_gathered = dtls_state t transport_started
  dtls_ice_state t nice_ready = (t, start_rtp ∷ (if t.has_dtls_rtcp then start_rtcp ∷ [] else []))
  dtls_ice_state t nice_initial = (t, [])
  dtls_ice_state t nice_candidates_received = (t, [])
  dtls_ice_state t nice_finished = (t, [])
  dtls_ice_state t nice_failed = (t, [])

  -- `writeDtls`
  unfoldable pub write_dtls : DtlsTransport S → SocketContext → Bytes → List TransportEvent
  write_dtls t rtp_context buf = map nice (send_data t.nice_connection 1 buf)
  write_dtls t rtcp_context buf = map nice (send_data t.nice_connection 2 buf)

module _ {S : Type 0} (lib : SrtpLibrary S) where
  set_keys : DtlsTransport S → SocketContext → SrtpChannel S → DtlsTransport S
  set_keys t rtp_context channel = record t {
    base = record t.base {
      srtp = some channel;
      ready_rtp = true;
      ready_rtcp = if t.has_dtls_rtcp then t.ready_rtcp else true;
    };
  }
  set_keys t rtcp_context channel = record t {
    base = record t.base { srtcp = some channel; ready_rtcp = true };
  }

  -- `onHandshakeCompleted`; a handshake of the RTCP socket needs that socket.
  unfoldable pub on_handshake_completed :
      DtlsTransport S
      → SocketContext
      → Bytes
      → Bytes
      → Option (DtlsTransport S × List TransportEvent)
  unfolding set_keys
  on_handshake_completed t ctx client_key server_key = do
    channel ← set_rtp_params lib new_channel client_key server_key
    let t' = set_keys t ctx channel
    some (if t'.ready_rtp && t'.ready_rtcp then dtls_state t' transport_ready else (t', []))

  -- The channel that protects a packet, before and after the call. Without a channel, or before the
  -- ICE connection is ready, the packet stays as it is.
  protect_with :
      Bool → Bool → Option (SrtpChannel S) → Bytes → Option (Option (SrtpChannel S) × Option Bytes)
  protect_with ready rtcp none buf = some (none, some buf)
  protect_with false rtcp (some c) buf = some (some c, some buf)
  protect_with true true (some c) buf = do (c', out) ← protect_rtcp lib c buf; some (some c', out)
  protect_with true false (some c) buf = do (c', out) ← protect_rtp lib c buf; some (some c', out)

  -- `write`
  unfoldable pub dtls_write :
      DtlsTransport S → Bytes → Option (DtlsTransport S × List TransportEvent)
  unfolding protect_with
  dtls_write t buf =
      let ready = is_nice_ready t.nice_connection.ice_state in
      let rtcp = is_rtcp buf in
      let comp = if rtcp && not t.rtcp_mux then 2 else 1 in
      if not (is_ready t.state)
      then some (t, [])
      else if not (fits_buffer buf)
      then none
      else if rtcp && t.has_dtls_rtcp
      then (do
        (c, out) ← protect_with ready rtcp t.srtcp buf
        some (record t { base = record t.base { srtcp = c } }, enqueue_packet ready comp out))
      else (do
        (c, out) ← protect_with ready rtcp t.srtp buf
        some (record t { base = record t.base { srtp = c } }, enqueue_packet ready comp out))

  -- A DTLS packet goes to the socket of its component. A missing RTCP socket is a null pointer.
  unfoldable pub read_dtls : DtlsTransport S → ℕ → Bytes → Option (List TransportEvent)
  read_dtls t component buf =
      if component == 1
      then some (read_rtp buf ∷ [])
      else if t.has_dtls_rtcp
      then some (read_rtcp buf ∷ [])
      else none

  unprotect_with : Option (SrtpChannel S) → Bytes → Option (Option (SrtpChannel S) × Option Bytes)
  unprotect_with none buf = some (none, none)
  unprotect_with (some c) buf = do
    (c', out) ← if is_rtcp buf then unprotect_rtcp lib c buf else unprotect_rtp lib c buf
    some (some c', out)

  -- The media branch of `onNiceData`.
  unfoldable pub read_media :
      DtlsTransport S → ℕ → Bytes → Option (DtlsTransport S × List TransportEvent)
  unfolding unprotect_with
  read_media t component buf =
      if not (is_ready t.state)
      then some (t, [])
      else if not (fits_buffer buf)
      then none
      else if t.has_dtls_rtcp && component == 2
      then (do
        (c, out) ← unprotect_with t.srtcp buf
        some (record t { base = record t.base { srtcp = c } }, deliver out))
      else (do
        (c, out) ← unprotect_with t.srtp buf
        some (record t { base = record t.base { srtp = c } }, deliver out))

  -- `onNiceData`
  unfoldable pub dtls_nice_data :
      DtlsTransport S → ℕ → Bytes → Option (DtlsTransport S × List TransportEvent)
  unfolding read_media read_dtls
  dtls_nice_data t component buf = do
    kind ← demux_packet buf
    if is_dtls kind
        then (do events ← read_dtls t component buf; some (t, events))
        else read_media t component buf

-- The loop of `processLocalSdp`, the same in both transports: each local candidate is added, and in
-- a bundle a second time for audio.
unfoldable pub add_local : Bool → List CandidateInfo → SdpInfo → SdpInfo
add_local bundle [] sdp = sdp
add_local bundle (c ∷ cs) sdp =
    let own = record c { is_bundle = bundle } in
    let once = add_candidate sdp own in
    add_local bundle cs
      (if bundle then add_candidate once (record own { media_type = audio_type }) else once)

-- `processLocalSdp`; the fingerprint is the factory's.
unfoldable pub dtls_local_sdp : {S : Type 0} → DtlsTransport S → Bytes → SdpInfo → SdpInfo
unfolding add_local
dtls_local_sdp t my_fingerprint sdp =
    let marked = record sdp { is_fingerprint = true; fingerprint = my_fingerprint } in
    if is_gathered t.nice_connection.ice_state
    then add_local t.bundle t.nice_connection.local_candidates marked
    else marked
