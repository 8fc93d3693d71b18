-- ===== src/Connection/Negotiation.antt =====
-- src/erizo/WebRtcConnection.cpp: `setRemoteSdp` and `getLocalSdp`. The transports start their ICE
-- connection in their constructor; what that does later is a step of its own. libnice gives the
-- local description, and `generateBase64Key` and the factory give the key and the fingerprint.
use erizo.Base.{
  ℕ, length, Bool, true, false, not, ◌&&◌, List, [], ◌∷◌, ◌++◌, Option, none, some, Bytes, ◌==◌,
  equal, if◌then◌else◌, ◌>>=◌,
}
use erizo.Sdp.Types.{
  MediaType, video_type, audio_type, is_media, Profile, avpf, savpf, CryptoInfo, SdpInfo,
}
use erizo.Sdp.Process.{process_sdp}
use erizo.Sdp.Codecs.{new_sdp}
use erizo.Sdp.Print.{add_desc, get_sdp}
use erizo.Transport.Base.{transport_initial}
use erizo.Transport.Dtls.{new_dtls, dtls_local_sdp}
use erizo.Transport.Sdes.{new_sdes, sdes_local_sdp, cipher_suite_name}
use erizo.Connection.State.{
  initial, AnyTransport, dtls_transport, sdes_transport, Connection, ConnectionEvent, update_muxer,
  update_state,
}

abbrev pub is_savpf : Profile → Bool
is_savpf savpf = true
is_savpf avpf = false

module _ {S : Type 0} where
  -- The constructor; `video` and `audio` are the two numbers that `rand` gives. It leaves the source
  -- SSRCs unset, which `setRemoteSdp` sets before anything reads them.
  unfoldable pub new_connection : ℕ → ℕ → Bytes → Connection S
  unfolding new_sdp
  new_connection video_ssrc audio_ssrc buffer = record {
    remote_sdp = new_sdp;
    local_sdp = new_sdp;
    global_state = initial;
    video = false;
    audio = false;
    bundle = false;
    sequence_number_fir = 0;
    sending = true;
    send_queue = [];
    video_transport = none;
    audio_transport = none;
    deliver_media_buffer = buffer;
    has_state_listener = false;
    has_muxer = false;
    has_video_sink = false;
    has_audio_sink = false;
    has_fb_sink = false;
    video_sink_ssrc = video_ssrc;
    audio_sink_ssrc = audio_ssrc;
    video_source_ssrc = 0;
    audio_source_ssrc = 0;
  }

  -- A transport's constructor reports `TRANSPORT_INITIAL` before the connection holds the transport.
  abbrev announce : Connection S → Connection S × List ConnectionEvent
  announce c = update_state c transport_initial false

  -- `videoTransport_ = new …`
  unfoldable pub install_video :
      Connection S → (Connection S → AnyTransport S) → Connection S × List ConnectionEvent
  install_video c make =
      let (told, events) = announce c in
      (record told { video_transport = some (make told) }, events)

  -- `audioTransport_ = new …`
  unfoldable pub install_audio :
      Connection S → (Connection S → AnyTransport S) → Connection S × List ConnectionEvent
  install_audio c make =
      let (told, events) = announce c in
      (record told { audio_transport = some (make told) }, events)

  unfoldable pub make_dtls : MediaType → Connection S → AnyTransport S
  make_dtls media c = dtls_transport (new_dtls media [] c.bundle c.remote_sdp.is_rtcp_mux).0

  -- DTLS-SRTP: one transport for each medium of the description.
  unfoldable pub dtls_transports : Connection S → Connection S × List ConnectionEvent
  unfolding make_dtls install_video install_audio
  dtls_transports c =
      let (v, e1) =
        if c.remote_sdp.has_video then install_video c (make_dtls video_type) else (c, []) in
      let (w, e2) =
        if v.remote_sdp.has_audio then install_audio v (make_dtls audio_type) else (v, []) in
      (w, e1 ++ e2)

  unfoldable pub make_sdes : MediaType → Bytes → CryptoInfo → Connection S → AnyTransport S
  make_sdes media key crypto c =
      sdes_transport (new_sdes media [] c.bundle c.remote_sdp.is_rtcp_mux key crypto).0

  -- One remote key: a suitable one makes a transport.
  unfoldable pub sdes_for : Connection S → Bytes → CryptoInfo → Connection S × List ConnectionEvent
  unfolding make_sdes install_video install_audio
  sdes_for c key info =
      let suitable = equal info.cipher_suite cipher_suite_name in
      if is_media info.media_type video_type && suitable
      then install_video c (make_sdes video_type key info)
      else if not c.bundle && is_media info.media_type audio_type && suitable
      then install_audio c (make_sdes audio_type key info)
      else (c, [])

  -- SDES: the loop over the remote keys; the last transport made stays. A transport's own key comes
  -- from a supply, by how many remote keys are left.
  unfoldable pub sdes_transports :
      Connection S → (ℕ → Bytes) → List CryptoInfo → Connection S × List ConnectionEvent
  unfolding sdes_for
  sdes_transports c keys [] = (c, [])
  sdes_transports c keys (info ∷ infos) =
      let (made, e1) = sdes_for c (keys (length infos)) info in
      let (rest, e2) = sdes_transports made keys infos in (rest, e1 ++ e2)

  -- What `setRemoteSdp` copies from the parsed description.
  unfoldable pub take_remote : Connection S → SdpInfo → Connection S
  take_remote c remote = record c {
    remote_sdp = remote;
    video = not (remote.video_ssrc == 0);
    audio = not (remote.audio_ssrc == 0);
    bundle = remote.is_bundle;
    local_sdp = record c.local_sdp {
      payload_vector = remote.payload_vector;
      is_bundle = remote.is_bundle;
      is_rtcp_mux = remote.is_rtcp_mux;
      profile = remote.profile;
      video_ssrc = c.video_sink_ssrc;
      audio_ssrc = c.audio_sink_ssrc;
    };
    video_source_ssrc = remote.video_ssrc;
    audio_source_ssrc = remote.audio_ssrc;
  }

  unfoldable pub make_transports : Connection S → (ℕ → Bytes) → Connection S × List ConnectionEvent
  unfolding dtls_transports sdes_transports
  make_transports c keys =
      if not (is_savpf c.remote_sdp.profile)
      then (c, [])
      else if c.remote_sdp.is_fingerprint
      then dtls_transports c
      else sdes_transports c keys c.remote_sdp.crypto_vector

  -- `setRemoteSdp`
  unfoldable pub set_remote_sdp :
      Connection S → Bytes → (ℕ → Bytes) → Option (Connection S × List ConnectionEvent)
  unfolding take_remote make_transports
  set_remote_sdp c text keys = do
    remote ← process_sdp c.remote_sdp text
    let (made, events) = make_transports (take_remote c remote) keys
    some (made, events ++ (if made.has_muxer then update_muxer ∷ [] else []))

  -- `processLocalSdp` of either class.
  process_local : AnyTransport S → Bytes → SdpInfo → SdpInfo
  process_local (dtls_transport t) fingerprint sdp = dtls_local_sdp t fingerprint sdp
  process_local (sdes_transport t) fingerprint sdp = sdes_local_sdp t sdp

  describe : Option (AnyTransport S) → Bytes → ℕ → Bytes → SdpInfo → Option SdpInfo
  unfolding process_local
  describe none desc type fingerprint sdp = some sdp
  describe (some t) desc type fingerprint sdp = do
    described ← add_desc sdp desc type
    some (process_local t fingerprint described)

  -- `getLocalSdp`, with the local descriptions of the two transports and the `msid` text.
  unfoldable pub get_local_sdp :
      Connection S → Bytes → Bytes → Bytes → Bytes → Option (Connection S × Bytes)
  unfolding describe
  get_local_sdp c video_desc audio_desc fingerprint msid = do
    with_video ←
        describe c.video_transport video_desc (if c.bundle then 0 else 2) fingerprint c.local_sdp
    with_audio ←
        describe (if c.bundle then none else c.audio_transport) audio_desc 1 fingerprint with_video
    let done = record with_audio { profile = c.remote_sdp.profile }
    some (record c { local_sdp = done }, get_sdp done msid)
