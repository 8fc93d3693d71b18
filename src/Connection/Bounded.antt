-- ===== src/Connection/Bounded.antt =====
-- WebRtcConnection.cpp: the bounds of a connection, over its reports and its negotiation.
pub mod Runs
use erizo.Base.{
  ℕ, ◌≡◌, ◌≢◌, ◌&&◌, not, equal, is_some, true, false, ◌≤◌, refl, subst, sym, ◌∙◌, Bool, List, [],
  ◌∷◌, ◌++◌, Option, none, some, Bytes, arith, length, length-append, Option-cases, inl, inr, ◌>>=◌,
  ◌+◌, if◌then◌else◌,
}
use erizo.Srtp.{SrtpLibrary}
use erizo.Sdp.Types.{MediaType, CryptoInfo, video_type, audio_type, other, is_media}
use erizo.Sdp.Process.{process_sdp}
use erizo.Transport.Sdes.{cipher_suite_name}
use erizo.Transport.Base.{TransportState, transport_initial, transport_ready}
use erizo.Rtp.RtpHeader
use erizo.Connection.Packets.{queued}
use erizo.Connection.State.{
  Connection, ConnectionEvent, WebRtcState, DataPacket, AnyTransport, finished, failed,
  update_state, next_state, store_state, hand_candidates, start_both, video_candidates,
  audio_candidates, queue_data, send_round,
}
use erizo.Connection.Media.{
  deliver_audio_data, deliver_video_data, outgoing_video, strip_red, deliver_feedback,
  send_fir_packet, on_transport_data, transport_media, map_payloadtype, touched, deliver_of,
  deliver_bundled, red_walk,
}
use erizo.Connection.Operations.{
  Operation, remote_description, local_description, audio_data, video_data, feedback, fir_packet,
  transport_data, transport_state, queue, send_loop_round, transports, listeners, sink_ssrcs,
  source_ssrcs, set_listeners, set_sink_ssrcs, set_source_ssrcs, apply, run,
}
use erizo.Connection.Negotiation.{
  new_connection, is_savpf, install_video, install_audio, make_dtls, make_sdes, sdes_for,
  set_remote_sdp, get_local_sdp, make_transports, dtls_transports, sdes_transports, take_remote,
}

module _ {S : Type 0} where
  -- The queue fits, and the connection is neither finished nor failed.
  pub record IsBounded (c : Connection S) : Type 0 where
    pub queue_fits : length c.send_queue ≤ 1000
    pub not_finished : c.global_state ≢ finished
    pub not_failed : c.global_state ≢ failed

  abbrev pub Keeps : {A : Type 0} → Option (Connection S × A) → Type 0
  Keeps none = Unit {0}
  Keeps (some (c, a)) = IsBounded c

  pub IsBounded-same :
      (c d : Connection S)
      → (d.send_queue ≡ c.send_queue) × (d.global_state ≡ c.global_state)
      → IsBounded c
      → IsBounded d
  IsBounded-same c d e h = record {
    queue_fits = subst (λ q. length q ≤ 1000) (sym e.0) h.queue_fits;
    not_finished = λ f. h.not_finished (sym e.1 ∙ f);
    not_failed = λ f. h.not_failed (sym e.1 ∙ f);
  }

  hand_candidates-queue :
      (c : Connection S) (state : TransportState) (from_video : Bool)
      → ((hand_candidates c state from_video).0.send_queue ≡ c.send_queue)
        × ((hand_candidates c state from_video).0.global_state ≡ c.global_state)
  unfolding hand_candidates start_both video_candidates audio_candidates
  hand_candidates-queue c state from_video = ground arith

  next_state-live :
      (c : Connection S) (state : TransportState) (from_video : Bool)
      → (next_state c state from_video ≢ finished) × (next_state c state from_video ≢ failed)
  unfolding next_state
  next_state-live c state from_video = ground arith

  store_state-IsBounded :
      (c : Connection S) (temp : WebRtcState)
      → (temp ≢ finished) × (temp ≢ failed)
      → IsBounded c
      → IsBounded (store_state c temp).0
  unfolding store_state
  store_state-IsBounded c temp t h = ground arith

  IsBounded-if :
      {A : Type 0} (b : Bool) (x y : Connection S × A)
      → IsBounded x.0
      → IsBounded y.0
      → IsBounded (if b then x else y).0
  IsBounded-if true x y h k = h
  IsBounded-if false x y h k = k

  IsBounded-pick :
      (b : Bool) (x y : Connection S) → IsBounded x → IsBounded y → IsBounded (if b then x else y)
  IsBounded-pick true x y h k = h
  IsBounded-pick false x y h k = k

  pub update_state-IsBounded :
      (c : Connection S) (state : TransportState) (from_video : Bool)
      → IsBounded c
      → IsBounded (update_state c state from_video).0
  unfolding update_state
  update_state-IsBounded c state from_video h =
      let handed = (hand_candidates c state from_video).0 in
      let h1 : IsBounded handed =
        IsBounded-same c handed (hand_candidates-queue c state from_video) h in
      let h2 =
        store_state-IsBounded handed (next_state c state from_video)
          (next_state-live c state from_video) h1 in
      IsBounded-if (not (is_some c.audio_transport) && not (is_some c.video_transport)) _ _ h h2

  install_video-IsBounded :
      (c : Connection S) (make : Connection S → AnyTransport S)
      → IsBounded c
      → IsBounded (install_video c make).0
  unfolding install_video
  install_video-IsBounded c make h =
      IsBounded-same _ _ (refl, refl) (update_state-IsBounded c transport_initial false h)

  install_audio-IsBounded :
      (c : Connection S) (make : Connection S → AnyTransport S)
      → IsBounded c
      → IsBounded (install_audio c make).0
  unfolding install_audio
  install_audio-IsBounded c make h =
      IsBounded-same _ _ (refl, refl) (update_state-IsBounded c transport_initial false h)

  dtls_transports-IsBounded : (c : Connection S) → IsBounded c → IsBounded (dtls_transports c).0
  unfolding dtls_transports
  dtls_transports-IsBounded c h =
      let v = if c.remote_sdp.has_video then install_video c (make_dtls video_type) else (c, []) in
      let h1 : IsBounded v.0 =
        IsBounded-if c.remote_sdp.has_video _ _ (install_video-IsBounded c (make_dtls video_type) h)
          h in
      IsBounded-if v.0.remote_sdp.has_audio _ _
        (install_audio-IsBounded v.0 (make_dtls audio_type) h1) h1

  sdes_for-IsBounded :
      (c : Connection S) (key : Bytes) (info : CryptoInfo)
      → IsBounded c
      → IsBounded (sdes_for c key info).0
  unfolding sdes_for
  sdes_for-IsBounded c key info h = ground (
    arith,
    install_video-IsBounded c (make_sdes video_type key info) h,
    install_audio-IsBounded c (make_sdes audio_type key info) h,
  )

  sdes_transports-IsBounded :
      (keys : ℕ → Bytes) (infos : List CryptoInfo) (c : Connection S)
      → IsBounded c
      → IsBounded (sdes_transports c keys infos).0
  unfolding sdes_transports
  sdes_transports-IsBounded keys [] c h = h
  sdes_transports-IsBounded keys (info ∷ infos) c h =
      sdes_transports-IsBounded keys infos _ (sdes_for-IsBounded c (keys (length infos)) info h)

  make_transports-IsBounded :
      (c : Connection S) (keys : ℕ → Bytes) → IsBounded c → IsBounded (make_transports c keys).0
  unfolding make_transports
  make_transports-IsBounded c keys h = ground (
    arith,
    dtls_transports-IsBounded c h,
    sdes_transports-IsBounded keys c.remote_sdp.crypto_vector c h,
  )

  pub set_remote_sdp-Keeps :
      (c : Connection S) (text : Bytes) (keys : ℕ → Bytes)
      → IsBounded c
      → Keeps (set_remote_sdp c text keys)
  unfolding set_remote_sdp take_remote
  set_remote_sdp-Keeps c text keys h = elim (Option-cases (process_sdp c.remote_sdp text)) [
    | inl e ↦ rw e tt
    | inr (remote, e) ↦
        rw e (
          make_transports-IsBounded _ keys (IsBounded-same c (take_remote c remote) (refl, refl) h))
  ]

  pub get_local_sdp-Keeps :
      (c : Connection S) (v a f m : Bytes) → IsBounded c → Keeps (get_local_sdp c v a f m)
  unfolding get_local_sdp
  get_local_sdp-Keeps c v a f m h = ground arith

  pub send_round-Keeps : (c : Connection S) → IsBounded c → Keeps (send_round c)
  unfolding send_round
  send_round-Keeps c h = ground arith
