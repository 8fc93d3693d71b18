-- ===== src/Connection/Serving/State.antt =====
-- WebRtcConnection.cpp: the reports of the transports and the send loop, on a connection that serves.
use erizo.Base.{Bool, true, false, not, ◌&&◌, [], Option, none, some, arith, is_some, if◌then◌else◌}
use erizo.Srtp.{SrtpLibrary}
use erizo.Sdp.Types.{SdpInfo}
use erizo.Sdp.PtMap.{PtMap}
use erizo.Nice.Connection.{NiceConnection}
use erizo.Transport.Base.{TransportState, is_started, set_candidates}
use erizo.Connection.State.{
  AnyTransport, dtls_transport, sdes_transport, Connection, WebRtcState, base_of, with_base,
  all_in_state, candidates_on, hand_candidates, store_state, next_state, start_both,
  video_candidates, audio_candidates, send_round, send_front, update_state,
}
use erizo.Connection.Serving.{HasKeys, HasVideo, HasAudio, IsServing, Serves}

module _ {S : Type 0} (lib : SrtpLibrary S) where
  candidates-HasKeys :
      (t : AnyTransport S) (n : NiceConnection)
      → HasKeys lib t
      → HasKeys lib (with_base t (record (base_of t) { nice_connection = n }))
  candidates-HasKeys (dtls_transport t) n h = record {
    rtp_keyed = h.rtp_keyed;
    rtcp_keyed = h.rtcp_keyed;
    ready_after = h.ready_after;
  }
  candidates-HasKeys (sdes_transport t) n (local, remote, h) = (
    local,
    remote,
    record {
      same_mux = h.same_mux;
      one_channel = h.one_channel;
      local_key = h.local_key;
      remote_key = h.remote_key;
      keyed = h.keyed;
    },
  )

  candidates_on-HasVideo :
      (v : Option (AnyTransport S)) (sdp : SdpInfo)
      → HasVideo lib v
      → HasVideo lib (candidates_on v sdp).0
  unfolding candidates_on set_candidates
  candidates_on-HasVideo none sdp h = h
  candidates_on-HasVideo (some t) sdp h = candidates-HasKeys t _ h

  candidates_on-HasAudio :
      (v : Option (AnyTransport S)) (sdp : SdpInfo)
      → HasAudio lib v
      → HasAudio lib (candidates_on v sdp).0
  unfolding candidates_on set_candidates
  candidates_on-HasAudio none sdp h = h
  candidates_on-HasAudio (some t) sdp h = candidates-HasKeys t _ h

  module _ (m : PtMap) where
    video_candidates-IsServing :
        (c : Connection S) → IsServing lib m c → IsServing lib m (video_candidates c).0
    unfolding video_candidates
    video_candidates-IsServing c h = record {
      has_video = candidates_on-HasVideo c.video_transport c.remote_sdp h.has_video;
      has_audio = h.has_audio;
      video_sink = h.video_sink;
      audio_sink = h.audio_sink;
      same_map = h.same_map;
    }

    audio_candidates-IsServing :
        (c : Connection S) → IsServing lib m c → IsServing lib m (audio_candidates c).0
    unfolding audio_candidates
    audio_candidates-IsServing c h = record {
      has_video = h.has_video;
      has_audio = candidates_on-HasAudio c.audio_transport c.remote_sdp h.has_audio;
      video_sink = h.video_sink;
      audio_sink = h.audio_sink;
      same_map = h.same_map;
    }

    pub IsServing-if :
        {A : Type 0} (b : Bool) (x y : Connection S × A)
        → IsServing lib m x.0
        → IsServing lib m y.0
        → IsServing lib m (if b then x else y).0
    IsServing-if true x y h k = h
    IsServing-if false x y h k = k

    start_both-IsServing : (c : Connection S) → IsServing lib m c → IsServing lib m (start_both c).0
    unfolding start_both
    start_both-IsServing c h =
        let c1 = if c.remote_sdp.has_video then video_candidates c else (c, []) in
        let h1 : IsServing lib m c1.0 =
          IsServing-if c.remote_sdp.has_video _ _ (video_candidates-IsServing c h) h in
        IsServing-if (not c.bundle && c.remote_sdp.has_audio) _ _
          (audio_candidates-IsServing c1.0 h1) h1

    hand_candidates-IsServing :
        (c : Connection S) (state : TransportState) (from_video : Bool)
        → IsServing lib m c
        → IsServing lib m (hand_candidates c state from_video).0
    unfolding hand_candidates
    hand_candidates-IsServing c state from_video h =
        let b = is_started state && all_in_state is_started c in
        let c1 = if b then start_both c else (c, []) in
        let h1 : IsServing lib m c1.0 = IsServing-if b _ _ (start_both-IsServing c h) h in
        IsServing-if (from_video && c.bundle && is_started state) _ _
          (video_candidates-IsServing c1.0 h1) h1

    store_state-IsServing :
        (c : Connection S) (temp : WebRtcState)
        → IsServing lib m c
        → IsServing lib m (store_state c temp).0
    unfolding store_state
    store_state-IsServing c temp h = ground arith

    pub update_state-IsServing :
        (c : Connection S) (state : TransportState) (from_video : Bool)
        → IsServing lib m c
        → IsServing lib m (update_state c state from_video).0
    unfolding update_state
    update_state-IsServing c state from_video h =
        IsServing-if (not (is_some c.audio_transport) && not (is_some c.video_transport)) _ _ h (
          store_state-IsServing _ (next_state c state from_video)
            (hand_candidates-IsServing c state from_video h))

    pub send_round-Serves : (c : Connection S) → IsServing lib m c → Serves lib m (send_round c)
    unfolding send_round send_front
    send_round-Serves c h = ground arith
