-- ===== src/Connection/Operations.antt =====
-- src/erizo/WebRtcConnection.h and .cpp, MediaDefinitions.h: the public operations of a connection as
-- values, and what a sequence of them does. A transport's own step (what its ICE connection or its
-- DTLS socket does to it) puts any transports in place of the connection's.
use erizo.Base.{ℕ, Bool, List, [], ◌∷◌, ◌++◌, Option, some, Bytes, ◌>>=◌}
use erizo.Srtp.{SrtpLibrary}
use erizo.Sdp.Types.{MediaType}
use erizo.Transport.Base.{TransportState}
use erizo.Connection.State.{
  AnyTransport, Connection, ConnectionEvent, update_state, queue_data, send_round,
}
use erizo.Connection.Media.{
  deliver_audio_data, deliver_video_data, deliver_feedback, send_fir_packet, on_transport_data,
}
use erizo.Connection.Negotiation.{set_remote_sdp, get_local_sdp}

pub data Operation (S : Type 0) : Type 0 where
  remote_description : Bytes → (ℕ → Bytes) → Operation S
  local_description : Bytes → Bytes → Bytes → Bytes → Operation S
  audio_data video_data feedback : Bytes → Operation S
  fir_packet : Operation S
  transport_data : Bytes → MediaType → Bool → Operation S
  transport_state : TransportState → Bool → Operation S
  queue : ℕ → Bytes → MediaType → Operation S
  send_loop_round : Operation S
  transports : Option (AnyTransport S) → Option (AnyTransport S) → Operation S
  -- whether the pointers of the video, audio and feedback sink and of the listener are set
  listeners : Bool → Bool → Bool → Bool → Operation S
  sink_ssrcs source_ssrcs : ℕ → ℕ → Operation S

module _ {S : Type 0} where
  -- `setVideoSink`, `setAudioSink`, `setFeedbackSink` and `setWebRTCConnectionStateListener`
  unfoldable pub set_listeners : Connection S → Bool → Bool → Bool → Bool → Connection S
  set_listeners c video_sink audio_sink fb_sink listener = record c {
    has_video_sink = video_sink;
    has_audio_sink = audio_sink;
    has_fb_sink = fb_sink;
    has_state_listener = listener;
  }

  -- `setVideoSinkSSRC` and `setAudioSinkSSRC`
  unfoldable pub set_sink_ssrcs : Connection S → ℕ → ℕ → Connection S
  set_sink_ssrcs c video audio = record c { video_sink_ssrc = video; audio_sink_ssrc = audio }

  -- `setVideoSourceSSRC` and `setAudioSourceSSRC`
  unfoldable pub set_source_ssrcs : Connection S → ℕ → ℕ → Connection S
  set_source_ssrcs c video audio = record c { video_source_ssrc = video; audio_source_ssrc = audio }

module _ {S : Type 0} (lib : SrtpLibrary S) where
  -- One operation, with what it does to other objects.
  unfoldable pub apply : Connection S → Operation S → Option (Connection S × List ConnectionEvent)
  apply c (remote_description text keys) = set_remote_sdp c text keys
  apply c (local_description video_desc audio_desc fingerprint msid) = do
    (d, text) ← get_local_sdp c video_desc audio_desc fingerprint msid
    some (d, [])
  apply c (audio_data buf) = deliver_audio_data lib c buf
  apply c (video_data buf) = deliver_video_data lib c buf
  apply c (feedback buf) = deliver_feedback lib c buf
  apply c fir_packet = send_fir_packet lib c
  apply c (transport_data buf media from_video) = on_transport_data c buf media from_video
  apply c (transport_state state from_video) = some (update_state c state from_video)
  apply c (queue comp buf media) = do d ← queue_data c comp buf media; some (d, [])
  apply c send_loop_round = send_round c
  apply c (transports video audio) =
      some (record c { video_transport = video; audio_transport = audio }, [])
  apply c (listeners video audio fb state) = some (set_listeners c video audio fb state, [])
  apply c (sink_ssrcs video audio) = some (set_sink_ssrcs c video audio, [])
  apply c (source_ssrcs video audio) = some (set_source_ssrcs c video audio, [])

  -- A sequence of operations, until one is undefined behaviour.
  unfoldable pub run :
      Connection S → List (Operation S) → Option (Connection S × List ConnectionEvent)
  unfolding apply
  run c [] = some (c, [])
  run c (op ∷ ops) = do (d, first) ← apply c op; (e, rest) ← run d ops; some (e, first ++ rest)
