-- ===== src/Connection/Serving/Runs.antt =====
-- WebRtcConnection.cpp: sequences of operations on a connection that serves.
use erizo.Base.{
  ℕ, ◌≡◌, ◌≤◌, refl, true, List, [], ◌∷◌, ◌++◌, Option, none, some, Bytes, arith, length, is_some,
  ◌>>=◌,
}
use erizo.Srtp.{SrtpLibrary}
use erizo.Sdp.Types.{MediaType}
use erizo.Sdp.PtMap.{PtMap}
use erizo.Connection.State.{Connection, ConnectionEvent, queue_data}
use erizo.Connection.Media.{map_payloadtype}
use erizo.Connection.Operations.{
  Operation, remote_description, local_description, audio_data, video_data, feedback, fir_packet,
  transport_data, transport_state, queue, send_loop_round, transports, listeners, sink_ssrcs,
  source_ssrcs, set_listeners, set_sink_ssrcs, set_source_ssrcs, apply, run,
}
use erizo.Connection.Serving.{IsServing, Serves, HasVideo, HasAudio}
use erizo.Connection.Serving.State.{update_state-IsServing, send_round-Serves}
use erizo.Connection.Serving.Media.{
  is_readable, deliver_audio_data-Serves, deliver_video_data-Serves, deliver_feedback-Serves,
  send_fir_packet-Serves, on_transport_data-Serves, with_sources,
}

abbrev no_events : List ConnectionEvent
no_events = []

module _ {S : Type 0} (lib : SrtpLibrary S) (m : PtMap) where
  -- Packets have their headers and fit their buffers, the RED headers of a video packet end inside it, the transports keep their
  -- keys and the sinks stay; no description comes or goes.
  abbrev pub IsAllowed : Operation S → Type 0
  IsAllowed (audio_data buf) = (12 ≤ length buf) × (length buf ≤ 10000)
  IsAllowed (transport_data buf media from_video) = 12 ≤ length buf
  IsAllowed (video_data buf) =
      (12 ≤ length buf) × (length buf ≤ 3000) × (is_readable (map_payloadtype m buf) ≡ true)
  IsAllowed (feedback buf) = (12 ≤ length buf) × (length buf ≤ 10000)
  IsAllowed (queue comp buf media) = length buf ≤ 1200
  IsAllowed (transports video audio) = HasVideo lib video × HasAudio lib audio
  IsAllowed (listeners video audio fb state) = (video ≡ true) × (audio ≡ true)
  IsAllowed (remote_description text keys) = ⊥
  IsAllowed (local_description v a f d) = ⊥
  IsAllowed op = Unit {0}

  abbrev pub AllAllowed : List (Operation S) → Type 0
  AllAllowed [] = Unit {0}
  AllAllowed (op ∷ ops) = IsAllowed op × AllAllowed ops

  queue_data-Serves :
      (c : Connection S) (comp : ℕ) (buf : Bytes) (media : MediaType)
      → length buf ≤ 1200
      → IsServing lib m c
      → Serves lib m (do d ← queue_data c comp buf media; some (d, no_events))
  unfolding queue_data
  queue_data-Serves c comp buf media l h = ground arith

  apply-Serves :
      (c : Connection S) (op : Operation S)
      → IsAllowed op
      → IsServing lib m c
      → Serves lib m (apply lib c op)
  unfolding apply set_listeners set_sink_ssrcs set_source_ssrcs
  apply-Serves c (remote_description text keys) al h = absurd al
  apply-Serves c (local_description v a f d) al h = absurd al
  apply-Serves c (audio_data buf) al h = deliver_audio_data-Serves lib m c buf al.0 al.1 h
  apply-Serves c (video_data buf) al h = deliver_video_data-Serves lib m c buf al.0 al.1 al.2 h
  apply-Serves c (feedback buf) al h = deliver_feedback-Serves lib m c buf al.0 al.1 h
  apply-Serves c fir_packet al h = send_fir_packet-Serves lib m c h
  apply-Serves c (transport_data buf media from_video) al h =
      on_transport_data-Serves lib m c buf media from_video al h
  apply-Serves c (transport_state state from_video) al h =
      update_state-IsServing lib m c state from_video h
  apply-Serves c (queue comp buf media) al h = queue_data-Serves c comp buf media al h
  apply-Serves c send_loop_round al h = send_round-Serves lib m c h
  apply-Serves c (transports video audio) al h = record {
    has_video = al.0;
    has_audio = al.1;
    video_sink = h.video_sink;
    audio_sink = h.audio_sink;
    same_map = h.same_map;
  }
  apply-Serves c (listeners video audio fb state) al h = record {
    has_video = h.has_video;
    has_audio = h.has_audio;
    video_sink = al.0;
    audio_sink = al.1;
    same_map = h.same_map;
  }
  apply-Serves c (sink_ssrcs video audio) al h = record {
    has_video = h.has_video;
    has_audio = h.has_audio;
    video_sink = h.video_sink;
    audio_sink = h.audio_sink;
    same_map = h.same_map;
  }
  apply-Serves c (source_ssrcs video audio) al h = with_sources lib m c video audio h

  pub then_after :
      (first : List ConnectionEvent) (q : Option (Connection S × List ConnectionEvent))
      → Serves lib m q
      → Serves lib m (do (d, rest) ← q; some (d, first ++ rest))
  then_after first none h = h
  then_after first (some (d, rest)) h = h

  pub then-Serves :
      (r : Option (Connection S × List ConnectionEvent))
      (f : Connection S → Option (Connection S × List ConnectionEvent))
      → Serves lib m r
      → ((c : Connection S) → IsServing lib m c → Serves lib m (f c))
      → Serves lib m (do (d, first) ← r; (e, rest) ← f d; some (e, first ++ rest))
  then-Serves none f h k = h
  then-Serves (some (d, first)) f h k = then_after first (f d) (k d h)

  pub run-Serves :
      (ops : List (Operation S)) (c : Connection S)
      → AllAllowed ops
      → IsServing lib m c
      → Serves lib m (run lib c ops)
  unfolding run
  run-Serves [] c al h = h
  run-Serves (op ∷ ops) c al h =
      then-Serves (apply lib c op) (λ d. run lib d ops) (apply-Serves c op al.0 h)
        (λ d k. run-Serves ops d al.1 k)

  pub Serves-is_some :
      (r : Option (Connection S × List ConnectionEvent)) → Serves lib m r → is_some r ≡ true
  Serves-is_some none h = absurd h
  Serves-is_some (some r) h = refl
