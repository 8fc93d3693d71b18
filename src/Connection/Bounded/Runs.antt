-- ===== src/Connection/Bounded/Runs.antt =====
-- WebRtcConnection.cpp: the bounds of a connection, over its media and over sequences of operations.
use erizo.Connection.Bounded.{
  IsBounded, Keeps, IsBounded-same, update_state-IsBounded, get_local_sdp-Keeps, send_round-Keeps,
  set_remote_sdp-Keeps,
}
use erizo.Base.{
  ℕ, ◌≡◌, refl, subst, Bool, List, [], ◌∷◌, some, Bytes, arith, length-append, Option-cases, inl,
  inr, ◌>>=◌,
}
use erizo.Srtp.{SrtpLibrary}
use erizo.Sdp.Types.{MediaType, video_type, audio_type, other}
use erizo.Transport.Base.{transport_ready}
use erizo.Rtp.RtpHeader
use erizo.Connection.Packets.{queued}
use erizo.Connection.State.{Connection, ConnectionEvent, queue_data}
use erizo.Connection.Media.{
  deliver_audio_data, deliver_video_data, outgoing_video, strip_red, deliver_feedback,
  send_fir_packet, on_transport_data, transport_media, map_payloadtype, touched, deliver_of,
  deliver_bundled,
}
use erizo.Connection.Operations.{
  Operation, remote_description, local_description, audio_data, video_data, feedback, fir_packet,
  transport_data, transport_state, queue, send_loop_round, transports, listeners, sink_ssrcs,
  source_ssrcs, set_listeners, set_sink_ssrcs, set_source_ssrcs, apply, run,
}
use erizo.Connection.Negotiation.{new_connection}

abbrev no_events : List ConnectionEvent
no_events = []

module _ {S : Type 0} where
  deliver_of-IsBounded :
      (c : Connection S) (buf : Bytes) (media : MediaType) (from_video : Bool)
      → IsBounded c
      → IsBounded (deliver_of c buf media from_video).0
  unfolding deliver_of
  deliver_of-IsBounded c buf audio_type from_video h = ground (
    arith,
    update_state-IsBounded (record c { audio_source_ssrc = RtpHeader.ssrc buf }) transport_ready
        from_video (IsBounded-same c _ (refl, refl) h),
  )
  deliver_of-IsBounded c buf video_type from_video h = ground (
    arith,
    update_state-IsBounded (record c { video_source_ssrc = RtpHeader.ssrc buf }) transport_ready
        from_video (IsBounded-same c _ (refl, refl) h),
  )
  deliver_of-IsBounded c buf other from_video h = h

  transport_media-Keeps :
      (c : Connection S) (buf : Bytes) (media : MediaType) (from_video : Bool)
      → IsBounded c
      → Keeps (transport_media c buf media from_video)
  unfolding transport_media deliver_bundled
  transport_media-Keeps c buf media from_video h =
      let c1 : Connection S = record c {
        remote_sdp = record c.remote_sdp { out_in_pt_map = touched c.remote_sdp.out_in_pt_map buf };
      } in
      ground (
        arith,
        deliver_of-IsBounded c1 (map_payloadtype c.remote_sdp.out_in_pt_map buf) media from_video
            (IsBounded-same c c1 (refl, refl) h),
      )

  on_transport_data-Keeps :
      (c : Connection S) (buf : Bytes) (media : MediaType) (from_video : Bool)
      → IsBounded c
      → Keeps (on_transport_data c buf media from_video)
  unfolding on_transport_data
  on_transport_data-Keeps c buf media from_video h =
      ground (arith, transport_media-Keeps c buf media from_video h)

  queue_data-Keeps :
      (c : Connection S) (comp : ℕ) (buf : Bytes) (media : MediaType)
      → IsBounded c
      → Keeps (do d ← queue_data c comp buf media; some (d, no_events))
  unfolding queue_data
  queue_data-Keeps c comp buf media h =
      ground (arith, length-append c.send_queue (queued c comp buf media ∷ []))

module _ {S : Type 0} (lib : SrtpLibrary S) where
  deliver_audio_data-Keeps :
      (c : Connection S) (buf : Bytes) → IsBounded c → Keeps (deliver_audio_data lib c buf)
  unfolding deliver_audio_data
  deliver_audio_data-Keeps c buf h = ground arith

  deliver_video_data-Keeps :
      (c : Connection S) (buf : Bytes) → IsBounded c → Keeps (deliver_video_data lib c buf)
  unfolding deliver_video_data outgoing_video strip_red
  deliver_video_data-Keeps c buf h = ground arith

  deliver_feedback-Keeps :
      (c : Connection S) (buf : Bytes) → IsBounded c → Keeps (deliver_feedback lib c buf)
  unfolding deliver_feedback
  deliver_feedback-Keeps c buf h = ground arith

  send_fir_packet-Keeps : (c : Connection S) → IsBounded c → Keeps (send_fir_packet lib c)
  unfolding send_fir_packet
  send_fir_packet-Keeps c h = ground arith

  apply-Keeps : (c : Connection S) (op : Operation S) → IsBounded c → Keeps (apply lib c op)
  unfolding apply set_listeners set_sink_ssrcs set_source_ssrcs
  apply-Keeps c (remote_description text keys) h = set_remote_sdp-Keeps c text keys h
  apply-Keeps c (local_description v a f m) h = ground (arith, get_local_sdp-Keeps c v a f m h)
  apply-Keeps c (audio_data buf) h = deliver_audio_data-Keeps c buf h
  apply-Keeps c (video_data buf) h = deliver_video_data-Keeps c buf h
  apply-Keeps c (feedback buf) h = deliver_feedback-Keeps c buf h
  apply-Keeps c fir_packet h = send_fir_packet-Keeps c h
  apply-Keeps c (transport_data buf media from_video) h =
      on_transport_data-Keeps c buf media from_video h
  apply-Keeps c (transport_state state from_video) h = update_state-IsBounded c state from_video h
  apply-Keeps c (queue comp buf media) h = queue_data-Keeps c comp buf media h
  apply-Keeps c send_loop_round h = send_round-Keeps c h
  apply-Keeps c (transports video audio) h = IsBounded-same c _ (refl, refl) h
  apply-Keeps c (listeners video audio fb state) h = IsBounded-same c _ (refl, refl) h
  apply-Keeps c (sink_ssrcs video audio) h = IsBounded-same c _ (refl, refl) h
  apply-Keeps c (source_ssrcs video audio) h = IsBounded-same c _ (refl, refl) h

  run-Keeps : (ops : List (Operation S)) (c : Connection S) → IsBounded c → Keeps (run lib c ops)
  unfolding run
  run-Keeps [] c h = h
  run-Keeps (op ∷ ops) c h = elim (Option-cases (apply lib c op)) [
    | inl e ↦ rw e tt
    | inr ((d, first), e) ↦ rw e (
        let k = run-Keeps ops d (subst Keeps e (apply-Keeps c op h)) in
        elim (Option-cases (run lib d ops)) [
          | inl f ↦ rw f tt
          | inr ((g, rest), f) ↦ rw f (subst Keeps f k)
        ])
  ]

  -- When a sequence of operations on a new connection is defined to its end, its send queue then holds at
  -- most 1000 packets, and the connection is neither `finished` nor `failed`, whatever its transports
  -- reported.
  pub run-IsBounded :
      (video_ssrc audio_ssrc : ℕ) (buffer : Bytes) (ops : List (Operation S)) {c : Connection S}
      {events : List ConnectionEvent}
      → run lib (new_connection video_ssrc audio_ssrc buffer) ops ≡ some (c, events)
      → IsBounded c
  unfolding new_connection
  run-IsBounded video_ssrc audio_ssrc buffer ops e = subst Keeps e (
      run-Keeps ops (new_connection video_ssrc audio_ssrc buffer)
        (record { queue_fits = omega arith; not_finished = λ f. cc; not_failed = λ f. cc }))
