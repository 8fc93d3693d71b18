-- ===== src/Connection/State.antt =====
-- src/erizo/WebRtcConnection.h and .cpp: the object, `updateState`, `queueData` and the
-- round of `sendLoop`.
use erizo.Base.{
  ℕ, Bool, true, false, not, ◌&&◌, ◌||◌, List, [], ◌∷◌, ◌++◌, Option, none, some, Bytes, ◌==◌,
  length, ltb, if◌then◌else◌, ◌>>=◌, is_some, map,
}
use erizo.Sdp.Types.{MediaType, video_type, is_media, SdpInfo}
use erizo.Nice.Connection.{NiceEvent}
use erizo.Transport.Base.{
  Transport, TransportState, is_started, is_ready, TransportEvent, set_candidates, write_on_nice,
}
use erizo.Transport.Dtls.{DtlsTransport}
use erizo.Transport.Sdes.{SdesTransport}

pub data WebRtcState : Type 0 where
  initial started ready finished failed : WebRtcState

abbrev pub same_state : WebRtcState → WebRtcState → Bool
same_state initial initial = true
same_state started started = true
same_state ready ready = true
same_state finished finished = true
same_state failed failed = true
same_state _ _ = false

-- The classes below `Transport`.
pub data AnyTransport (S : Type 0) : Type 0 where
  dtls_transport : DtlsTransport S → AnyTransport S
  sdes_transport : SdesTransport S → AnyTransport S

abbrev pub base_of : {S : Type 0} → AnyTransport S → Transport S
base_of (dtls_transport t) = t.base
base_of (sdes_transport t) = t.base

abbrev pub with_base : {S : Type 0} → AnyTransport S → Transport S → AnyTransport S
with_base (dtls_transport t) b = dtls_transport (record t { base = b })
with_base (sdes_transport t) b = sdes_transport (record t { base = b })

pub data PacketKind : Type 0 where
  video_packet audio_packet other_packet : PacketKind

abbrev pub is_audio_packet : PacketKind → Bool
is_audio_packet audio_packet = true
is_audio_packet _ = false

-- `dataPacket`, its `data` up to `length`
pub record DataPacket : Type 0 where
  pub comp : ℕ
  pub payload : Bytes
  pub kind : PacketKind

pub record Connection (S : Type 0) : Type 0 where
  pub remote_sdp : SdpInfo
  pub local_sdp : SdpInfo
  pub global_state : WebRtcState
  pub video : Bool
  pub audio : Bool
  pub bundle : Bool
  pub sequence_number_fir : ℕ
  pub sending : Bool
  pub send_queue : List DataPacket
  pub video_transport : Option (AnyTransport S)
  pub audio_transport : Option (AnyTransport S)
  pub deliver_media_buffer : Bytes
  -- whether these pointers are set
  pub has_state_listener : Bool
  pub has_muxer : Bool
  pub has_video_sink : Bool
  pub has_audio_sink : Bool
  pub has_fb_sink : Bool
  -- of `MediaSink` and `MediaSource`
  pub video_sink_ssrc : ℕ
  pub audio_sink_ssrc : ℕ
  pub video_source_ssrc : ℕ
  pub audio_source_ssrc : ℕ

-- What a method does to other objects.
pub data ConnectionEvent : Type 0 where
  state_changed : WebRtcState → ConnectionEvent
  update_muxer : ConnectionEvent
  video_nice audio_nice : NiceEvent → ConnectionEvent
  video_event audio_event : TransportEvent → ConnectionEvent
  deliver_video deliver_audio deliver_fb : Bytes → ConnectionEvent

module _ {S : Type 0} where
  -- `p` of the state of a transport that must be there
  abbrev pub in_state : (TransportState → Bool) → Option (AnyTransport S) → Bool
  in_state p none = false
  in_state p (some t) = p (base_of t).state

  -- The condition on both transports that the first two tests of `updateState` share.
  abbrev pub all_in_state : (TransportState → Bool) → Connection S → Bool
  all_in_state p c =
      (not c.remote_sdp.has_audio || in_state p c.audio_transport)
      && (not c.remote_sdp.has_video || in_state p c.video_transport)

  -- `setRemoteCandidates` on a transport of the connection.
  unfoldable pub candidates_on :
      Option (AnyTransport S) → SdpInfo → Option (AnyTransport S) × List NiceEvent
  candidates_on none sdp = (none, [])
  candidates_on (some t) sdp =
      let (b, events) = set_candidates (base_of t) sdp.candidate_vector in
      (some (with_base t b), events)

  unfoldable pub video_candidates : Connection S → Connection S × List ConnectionEvent
  unfolding candidates_on
  video_candidates c =
      let (t, events) = candidates_on c.video_transport c.remote_sdp in
      (record c { video_transport = t }, map video_nice events)

  unfoldable pub audio_candidates : Connection S → Connection S × List ConnectionEvent
  unfolding candidates_on
  audio_candidates c =
      let (t, events) = candidates_on c.audio_transport c.remote_sdp in
      (record c { audio_transport = t }, map audio_nice events)

  -- The remote candidates go to the transports when both have started.
  unfoldable pub start_both : Connection S → Connection S × List ConnectionEvent
  unfolding video_candidates audio_candidates
  start_both c =
      let (c1, e1) = if c.remote_sdp.has_video then video_candidates c else (c, []) in
      let (c2, e2) =
        if not c.bundle && c.remote_sdp.has_audio then audio_candidates c1 else (c1, []) in
      (c2, e1 ++ e2)

  -- Whether the SSRCs that the description promises are known.
  abbrev pub ssrcs_known : Connection S → Bool
  ssrcs_known c =
      (not c.remote_sdp.has_audio || not (c.audio_source_ssrc == 0))
      && (not c.remote_sdp.has_video || not (c.video_source_ssrc == 0))

  -- `temp` behind the three tests; `from_video` is `transport == videoTransport_`.
  unfoldable pub next_state : Connection S → TransportState → Bool → WebRtcState
  next_state c state from_video =
      let first = if is_started state && all_in_state is_started c then started else initial in
      let second =
        if is_ready state && all_in_state is_ready c && ssrcs_known c then ready else first in
      if from_video && c.bundle
      then (if is_started state then started else if is_ready state then ready else second)
      else second

  -- The end of `updateState`: a new state is stored and reported, but `STARTED` does not follow
  -- `READY`.
  unfoldable pub store_state : Connection S → WebRtcState → Connection S × List ConnectionEvent
  store_state c temp =
      if same_state temp c.global_state
        || (same_state temp started && same_state c.global_state ready)
      then (c, [])
      else (
        record c { global_state = temp },
        if c.has_state_listener then state_changed temp ∷ [] else [],
      )

  -- What `updateState` hands to the transports.
  unfoldable pub hand_candidates :
      Connection S → TransportState → Bool → Connection S × List ConnectionEvent
  unfolding start_both video_candidates
  hand_candidates c state from_video =
      let (c1, e1) =
        if is_started state && all_in_state is_started c then start_both c else (c, []) in
      let (c2, e2) =
        if from_video && c.bundle && is_started state then video_candidates c1 else (c1, []) in
      (c2, e1 ++ e2)

  -- `updateState`
  unfoldable pub update_state :
      Connection S → TransportState → Bool → Connection S × List ConnectionEvent
  unfolding next_state store_state hand_candidates
  update_state c state from_video =
      if not (is_some c.audio_transport) && not (is_some c.video_transport)
      then (c, [])
      else (let (handed, events) = hand_candidates c state from_video in
          let (stored, told) = store_state handed (next_state c state from_video) in
          (stored, events ++ told))

  -- `queueData`. `data` is 1200 bytes: a longer packet is written past its end, `none`.
  unfoldable pub queue_data : Connection S → ℕ → Bytes → MediaType → Option (Connection S)
  queue_data c comp buf media =
      if not (ltb (length c.send_queue) 1000)
      then some c
      else if ltb 1200 (length buf)
      then none
      else some (record c {
        send_queue =
            c.send_queue
            ++ (record {
              comp = comp;
              payload = buf;
              kind = if is_media media video_type then video_packet else audio_packet;
            }
                ∷ []);
      })

  -- The transport that the front packet goes to; `none` is a null video transport.
  unfoldable pub send_front : Connection S → DataPacket → Option (List ConnectionEvent)
  send_front c p = elim (if is_audio_packet p.kind then c.audio_transport else none) [
    | some t ↦ some (map audio_nice (write_on_nice (base_of t) p.comp p.payload))
    | none ↦ do
      t ← c.video_transport
      some (map video_nice (write_on_nice (base_of t) p.comp p.payload))
  ]

  send_next : Connection S → List DataPacket → Option (Connection S × List ConnectionEvent)
  unfolding send_front
  send_next c [] = some (c, [])
  send_next c (p ∷ queue) = do
    events ← send_front c p
    some (record c { send_queue = queue }, events)

  -- One round of the loop of `sendLoop`.
  unfoldable pub send_round : Connection S → Option (Connection S × List ConnectionEvent)
  unfolding send_next
  send_round c = if c.sending then send_next c c.send_queue else some (c, [])
