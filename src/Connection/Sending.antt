-- ===== src/Connection/Sending.antt =====
-- WebRtcConnection.cpp: the rounds of `sendLoop` over the send queue.
use erizo.Base.{
  ℕ, zero, suc, ◌≡◌, refl, true, List, [], ◌∷◌, ◌++◌, Option, none, some, arith, length, ◌>>=◌,
  is_some, map,
}
use erizo.Transport.Base.{write_on_nice}
use erizo.Connection.State.{
  AnyTransport, base_of, Connection, ConnectionEvent, video_nice, audio_nice, DataPacket,
  PacketKind, video_packet, audio_packet, other_packet, send_front, send_round,
}

module _ {S : Type 0} where
  -- The rounds of `sendLoop`, with all that they do.
  unfoldable pub send_rounds : ℕ → Connection S → Option (Connection S × List ConnectionEvent)
  send_rounds zero c = some (c, [])
  send_rounds (suc n) c = do
    (d, first) ← send_round c
    (e, rest) ← send_rounds n d
    some (e, first ++ rest)

  abbrev pub on_video : AnyTransport S → DataPacket → List ConnectionEvent
  on_video t p = map video_nice (write_on_nice (base_of t) p.comp p.payload)

  abbrev pub on_audio : AnyTransport S → DataPacket → List ConnectionEvent
  on_audio t p = map audio_nice (write_on_nice (base_of t) p.comp p.payload)

  -- Where a packet belongs, from the video and the audio transport: an audio packet on the audio
  -- transport if there is one, all others on the video transport.
  abbrev pub routed :
      Option (AnyTransport S)
      → Option (AnyTransport S)
      → PacketKind
      → DataPacket
      → List ConnectionEvent
  routed video (some t) audio_packet p = on_audio t p
  routed (some t) none audio_packet p = on_video t p
  routed none none audio_packet p = []
  routed (some t) audio video_packet p = on_video t p
  routed none audio video_packet p = []
  routed (some t) audio other_packet p = on_video t p
  routed none audio other_packet p = []

  abbrev pub all_routed :
      Option (AnyTransport S) → Option (AnyTransport S) → List DataPacket → List ConnectionEvent
  all_routed video audio [] = []
  all_routed video audio (p ∷ ps) = routed video audio p.kind p ++ all_routed video audio ps

  pub send_front-routed :
      (c : Connection S) (p : DataPacket) {events : List ConnectionEvent}
      → send_front c p ≡ some events
      → events ≡ routed c.video_transport c.audio_transport p.kind p
  unfolding send_front
  send_front-routed c p {events} e = ground arith

  send_front_defined :
      (c : Connection S) (p : DataPacket)
      → is_some c.video_transport ≡ true
      → send_front c p ≡ some (routed c.video_transport c.audio_transport p.kind p)
  unfolding send_front
  send_front_defined c p v = ground arith

  abbrev pub with_queue : Connection S → List DataPacket → Connection S
  with_queue c queue = record c { send_queue = queue }

  pub round_front :
      (c : Connection S) (p : DataPacket) (queue : List DataPacket)
      → c.sending ≡ true
      → send_round (with_queue c (p ∷ queue))
        ≡ (do events ← send_front c p; some (with_queue c queue, events))
  unfolding send_round send_front
  round_front c p queue s = rw s refl

  rounds_routed :
      (c : Connection S) (queue : List DataPacket)
      → c.sending ≡ true
      → is_some c.video_transport ≡ true
      → send_rounds (length queue) (with_queue c queue)
        ≡ some (with_queue c [], all_routed c.video_transport c.audio_transport queue)
  unfolding send_rounds
  rounds_routed c [] s v = refl
  rounds_routed c (p ∷ queue) s v =
      rw (round_front c p queue s)
        (rw (send_front_defined c p v) (rw (rounds_routed c queue s v) refl))

  -- While the connection is sending and has a video transport, as many rounds of `sendLoop` as packets
  -- are queued empty the queue and write each packet once, in the order of the queue: an audio packet on
  -- the audio transport if there is one, any other packet on the video transport.
  pub send_rounds_fifo :
      (c : Connection S)
      → c.sending ≡ true
      → is_some c.video_transport ≡ true
      → send_rounds (length c.send_queue) c
        ≡ some (
          record c { send_queue = [] },
          all_routed c.video_transport c.audio_transport c.send_queue,
        )
  send_rounds_fifo c s v = rounds_routed c c.send_queue s v
