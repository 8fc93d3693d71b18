-- ===== src/Connection/Media.antt =====
-- src/erizo/WebRtcConnection.cpp: the media methods. A packet is the caller's buffer up to its length;
-- a method that writes into it returns it. `none` is undefined behaviour.
use erizo.Base.{
  ℕ, zero, suc, ◌+◌, ◌*◌, ◌%◌, ◌^◌, Bool, not, ◌&&◌, ◌||◌, List, [], ◌∷◌, ◌++◌, Option, none, some,
  Bytes, ◌==◌, length, ltb, leb, if◌then◌else◌, ◌>>=◌, map, take, drop,
}
use erizo.Srtp.{SrtpLibrary}
use erizo.Rtp.Words.{write_be32}
use erizo.Rtp.RtpHeader
use erizo.Rtp.RtcpHeader
use erizo.Rtp.RtcpHeader.{is_rtcp, rtcp_sender_pt, rtcp_receiver_pt, rtcp_feedback_pt}
use erizo.Rtp.RedHeader
use erizo.Rtp.RedHeader.{red_90000_pt}
use erizo.Sdp.Types.{MediaType, video_type, audio_type, other}
use erizo.Sdp.PtMap.{PtMap, at, touch}
use erizo.Sdp.Codecs.{support_payload_type}
use erizo.Transport.Base.{TransportEvent, transport_ready}
use erizo.Transport.Dtls.{dtls_write}
use erizo.Transport.Sdes.{sdes_write}
use erizo.Connection.State.{
  AnyTransport, dtls_transport, sdes_transport, Connection, ConnectionEvent, video_event,
  audio_event, deliver_video, deliver_audio, deliver_fb, update_state,
}

-- `writeSsrc`
unfoldable pub write_ssrc : Bytes → ℕ → Bytes
write_ssrc buf ssrc =
    if is_rtcp buf then RtcpHeader.set_ssrc buf ssrc else RtpHeader.set_ssrc buf ssrc

-- The packet holds the SSRC that `writeSsrc` writes. A shorter one is written past its end.
abbrev pub has_ssrc : Bytes → Bool
has_ssrc buf = if is_rtcp buf then leb 8 (length buf) else leb 12 (length buf)

-- The packet holds the twelve bytes up to the SSRC of an RTP header, or the source of an RTCP one.
abbrev pub has_header : Bytes → Bool
has_header buf = leb 12 (length buf)

-- `if (m[head->payloadtype] != 0) head->payloadtype = m[head->payloadtype]`
unfoldable pub map_payloadtype : PtMap → Bytes → Bytes
map_payloadtype m buf =
    if at m (RtpHeader.payloadtype buf) == 0
    then buf
    else RtpHeader.set_payloadtype buf (at m (RtpHeader.payloadtype buf))

-- The map behind those reads.
abbrev pub touched : PtMap → Bytes → PtMap
touched m buf = touch m (RtpHeader.payloadtype buf)

-- `memcpy(dest + off, src, …)`
abbrev pub overwrite : Bytes → ℕ → Bytes → Bytes
overwrite dest off src = take off dest ++ (src ++ drop (off + length src) dest)

-- `while (redhead->follow)`: the offset of the last RED header. A header past the packet's end is
-- read outside the buffer, `none`. Each round goes on by four bytes or more, so the packet's length
-- is fuel enough.
unfoldable pub red_walk : ℕ → Bytes → ℕ → Option ℕ
red_walk zero buf total = none
red_walk (suc fuel) buf total =
    let further = red_walk fuel buf (total + (RedHeader.get_length buf total + 4)) in
    if leb (length buf) total
    then none
    else if RedHeader.follow buf total == 1
    then further
    else some total

-- The length of the RTP header, with its extension if it has one.
unfoldable pub rtp_header_length : Bytes → ℕ
rtp_header_length buf =
    if RtpHeader.extension buf == 1 then 12 + (RtpHeader.extensionlength buf * 4 + 4) else 12

module _ {S : Type 0} where
  abbrev set_in_out : Connection S → PtMap → Connection S
  set_in_out c m = record c { remote_sdp = record c.remote_sdp { in_out_pt_map = m } }

  -- RED to VP8: the header, then what follows the last RED header, into `deliverMediaBuffer_`.
  -- A `memcpy` of a negative length, or past the 3000 bytes, is undefined.
  unfoldable pub strip_red : Connection S → Bytes → Option (Connection S × Bytes)
  strip_red c buf =
      let header = rtp_header_length buf in
      (do
        total ← red_walk (suc (length buf)) buf header
        let payload = drop (total + 1) buf
        let copied = overwrite (overwrite c.deliver_media_buffer 0 (take header buf)) total payload
        let pt = RedHeader.payloadtype buf total
        let media = RtpHeader.set_payloadtype copied (at c.remote_sdp.in_out_pt_map pt)
        if leb (length buf) total || ltb 3000 (total + length payload)
            then none
            else some (
              record (set_in_out c (touch c.remote_sdp.in_out_pt_map pt)) {
                deliver_media_buffer = media;
              },
              take (header + length payload) media,
            ))

  -- What `deliverVideoData` sends, before the SSRC is written.
  unfoldable pub outgoing_video : Connection S → Bytes → Option (Connection S × Bytes)
  unfolding strip_red
  outgoing_video c buf =
      let m = c.remote_sdp.in_out_pt_map in
      let mapped = map_payloadtype m buf in
      let c1 = set_in_out c (touched m buf) in
      let (sdp, supported) = support_payload_type c1.remote_sdp (RtpHeader.payloadtype mapped) in
      let c2 = record c1 { remote_sdp = sdp } in
      if not (RtpHeader.payloadtype mapped == red_90000_pt)
      then some (c1, mapped)
      else if supported
      then some (c2, mapped)
      else strip_red c2 mapped

module _ {S : Type 0} (lib : SrtpLibrary S) where
  -- The virtual `write`.
  unfoldable pub write : AnyTransport S → Bytes → Option (AnyTransport S × List TransportEvent)
  write (dtls_transport t) buf = do
    (t', events) ← dtls_write lib t buf
    some (dtls_transport t', events)
  write (sdes_transport t) buf = do
    (t', events) ← sdes_write lib t buf
    some (sdes_transport t', events)

  unfoldable pub write_video :
      Connection S → Bytes → Option (AnyTransport S) → Option (Connection S × List ConnectionEvent)
  unfolding write
  write_video c buf none = some (c, [])
  write_video c buf (some t) = do
    (t', events) ← write t buf
    some (record c { video_transport = some t' }, map video_event events)

  unfoldable pub write_audio :
      Connection S → Bytes → Option (AnyTransport S) → Option (Connection S × List ConnectionEvent)
  unfolding write
  write_audio c buf none = some (c, [])
  write_audio c buf (some t) = do
    (t', events) ← write t buf
    some (record c { audio_transport = some t' }, map audio_event events)

  -- `deliverAudioData`
  unfoldable pub deliver_audio_data :
      Connection S → Bytes → Option (Connection S × List ConnectionEvent)
  unfolding write_audio write_video
  deliver_audio_data c buf =
      let m = c.remote_sdp.in_out_pt_map in
      let named = write_ssrc buf c.audio_sink_ssrc in
      let mapped = map_payloadtype m named in
      let c1 = set_in_out c (touched m named) in
      if not (has_ssrc buf)
      then none
      else if c.bundle
      then write_video c1 mapped c.video_transport
      else write_audio c1 mapped c.audio_transport

  -- `deliverVideoData`
  unfoldable pub deliver_video_data :
      Connection S → Bytes → Option (Connection S × List ConnectionEvent)
  unfolding write_video
  deliver_video_data c buf = do
    (c1, out) ← outgoing_video c buf
    if has_ssrc out
        then write_video c1 (write_ssrc out c1.video_sink_ssrc) c1.video_transport
        else none

  -- The packet that `deliverFeedback` sends.
  unfoldable pub feedback_packet : Connection S → Bytes → Bytes
  feedback_packet c buf =
      if RtcpHeader.ssrcsource buf == c.video_source_ssrc
      then RtcpHeader.set_ssrc buf c.video_sink_ssrc
      else RtcpHeader.set_ssrc buf c.audio_sink_ssrc

  -- `deliverFeedback`: both branches of its last test write to the video transport.
  unfoldable pub deliver_feedback :
      Connection S → Bytes → Option (Connection S × List ConnectionEvent)
  unfolding write_video feedback_packet
  deliver_feedback c buf =
      if has_header buf then write_video c (feedback_packet c buf) c.video_transport else none

  -- The bytes of `rtcpPacket` that `sendFirPacket` fills.
  unfoldable pub fir_packet : Connection S → Bytes
  fir_packet c =
      0x84
      ∷ 206
      ∷ 0
      ∷ 4
      ∷ (write_be32 (0 ∷ 0 ∷ 0 ∷ 0 ∷ []) 0 c.video_sink_ssrc
          ++ (0
              ∷ 0
              ∷ 0
              ∷ 0
              ∷ (write_be32 (0 ∷ 0 ∷ 0 ∷ 0 ∷ []) 0 c.video_source_ssrc
                  ++ ((c.sequence_number_fir % 2 ^ 8) ∷ 0 ∷ 0 ∷ 0 ∷ []))))

  -- `sendFirPacket`
  unfoldable pub send_fir_packet : Connection S → Option (Connection S × List ConnectionEvent)
  unfolding write_video fir_packet
  send_fir_packet c =
      let c1 = record c { sequence_number_fir = c.sequence_number_fir + 1 } in
      write_video c1 (fir_packet c1) c1.video_transport

abbrev pub is_feedback : Bytes → Bool
is_feedback buf =
    RtcpHeader.packettype buf == rtcp_receiver_pt || RtcpHeader.packettype buf == rtcp_feedback_pt

-- The SSRC that a packet of a bundle is told apart by.
unfoldable pub received_ssrc : Bytes → ℕ
received_ssrc buf =
    if RtcpHeader.packettype buf == rtcp_sender_pt then RtcpHeader.ssrc buf else RtpHeader.ssrc buf

-- The packet holds the SSRC that is read: in a bundle that of a sender report may be the one.
abbrev pub holds_ssrc : Bool → Bytes → Bool
holds_ssrc bundle buf =
    if bundle && RtcpHeader.packettype buf == rtcp_sender_pt
    then leb 8 (length buf)
    else has_header buf

module _ {S : Type 0} where
  -- In a bundle: by SSRC, and a null sink is undefined behaviour.
  unfoldable pub deliver_bundled : Connection S → Bytes → Option (List ConnectionEvent)
  deliver_bundled c buf =
      let ssrc = received_ssrc buf in
      if ssrc == c.video_source_ssrc || ssrc == c.video_sink_ssrc
      then (if c.has_video_sink then some (deliver_video buf ∷ []) else none)
      else if ssrc == c.audio_source_ssrc || ssrc == c.audio_sink_ssrc
      then (if c.has_audio_sink then some (deliver_audio buf ∷ []) else none)
      else some []

  -- A transport of its own; the first packet tells the SSRC if the description did not.
  unfoldable pub deliver_of :
      Connection S → Bytes → MediaType → Bool → Connection S × List ConnectionEvent
  deliver_of c buf audio_type from_video =
      let learned = record c { audio_source_ssrc = RtpHeader.ssrc buf } in
      let (c1, events) =
        if c.audio_source_ssrc == 0
        then update_state learned transport_ready from_video
        else (c, []) in
      if c.has_audio_sink
      then (c1, events ++ (deliver_audio (RtpHeader.set_ssrc buf c.audio_sink_ssrc) ∷ []))
      else (c, [])
  deliver_of c buf video_type from_video =
      let learned = record c { video_source_ssrc = RtpHeader.ssrc buf } in
      let (c1, events) =
        if c.video_source_ssrc == 0
        then update_state learned transport_ready from_video
        else (c, []) in
      if c.has_video_sink
      then (c1, events ++ (deliver_video (RtpHeader.set_ssrc buf c.video_sink_ssrc) ∷ []))
      else (c, [])
  deliver_of c buf other from_video = (c, [])

  -- Media, or a sender report: the payload type is mapped back, and the packet goes to its sink.
  unfoldable pub transport_media :
      Connection S → Bytes → MediaType → Bool → Option (Connection S × List ConnectionEvent)
  unfolding deliver_of deliver_bundled
  transport_media c buf media from_video =
      let m = c.remote_sdp.out_in_pt_map in
      let mapped = map_payloadtype m buf in
      let c1 = record c { remote_sdp = record c.remote_sdp { out_in_pt_map = touched m buf } } in
      if not (holds_ssrc c.bundle buf)
      then none
      else if c.bundle
      then (do events ← deliver_bundled c1 mapped; some (c1, events))
      else some (deliver_of c1 mapped media from_video)

  -- `onTransportData`
  unfoldable pub on_transport_data :
      Connection S → Bytes → MediaType → Bool → Option (Connection S × List ConnectionEvent)
  unfolding transport_media
  on_transport_data c buf media from_video =
      if not c.has_audio_sink && not c.has_video_sink && not c.has_fb_sink
      then some (c, [])
      else if is_feedback buf
      then some (c, if c.has_fb_sink then deliver_fb buf ∷ [] else [])
      else transport_media c buf media from_video
