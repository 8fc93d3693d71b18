-- ===== src/Connection/Packets.antt =====
-- WebRtcConnection.cpp: the packets that the media methods write, and the send queue.
use erizo.Base.{
  ℕ, ◌<◌, ◌≤◌, ◌^◌, ◌≡◌, true, false, [], ◌∷◌, some, Bytes, arith, if◌then◌else◌, length,
  length-append, is_some, ◌↔◌, inl,
}
use erizo.Rtp.RtpHeader
use erizo.Rtp.RtcpHeader
use erizo.Rtp.RtcpHeader.{is_rtcp, rtcp_sender_pt, rtcp_receiver_pt, rtcp_feedback_pt}
use erizo.Rtp.Fields.{read_be32-write_be32, byte_at-write_be32}
use erizo.Sdp.Types.{MediaType, is_media, video_type}
use erizo.Connection.State.{Connection, DataPacket, video_packet, audio_packet, queue_data}
use erizo.Connection.Media.{write_ssrc, received_ssrc}

-- In a packet of at least 12 bytes that is RTP or a sender report, the SSRC below 2^32 that `writeSsrc`
-- writes is the one that `onTransportData` tells it apart by.
pub received_ssrc-write_ssrc :
    (buf : Bytes) (ssrc : ℕ)
    → 12 ≤ length buf
    → ssrc < 2 ^ 32
    → (is_rtcp buf ≡ true → RtcpHeader.packettype buf ≡ rtcp_sender_pt)
    → received_ssrc (write_ssrc buf ssrc) ≡ ssrc
unfolding received_ssrc write_ssrc RtcpHeader.ssrc RtcpHeader.set_ssrc RtcpHeader.packettype is_rtcp
    RtpHeader.ssrc RtpHeader.set_ssrc
received_ssrc-write_ssrc buf ssrc l b sr = ground (
  arith,
  read_be32-write_be32 buf 4 ssrc (omega arith) b,
  read_be32-write_be32 buf 8 ssrc (omega arith) b,
  byte_at-write_be32 buf 4 ssrc 1 (inl (omega arith)),
  byte_at-write_be32 buf 8 ssrc 1 (inl (omega arith)),
)

module _ {S : Type 0} (c : Connection S) (comp : ℕ) (buf : Bytes) (media : MediaType) where
  -- The packet that `queueData` stores.
  abbrev pub queued : DataPacket
  queued = record {
    comp = comp;
    payload = buf;
    kind = if is_media media video_type then video_packet else audio_packet;
  }

  -- A queue of at most 1000 packets stays one of at most 1000 when `queueData` returns.
  queue_data-bound :
      {c' : Connection S}
      → length c.send_queue ≤ 1000
      → queue_data c comp buf media ≡ some c'
      → length c'.send_queue ≤ 1000
  unfolding queue_data
  queue_data-bound {c'} h e = ground (arith, length-append c.send_queue (queued ∷ []))

  -- `queueData` writes past the 1200 bytes of its packet exactly when the queue has room and the packet
  -- is longer than 1200 bytes.
  queue_data-overflow :
      (is_some (queue_data c comp buf media) ≡ false)
      ↔ ((length c.send_queue < 1000) × (1200 < length buf))
  unfolding queue_data
  queue_data-overflow = ground arith
