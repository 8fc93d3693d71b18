-- ===== src/Rtp/RtcpHeader.antt =====
-- `rtcpheader` of src/erizo/rtputils.h, its packet types, and the test on them.
use erizo.Base.{ℕ, Bool, ◌||◌, Bytes, ◌==◌}
use erizo.Rtp.Words.{byte_at, read_be32, write_be32}

-- RTCP packet types
abbrev pub rtcp_sender_pt : ℕ
rtcp_sender_pt = 200

abbrev pub rtcp_receiver_pt : ℕ
rtcp_receiver_pt = 201

abbrev pub rtcp_feedback_pt : ℕ
rtcp_feedback_pt = 206

unfoldable pub packettype : Bytes → ℕ
packettype buf = byte_at buf 1

unfoldable pub ssrc : Bytes → ℕ
ssrc buf = read_be32 buf 4

unfoldable pub set_ssrc : Bytes → ℕ → Bytes
set_ssrc buf v = write_be32 buf 4 v

unfoldable pub ssrcsource : Bytes → ℕ
ssrcsource buf = read_be32 buf 8

-- The test that the transports and `writeSsrc` make on a packet.
unfoldable pub is_rtcp : Bytes → Bool
unfolding packettype
is_rtcp buf =
    packettype buf == rtcp_sender_pt
    || packettype buf == rtcp_receiver_pt
    || packettype buf == rtcp_feedback_pt
