-- ===== src/Tests/ServingRuns.antt =====
-- A connection from its constructor on: negotiation with DTLS-SRTP, then media.
use erizo.Base.{ℕ, true, List, [], ◌∷◌, Bytes, codes}
use erizo.Rtp.RtpHeader
use erizo.Sdp.Types.{SdpInfo, video_type, savpf}
use erizo.Sdp.Codecs.{new_sdp}
use erizo.Transport.Base.{transport_started}
use erizo.Connection.Operations.{
  Operation, audio_data, video_data, transport_data, transport_state, queue, send_loop_round,
}
use erizo.Tests.Fixtures.{rtp_packet}

abbrev dtls_offer : Bytes
dtls_offer = codes "m=video 1 RTP/SAVPF 100\r\na=fingerprint:sha-256 AB:CD\r\n"

abbrev dtls_sdp : SdpInfo
dtls_sdp = record new_sdp {
  has_video = true;
  profile = savpf;
  is_fingerprint = true;
  fingerprint = codes "AB:CD\n";
}

-- A media packet each way, a queued packet and a round of the send loop.
abbrev media : List (Operation ℕ)
media =
    transport_state transport_started true
    ∷ audio_data rtp_packet
    ∷ video_data rtp_packet
    ∷ transport_data rtp_packet video_type true
    ∷ queue 1 rtp_packet video_type
    ∷ send_loop_round
    ∷ []
