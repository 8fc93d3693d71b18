-- ===== src/Rtp.antt =====
-- src/erizo/rtputils.h: the RTP, RTCP and RED headers over the bytes of a packet. The bit fields lie
-- as on a little-endian machine (x86, which the build targets): the first field of a 32-bit unit
-- is in the low bits of its first byte.
pub mod Words
pub mod RtpHeader
pub mod RtcpHeader
pub mod RedHeader
pub mod Fields
pub mod Red
