-- ===== src/Rtp/RtpHeader.antt =====
-- `rtpheader` of src/erizo/rtputils.h.
use erizo.Base.{ℕ, ◌+◌, ◌*◌, ◌/◌, ◌%◌, ◌^◌, Bytes, set}
use erizo.Rtp.Words.{byte_at, read_be16, read_be32, write_be32}

unfoldable pub extension : Bytes → ℕ
extension buf = byte_at buf 0 / 2 ^ 4 % 2

unfoldable pub payloadtype : Bytes → ℕ
payloadtype buf = byte_at buf 1 % 2 ^ 7

unfoldable pub set_payloadtype : Bytes → ℕ → Bytes
set_payloadtype buf v = set buf 1 (byte_at buf 1 / 2 ^ 7 * 2 ^ 7 + v % 2 ^ 7)

unfoldable pub ssrc : Bytes → ℕ
ssrc buf = read_be32 buf 8

unfoldable pub set_ssrc : Bytes → ℕ → Bytes
set_ssrc buf v = write_be32 buf 8 v

unfoldable pub extensionlength : Bytes → ℕ
extensionlength buf = read_be16 buf 14
