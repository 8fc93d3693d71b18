-- ===== src/Rtp/RedHeader.antt =====
-- `redheader` of src/erizo/rtputils.h, at an offset of the packet.
use erizo.Base.{ℕ, ◌+◌, ◌*◌, ◌/◌, ◌%◌, ◌^◌, Bytes}
use erizo.Rtp.Words.{byte_at, ntohl}

abbrev pub red_90000_pt : ℕ
red_90000_pt = 116

unfoldable pub payloadtype : Bytes → ℕ → ℕ
payloadtype buf off = byte_at buf off % 2 ^ 7

unfoldable pub follow : Bytes → ℕ → ℕ
follow buf off = byte_at buf off / 2 ^ 7 % 2

-- the 24-bit field, before any change of byte order
unfoldable pub ts_length : Bytes → ℕ → ℕ
ts_length buf off =
    byte_at buf (off + 1) + byte_at buf (off + 2) * 2 ^ 8 + byte_at buf (off + 3) * 2 ^ 16

-- `& 0xfffc00` and `>> 10` keep bits 10 to 23
unfoldable pub get_ts : Bytes → ℕ → ℕ
unfolding ts_length ntohl
get_ts buf off = ntohl (ts_length buf off) / 2 ^ 10 % 2 ^ 14

-- `& 0x3ff` keeps the low ten bits
unfoldable pub get_length : Bytes → ℕ → ℕ
unfolding ts_length ntohl
get_length buf off = ntohl (ts_length buf off) % 2 ^ 10
