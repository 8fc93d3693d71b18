-- ===== src/Rtp/Words.antt =====
-- src/erizo/rtputils.h and the byte-order calls on its fields: 16-bit and 32-bit units of a packet.
-- A read past the packet's end is undefined in the source and gives 0 here; the theorems state the
-- lengths they need.
use erizo.Base.{ℕ, ◌+◌, ◌*◌, ◌/◌, ◌%◌, ◌^◌, Bytes, get_or, set}

abbrev pub byte_at : Bytes → ℕ → ℕ
byte_at buf i = get_or buf i 0

-- `ntohs` and `ntohl` of the 16-bit or 32-bit unit at an offset: the bytes in network order.
abbrev pub read_be16 : Bytes → ℕ → ℕ
read_be16 buf i = byte_at buf i * 2 ^ 8 + byte_at buf (i + 1)

unfoldable pub read_be32 : Bytes → ℕ → ℕ
read_be32 buf i =
    byte_at buf i * 2 ^ 24
    + byte_at buf (i + 1) * 2 ^ 16
    + byte_at buf (i + 2) * 2 ^ 8
    + byte_at buf (i + 3)

-- The unit at an offset becomes `htonl(v)`.
unfoldable pub write_be32 : Bytes → ℕ → ℕ → Bytes
write_be32 buf i v =
    set
      (set (set (set buf i (v / 2 ^ 24 % 256)) (i + 1) (v / 2 ^ 16 % 256)) (i + 2)
        (v / 2 ^ 8 % 256))
      (i + 3) (v % 256)

-- `ntohl` of a 32-bit value: its four bytes in the opposite order.
unfoldable pub ntohl : ℕ → ℕ
ntohl v =
    v % 2 ^ 8 * 2 ^ 24
    + v / 2 ^ 8 % 2 ^ 8 * 2 ^ 16
    + v / 2 ^ 16 % 2 ^ 8 * 2 ^ 8
    + v / 2 ^ 24 % 2 ^ 8
