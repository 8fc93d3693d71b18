-- ===== src/Rtp/Red.antt =====
-- rtputils.h, `redheader`: what `getTS` and `getLength` give against the fields of RFC 2198.
use erizo.Base.{ℕ, ◌+◌, ◌*◌, ◌/◌, ◌%◌, ◌^◌, ◌<◌, ◌≡◌, ◌↔◌, arith, Bytes}
use erizo.Rtp.Words.{byte_at}
use erizo.Rtp.RedHeader.{get_length, get_ts}

-- The last three bytes of a RED block header, in network order.
abbrev pub block_word : Bytes → ℕ → ℕ
block_word buf off =
    byte_at buf (off + 1) * 2 ^ 16 + byte_at buf (off + 2) * 2 ^ 8 + byte_at buf (off + 3)

-- RFC 2198: the block length is the low ten bits, the timestamp offset the fourteen above them.
abbrev pub block_length : Bytes → ℕ → ℕ
block_length buf off = block_word buf off % 2 ^ 10

abbrev pub timestamp_offset : Bytes → ℕ → ℕ
timestamp_offset buf off = block_word buf off / 2 ^ 10

abbrev pub IsBlock : Bytes → ℕ → Type 0
IsBlock buf off =
    (byte_at buf (off + 1) < 256) × (byte_at buf (off + 2) < 256) × (byte_at buf (off + 3) < 256)

-- `getLength` swaps 32 bits for a 24-bit field, so it depends on the last byte alone: it is 256
-- times that byte's value modulo 4.
get_length_shifted :
    (buf : Bytes) (off : ℕ)
    → IsBlock buf off
    → get_length buf off ≡ 256 * (byte_at buf (off + 3) % 4)
unfolding get_length
get_length_shifted buf off h = omega arith

-- For a well-formed block header, `getLength` gives the block length of RFC 2198 exactly when that
-- length is 0.
pub get_length_right_iff :
    (buf : Bytes) (off : ℕ)
    → IsBlock buf off
    → (get_length buf off ≡ block_length buf off) ↔ (block_length buf off ≡ 0)
unfolding get_length
get_length_right_iff buf off h = (λ e. omega arith, λ e. omega arith)

-- For a well-formed block header, `getTS` gives the timestamp offset of RFC 2198 shifted by eight
-- bits: its upper six bits are lost, and the lower eight are followed by the top six bits of the
-- last byte.
get_ts_shifted :
    (buf : Bytes) (off : ℕ)
    → IsBlock buf off
    → get_ts buf off ≡ block_word buf off * 2 ^ 8 % 2 ^ 24 / 2 ^ 10
unfolding get_ts
get_ts_shifted buf off h = omega arith
