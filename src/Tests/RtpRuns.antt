-- ===== src/Tests/RtpRuns.antt =====
-- The fields of sample packets.
use erizo.Base.{◌≡◌, ◌↔◌, [], ◌∷◌, Bytes, arith}
use erizo.Rtp.RedHeader.{get_length}
use erizo.Rtp.Red.{IsBlock, block_length, get_length_right_iff}

-- A block of 14 bytes.
abbrev red_block : Bytes
red_block = 228 ∷ 1 ∷ 2 ∷ 14 ∷ []

red_block-IsBlock : IsBlock red_block 0
red_block-IsBlock = (omega arith, omega arith, omega arith)

get_length_right_iff_example :
    (get_length red_block 0 ≡ block_length red_block 0) ↔ (block_length red_block 0 ≡ 0)
get_length_right_iff_example = get_length_right_iff red_block 0 red_block-IsBlock
