-- ===== src/Connection/RedWalk.antt =====
-- WebRtcConnection.cpp, `deliverVideoData`: the loop over the RED headers of a packet.
use erizo.Base.{ℕ, zero, suc, ◌+◌, ◌≤◌, ◌<◌, ◌≡◌, ◌≢◌, some, Bytes, arith, length}
use erizo.Rtp.RedHeader
use erizo.Connection.Media.{red_walk}

-- With fuel for every byte of the packet behind the first header, one more round changes nothing: the
-- loop ends by itself.
red_walk_enough :
    (fuel : ℕ) (buf : Bytes) (total : ℕ)
    → length buf < fuel + total
    → red_walk (suc fuel) buf total ≡ red_walk (suc (suc fuel)) buf total
unfolding red_walk
red_walk_enough zero buf total h = ground arith
red_walk_enough (suc fuel) buf total h =
    ground
      (arith, red_walk_enough fuel buf (total + (RedHeader.get_length buf total + 4)) (omega arith))

-- The loop over the RED headers goes forward only, and ends on a header that is inside the packet and
-- is not followed by another.
pub red_walk_last :
    (fuel : ℕ) (buf : Bytes) (total : ℕ) {last : ℕ}
    → red_walk fuel buf total ≡ some last
    → (total ≤ last) × (last < length buf) × (RedHeader.follow buf last ≢ 1)
unfolding red_walk
red_walk_last zero buf total {last} e = cc
red_walk_last (suc fuel) buf total {last} e =
    ground
      (arith, red_walk_last fuel buf (total + (RedHeader.get_length buf total + 4)) {last = last})
