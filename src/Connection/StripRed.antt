-- ===== src/Connection/StripRed.antt =====
-- WebRtcConnection.cpp, `deliverVideoData`: a RED packet of one block.
use erizo.Base.{
  ℕ, suc, ◌+◌, ◌<◌, ◌≤◌, ◌≡◌, ◌≢◌, ◌∙◌, sym, ap, subst, false, leb, ltb, ◌||◌, ◌++◌, Option, some,
  Bytes, arith, length, take, drop, length-take, length-drop, length-append, length-set,
  take-append, set-append, get_or-append,
}
use mathlib.Core.List.{append_assoc}
use erizo.Rtp.RtpHeader
use erizo.Rtp.RedHeader
use erizo.Sdp.PtMap.{at}
use erizo.Connection.State.{Connection}
use erizo.Connection.Media.{overwrite, rtp_header_length, red_walk, strip_red}

take_front : (xs ys : Bytes) (n : ℕ) → length xs ≡ n → take n (xs ++ ys) ≡ xs
take_front xs ys n e = rw⁻¹ e (take-append xs ys)

-- Two copies into a buffer, the second behind the first.
overwrite_twice :
    (dest first second : Bytes)
    → overwrite (overwrite dest 0 first) (length first) second
      ≡ first
        ++ (second ++ drop (length first + length second) (first ++ drop (0 + length first) dest))
overwrite_twice dest first second =
    ap
      (λ l.
        l
        ++ (second ++ drop (length first + length second) (first ++ drop (0 + length first) dest)))
      (take-append first (drop (0 + length first) dest))

set_payloadtype-append :
    (xs ys : Bytes) (v : ℕ)
    → 1 < length xs
    → RtpHeader.set_payloadtype (xs ++ ys) v ≡ RtpHeader.set_payloadtype xs v ++ ys
unfolding RtpHeader.set_payloadtype
set_payloadtype-append xs ys v h = rw (get_or-append xs ys 1 0 h) (set-append xs ys 1 _ h)

length-set_payloadtype : (xs : Bytes) (v : ℕ) → length (RtpHeader.set_payloadtype xs v) ≡ length xs
unfolding RtpHeader.set_payloadtype
length-set_payloadtype xs v = length-set xs 1 _

-- What is taken from the buffer after the payload type was set.
taken :
    (first second rest : Bytes) (v : ℕ)
    → 1 < length first
    → take (length first + length second) (RtpHeader.set_payloadtype (first ++ (second ++ rest)) v)
      ≡ RtpHeader.set_payloadtype (first ++ second) v
taken first second rest v h =
    ap (take (length first + length second)) (
      set_payloadtype-append first (second ++ rest) v h
      ∙ sym (append_assoc (RtpHeader.set_payloadtype first v) second rest)
      ∙ ap (λ l. l ++ rest) (sym (set_payloadtype-append first second v h)))
    ∙ take_front (RtpHeader.set_payloadtype (first ++ second) v) rest _
        (length-set_payloadtype (first ++ second) v ∙ length-append first second)

stripped :
    (dest first second : Bytes) (v n : ℕ)
    → length first ≡ n
    → 1 < n
    → take
        (n + length second)
        (RtpHeader.set_payloadtype (overwrite (overwrite dest 0 first) n second) v)
      ≡ RtpHeader.set_payloadtype (first ++ second) v
stripped dest first second v n e h =
    subst
      (λ k.
        take (k + length second)
          (RtpHeader.set_payloadtype (overwrite (overwrite dest 0 first) k second) v)
        ≡ RtpHeader.set_payloadtype (first ++ second) v)
      e
      (ap (λ l. take (length first + length second) (RtpHeader.set_payloadtype l v))
          (overwrite_twice dest first second)
        ∙ taken first second _ v (omega arith))

pub in_bounds :
    (buf : Bytes) (n : ℕ)
    → n < length buf
    → length buf ≤ 3001
    → (leb (length buf) n || ltb 3000 (n + length (drop (n + 1) buf))) ≡ false
in_bounds buf n h l = ground (arith, length-drop (n + 1) buf)

paired :
    {A B : Type 0} (a : A) (x y : B)
    → x ≡ y
    → (c : A) × (◌≡◌ {A = Option (A × B)} (some (a, x)) (some (c, y)))
paired a x y e = (a, ap (λ z. some (a, z)) e)

header_least : (buf : Bytes) → 12 ≤ rtp_header_length buf
unfolding rtp_header_length
header_least buf = ground arith

walk_single :
    (fuel : ℕ) (buf : Bytes) (total : ℕ)
    → total < length buf
    → RedHeader.follow buf total ≢ 1
    → red_walk (suc fuel) buf total ≡ some total
unfolding red_walk
walk_single fuel buf total h f = ground arith

module _ {S : Type 0} where
  -- A packet of at most 3001 bytes whose RTP header, with its extension, is followed by one RED header
  -- alone leaves as the packet without that header: its RTP header, with the payload type that the
  -- block's one is mapped to, and then the block.
  pub strip_red_single :
      (c : Connection S) (buf : Bytes)
      → rtp_header_length buf < length buf
      → length buf ≤ 3001
      → RedHeader.follow buf (rtp_header_length buf) ≢ 1
      → (c' : Connection S) × (strip_red c buf
          ≡ some (
            c',
            RtpHeader.set_payloadtype
                (take (rtp_header_length buf) buf ++ drop (rtp_header_length buf + 1) buf)
                (at c.remote_sdp.in_out_pt_map (RedHeader.payloadtype buf (rtp_header_length buf))),
          ))
  unfolding strip_red
  strip_red_single c buf h l f =
      rw
        (
          walk_single (length buf) buf (rtp_header_length buf) h f,
          in_bounds buf (rtp_header_length buf) h l,
        )
        (paired _ _ _ (
          stripped c.deliver_media_buffer (take (rtp_header_length buf) buf)
            (drop (rtp_header_length buf + 1) buf)
            (at c.remote_sdp.in_out_pt_map (RedHeader.payloadtype buf (rtp_header_length buf)))
            (rtp_header_length buf) (ground (arith, length-take (rtp_header_length buf) buf))
            (omega (arith, header_least buf))))
