-- ===== src/Rtp/Fields.antt =====
-- rtputils.h: reads of header fields behind writes to the same or another field.
use erizo.Base.{
  ℕ, ◌+◌, ◌*◌, ◌/◌, ◌%◌, ◌^◌, ◌<◌, ◌≤◌, ◌≡◌, ◌∙◌, ◌⊎◌, arith, Bytes, length, get_or-set_self,
  get_or-set_ne, length-set,
}
use erizo.Rtp.Words.{byte_at, read_be32, write_be32}
use erizo.Rtp.RtcpHeader.{is_rtcp}
use erizo.Rtp.RtpHeader.{payloadtype, set_payloadtype}

module _ (buf : Bytes) (i v : ℕ) where
  pub length-write_be32 : length (write_be32 buf i v) ≡ length buf
  unfolding write_be32
  length-write_be32 = omega (arith, length-set {0})

  -- A byte outside the four that are written stays.
  pub byte_at-write_be32 :
      (j : ℕ) → (j < i) ⊎ (i + 4 ≤ j) → byte_at (write_be32 buf i v) j ≡ byte_at buf j
  unfolding write_be32
  byte_at-write_be32 j h =
      get_or-set_ne _ (i + 3) j _ 0 (omega arith)
      ∙ get_or-set_ne _ (i + 2) j _ 0 (omega arith)
      ∙ get_or-set_ne _ (i + 1) j _ 0 (omega arith)
      ∙ get_or-set_ne _ i j _ 0 (omega arith)

  module _ (h : i + 4 ≤ length buf) where
    written_0 : byte_at (write_be32 buf i v) i ≡ v / 2 ^ 24 % 256
    unfolding write_be32
    written_0 =
        get_or-set_ne _ (i + 3) i _ 0 (omega arith)
        ∙ get_or-set_ne _ (i + 2) i _ 0 (omega arith)
        ∙ get_or-set_ne _ (i + 1) i _ 0 (omega arith)
        ∙ get_or-set_self buf i _ 0 (omega arith)

    written_1 : byte_at (write_be32 buf i v) (i + 1) ≡ v / 2 ^ 16 % 256
    unfolding write_be32
    written_1 =
        get_or-set_ne _ (i + 3) (i + 1) _ 0 (omega arith)
        ∙ get_or-set_ne _ (i + 2) (i + 1) _ 0 (omega arith)
        ∙ get_or-set_self _ (i + 1) _ 0 (omega (arith, length-set {0}))

    written_2 : byte_at (write_be32 buf i v) (i + 2) ≡ v / 2 ^ 8 % 256
    unfolding write_be32
    written_2 =
        get_or-set_ne _ (i + 3) (i + 2) _ 0 (omega arith)
        ∙ get_or-set_self _ (i + 2) _ 0 (omega (arith, length-set {0}))

    written_3 : byte_at (write_be32 buf i v) (i + 3) ≡ v % 256
    unfolding write_be32
    written_3 = get_or-set_self _ (i + 3) _ 0 (omega (arith, length-set {0}))

    -- A value below 2^32 that is written in network order, with four bytes of the packet from its offset
    -- on, reads back.
    pub read_be32-write_be32 : v < 2 ^ 32 → read_be32 (write_be32 buf i v) i ≡ v
    unfolding read_be32
    read_be32-write_be32 lt = omega (arith, written_0, written_1, written_2, written_3)

-- A field of four bytes is untouched by a write to another field.
pub read_be32-write_be32_ne :
    (buf : Bytes) (i j v : ℕ)
    → (j + 4 ≤ i) ⊎ (i + 4 ≤ j)
    → read_be32 (write_be32 buf i v) j ≡ read_be32 buf j
unfolding read_be32
read_be32-write_be32_ne buf i j v h = omega (
  arith,
  byte_at-write_be32 buf i v j (omega arith),
  byte_at-write_be32 buf i v (j + 1) (omega arith),
  byte_at-write_be32 buf i v (j + 2) (omega arith),
  byte_at-write_be32 buf i v (j + 3) (omega arith),
)

-- Whether a packet is RTCP depends on its second byte only.
pub is_rtcp_eq : (a b : Bytes) → byte_at a 1 ≡ byte_at b 1 → is_rtcp a ≡ is_rtcp b
unfolding is_rtcp
is_rtcp_eq a b h = rw h

-- In a packet of at least two bytes the payload type reads back as the low seven bits of what was
-- written.
payloadtype-set_payloadtype :
    (buf : Bytes) (v : ℕ) → 2 ≤ length buf → payloadtype (set_payloadtype buf v) ≡ v % 2 ^ 7
unfolding payloadtype set_payloadtype
payloadtype-set_payloadtype buf v h =
    omega (arith, get_or-set_self buf 1 (byte_at buf 1 / 2 ^ 7 * 2 ^ 7 + v % 2 ^ 7) 0 (omega arith))

pub length-set_payloadtype : (buf : Bytes) (v : ℕ) → length (set_payloadtype buf v) ≡ length buf
unfolding set_payloadtype
length-set_payloadtype buf v = length-set buf 1 _

pub payloadtype-lt : (buf : Bytes) → payloadtype buf < 128
unfolding payloadtype
payloadtype-lt buf = omega arith
