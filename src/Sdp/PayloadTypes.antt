-- ===== src/Sdp/PayloadTypes.antt =====
-- SdpInfo.cpp: what a positive answer of `supportPayloadType` means.
use erizo.Base.{ℕ, ◌≡◌, ◌⊎◌, inl, inr, true, List, [], ◌∷◌, arith}
use erizo.Sdp.Types.{RtpMap, SdpInfo}
use erizo.Sdp.PtMap.{PtMap, at, touch, at-touch}
use erizo.Sdp.Codecs.{scan_payloads, support_payload_type, internal_codecs}
use erizo.Sdp.Supported.{IsSupported, HasType}

-- One of the payloads has a payload type that the map takes to `n`.
abbrev pub Offers : List RtpMap → PtMap → ℕ → Type 0
Offers [] m n = ⊥
Offers (rtp ∷ rest) m n = (at m rtp.payload_type ≡ n) ⊎ Offers rest m n

Offers-touch : (ps : List RtpMap) (m : PtMap) (k n : ℕ) → Offers ps (touch m k) n → Offers ps m n
Offers-touch [] m k n o = elim o [ ]
Offers-touch (rtp ∷ rest) m k n (inl e) = inl (ground (arith, at-touch m k rtp.payload_type))
Offers-touch (rtp ∷ rest) m k n (inr o) = inr (Offers-touch rest m k n o)

scan_payloads-Offers :
    (ps : List RtpMap) (n : ℕ) (m : PtMap) → (scan_payloads ps n m).1 ≡ true → Offers ps m n
unfolding scan_payloads
scan_payloads-Offers [] n m e = cc
scan_payloads-Offers (rtp ∷ rest) n m e = ground (
  arith,
  scan_payloads-Offers rest n (touch m rtp.payload_type),
  Offers-touch rest m rtp.payload_type n,
)

-- In a description whose tables are in order, a payload type that `supportPayloadType` affirms is one
-- of the internal codec table, and some listed payload's type is mapped to it.
support_payload_type_sound :
    (sdp : SdpInfo) (n : ℕ)
    → IsSupported sdp
    → (support_payload_type sdp n).1 ≡ true
    → HasType internal_codecs n × Offers sdp.payload_vector sdp.in_out_pt_map n
unfolding support_payload_type
support_payload_type_sound sdp n h e = (
  h.in_out n (ground arith),
  scan_payloads-Offers sdp.payload_vector n sdp.in_out_pt_map (ground arith),
)
