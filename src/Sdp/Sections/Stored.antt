-- ===== src/Sdp/Sections/Stored.antt =====
-- SdpInfo.cpp: the payloads of a medium that are stored when they are read.
use erizo.Base.{
  ℕ, ◌≡◌, refl, sym, ◌∙◌, Bool, false, ◌&&◌, ◌||◌, List, [], ◌∷◌, ◌++◌, Bytes, equal, ◌==◌,
  if◌then◌else◌, arith, Bool-cases, inl, inr,
}
use mathlib.Core.List.{append_assoc, append-nil}
use erizo.Sdp.Types.{MediaType, is_media, RtpMap, SdpInfo}
use erizo.Sdp.Codecs.{is_codec}
use erizo.Sdp.Lines.{map_codecs, add_payload}
use erizo.Sdp.Sections.{with_payload, with_payloads}

-- The table has a codec of that name and rate.
abbrev pub in_table : List RtpMap → Bytes → ℕ → Bool
in_table [] name clock = false
in_table (rtp ∷ table) name clock =
    (equal rtp.encoding_name name && rtp.clock_rate == clock) || in_table table name clock

-- A payload as the parser stores it: without its channels.
abbrev pub as_read : MediaType → RtpMap → RtpMap
as_read media rtp = record {
  payload_type = rtp.payload_type;
  encoding_name = rtp.encoding_name;
  clock_rate = rtp.clock_rate;
  media_type = media;
  channels = 0;
}

-- The payloads of a medium that the table knows, as they are stored.
abbrev pub stored : MediaType → List RtpMap → List RtpMap → List RtpMap
stored media table [] = []
stored media table (rtp ∷ rest) =
    if is_media rtp.media_type media && in_table table rtp.encoding_name rtp.clock_rate
    then as_read media rtp ∷ stored media table rest
    else stored media table rest

map_codecs_kept :
    (table : List RtpMap) (name : Bytes) (clock pt : ℕ) (sdp : SdpInfo)
    → ((map_codecs table name clock pt sdp).0.payload_vector ≡ sdp.payload_vector)
      × ((map_codecs table name clock pt sdp).0.internal_payload_vector
          ≡ sdp.internal_payload_vector)
      × ((map_codecs table name clock pt sdp).1 ≡ in_table table name clock)
unfolding map_codecs
map_codecs_kept [] name clock pt sdp = (refl, refl, refl)
map_codecs_kept (rtp ∷ table) name clock pt sdp = elim (Bool-cases (is_codec name clock rtp)) [
  | inl e ↦ rw e (let h = map_codecs_kept table name clock pt _ in (h.0, h.1, ground (arith, e)))
  | inr e ↦
      rw e (let h = map_codecs_kept table name clock pt sdp in (h.0, h.1, ground (arith, e, h.2)))
]

with_payload-stored :
    (media : MediaType) (sdp : SdpInfo) (rtp : RtpMap)
    → ((with_payload media sdp rtp).internal_payload_vector ≡ sdp.internal_payload_vector)
      × ((with_payload media sdp rtp).payload_vector ≡ (
          if in_table sdp.internal_payload_vector rtp.encoding_name rtp.clock_rate
          then sdp.payload_vector ++ (as_read media rtp ∷ [])
          else sdp.payload_vector))
unfolding add_payload
with_payload-stored media sdp rtp =
    let h =
      map_codecs_kept sdp.internal_payload_vector rtp.encoding_name rtp.clock_rate rtp.payload_type
        sdp in
    ground (arith, h.0, h.1, h.2)

pub with_payloads-stored :
    (media : MediaType) (rtps : List RtpMap) (sdp : SdpInfo)
    → (with_payloads media rtps sdp).payload_vector
      ≡ sdp.payload_vector ++ stored media sdp.internal_payload_vector rtps
with_payloads-stored media [] sdp = sym (append-nil sdp.payload_vector)
with_payloads-stored media (rtp ∷ rest) sdp = elim (Bool-cases (is_media rtp.media_type media)) [
  | inr miss ↦ rw miss (with_payloads-stored media rest sdp)
  | inl hit ↦ rw hit (
      let (table, vector) = with_payload-stored media sdp rtp in
      with_payloads-stored media rest (with_payload media sdp rtp)
      ∙ rw (table, vector)
          (elim (Bool-cases
            (in_table sdp.internal_payload_vector rtp.encoding_name rtp.clock_rate)) [
              | inl e ↦ rw e (append_assoc sdp.payload_vector (as_read media rtp ∷ []) _)
              | inr e ↦ rw e refl
            ]))
]
