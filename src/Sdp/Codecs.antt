-- ===== src/Sdp/Codecs.antt =====
-- src/erizo/SdpInfo.cpp: the constructor with its table of internal codecs, and the look-ups in it.
use erizo.Base.{
  ℕ, Bool, true, false, Option, none, some, List, [], ◌∷◌, Bytes, codes, ◌==◌, ◌&&◌, equal,
  if◌then◌else◌,
}
use erizo.Sdp.PtMap.{PtMap, contains, at, touch}
use erizo.Sdp.Types.{MediaType, video_type, audio_type, avpf, RtpMap, SdpInfo}

abbrev rtp_map : ℕ → Bytes → ℕ → ℕ → MediaType → RtpMap
rtp_map pt name clock channels media = record {
  payload_type = pt;
  encoding_name = name;
  clock_rate = clock;
  media_type = media;
  channels = channels;
}

-- What the constructor pushes, with the payload types of rtputils.h.
unfoldable pub internal_codecs : List RtpMap
internal_codecs =
    rtp_map 100 (codes "VP8") 90000 1 video_type
    ∷ rtp_map 117 (codes "ulpfec") 90000 1 video_type
    ∷ rtp_map 116 (codes "red") 90000 1 video_type
    ∷ rtp_map 111 (codes "opus") 48000 2 audio_type
    ∷ rtp_map 103 (codes "ISAC") 16000 1 audio_type
    ∷ rtp_map 104 (codes "ISAC") 32000 1 audio_type
    ∷ rtp_map 0 (codes "PCMU") 8000 1 audio_type
    ∷ rtp_map 8 (codes "PCMA") 8000 1 audio_type
    ∷ rtp_map 13 (codes "CN") 8000 1 audio_type
    ∷ rtp_map 105 (codes "CN") 16000 1 audio_type
    ∷ rtp_map 106 (codes "CN") 32000 1 audio_type
    ∷ rtp_map 107 (codes "CN") 48000 1 audio_type
    ∷ rtp_map 126 (codes "telephone-event") 8000 1 audio_type
    ∷ []

-- `SdpInfo::SdpInfo`
unfoldable pub new_sdp : SdpInfo
unfolding internal_codecs
new_sdp = record {
  audio_ssrc = 0;
  video_ssrc = 0;
  is_bundle = false;
  has_audio = false;
  has_video = false;
  is_rtcp_mux = false;
  profile = avpf;
  is_fingerprint = false;
  fingerprint = [];
  in_out_pt_map = [];
  out_in_pt_map = [];
  candidate_vector = [];
  crypto_vector = [];
  payload_vector = [];
  internal_payload_vector = internal_codecs;
  ice_username = [];
  ice_password = [];
  audio_desc = [];
  video_desc = [];
}

abbrev pub is_codec : Bytes → ℕ → RtpMap → Bool
is_codec name clock rtp = equal rtp.encoding_name name && rtp.clock_rate == clock

find_codec : List RtpMap → Bytes → ℕ → Option RtpMap
find_codec [] name clock = none
find_codec (rtp ∷ table) name clock =
    if is_codec name clock rtp then some rtp else find_codec table name clock

-- `getCodecByName`
unfoldable pub get_codec_by_name : SdpInfo → Bytes → ℕ → Option RtpMap
unfolding find_codec
get_codec_by_name sdp = find_codec sdp.internal_payload_vector

-- The loop of `supportPayloadType` over `payloadVector_`. Each `inOutPTMap[rtp.payloadType]` is
-- a read that inserts. The result is the map with the answer.
unfoldable pub scan_payloads : List RtpMap → ℕ → PtMap → PtMap × Bool
scan_payloads [] payload_type m = (m, false)
scan_payloads (rtp ∷ rest) payload_type m =
    let later = scan_payloads rest payload_type (touch m rtp.payload_type) in
    if at m rtp.payload_type == payload_type then (touch m rtp.payload_type, true) else later

unfoldable pub support_payload_type : SdpInfo → ℕ → SdpInfo × Bool
support_payload_type sdp payload_type =
    if contains sdp.in_out_pt_map payload_type
    then (let found = scan_payloads sdp.payload_vector payload_type sdp.in_out_pt_map in
        (record sdp { in_out_pt_map = found.0 }, found.1))
    else (sdp, false)

unfoldable pub support_codec_by_name : SdpInfo → Bytes → ℕ → SdpInfo × Bool
support_codec_by_name sdp name clock = elim (get_codec_by_name sdp name clock) [
  | none ↦ (sdp, false)
  | some rtp ↦ support_payload_type sdp rtp.payload_type
]
