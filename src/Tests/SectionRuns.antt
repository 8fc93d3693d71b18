-- ===== src/Tests/SectionRuns.antt =====
-- The printed lines of a medium, read back.
use erizo.Base.{◌≡◌, refl, [], ◌∷◌, ◌++◌, codes, arith}
use erizo.Text.CString.{strstr, is_delim, lines}
use erizo.Text.Decimal.{digits_onto}
use erizo.Text.Words.{is_plain_sound}
use erizo.Text.Lines.{line_delims}
use erizo.Sdp.Types.{SdpInfo, CryptoInfo, RtpMap, audio_type, video_type}
use erizo.Sdp.Codecs.{new_sdp}
use erizo.Sdp.Print.{crypto_line, rtpmap_line, crypto_lines, rtpmap_lines}
use erizo.Sdp.Process.{process_lines}
use erizo.Sdp.Reparse.{rtpmap_delims, crypto_delims}
use erizo.Sdp.Sections.{IsReadable, with_payloads}
use erizo.Sdp.Sections.Stored.{stored, as_read}
use erizo.Sdp.Sections.Keys.{IsReadableKey, with_keys, process_lines-printed}

abbrev opus : RtpMap
opus = record {
  payload_type = 111;
  encoding_name = codes "opus";
  clock_rate = 48000;
  media_type = audio_type;
  channels = 2;
}

abbrev vp8 : RtpMap
vp8 = record {
  payload_type = 100;
  encoding_name = codes "VP8";
  clock_rate = 90000;
  media_type = video_type;
  channels = 1;
}

abbrev key : CryptoInfo
key = record {
  tag = 1;
  cipher_suite = codes "AES_CM_128_HMAC_SHA1_80";
  key_params = codes "c2VjcmV0";
  media_type = audio_type;
}

opus-IsReadable : IsReadable opus
unfolding is_delim strstr rtpmap_line digits_onto
opus-IsReadable = (
  omega arith,
  omega arith,
  is_plain_sound rtpmap_delims (codes "opus") refl,
  is_plain_sound line_delims (codes "opus") refl,
  omega arith,
  refl,
)

vp8-IsReadable : IsReadable vp8
unfolding is_delim strstr rtpmap_line digits_onto
vp8-IsReadable = (
  omega arith,
  omega arith,
  is_plain_sound rtpmap_delims (codes "VP8") refl,
  is_plain_sound line_delims (codes "VP8") refl,
  omega arith,
  refl,
)

key-IsReadableKey : IsReadableKey key
unfolding is_delim strstr crypto_line digits_onto
key-IsReadableKey = (
  is_plain_sound crypto_delims (codes "AES_CM_128_HMAC_SHA1_80") refl,
  is_plain_sound crypto_delims (codes "c2VjcmV0") refl,
  is_plain_sound line_delims (codes "AES_CM_128_HMAC_SHA1_80") refl,
  is_plain_sound line_delims (codes "c2VjcmV0") refl,
  omega arith,
  refl,
)

abbrev read_back : SdpInfo
read_back = with_payloads audio_type (vp8 ∷ opus ∷ []) (with_keys audio_type (key ∷ []) new_sdp)

-- The table knows opus at this rate.
opus-stored :
    stored audio_type new_sdp.internal_payload_vector (vp8 ∷ opus ∷ [])
    ≡ as_read audio_type opus ∷ []
unfolding new_sdp
opus-stored = refl

process_lines-printed_example :
    (process_lines
        (new_sdp, audio_type)
        (lines (
          crypto_lines audio_type (key ∷ [])
          ++ (rtpmap_lines audio_type (vp8 ∷ opus ∷ []) ++ codes "a=maxptime:60\n")))
      ≡ process_lines (read_back, audio_type) (lines (codes "a=maxptime:60\n")))
    × (read_back.payload_vector
        ≡ new_sdp.payload_vector
          ++ stored audio_type new_sdp.internal_payload_vector (vp8 ∷ opus ∷ []))
process_lines-printed_example =
    process_lines-printed audio_type (key ∷ []) (vp8 ∷ opus ∷ []) new_sdp (codes "a=maxptime:60\n")
      (key-IsReadableKey, tt) (vp8-IsReadable, (opus-IsReadable, tt))
