-- ===== src/Tests/SdpRuns.antt =====
-- A description as a browser sends it, parsed.
use mathlib.Core.Option
use erizo.Base.{ℕ, ◌≡◌, refl, Bool, true, Option, some, List, [], ◌∷◌, map, Bytes, codes}
use erizo.Sdp.Reparse.{rtpmap_delims, crypto_delims}
use erizo.Sdp.Lines.{Parse}
use erizo.Text.Words.{IsWord, is_plain_sound}
use erizo.Text.CString.{is_delim}
use erizo.Sdp.Types.{RtpMap, SdpInfo, savpf, audio_type, CandidateInfo, CryptoInfo}
use erizo.Sdp.Codecs.{new_sdp}
use erizo.Sdp.Supported.{IsSupported}
use erizo.Sdp.Parsed.{AllComplete, process_sdp-IsParsed}
use erizo.Sdp.Codecs.{support_payload_type, scan_payloads}
use erizo.Sdp.Process.{process_sdp}
use erizo.Sdp.Lines.{
  process_line, process_blocks, fingerprint_block, candidate_block, crypto_block, user_block,
  pass_block, ssrc_block, rtpmap_block,
}
use erizo.Sdp.Candidate.{
  process_candidate, candidate_body, candidate_address, candidate_type, candidate_relay, type_index,
  host_type_of,
}
use erizo.Sdp.PtMap.{put, at, contains}
use erizo.Text.CString.{
  c_str, strip_cr, lines, strstr, next_token, token_of, cut, saved, strtok_loop,
}
use erizo.Text.Decimal.{parse_uint}

abbrev offer : Bytes
offer =
    codes
      "v=0\r\na=group:BUNDLE audio video\r\nm=audio 1 RTP/SAVPF 111\r\na=ice-ufrag:uU\r\na=ice-pwd:pP\r\na=rtcp-mux\r\na=crypto:1 AES_CM_128_HMAC_SHA1_80 inline:kk\r\na=rtpmap:96 opus/48000/2\r\na=ssrc:77 cname:x\r\na=candidate:0 1 udp 2130706432 1.2.3.4 5678 typ relay raddr 9.8.7.6 rport 11 generation 0\r\n"

-- The fields that the test looks at.
abbrev summary : SdpInfo → ℕ × Bool × ℕ × List Bytes × List Bytes
summary s = (
  s.audio_ssrc,
  s.is_bundle,
  at s.out_in_pt_map 96,
  map (λ (c : CandidateInfo). c.relay_address) s.candidate_vector,
  map (λ (c : CryptoInfo). c.key_params) s.crypto_vector,
)

abbrev parsed_offer : Option (ℕ × Bool × ℕ × List Bytes × List Bytes)
parsed_offer = Option.map summary (process_sdp new_sdp offer)

parsed_offer_lem : parsed_offer ≡ some (77, true, 111, codes "raddr" ∷ [], codes "kk\n" ∷ [])
unfolding new_sdp process_sdp process_line process_blocks fingerprint_block candidate_block
    crypto_block user_block pass_block ssrc_block rtpmap_block process_candidate candidate_body
    candidate_address candidate_type candidate_relay type_index host_type_of put at c_str strip_cr
    lines strstr next_token token_of cut saved strtok_loop parse_uint
parsed_offer_lem = refl

abbrev short_offer : Bytes
short_offer = codes "m=audio 1 RTP/SAVPF 111\r\na=rtpmap:111 opus/48000/2\r\n"

abbrev short_sdp : SdpInfo
short_sdp = record new_sdp {
  has_audio = true;
  profile = savpf;
  in_out_pt_map = (111, 111) ∷ [];
  out_in_pt_map = (111, 111) ∷ [];
  payload_vector =
      record {
        payload_type = 111;
        encoding_name = codes "opus";
        clock_rate = 48000;
        media_type = audio_type;
        channels = 0;
      }
      ∷ [];
}

short_sdp_lem : process_sdp new_sdp short_offer ≡ some short_sdp
unfolding new_sdp process_sdp process_line process_blocks rtpmap_block put c_str strip_cr lines
    strstr next_token token_of cut saved parse_uint
short_sdp_lem = refl

process_sdp-IsParsed_example :
    IsSupported short_sdp × AllComplete short_sdp short_sdp.candidate_vector
process_sdp-IsParsed_example = process_sdp-IsParsed short_offer short_sdp_lem

opus_lem : (support_payload_type short_sdp 111).1 ≡ true
unfolding new_sdp support_payload_type at contains scan_payloads
opus_lem = refl

abbrev opus : RtpMap
opus = record {
  payload_type = 111;
  encoding_name = codes "opus";
  clock_rate = 48000;
  media_type = audio_type;
  channels = 2;
}

abbrev audio_section : Parse
audio_section = record { sdp = new_sdp; mtype = audio_type; line = [] }

opus-IsWord : IsWord rtpmap_delims (codes "opus")
unfolding is_delim
opus-IsWord = is_plain_sound rtpmap_delims (codes "opus") refl

abbrev audio_key : CryptoInfo
audio_key = record {
  tag = 1;
  cipher_suite = codes "AES_CM_128_HMAC_SHA1_80";
  key_params = codes "kk";
  media_type = audio_type;
}

audio_key-IsWord :
    IsWord crypto_delims audio_key.cipher_suite × IsWord crypto_delims audio_key.key_params
unfolding is_delim
audio_key-IsWord = (
  is_plain_sound crypto_delims audio_key.cipher_suite refl,
  is_plain_sound crypto_delims audio_key.key_params refl,
)
