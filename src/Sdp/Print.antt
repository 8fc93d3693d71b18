-- ===== src/Sdp/Print.antt =====
-- src/erizo/SdpInfo.cpp: `getWithPayload`, `addDesc`, `getSdp` and `gen_random`. The `type` argument
-- of the source is -1, 0 or 1; -1 is written 2 here.
use erizo.Base.{
  ℕ, zero, suc, ◌%◌, Bool, true, false, not, List, [], ◌∷◌, ◌++◌, Option, none, some, Bytes, codes,
  ◌==◌, get_or, length, if◌then◌else◌, ◌>>=◌,
}
use erizo.Text.CString.{starts_with}
use erizo.Text.Decimal.{digits_onto}
use erizo.Sdp.Types.{
  MediaType, video_type, audio_type, is_media, Profile, avpf, savpf, CryptoInfo, RtpMap, SdpInfo,
}

-- `find` and `replace`: the first occurrence of `old` becomes `new`; without one, `none`.
unfoldable pub replace_first : Bytes → Bytes → Bytes → Option Bytes
unfolding starts_with
replace_first old new [] = none
replace_first old new (c ∷ cs) =
    let rest = (do r ← replace_first old new cs; some (c ∷ r)) in
    if starts_with old (c ∷ cs) then some (new ++ after (length old) (c ∷ cs)) else rest
  where
    after : ℕ → Bytes → Bytes
    after zero s = s
    after (suc n) [] = []
    after (suc n) (d ∷ ds) = after n ds

-- The payload types of a medium, a blank behind each.
unfoldable pub payload_list : List RtpMap → MediaType → Bytes
payload_list [] media = []
payload_list (rtp ∷ rest) media =
    let tail = payload_list rest media in
    if is_media rtp.media_type media then digits_onto 10 rtp.payload_type (b' ' ∷ tail) else tail

abbrev profile_name : Profile → Bytes
profile_name savpf = codes "SAVPF "
profile_name avpf = codes "AVPF "

-- `getWithPayload`; a description without "ICE/SDP" stays as it is.
unfoldable pub get_with_payload : SdpInfo → Bytes → MediaType → Bytes
unfolding replace_first payload_list
get_with_payload sdp desc media =
    elim (replace_first (codes "ICE/SDP")
      (codes "RTP/" ++ (profile_name sdp.profile ++ payload_list sdp.payload_vector media)) desc) [
        | none ↦ desc
        | some text ↦ text
      ]

-- `addDesc`. For a bundle the name of the medium is replaced; `replace` throws where there is none.
unfoldable pub add_desc : SdpInfo → Bytes → ℕ → Option SdpInfo
unfolding get_with_payload
add_desc sdp desc type =
    if type == 0
    then (do
      renamed ← replace_first (codes "video") (codes "audio") desc
      some (record sdp {
        video_desc = get_with_payload sdp desc video_type;
        audio_desc = get_with_payload sdp renamed audio_type;
      }))
    else if type == 1
    then some (record sdp { audio_desc = get_with_payload sdp desc audio_type })
    else some (record sdp { video_desc = get_with_payload sdp desc video_type })

-- One `a=crypto` line.
unfoldable pub crypto_line : CryptoInfo → Bytes
crypto_line info =
    codes "a=crypto:"
    ++ digits_onto 10 info.tag
        (b' ' ∷ (info.cipher_suite ++ (codes " inline:" ++ (info.key_params ++ (b'\n' ∷ [])))))

-- One `a=rtpmap` line.
unfoldable pub rtpmap_line : RtpMap → Bytes
rtpmap_line rtp =
    codes "a=rtpmap:"
    ++ digits_onto 10 rtp.payload_type
        (b' ' ∷ (rtp.encoding_name ++ (b'/' ∷ digits_onto 10 rtp.clock_rate (b'\n' ∷ []))))

-- The loops of `getSdp` over the keys and over the payloads of a medium.
unfoldable pub crypto_lines : MediaType → List CryptoInfo → Bytes
unfolding crypto_line
crypto_lines media [] = []
crypto_lines media (info ∷ rest) =
    let tail = crypto_lines media rest in
    if is_media info.media_type media then crypto_line info ++ tail else tail

unfoldable pub rtpmap_lines : MediaType → List RtpMap → Bytes
unfolding rtpmap_line
rtpmap_lines media [] = []
rtpmap_lines media (rtp ∷ rest) =
    let tail = rtpmap_lines media rest in
    if is_media rtp.media_type media then rtpmap_line rtp ++ tail else tail

abbrev line_if : Bool → Bytes → Bytes
line_if true l = l
line_if false l = []

abbrev ssrc_line : ℕ → Bytes → Bytes
ssrc_line ssrc rest = codes "a=ssrc:" ++ digits_onto 10 ssrc rest

-- The four `a=ssrc` lines; `label` is a0 or v0.
unfoldable pub ssrc_lines : ℕ → Bytes → Bytes → Bytes
ssrc_lines ssrc msid label =
    ssrc_line ssrc (codes " cname:o/i14u9pJrxRKAsu\n")
    ++ (ssrc_line ssrc (codes " msid:" ++ (msid ++ (b' ' ∷ (label ++ (b'\n' ∷ [])))))
        ++ (ssrc_line ssrc (codes " mslabel:" ++ (msid ++ (b'\n' ∷ [])))
            ++ ssrc_line ssrc (codes " label:" ++ (msid ++ (label ++ (b'\n' ∷ []))))))

abbrev fingerprint_line : SdpInfo → Bytes
fingerprint_line sdp =
    line_if sdp.is_fingerprint (codes "a=fingerprint:sha-256 " ++ (sdp.fingerprint ++ (b'\n' ∷ [])))

unfoldable pub audio_section : SdpInfo → Bytes → Bytes
unfolding crypto_lines rtpmap_lines ssrc_lines
audio_section sdp msid =
    sdp.audio_desc
    ++ (fingerprint_line sdp
        ++ (codes "a=sendrecv\na=mid:audio\n"
            ++ (line_if sdp.is_rtcp_mux (codes "a=rtcp-mux\n")
                ++ (crypto_lines audio_type sdp.crypto_vector
                    ++ (rtpmap_lines audio_type sdp.payload_vector
                        ++ (codes "a=maxptime:60\n"
                            ++ ssrc_lines sdp.audio_ssrc msid (codes "a0")))))))

unfoldable pub video_section : SdpInfo → Bytes → Bytes
unfolding crypto_lines rtpmap_lines ssrc_lines
video_section sdp msid =
    sdp.video_desc
    ++ (codes
          "a=extmap:2 urn:ietf:params:rtp-hdrext:toffset\na=extmap:3 http://www.webrtc.org/experiments/rtp-hdrext/abs-send-time\n"
        ++ (fingerprint_line sdp
            ++ (codes "a=sendrecv\na=mid:video\n"
                ++ (line_if sdp.is_rtcp_mux (codes "a=rtcp-mux\n")
                    ++ (codes "a=rtcp-fb:100 ccm fir\na=rtcp-fb:100 nack\n"
                        ++ (crypto_lines video_type sdp.crypto_vector
                            ++ (rtpmap_lines video_type sdp.payload_vector
                                ++ ssrc_lines sdp.video_ssrc msid (codes "v0"))))))))

abbrev is_empty : Bytes → Bool
is_empty [] = true
is_empty (c ∷ cs) = false

-- `getSdp`, with the text that `gen_random` gives.
unfoldable pub get_sdp : SdpInfo → Bytes → Bytes
unfolding audio_section video_section
get_sdp sdp msid =
    codes "v=0\no=- 0 2 IN IP4 127.0.0.1\ns=-\nt=0 0\n"
    ++ (line_if sdp.is_bundle
          (codes "a=group:BUNDLE audio video\na=msid-semantic: WMS " ++ (msid ++ (b'\n' ∷ [])))
        ++ (line_if (not (is_empty sdp.audio_desc)) (audio_section sdp msid)
            ++ line_if (not (is_empty sdp.video_desc)) (video_section sdp msid)))

abbrev alphanum : Bytes
alphanum = codes "0123456789ABCDEFGHIJKLMNOPQRSTUVWXYZabcdefghijklmnopqrstuvwxyz"

-- `gen_random`, from the numbers that `rand` gives. It writes `len + 1` bytes: the text and a zero.
unfoldable pub gen_random : List ℕ → Bytes
gen_random [] = 0 ∷ []
gen_random (r ∷ rs) = get_or alphanum (r % 62) 0 ∷ gen_random rs
