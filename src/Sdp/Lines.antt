-- ===== src/Sdp/Lines.antt =====
-- src/erizo/SdpInfo.cpp: the blocks of the loop of `processSdp`, one for each kind of line, in the
-- order of the source. The state of a block is the object, the current media type and the line
-- buffer, which each first `strtok` cuts. `none` is undefined behaviour, as for `Sdp.Candidate`.
use erizo.Base.{
  ℕ, suc, Bool, true, false, Option, none, some, List, [], ◌∷◌, ◌++◌, Bytes, codes, length, ltb,
  get_elem?, if◌then◌else◌, ◌>>=◌,
}
use erizo.Text.CString.{strstr, next_token, cut, saved, strtok_loop, c_str, strip_cr}
use erizo.Text.Decimal.{parse_uint}
use erizo.Sdp.PtMap.{put}
use erizo.Sdp.Codecs.{is_codec}
use erizo.Sdp.Candidate.{process_candidate}
use erizo.Sdp.Types.{MediaType, video_type, audio_type, other, savpf, CryptoInfo, RtpMap, SdpInfo}

pub record Parse : Type 0 where
  pub sdp : SdpInfo
  pub mtype : MediaType
  pub line : Bytes

-- The saved pointer behind a `strtok(NULL, d)` whose token is dropped; without one it is at the end.
unfoldable pub pass : Bytes → Bytes → Bytes
pass d s = elim (next_token d s) [ none ↦ [] | some (t, rest) ↦ rest ]

-- `isFP`
unfoldable pub fingerprint_block : Parse → Option Parse
unfolding pass
fingerprint_block p = do
  value ← next_token (codes " ") (pass (codes " ") (saved (codes ":") p.line))
  some (record p {
    line = cut (codes ":") p.line;
    sdp = record p.sdp { fingerprint = value.0; is_fingerprint = true };
  })

-- The tokens behind the first of the line, as `pieces` or `cryptopiece` holds them.
unfoldable pub pieces_of : Bytes → List Bytes
pieces_of line = let s = saved (codes " :") line in strtok_loop (suc (length s)) (codes " :") s

-- `isCand`
unfoldable pub candidate_block : Parse → Option Parse
unfolding pieces_of
candidate_block p = do
  done ← process_candidate (pieces_of p.line) p.mtype p.sdp
  some (record p { line = cut (codes " :") p.line; sdp = done.0 })

-- `isCrypt`
unfoldable pub crypto_block : Parse → Option Parse
unfolding pieces_of
crypto_block p = do
  suite ← get_elem? (pieces_of p.line) 1
  key ← get_elem? (pieces_of p.line) 3
  let info : CryptoInfo = record {
    tag = 0;
    cipher_suite = suite;
    key_params = key;
    media_type = p.mtype;
  }
  some (record p {
    line = cut (codes " :") p.line;
    sdp = record p.sdp { crypto_vector = p.sdp.crypto_vector ++ (info ∷ []) };
  })

-- `isUser`
unfoldable pub user_block : Parse → Option Parse
user_block p = do
  value ← next_token (codes " : \n") (saved (codes " : \n") p.line)
  some (record p {
    line = cut (codes " : \n") p.line;
    sdp = record p.sdp { ice_username = value.0 };
  })

-- `isPass`
unfoldable pub pass_block : Parse → Option Parse
pass_block p = do
  value ← next_token (codes ": \n") (saved (codes " : \n") p.line)
  some (record p {
    line = cut (codes " : \n") p.line;
    sdp = record p.sdp { ice_password = value.0 };
  })

-- The assignment of `isSsrc`; `strtoul` is called for audio and video only.
unfoldable pub set_ssrc : MediaType → Option (Bytes × Bytes) → SdpInfo → Option SdpInfo
set_ssrc video_type value sdp = do v ← value; some (record sdp { video_ssrc = parse_uint v.0 })
set_ssrc audio_type value sdp = do v ← value; some (record sdp { audio_ssrc = parse_uint v.0 })
set_ssrc other value sdp = some sdp

-- `isSsrc`
unfoldable pub ssrc_block : Parse → Option Parse
unfolding set_ssrc
ssrc_block p = do
  sdp ← set_ssrc p.mtype (next_token (codes ": \n") (saved (codes " : \n") p.line)) p.sdp
  some (record p { line = cut (codes " : \n") p.line; sdp = sdp })

-- The loop over `internalPayloadVector_`: each codec of that name and rate is mapped both ways. The
-- flag is `found`.
unfoldable pub map_codecs : List RtpMap → Bytes → ℕ → ℕ → SdpInfo → SdpInfo × Bool
map_codecs [] name clock pt sdp = (sdp, false)
map_codecs (rtp ∷ table) name clock pt sdp =
    let mapped = record sdp {
      out_in_pt_map = put sdp.out_in_pt_map pt rtp.payload_type;
      in_out_pt_map = put sdp.in_out_pt_map rtp.payload_type pt;
    } in
    let hit = (map_codecs table name clock pt mapped).0 in
    let miss = map_codecs table name clock pt sdp in
    if is_codec name clock rtp then (hit, true) else miss

-- What follows the tokens of an `a=rtpmap` line. The source leaves `channels` unset and nothing
-- reads it in a parsed description; 0 here.
unfoldable pub add_payload : ℕ → Bytes → ℕ → MediaType → SdpInfo → SdpInfo
unfolding map_codecs
add_payload pt name clock media sdp =
    let (mapped, found) = map_codecs sdp.internal_payload_vector name clock pt sdp in
    if found
    then record mapped { payload_vector = mapped.payload_vector ++ (the_map ∷ []) }
    else mapped
  where
    the_map : RtpMap
    the_map = record {
      payload_type = pt;
      encoding_name = name;
      clock_rate = clock;
      media_type = media;
      channels = 0;
    }

-- `isRtpmap`
unfoldable pub rtpmap_block : Parse → Option Parse
unfolding add_payload
rtpmap_block p = do
  pt ← next_token (codes " : / \n") (saved (codes " : / \n") p.line)
  name ← next_token (codes " : / \n") pt.1
  clock ← next_token (codes " : / \n") name.1
  some (record p {
    line = cut (codes " : / \n") p.line;
    sdp = add_payload (parse_uint pt.0) name.0 (parse_uint clock.0) p.mtype p.sdp;
  })

-- A block that a flag guards.
abbrev pub when : Bool → (Parse → Option Parse) → Parse → Option Parse
when true block p = block p
when false block p = some p

abbrev pub mux_block : Parse → Option Parse
mux_block p = some (record p { sdp = record p.sdp { is_rtcp_mux = true } })

abbrev pub savpf_block : Parse → Option Parse
savpf_block p = some (record p { sdp = record p.sdp { profile = savpf } })

abbrev pub group_block : Parse → Option Parse
group_block p = some (record p { sdp = record p.sdp { is_bundle = true } })

abbrev pub video_block : Parse → Option Parse
video_block p = some (record p { mtype = video_type; sdp = record p.sdp { has_video = true } })

abbrev pub audio_block : Parse → Option Parse
audio_block p = some (record p { mtype = audio_type; sdp = record p.sdp { has_audio = true } })

-- The blocks of one line; the twelve flags are computed before the first of them.
unfoldable pub process_blocks : Bytes → Parse → Option Parse
process_blocks line p = do
  p ← when (strstr line (codes "a=rtcp-mux")) mux_block p
  p ← when (strstr line (codes "SAVPF")) savpf_block p
  p ← when (strstr line (codes "a=fingerprint")) fingerprint_block p
  p ← when (strstr line (codes "a=group:")) group_block p
  p ← when (strstr line (codes "m=video")) video_block p
  p ← when (strstr line (codes "m=audio")) audio_block p
  p ← when (strstr line (codes "a=candidate:")) candidate_block p
  p ← when (strstr line (codes "a=crypto:")) crypto_block p
  p ← when (strstr line (codes "a=ice-ufrag")) user_block p
  p ← when (strstr line (codes "a=ice-pwd")) pass_block p
  p ← when (strstr line (codes "a=ssrc")) ssrc_block p
  when (strstr line (codes "a=rtpmap:")) rtpmap_block p

-- One turn of the loop. `line` is 1000 bytes, and `sprintf` writes the line, a newline and a zero.
unfoldable pub process_line : SdpInfo × MediaType → Bytes → Option (SdpInfo × MediaType)
process_line (sdp, mtype) str_line =
    let text = c_str (strip_cr str_line) in
    let line = text ++ (b'\n' ∷ []) in
    if ltb (length line) 1000
    then (do
      p ← process_blocks line (record { sdp = sdp; mtype = mtype; line = line })
      some (p.sdp, p.mtype))
    else none
