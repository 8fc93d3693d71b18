-- ===== src/Sdp/Parsed.antt =====
-- SdpInfo.cpp, `processSdp`: the tables of a description over the blocks, the lines and the text.
use erizo.Base.{
  ◌≡◌, refl, Bool, true, false, List, [], ◌∷◌, ◌++◌, Option, none, some, Bytes, codes, map, arith,
  if◌then◌else◌, ◌>>=◌, length, ltb, subst,
}
use erizo.Text.CString.{strstr, next_token, saved, lines, c_str, strip_cr}
use erizo.Text.Decimal.{parse_uint}
use erizo.Sdp.Types.{MediaType, other, CandidateInfo, SdpInfo}
use erizo.Sdp.Codecs.{new_sdp}
use erizo.Sdp.Candidate.{process_candidate, candidate_body, candidate_type}
use erizo.Sdp.Lines.{
  Parse, fingerprint_block, candidate_block, crypto_block, user_block, pass_block, ssrc_block,
  rtpmap_block, when, mux_block, savpf_block, group_block, video_block, audio_block, process_blocks,
  process_line, set_ssrc,
}
use erizo.Sdp.Process.{process_lines, process_sdp, complete}
use erizo.Sdp.Supported.{IsSupported, new_sdp-IsSupported, add_payload-IsSupported}

-- A block keeps the invariant where it has a result.
unfoldable Keeps : Option Parse → Type 0
Keeps none = Unit {0}
Keeps (some p) = IsSupported p.sdp

abbrev Preserves : (Parse → Option Parse) → Type 0
Preserves f = (p : Parse) → IsSupported p.sdp → Keeps (f p)

fingerprint_block-Keeps : (p : Parse) → IsSupported p.sdp → Keeps (fingerprint_block p)
unfolding Keeps fingerprint_block
fingerprint_block-Keeps p h = ground arith

candidate_block-Keeps : (p : Parse) → IsSupported p.sdp → Keeps (candidate_block p)
unfolding Keeps candidate_block process_candidate candidate_body candidate_type
candidate_block-Keeps p h = ground arith

crypto_block-Keeps : (p : Parse) → IsSupported p.sdp → Keeps (crypto_block p)
unfolding Keeps crypto_block
crypto_block-Keeps p h = ground arith

user_block-Keeps : (p : Parse) → IsSupported p.sdp → Keeps (user_block p)
unfolding Keeps user_block
user_block-Keeps p h = ground arith

pass_block-Keeps : (p : Parse) → IsSupported p.sdp → Keeps (pass_block p)
unfolding Keeps pass_block
pass_block-Keeps p h = ground arith

ssrc_block-Keeps : (p : Parse) → IsSupported p.sdp → Keeps (ssrc_block p)
unfolding Keeps ssrc_block set_ssrc
ssrc_block-Keeps p h = ground arith

Keeps-bind :
    {A : Type 0} (o : Option A) (f : A → Option Parse) → ((a : A) → Keeps (f a)) → Keeps (o >>= f)
unfolding Keeps
Keeps-bind none f h = tt
Keeps-bind (some a) f h = h a

rtpmap_block-Keeps : (p : Parse) → IsSupported p.sdp → Keeps (rtpmap_block p)
unfolding Keeps rtpmap_block
rtpmap_block-Keeps p h =
    Keeps-bind (next_token (codes " : / \n") (saved (codes " : / \n") p.line)) _ λ pt.
      Keeps-bind (next_token (codes " : / \n") pt.1) _ λ name.
        Keeps-bind (next_token (codes " : / \n") name.1) _ λ clock.
          add_payload-IsSupported (parse_uint pt.0) name.0 (parse_uint clock.0) p.mtype p.sdp h

-- The next block keeps it too.
then_Keeps :
    (b : Bool) (block : Parse → Option Parse) (p : Parse) (rest : Parse → Option Parse)
    → IsSupported p.sdp
    → ((q : Parse) → IsSupported q.sdp → Keeps (block q))
    → ((q : Parse) → IsSupported q.sdp → Keeps (rest q))
    → Keeps (when b block p >>= rest)
unfolding Keeps
then_Keeps false block p rest h k r = r p h
then_Keeps true block p rest h k r = go (block p) (k p h)
  where
    go : (o : Option Parse) → Keeps o → Keeps (o >>= rest)
    go none _ = tt
    go (some q) i = r q i

last_Keeps : (b : Bool) (p : Parse) → IsSupported p.sdp → Keeps (when b rtpmap_block p)
unfolding Keeps
last_Keeps true p h = rtpmap_block-Keeps p h
last_Keeps false p h = h

mux_block-Keeps : (p : Parse) → IsSupported p.sdp → Keeps (mux_block p)
unfolding Keeps
mux_block-Keeps p h = ground arith

savpf_block-Keeps : (p : Parse) → IsSupported p.sdp → Keeps (savpf_block p)
unfolding Keeps
savpf_block-Keeps p h = ground arith

group_block-Keeps : (p : Parse) → IsSupported p.sdp → Keeps (group_block p)
unfolding Keeps
group_block-Keeps p h = ground arith

video_block-Keeps : (p : Parse) → IsSupported p.sdp → Keeps (video_block p)
unfolding Keeps
video_block-Keeps p h = ground arith

audio_block-Keeps : (p : Parse) → IsSupported p.sdp → Keeps (audio_block p)
unfolding Keeps
audio_block-Keeps p h = ground arith

process_blocks-Keeps :
    (line : Bytes) (p : Parse) → IsSupported p.sdp → Keeps (process_blocks line p)
unfolding process_blocks
process_blocks-Keeps line p h =
    let flag : Bytes → Bool = strstr line in
    let from_rtpmap : Parse → Option Parse = when (flag (codes "a=rtpmap:")) rtpmap_block in
    let from_ssrc : Parse → Option Parse =
      λ p. when (flag (codes "a=ssrc")) ssrc_block p >>= from_rtpmap in
    let from_pass : Parse → Option Parse =
      λ p. when (flag (codes "a=ice-pwd")) pass_block p >>= from_ssrc in
    let from_user : Parse → Option Parse =
      λ p. when (flag (codes "a=ice-ufrag")) user_block p >>= from_pass in
    let from_crypto : Parse → Option Parse =
      λ p. when (flag (codes "a=crypto:")) crypto_block p >>= from_user in
    let from_candidate : Parse → Option Parse =
      λ p. when (flag (codes "a=candidate:")) candidate_block p >>= from_crypto in
    let from_audio : Parse → Option Parse =
      λ p. when (flag (codes "m=audio")) audio_block p >>= from_candidate in
    let from_video : Parse → Option Parse =
      λ p. when (flag (codes "m=video")) video_block p >>= from_audio in
    let from_group : Parse → Option Parse =
      λ p. when (flag (codes "a=group:")) group_block p >>= from_video in
    let from_fingerprint : Parse → Option Parse =
      λ p. when (flag (codes "a=fingerprint")) fingerprint_block p >>= from_group in
    let from_savpf : Parse → Option Parse =
      λ p. when (flag (codes "SAVPF")) savpf_block p >>= from_fingerprint in
    let rtpmap_kept : Preserves from_rtpmap = last_Keeps (flag (codes "a=rtpmap:")) in
    let ssrc_kept : Preserves from_ssrc = λ p h.
      then_Keeps (flag (codes "a=ssrc")) ssrc_block p from_rtpmap h ssrc_block-Keeps rtpmap_kept in
    let pass_kept : Preserves from_pass = λ p h.
      then_Keeps (flag (codes "a=ice-pwd")) pass_block p from_ssrc h pass_block-Keeps ssrc_kept in
    let user_kept : Preserves from_user = λ p h.
      then_Keeps (flag (codes "a=ice-ufrag")) user_block p from_pass h user_block-Keeps pass_kept in
    let crypto_kept : Preserves from_crypto = λ p h.
      then_Keeps (flag (codes "a=crypto:")) crypto_block p from_user h crypto_block-Keeps
        user_kept in
    let candidate_kept : Preserves from_candidate = λ p h.
      then_Keeps (flag (codes "a=candidate:")) candidate_block p from_crypto h candidate_block-Keeps
        crypto_kept in
    let audio_kept : Preserves from_audio = λ p h.
      then_Keeps (flag (codes "m=audio")) audio_block p from_candidate h audio_block-Keeps
        candidate_kept in
    let video_kept : Preserves from_video = λ p h.
      then_Keeps (flag (codes "m=video")) video_block p from_audio h video_block-Keeps audio_kept in
    let group_kept : Preserves from_group = λ p h.
      then_Keeps (flag (codes "a=group:")) group_block p from_video h group_block-Keeps
        video_kept in
    let fingerprint_kept : Preserves from_fingerprint = λ p h.
      then_Keeps (flag (codes "a=fingerprint")) fingerprint_block p from_group h
        fingerprint_block-Keeps group_kept in
    let savpf_kept : Preserves from_savpf = λ p h.
      then_Keeps (flag (codes "SAVPF")) savpf_block p from_fingerprint h savpf_block-Keeps
        fingerprint_kept in
    then_Keeps (flag (codes "a=rtcp-mux")) mux_block p from_savpf h mux_block-Keeps savpf_kept

-- The same of a line and of a text, with the completion behind it.
abbrev KeepsPair : Option (SdpInfo × MediaType) → Type 0
KeepsPair none = Unit {0}
KeepsPair (some (sdp, mtype)) = IsSupported sdp

KeepsPair-bind : (o : Option Parse) → Keeps o → KeepsPair (do p ← o; some (p.sdp, p.mtype))
unfolding Keeps
KeepsPair-bind none h = tt
KeepsPair-bind (some p) h = h

KeepsPair-if :
    (b : Bool) (x : Option (SdpInfo × MediaType)) → KeepsPair x → KeepsPair (if b then x else none)
KeepsPair-if true x h = h
KeepsPair-if false x h = tt

process_line-Keeps :
    (sdp : SdpInfo) (mtype : MediaType) (l : Bytes)
    → IsSupported sdp
    → KeepsPair (process_line (sdp, mtype) l)
unfolding process_line
process_line-Keeps sdp mtype l h =
    let line = c_str (strip_cr l) ++ (b'\n' ∷ []) in
    let p : Parse = record { sdp = sdp; mtype = mtype; line = line } in
    KeepsPair-if (ltb (length line) 1000) _
      (KeepsPair-bind (process_blocks line p) (process_blocks-Keeps line p h))

KeepsPair-next :
    (o : Option (SdpInfo × MediaType)) (ls : List Bytes)
    → KeepsPair o
    → ((sdp : SdpInfo) (mtype : MediaType)
        → IsSupported sdp
        → KeepsPair (process_lines (sdp, mtype) ls))
    → KeepsPair (do t ← o; process_lines t ls)
KeepsPair-next none ls h f = tt
KeepsPair-next (some (sdp, mtype)) ls h f = f sdp mtype h

process_lines-Keeps :
    (sdp : SdpInfo) (mtype : MediaType) (ls : List Bytes)
    → IsSupported sdp
    → KeepsPair (process_lines (sdp, mtype) ls)
unfolding process_lines
process_lines-Keeps sdp mtype [] h = h
process_lines-Keeps sdp mtype (l ∷ ls) h =
    KeepsPair-next (process_line (sdp, mtype) l) ls (process_line-Keeps sdp mtype l h)
      λ s m k. process_lines-Keeps s m ls k

-- Each candidate has the credentials and the bundle flag of the description.
abbrev pub AllComplete : SdpInfo → List CandidateInfo → Type 0
AllComplete sdp [] = Unit {0}
AllComplete sdp (c ∷ cs) =
    (c.username ≡ sdp.ice_username)
    × (c.password ≡ sdp.ice_password)
    × (c.is_bundle ≡ sdp.is_bundle)
    × AllComplete sdp cs

AllComplete-map :
    (sdp : SdpInfo) (f : CandidateInfo → CandidateInfo) (cs : List CandidateInfo)
    → ((c : CandidateInfo)
        → ((f c).username ≡ sdp.ice_username)
          × ((f c).password ≡ sdp.ice_password)
          × ((f c).is_bundle ≡ sdp.is_bundle))
    → AllComplete sdp (map f cs)
AllComplete-map sdp f [] h = tt
AllComplete-map sdp f (c ∷ cs) h = ((h c).0, (h c).1, (h c).2, AllComplete-map sdp f cs h)

-- What a parsed description satisfies.
abbrev pub IsParsed : Option SdpInfo → Type 0
IsParsed none = Unit {0}
IsParsed (some sdp) = IsSupported sdp × AllComplete sdp sdp.candidate_vector

IsParsed-complete :
    (o : Option (SdpInfo × MediaType))
    → KeepsPair o
    → IsParsed
        (do (p, m) ← o; some (record p { candidate_vector = map (complete p) p.candidate_vector }))
IsParsed-complete none k = tt
IsParsed-complete (some (p, m)) k = (
  record { table = k.table; payloads = k.payloads; out_in = k.out_in; in_out = k.in_out },
  AllComplete-map (record p { candidate_vector = map (complete p) p.candidate_vector }) (complete p)
      p.candidate_vector (λ c. (refl, refl, refl)),
)

-- Of whatever text, when the parser returns, the description keeps the internal codec table, lists
-- only payloads whose name and clock rate are in that table, maps every known payload type to a type
-- of the table and only types of the table back, and each candidate has the credentials and the bundle
-- flag of the description.
pub process_sdp-IsParsed :
    (text : Bytes) {sdp : SdpInfo}
    → process_sdp new_sdp text ≡ some sdp
    → IsSupported sdp × AllComplete sdp sdp.candidate_vector
unfolding process_sdp
process_sdp-IsParsed text e = subst IsParsed e (
    IsParsed-complete (process_lines (new_sdp, other) (lines text))
      (process_lines-Keeps new_sdp other (lines text) new_sdp-IsSupported))
