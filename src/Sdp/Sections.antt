-- ===== src/Sdp/Sections.antt =====
-- SdpInfo.cpp: what the loop of `processSdp` reads from the lines that the loops of `getSdp` print.
pub mod Keys
pub mod Stored
use erizo.Base.{
  ℕ, ◌<◌, ◌≤◌, ◌^◌, ◌≡◌, refl, sym, ap, subst, ◌∙◌, Bool, true, false, not, ◌&&◌, List, [], ◌∷◌,
  ◌++◌, Option, none, some, Bytes, codes, arith, length, ltb, inl, inr, Bool-cases, if◌then◌else◌,
  ◌>>=◌,
}
use mathlib.Core.List.{append_assoc, append-nil}
use erizo.Text.CString.{is_delim, strstr, starts_with, c_str, strip_cr, lines}
use erizo.Text.Decimal.{digits_onto}
use erizo.Text.Words.{
  IsPlain, IsWord, NoDigits, is_plain_sound, digits_onto-append, digits_onto-IsPlain,
}
use erizo.Text.Lines.{line_delims, IsPlain-append, lines-IsPlain, strip_cr-IsPlain, c_str-IsPlain}
use erizo.Sdp.Types.{MediaType, is_media, CryptoInfo, RtpMap, SdpInfo}
use erizo.Sdp.Print.{crypto_line, rtpmap_line, crypto_lines, rtpmap_lines}
use erizo.Sdp.Lines.{
  Parse, rtpmap_block, crypto_block, add_payload, process_blocks, process_line, when,
}
use erizo.Sdp.Process.{process_lines}
use erizo.Sdp.Reparse.{
  rtpmap_delims, crypto_delims, rtpmap_block-rtpmap_line, crypto_block-crypto_line,
}

-- The line without the newline at its end.
abbrev rtpmap_text : RtpMap → Bytes
rtpmap_text rtp =
    codes "a=rtpmap:"
    ++ (digits_onto 10 rtp.payload_type []
        ++ (b' ' ∷ (rtp.encoding_name ++ (b'/' ∷ digits_onto 10 rtp.clock_rate []))))

rtpmap_line_text :
    (rtp : RtpMap) (rest : Bytes) → rtpmap_line rtp ++ rest ≡ rtpmap_text rtp ++ (b'\n' ∷ rest)
unfolding rtpmap_line
rtpmap_line_text rtp rest =
    let clock : Bytes = digits_onto 10 rtp.clock_rate (b'\n' ∷ []) in
    rw (digits_onto-append 10 rtp.payload_type (b' ' ∷ (rtp.encoding_name ++ (b'/' ∷ clock))))
      (rw (digits_onto-append 10 rtp.clock_rate (b'\n' ∷ [])) (simp append_assoc))

line_delims-NoDigits : NoDigits line_delims
unfolding is_delim
line_delims-NoDigits k h = ground arith

rtpmap_line_end : (rtp : RtpMap) → rtpmap_text rtp ++ (b'\n' ∷ []) ≡ rtpmap_line rtp
rtpmap_line_end rtp = sym (rtpmap_line_text rtp []) ∙ append-nil (rtpmap_line rtp)

rtpmap_text-IsPlain :
    (rtp : RtpMap) → IsPlain line_delims rtp.encoding_name → IsPlain line_delims (rtpmap_text rtp)
unfolding is_delim
rtpmap_text-IsPlain rtp h =
    IsPlain-append line_delims (codes "a=rtpmap:") _
      (is_plain_sound line_delims (codes "a=rtpmap:") refl)
      (IsPlain-append line_delims (digits_onto 10 rtp.payload_type []) _
        (digits_onto-IsPlain line_delims line_delims-NoDigits 10 rtp.payload_type [] tt)
        (
          refl,
          IsPlain-append line_delims rtp.encoding_name _ h
              (refl, digits_onto-IsPlain line_delims line_delims-NoDigits 10 rtp.clock_rate [] tt),
        ))

-- The tags of the blocks in their order; a line has no other tag than the `n`-th.
abbrev tags_before_crypto : List Bytes
tags_before_crypto =
    codes "a=rtcp-mux"
    ∷ codes "SAVPF"
    ∷ codes "a=fingerprint"
    ∷ codes "a=group:"
    ∷ codes "m=video"
    ∷ codes "m=audio"
    ∷ codes "a=candidate:"
    ∷ []

abbrev tags_after_crypto : List Bytes
tags_after_crypto = codes "a=ice-ufrag" ∷ codes "a=ice-pwd" ∷ codes "a=ssrc" ∷ []

abbrev has_none : List Bytes → Bytes → Bool
has_none [] line = true
has_none (tag ∷ tags) line = not (strstr line tag) && has_none tags line

-- The line has no tag of the parser but `a=rtpmap:`.
abbrev pub only_rtpmap : Bytes → Bool
only_rtpmap line =
    has_none tags_before_crypto line
    && (has_none (codes "a=crypto:" ∷ []) line && has_none tags_after_crypto line)

-- The line has no tag of the parser but `a=crypto:`.
abbrev pub only_crypto : Bytes → Bool
only_crypto line =
    has_none tags_before_crypto line
    && (has_none tags_after_crypto line && has_none (codes "a=rtpmap:" ∷ []) line)

process_blocks_rtpmap :
    (line : Bytes) (p : Parse)
    → only_rtpmap line ≡ true
    → strstr line (codes "a=rtpmap:") ≡ true
    → process_blocks line p ≡ rtpmap_block p
unfolding process_blocks
process_blocks_rtpmap line p h t = ground arith

process_blocks_crypto :
    (line : Bytes) (p : Parse)
    → only_crypto line ≡ true
    → strstr line (codes "a=crypto:") ≡ true
    → process_blocks line p ≡ crypto_block p
unfolding process_blocks
process_blocks_crypto line p h t = ground arith

rtpmap_line_tag : (rtp : RtpMap) → strstr (rtpmap_line rtp) (codes "a=rtpmap:") ≡ true
unfolding rtpmap_line strstr
rtpmap_line_tag rtp = refl

crypto_line_tag : (info : CryptoInfo) → strstr (crypto_line info) (codes "a=crypto:") ≡ true
unfolding crypto_line strstr
crypto_line_tag info = refl

if_true : {A : Type 0} (b : Bool) (x y : A) → b ≡ true → (if b then x else y) ≡ x
if_true true x y e = refl
if_true false x y e = cc

-- One turn of the loop, on a text without special bytes.
process_line-IsPlain :
    (sdp : SdpInfo) (media : MediaType) (text : Bytes)
    → IsPlain line_delims text
    → length (text ++ (b'\n' ∷ [])) < 1000
    → process_line (sdp, media) text ≡ (do
      p ←
          process_blocks
            (text ++ (b'\n' ∷ []))
            (record { sdp = sdp; mtype = media; line = text ++ (b'\n' ∷ []) })
      some (p.sdp, p.mtype))
unfolding process_line
process_line-IsPlain sdp media text h l = rw (strip_cr-IsPlain text h) (
    rw (c_str-IsPlain text h)
      (if_true (ltb (length (text ++ (b'\n' ∷ []))) 1000) _ none (ground arith)))

-- The numbers fit 32 bits, the name is a word without special bytes, and the printed line fits the line
-- buffer and has no other tag.
abbrev pub IsReadable : RtpMap → Type 0
IsReadable rtp =
    (rtp.payload_type < 2 ^ 32)
    × (rtp.clock_rate < 2 ^ 32)
    × IsWord rtpmap_delims rtp.encoding_name
    × IsPlain line_delims rtp.encoding_name
    × (length (rtpmap_line rtp) < 1000)
    × (only_rtpmap (rtpmap_line rtp) ≡ true)

abbrev pub AllReadable : List RtpMap → Type 0
AllReadable [] = Unit {0}
AllReadable (rtp ∷ rest) = IsReadable rtp × AllReadable rest

-- The payload added to a description.
abbrev pub with_payload : MediaType → SdpInfo → RtpMap → SdpInfo
with_payload media sdp rtp = add_payload rtp.payload_type rtp.encoding_name rtp.clock_rate media sdp

-- The payloads of a medium added to a description, in their order.
abbrev pub with_payloads : MediaType → List RtpMap → SdpInfo → SdpInfo
with_payloads media [] sdp = sdp
with_payloads media (rtp ∷ rest) sdp =
    if is_media rtp.media_type media
    then with_payloads media rest (with_payload media sdp rtp)
    else with_payloads media rest sdp

read_rtpmap :
    (sdp : SdpInfo) (media : MediaType) (rtp : RtpMap)
    → IsReadable rtp
    → process_line (sdp, media) (rtpmap_text rtp) ≡ some (with_payload media sdp rtp, media)
read_rtpmap sdp media rtp (hp, hc, word, plain, fits, only) =
    let line = rtpmap_line rtp in
    let p : Parse = record { sdp = sdp; mtype = media; line = line } in
    process_line-IsPlain sdp media (rtpmap_text rtp) (rtpmap_text-IsPlain rtp plain)
      (subst (λ l. length l < 1000) (sym (rtpmap_line_end rtp)) fits)
    ∙ rw (rtpmap_line_end rtp) (
        rw (process_blocks_rtpmap line p only (rtpmap_line_tag rtp))
          (rw (rtpmap_block-rtpmap_line rtp p hp hc word) refl))

-- The loop reads a line and goes on with the rest of the text.
read_line :
    (s t : SdpInfo × MediaType) (text more : Bytes)
    → IsPlain line_delims text
    → process_line s text ≡ some t
    → process_lines s (lines (text ++ (b'\n' ∷ more))) ≡ process_lines t (lines more)
unfolding process_lines
read_line s t text more h e = rw (lines-IsPlain text more h) (rw e refl)

read_rtpmaps :
    (media : MediaType) (rtps : List RtpMap) (sdp : SdpInfo) (more : Bytes)
    → AllReadable rtps
    → process_lines (sdp, media) (lines (rtpmap_lines media rtps ++ more))
      ≡ process_lines (with_payloads media rtps sdp, media) (lines more)
unfolding rtpmap_lines
read_rtpmaps media [] sdp more h = refl
read_rtpmaps media (rtp ∷ rest) sdp more h = elim (Bool-cases (is_media rtp.media_type media)) [
  | inr miss ↦ rw miss (read_rtpmaps media rest sdp more h.1)
  | inl hit ↦ rw hit (
      rw (append_assoc (rtpmap_line rtp) (rtpmap_lines media rest) more) (
        rw (rtpmap_line_text rtp (rtpmap_lines media rest ++ more)) (
          read_line (sdp, media) (with_payload media sdp rtp, media) (rtpmap_text rtp) _
            (rtpmap_text-IsPlain rtp h.0.3) (read_rtpmap sdp media rtp h.0)
          ∙ read_rtpmaps media rest (with_payload media sdp rtp) more h.1)))
]
