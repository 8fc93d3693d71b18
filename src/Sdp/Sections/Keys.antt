-- ===== src/Sdp/Sections/Keys.antt =====
-- SdpInfo.cpp: the printed lines of the keys, and those of the keys and the payloads of a medium.
use erizo.Base.{
  ap, inr, ◌<◌, ◌≡◌, refl, sym, subst, ◌∙◌, true, List, [], ◌∷◌, ◌++◌, some, Bytes, codes, length,
  inl, Bool-cases, if◌then◌else◌,
}
use mathlib.Core.List.{append_assoc, append-nil}
use erizo.Text.CString.{is_delim, lines}
use erizo.Text.Decimal.{digits_onto}
use erizo.Text.Words.{IsPlain, IsWord, is_plain_sound, digits_onto-append, digits_onto-IsPlain}
use erizo.Text.Lines.{line_delims, IsPlain-append}
use erizo.Sdp.Types.{MediaType, is_media, CryptoInfo, RtpMap, SdpInfo}
use erizo.Sdp.Print.{crypto_line, crypto_lines, rtpmap_lines}
use erizo.Sdp.Lines.{Parse, process_line}
use erizo.Sdp.Process.{process_lines}
use erizo.Sdp.Reparse.{crypto_delims, crypto_block-crypto_line}
use erizo.Sdp.Sections.Stored.{stored, with_payloads-stored}
use erizo.Sdp.Sections.{
  line_delims-NoDigits, only_crypto, process_blocks_crypto, crypto_line_tag, process_line-IsPlain,
  AllReadable, with_payloads, read_line, read_rtpmaps,
}

-- The line of a key without the newline at its end.
abbrev crypto_text : CryptoInfo → Bytes
crypto_text info =
    codes "a=crypto:"
    ++ (digits_onto 10 info.tag []
        ++ (b' ' ∷ (info.cipher_suite ++ (codes " inline:" ++ info.key_params))))

crypto_line_text :
    (info : CryptoInfo) (more : Bytes)
    → crypto_line info ++ more ≡ crypto_text info ++ (b'\n' ∷ more)
unfolding crypto_line
crypto_line_text info more =
    rw
      (digits_onto-append 10 info.tag
        (b' ' ∷ (info.cipher_suite ++ (codes " inline:" ++ (info.key_params ++ (b'\n' ∷ []))))))
      (simp append_assoc)

crypto_line_end : (info : CryptoInfo) → crypto_text info ++ (b'\n' ∷ []) ≡ crypto_line info
crypto_line_end info = sym (crypto_line_text info []) ∙ append-nil (crypto_line info)

-- The suite and the key are words without special bytes, and the printed line fits the line buffer and
-- has no other tag.
abbrev pub IsReadableKey : CryptoInfo → Type 0
IsReadableKey info =
    IsWord crypto_delims info.cipher_suite
    × IsWord crypto_delims info.key_params
    × IsPlain line_delims info.cipher_suite
    × IsPlain line_delims info.key_params
    × (length (crypto_line info) < 1000)
    × (only_crypto (crypto_line info) ≡ true)

abbrev pub AllReadableKeys : List CryptoInfo → Type 0
AllReadableKeys [] = Unit {0}
AllReadableKeys (info ∷ rest) = IsReadableKey info × AllReadableKeys rest

crypto_text-IsPlain :
    (info : CryptoInfo) → IsReadableKey info → IsPlain line_delims (crypto_text info)
unfolding is_delim
crypto_text-IsPlain info (suite, key, plain_suite, plain_key, fits, only) =
    IsPlain-append line_delims (codes "a=crypto:") _
      (is_plain_sound line_delims (codes "a=crypto:") refl)
      (IsPlain-append line_delims (digits_onto 10 info.tag []) _
        (digits_onto-IsPlain line_delims line_delims-NoDigits 10 info.tag [] tt)
        (
          refl,
          IsPlain-append line_delims info.cipher_suite _ plain_suite (
              IsPlain-append line_delims (codes " inline:") _
                (is_plain_sound line_delims (codes " inline:") refl) plain_key),
        ))

-- A key of a medium added to a description, as it is read.
abbrev pub with_key : MediaType → SdpInfo → CryptoInfo → SdpInfo
with_key media sdp info = record sdp {
  crypto_vector =
      sdp.crypto_vector
      ++ (record {
        tag = 0;
        cipher_suite = info.cipher_suite;
        key_params = info.key_params ++ (b'\n' ∷ []);
        media_type = media;
      }
          ∷ []);
}

abbrev pub with_keys : MediaType → List CryptoInfo → SdpInfo → SdpInfo
with_keys media [] sdp = sdp
with_keys media (info ∷ rest) sdp =
    if is_media info.media_type media
    then with_keys media rest (with_key media sdp info)
    else with_keys media rest sdp

read_crypto :
    (sdp : SdpInfo) (media : MediaType) (info : CryptoInfo)
    → IsReadableKey info
    → process_line (sdp, media) (crypto_text info) ≡ some (with_key media sdp info, media)
read_crypto sdp media info h =
    let (suite, key, plain_suite, plain_key, fits, only) = h in
    let line = crypto_line info in
    let p : Parse = record { sdp = sdp; mtype = media; line = line } in
    process_line-IsPlain sdp media (crypto_text info) (crypto_text-IsPlain info h)
      (subst (λ l. length l < 1000) (sym (crypto_line_end info)) fits)
    ∙ rw (crypto_line_end info) (
        rw (process_blocks_crypto line p only (crypto_line_tag info))
          (rw (crypto_block-crypto_line info suite key p) refl))

read_cryptos :
    (media : MediaType) (infos : List CryptoInfo) (sdp : SdpInfo) (more : Bytes)
    → AllReadableKeys infos
    → process_lines (sdp, media) (lines (crypto_lines media infos ++ more))
      ≡ process_lines (with_keys media infos sdp, media) (lines more)
unfolding crypto_lines
read_cryptos media [] sdp more h = refl
read_cryptos media (info ∷ rest) sdp more h = elim (Bool-cases (is_media info.media_type media)) [
  | inr miss ↦ rw miss (read_cryptos media rest sdp more h.1)
  | inl hit ↦ rw hit (
      rw (append_assoc (crypto_line info) (crypto_lines media rest) more) (
        rw (crypto_line_text info (crypto_lines media rest ++ more)) (
          read_line (sdp, media) (with_key media sdp info, media) (crypto_text info) _
            (crypto_text-IsPlain info h.0) (read_crypto sdp media info h.0)
          ∙ read_cryptos media rest (with_key media sdp info) more h.1)))
]

with_keys_same :
    (media : MediaType) (infos : List CryptoInfo) (sdp : SdpInfo)
    → ((with_keys media infos sdp).payload_vector ≡ sdp.payload_vector)
      × ((with_keys media infos sdp).internal_payload_vector ≡ sdp.internal_payload_vector)
with_keys_same media [] sdp = (refl, refl)
with_keys_same media (info ∷ rest) sdp = elim (Bool-cases (is_media info.media_type media)) [
  | inl e ↦ rw e (with_keys_same media rest (with_key media sdp info))
  | inr e ↦ rw e (with_keys_same media rest sdp)
]

-- The lines that `getSdp` prints for the keys and then the payloads of a medium are read back, whatever
-- text follows them: the loop of the parser goes on with that text from a description to which the keys
-- of the medium were added in their order (with tag 0, and with the newline at the end of the key), and
-- whose payload vector got the payloads of the medium whose name and rate are in the table of codecs, in
-- their order, with their numbers, names and rates (and no channels). The numbers of the payloads are
-- below 2^32, suites, keys and names are words without special bytes, and each printed line fits the
-- line buffer and has no other tag of the parser.
pub process_lines-printed :
    (media : MediaType) (infos : List CryptoInfo) (rtps : List RtpMap) (sdp : SdpInfo)
    (more : Bytes)
    → AllReadableKeys infos
    → AllReadable rtps
    → (process_lines
          (sdp, media)
          (lines (crypto_lines media infos ++ (rtpmap_lines media rtps ++ more)))
        ≡ process_lines (with_payloads media rtps (with_keys media infos sdp), media) (lines more))
      × ((with_payloads media rtps (with_keys media infos sdp)).payload_vector
          ≡ sdp.payload_vector ++ stored media sdp.internal_payload_vector rtps)
process_lines-printed media infos rtps sdp more h k =
    let (vector, table) = with_keys_same media infos sdp in
    (
      read_cryptos media infos sdp (rtpmap_lines media rtps ++ more) h
          ∙ read_rtpmaps media rtps (with_keys media infos sdp) more k,
      with_payloads-stored media rtps (with_keys media infos sdp)
          ∙ ap (λ v. v ++ stored media (with_keys media infos sdp).internal_payload_vector rtps)
              vector
          ∙ ap (λ t. sdp.payload_vector ++ stored media t rtps) table,
    )
