-- ===== src/Sdp/Reparse.antt =====
-- SdpInfo.cpp: what `processSdp` reads from the lines that `getSdp` prints.
use erizo.Base.{
  ℕ, suc, ◌<◌, ◌^◌, ◌≡◌, refl, ap, ◌∙◌, true, false, [], ◌∷◌, ◌++◌, some, Bytes, codes, arith,
  length,
}
use erizo.Text.CString.{is_delim, next_token, saved, cut, strtok_loop}
use erizo.Text.Decimal.{digits_onto, parse_uint}
use erizo.Text.DecimalRoundTrip.{parse_uint-digits_onto}
use erizo.Text.Tokens.{strtok_loop_enough, strtok_loop-nil}
use erizo.Text.Words.{
  IsPlain, IsWord, is_plain_sound, strtok_loop_step, NoDigits, next_token-word, next_token_last,
  saved-word, cut-word, digits_onto-append, digits_onto-IsWord,
}
use erizo.Sdp.Types.{CryptoInfo, RtpMap}
use erizo.Sdp.Print.{crypto_line, rtpmap_line}
use erizo.Sdp.Lines.{Parse, rtpmap_block, crypto_block, add_payload, pieces_of}

abbrev pub rtpmap_delims : Bytes
rtpmap_delims = codes " : / \n"

rtpmap_delims-NoDigits : NoDigits rtpmap_delims
unfolding is_delim
rtpmap_delims-NoDigits k h = ground arith

abbrev number : ℕ → Bytes
number n = digits_onto 10 n []

abbrev rtpmap_words : RtpMap → Bytes
rtpmap_words rtp =
    number rtp.payload_type
    ++ (b' ' ∷ (rtp.encoding_name ++ (b'/' ∷ (number rtp.clock_rate ++ (b'\n' ∷ [])))))

rtpmap_line_words : (rtp : RtpMap) → rtpmap_line rtp ≡ codes "a=rtpmap" ++ (b':' ∷ rtpmap_words rtp)
unfolding rtpmap_line
rtpmap_line_words rtp =
    ap (λ w. codes "a=rtpmap:" ++ w)
      (digits_onto-append 10 rtp.payload_type _
        ∙ ap (λ w. number rtp.payload_type ++ (b' ' ∷ (rtp.encoding_name ++ (b'/' ∷ w))))
            (digits_onto-append 10 rtp.clock_rate (b'\n' ∷ [])))

-- The delimiters of the line, and its first word.
rtpmap_tests :
    (is_delim rtpmap_delims b':' ≡ true)
    × (is_delim rtpmap_delims b' ' ≡ true)
    × (is_delim rtpmap_delims b'/' ≡ true)
    × (is_delim rtpmap_delims b'\n' ≡ true)
    × IsWord rtpmap_delims (codes "a=rtpmap")
unfolding is_delim
rtpmap_tests = (refl, refl, refl, refl, is_plain_sound rtpmap_delims (codes "a=rtpmap") refl)

number_read : (n : ℕ) → n < 2 ^ 32 → parse_uint (number n) ≡ n
number_read n h = parse_uint-digits_onto n [] h tt

module _ (rtp : RtpMap) (p : Parse) where
  rtpmap_tokens :
      IsWord rtpmap_delims rtp.encoding_name
      → (saved rtpmap_delims (rtpmap_line rtp) ≡ rtpmap_words rtp)
        × (cut rtpmap_delims (rtpmap_line rtp) ≡ codes "a=rtpmap")
        × (next_token rtpmap_delims (rtpmap_words rtp)
            ≡ some (
              number rtp.payload_type,
              rtp.encoding_name ++ (b'/' ∷ (number rtp.clock_rate ++ (b'\n' ∷ []))),
            ))
        × (next_token rtpmap_delims
              (rtp.encoding_name ++ (b'/' ∷ (number rtp.clock_rate ++ (b'\n' ∷ []))))
            ≡ some (rtp.encoding_name, number rtp.clock_rate ++ (b'\n' ∷ [])))
        × (next_token rtpmap_delims (number rtp.clock_rate ++ (b'\n' ∷ []))
            ≡ some (number rtp.clock_rate, []))
  rtpmap_tokens w =
      let (colon, blank, slash, newline, tag) = rtpmap_tests in
      let d = rtpmap_delims in
      let is_word = digits_onto-IsWord d rtpmap_delims-NoDigits 9 in
      (
        ap (saved d) (rtpmap_line_words rtp)
            ∙ saved-word d (codes "a=rtpmap") b':' (rtpmap_words rtp) tag colon,
        ap (cut d) (rtpmap_line_words rtp)
            ∙ cut-word d (codes "a=rtpmap") b':' (rtpmap_words rtp) tag colon,
        next_token-word d (number rtp.payload_type) b' ' _ (is_word rtp.payload_type) blank,
        next_token-word d rtp.encoding_name b'/' _ w slash,
        next_token-word d (number rtp.clock_rate) b'\n' [] (is_word rtp.clock_rate) newline,
      )

  -- A printed `a=rtpmap` line whose name is a word is read back: the payload is added with the printed
  -- payload type, name and clock rate, for numbers below 2^32.
  pub rtpmap_block-rtpmap_line :
      rtp.payload_type < 2 ^ 32
      → rtp.clock_rate < 2 ^ 32
      → IsWord rtpmap_delims rtp.encoding_name
      → rtpmap_block (record p { line = rtpmap_line rtp })
        ≡ some (record p {
          line = codes "a=rtpmap";
          sdp = add_payload rtp.payload_type rtp.encoding_name rtp.clock_rate p.mtype p.sdp;
        })
  unfolding rtpmap_block
  rtpmap_block-rtpmap_line hp hc hw =
      let (s, c, first, second, third) = rtpmap_tokens hw in
      rw (s, c)
        (rw first (
          rw second
            (rw third (rw (number_read rtp.payload_type hp, number_read rtp.clock_rate hc) refl))))

abbrev pub crypto_delims : Bytes
crypto_delims = codes " :"

crypto_delims-NoDigits : NoDigits crypto_delims
unfolding is_delim
crypto_delims-NoDigits k h = ground arith

crypto_tests :
    (is_delim crypto_delims b':' ≡ true)
    × (is_delim crypto_delims b' ' ≡ true)
    × IsWord crypto_delims (codes "a=crypto")
    × IsWord crypto_delims (codes "inline")
    × (is_delim crypto_delims b'\n' ≡ false)
unfolding is_delim
crypto_tests = (
  refl,
  refl,
  is_plain_sound crypto_delims (codes "a=crypto") refl,
  is_plain_sound crypto_delims (codes "inline") refl,
  refl,
)

-- The last word of the line: the key with the newline behind it.
abbrev key_word : CryptoInfo → Bytes
key_word info = info.key_params ++ (b'\n' ∷ [])

abbrev crypto_words : CryptoInfo → Bytes
crypto_words info =
    number info.tag
    ++ (b' ' ∷ (info.cipher_suite ++ (b' ' ∷ (codes "inline" ++ (b':' ∷ key_word info)))))

crypto_line_words :
    (info : CryptoInfo) → crypto_line info ≡ codes "a=crypto" ++ (b':' ∷ crypto_words info)
unfolding crypto_line
crypto_line_words info = ap (λ w. codes "a=crypto:" ++ w) (digits_onto-append 10 info.tag _)

IsPlain-newline : (w : Bytes) → IsPlain crypto_delims w → IsPlain crypto_delims (w ++ (b'\n' ∷ []))
IsPlain-newline [] h = (crypto_tests.4, tt)
IsPlain-newline (c ∷ cs) h = (h.0, IsPlain-newline cs h.1)

IsWord-newline : (w : Bytes) → IsWord crypto_delims w → IsWord crypto_delims (w ++ (b'\n' ∷ []))
IsWord-newline [] h = absurd h
IsWord-newline (c ∷ cs) h = IsPlain-newline (c ∷ cs) h

module _ (info : CryptoInfo) (suite : IsWord crypto_delims info.cipher_suite)
    (key : IsWord crypto_delims info.key_params) where
  crypto_loop :
      (n : ℕ)
      → strtok_loop (suc (suc (suc (suc (suc n))))) crypto_delims (crypto_words info)
        ≡ number info.tag ∷ info.cipher_suite ∷ codes "inline" ∷ key_word info ∷ []
  crypto_loop n =
      let (colon, blank, tag, inline, _) = crypto_tests in
      let d = crypto_delims in
      let first =
        next_token-word d (number info.tag) b' '
          (info.cipher_suite ++ (b' ' ∷ (codes "inline" ++ (b':' ∷ key_word info))))
          (digits_onto-IsWord d crypto_delims-NoDigits 9 info.tag) blank in
      let second =
        next_token-word d info.cipher_suite b' ' (codes "inline" ++ (b':' ∷ key_word info)) suite
          blank in
      let third = next_token-word d (codes "inline") b':' (key_word info) inline colon in
      let fourth = next_token_last d (key_word info) (IsWord-newline info.key_params key) in
      strtok_loop_step d _ _ _ _ first
      ∙ ap (◌∷◌ (number info.tag)) (
          strtok_loop_step d _ _ _ _ second
          ∙ ap (◌∷◌ info.cipher_suite) (
              strtok_loop_step d _ _ _ _ third
              ∙ ap (◌∷◌ (codes "inline")) (
                  strtok_loop_step d (suc n) (key_word info) (key_word info) [] fourth
                  ∙ ap (◌∷◌ (key_word info)) (strtok_loop-nil (suc n) d))))

  crypto_pieces :
      pieces_of (crypto_line info)
      ≡ number info.tag ∷ info.cipher_suite ∷ codes "inline" ∷ key_word info ∷ []
  unfolding pieces_of
  crypto_pieces =
      let (colon, blank, tag, inline, _) = crypto_tests in
      let s = crypto_words info in
      rw
        (ap (saved crypto_delims) (crypto_line_words info)
          ∙ saved-word crypto_delims (codes "a=crypto") b':' s tag colon)
        (strtok_loop_enough (suc (length s)) (suc (suc (suc (suc (suc (length s)))))) crypto_delims
            s (omega arith) (omega arith)
          ∙ crypto_loop (length s))

  -- A printed `a=crypto` line whose suite and key are words is read back with the suite that was printed,
  -- but with tag 0, and with the newline at the end of the key.
  pub crypto_block-crypto_line :
      (p : Parse)
      → crypto_block (record p { line = crypto_line info })
        ≡ some (record p {
          line = codes "a=crypto";
          sdp = record p.sdp {
            crypto_vector =
                p.sdp.crypto_vector
                ++ (record {
                  tag = 0;
                  cipher_suite = info.cipher_suite;
                  key_params = info.key_params ++ (b'\n' ∷ []);
                  media_type = p.mtype;
                }
                    ∷ []);
          };
        })
  unfolding crypto_block
  crypto_block-crypto_line p =
      let (colon, blank, tag, inline, _) = crypto_tests in
      let c =
        ap (cut crypto_delims) (crypto_line_words info)
        ∙ cut-word crypto_delims (codes "a=crypto") b':' (crypto_words info) tag colon in
      rw (crypto_pieces, c) refl
