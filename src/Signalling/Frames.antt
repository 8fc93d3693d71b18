-- ===== src/Signalling/Frames.antt =====
-- PCSocket.cpp: messages as they are written and read.
use erizo.Base.{ℤ, ◌≡◌, refl, false, [], ◌∷◌, ◌++◌, some, Bytes, arith}
use erizo.Text.CString.{is_delim, c_str}
use erizo.Text.Words.{IsPlain, NoDigits}
use erizo.Text.Lines.{line_delims, c_str-IsPlain}
use erizo.Text.Integers.{atoi, print_int, IsInt, atoi-print_int, print_int-IsPlain}
use erizo.Signalling.Client.{Client, split_field, split_message, handle_method, parse_message}

abbrev pub semicolon : Bytes
semicolon = b';' ∷ []

-- A message to or from a peer.
abbrev pub frame : Bytes → ℤ → Bytes → Bytes
frame method id message = method ++ (b';' ∷ (print_int id ++ (b';' ∷ message)))

split_field-IsPlain :
    (field rest : Bytes)
    → IsPlain semicolon field
    → split_field (field ++ (b';' ∷ rest)) ≡ some (field, rest)
unfolding split_field is_delim
split_field-IsPlain [] rest h = refl
split_field-IsPlain (c ∷ cs) rest h = ground (arith, split_field-IsPlain cs rest h.1)

semicolon-NoDigits : NoDigits semicolon
unfolding is_delim
semicolon-NoDigits k h = ground arith

line_delims-NoDigits : NoDigits line_delims
unfolding is_delim
line_delims-NoDigits k h = ground arith

signs : (is_delim semicolon b'-' ≡ false) × (is_delim line_delims b'-' ≡ false)
unfolding is_delim
signs = (refl, refl)

pub split_message-frame :
    (method : Bytes) (id : ℤ) (message : Bytes)
    → IsPlain semicolon method
    → split_message (frame method id message) ≡ some (method, print_int id, message)
unfolding split_message
split_message-frame method id message h =
    rw (split_field-IsPlain method (print_int id ++ (b';' ∷ message)) h) (
      rw
        (split_field-IsPlain (print_int id) message
          (print_int-IsPlain semicolon id semicolon-NoDigits signs.0))
        refl)

id_read : (id : ℤ) → IsInt id → atoi (c_str (print_int id)) ≡ some id
id_read id h =
    rw
      (c_str-IsPlain (print_int id) (print_int-IsPlain line_delims id line_delims-NoDigits signs.1))
      (atoi-print_int id h)

pub parse_message-frame :
    (c : Client) (method : Bytes) (id : ℤ) (message : Bytes)
    → IsPlain semicolon method
    → IsInt id
    → parse_message c (frame method id message) ≡ handle_method c method id message
unfolding parse_message
parse_message-frame c method id message p h =
    rw (split_message-frame method id message p, parse_message) (rw (id_read id h) refl)
