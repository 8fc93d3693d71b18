-- ===== src/Signalling/Answers.antt =====
-- Observer.cpp and PCSocket.cpp: from an offer that is read to the answer that is written.
use erizo.Base.{ℤ, ◌≡◌, refl, ◌∙◌, true, [], ◌∷◌, some, Bytes, codes, arith, is_some}
use erizo.Text.CString.{strstr, is_delim}
use erizo.Text.Words.{IsPlain, is_plain_sound}
use erizo.Text.Integers.{IsInt, print_int}
use erizo.Signalling.Client.{
  Client, written, peer_message, connected, on_read, read_into_buffer, handle_method, send_to_peer,
  split_message,
}
use erizo.Signalling.Frames.{frame, semicolon, parse_message-frame, split_message-frame}
use erizo.Signalling.Observer.{
  match_pattern, replace_pattern, Receiver, Regex, Observer, answer, sdp_pattern, session_pattern,
  create, reply, process_message, observe, turn,
}

-- The client is connected, with its observer.
pub record IsOnline (c : Client) : Type 0 where
  pub callback : c.has_callback ≡ true
  pub in_state : c.state ≡ connected
  pub socket : is_some c.control_socket ≡ true

dispatched :
    (c : Client) (id : ℤ) (message : Bytes)
    → c.has_callback ≡ true
    → handle_method c (codes "MSG_FROM_PEER") id message ≡ some (peer_message id message ∷ [])
unfolding handle_method
dispatched c id message h = rw h refl

method-IsPlain : IsPlain semicolon (codes "MSG_FROM_PEER") × IsPlain semicolon (codes "MSG_TO_PEER")
unfolding is_delim
method-IsPlain = (
  is_plain_sound semicolon (codes "MSG_FROM_PEER") refl,
  is_plain_sound semicolon (codes "MSG_TO_PEER") refl,
)

message_read :
    (c : Client) (id : ℤ) (message : Bytes)
    → IsOnline c
    → IsInt id
    → on_read c (frame (codes "MSG_FROM_PEER") id message) ≡ some (c, peer_message id message ∷ [])
unfolding on_read read_into_buffer
message_read c id message h i =
    let e =
      parse_message-frame c (codes "MSG_FROM_PEER") id message method-IsPlain.0 i
      ∙ dispatched c id message h.callback in
    ground (arith, e)

message_sent :
    (c : Client) (id : ℤ) (message : Bytes)
    → IsOnline c
    → send_to_peer c id message ≡ some (written (frame (codes "MSG_TO_PEER") id message) ∷ [])
unfolding send_to_peer
message_sent c id message h = ground arith

module _ {R : Type 0} (receiver : Receiver R) (regex : Regex) where
  -- The answer to an offer, with the session that the offer names.
  abbrev pub answer_to : R → ℤ → Bytes → Bytes
  answer_to r id session =
      answer
        (replace_pattern regex (receiver.get_local_sdp r id).1 (codes "\n") (codes "\\\\r\\\\n"))
        session

  -- The receiver behind the answer: the description of the offer is set last.
  abbrev pub told_of : R → ℤ → Bytes → R
  told_of r id offer =
      receiver.set_remote_sdp (receiver.get_local_sdp r id).0 id
        (replace_pattern regex offer (codes "\\\\r\\\\n") (codes "\\n"))

  reply_sent :
      (c : Client) (r : R) (id : ℤ) (message offer session : Bytes)
      → IsOnline c
      → match_pattern regex message sdp_pattern ≡ some offer
      → match_pattern regex message session_pattern ≡ some session
      → reply receiver regex c r id message
        ≡ some (
          told_of r id offer,
          written (frame (codes "MSG_TO_PEER") id (answer_to r id session)) ∷ [],
        )
  unfolding reply
  reply_sent c r id message offer session h e f =
      rw e (rw f (rw (message_sent c id (answer_to r id session) h) refl))

  -- An online observer that reads a peer's message with an offer, when the receiver makes a connection
  -- for the peer and both patterns match, writes one message to that peer, which the rules that messages
  -- are read by split into its method, the peer's id and the answer. The answer holds the description
  -- from before the offer's one was set. Whatever stands behind the offer in the same read, other
  -- messages too, is a part of it.
  pub turn_answers :
      (o : Observer) (r : R) (id : ℤ) (message offer session : Bytes)
      → IsOnline o.client
      → IsInt id
      → strstr message (codes "OFFER") ≡ true
      → (create receiver regex o.name r id).1 ≡ true
      → match_pattern regex message sdp_pattern ≡ some offer
      → match_pattern regex message session_pattern ≡ some session
      → (out : Bytes) × (turn receiver regex o r (frame (codes "MSG_FROM_PEER") id message)
          ≡ some (o, told_of (create receiver regex o.name r id).0 id offer, written out ∷ []))
        × (split_message out
            ≡ some (
              codes "MSG_TO_PEER",
              print_int id,
              answer_to (create receiver regex o.name r id).0 id session,
            ))
  unfolding turn observe process_message
  turn_answers o r id message offer session h i t n e f =
      let s = (create receiver regex o.name r id).0 in
      (
        frame (codes "MSG_TO_PEER") id (answer_to s id session),
        rw (message_read o.client id message h i)
            (rw t (rw n (rw (reply_sent o.client s id message offer session h e f) refl))),
        split_message-frame (codes "MSG_TO_PEER") id (answer_to s id session) method-IsPlain.1,
      )
