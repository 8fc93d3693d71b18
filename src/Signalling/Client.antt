-- ===== src/Signalling/Client.antt =====
-- src/examples/pc/PCSocket.h and PCSocket.cpp: the client of the signalling server. The sockets of Boost
-- are outside: what a read gives is an argument, what is written is an event. `none` is the use of a
-- null pointer or of a socket that was not made, or an `atoi` out of range.
use erizo.Base.{
  ℕ, ℤ, pos, negsuc, Bool, true, false, not, List, [], ◌∷◌, ◌++◌, Option, none, some, Bytes, codes,
  equal, ◌==◌, if◌then◌else◌, ◌>>=◌,
}
use erizo.Text.CString.{c_str}
use erizo.Text.Integers.{atoi, print_int}

pub data ClientState : Type 0 where
  not_connected signing_in connected signing_out_waiting signing_out : ClientState

abbrev is_connected_state : ClientState → Bool
is_connected_state connected = true
is_connected_state _ = false

-- `PC`
pub record Client : Type 0 where
  pub has_callback : Bool
  -- the port that the control socket is connected to, if it was made
  pub control_socket : Option ℕ
  pub state : ClientState
  pub my_id : ℤ
  pub is_sending : Bool
  pub peers : List (ℤ × Bytes)

-- What the client does: a write on its socket, and the calls of its observer.
pub data ClientEvent : Type 0 where
  written : Bytes → ClientEvent
  peer_message : ℤ → Bytes → ClientEvent
  peer_gone : ℤ → ClientEvent

abbrev publisher_port : ℕ
publisher_port = 8484

abbrev subscriber_port : ℕ
subscriber_port = 8485

-- The constructor: any other name makes no socket.
unfoldable pub new_client : Bytes → Client
new_client name = record {
  has_callback = false;
  control_socket =
      if equal name (codes "publisher")
      then some publisher_port
      else if equal name (codes "subscriber")
      then some subscriber_port
      else none;
  state = not_connected;
  my_id = negsuc 0;
  is_sending = false;
  peers = [];
}

-- `id` is not -1
unfoldable pub is_connected : Client → Bool
is_connected c = elim c.my_id [ negsuc n ↦ not (n == 0) | pos n ↦ true ]

-- `RegisterObserver`
unfoldable pub register_observer : Client → Client
register_observer c = record c { has_callback = true }

write_socket : Client → Bytes → Option (List ClientEvent)
write_socket c text = do port ← c.control_socket; some (written text ∷ [])

-- `Connect`
unfoldable pub connect : Client → Bytes → Option (Client × List ClientEvent)
unfolding write_socket
connect c name = do
  events ← write_socket c (codes "SIGN_IN;" ++ (name ++ codes ";"))
  some (record c { state = connected }, events)

-- `SendHangUp` and `SignOut` do nothing, and the result is true.
unfoldable pub send_hang_up : Client → ℤ → Client × Bool
send_hang_up c peer = (c, true)

unfoldable pub sign_out : Client → Client × Bool
sign_out c = (c, true)

-- `find` of a semicolon: what stands before it and what stands behind it.
unfoldable pub split_field : Bytes → Option (Bytes × Bytes)
split_field [] = none
split_field (c ∷ cs) =
    let later = (do (field, rest) ← split_field cs; some (c ∷ field, rest)) in
    if c == b';' then some ([], cs) else later

-- The method, the id and the message of what was read.
unfoldable pub split_message : Bytes → Option (Bytes × Bytes × Bytes)
split_message text = do
  (method, rest) ← split_field text
  (id, message) ← split_field rest
  some (method, id, message)

call_back : Client → ClientEvent → Option (List ClientEvent)
call_back c event = if c.has_callback then some (event ∷ []) else none

-- The calls that a method makes.
unfoldable pub handle_method : Client → Bytes → ℤ → Bytes → Option (List ClientEvent)
unfolding call_back
handle_method c method id message = do
  first ←
      if equal method (codes "MSG_FROM_PEER")
      then call_back c (peer_message id message)
      else some []
  second ← if equal method (codes "BYE") then call_back c (peer_gone id) else some []
  some (first ++ second)

-- `parseMessage`
unfoldable pub parse_message : Client → Bytes → Option (List ClientEvent)
unfolding split_message handle_method
parse_message c text = elim (split_message text) [
  | none ↦ some []
  | some (method, id, message) ↦ do number ← atoi (c_str id); handle_method c method number message
]

abbrev is_empty : Bytes → Bool
is_empty [] = true
is_empty (b ∷ bs) = false

-- `ReadIntoBuffer`, on what `read_some` gives.
unfoldable pub read_into_buffer : Client → Bytes → Option (Client × List ClientEvent)
unfolding parse_message
read_into_buffer c read = do
  let d = if is_empty read then record c { state = not_connected } else c
  events ← parse_message d read
  some (d, events)

-- `OnRead`, and `OnHangingGetRead`, which only calls it.
unfoldable pub on_read : Client → Bytes → Option (Client × List ClientEvent)
unfolding read_into_buffer
on_read c read =
    if is_connected_state c.state
    then (do port ← c.control_socket; read_into_buffer c read)
    else some (c, [])

-- `SendToPeer`
unfoldable pub send_to_peer : Client → ℤ → Bytes → Option (List ClientEvent)
unfolding write_socket
send_to_peer c id message =
    write_socket c (codes "MSG_TO_PEER;" ++ (print_int id ++ (b';' ∷ message)))
