-- ===== src/Signalling/Observer.antt =====
-- src/examples/pc/Observer.h and Observer.cpp, SDPReceiver.h: the observer of a client. The receiver that
-- makes the connections and Boost's regular expressions are parameters. `none` is undefined behaviour,
-- as for the client, or the submatch of a pattern that did not match. The thread that answers an offer
-- runs at once.
use erizo.Base.{
  ℤ, Bool, not, List, [], ◌∷◌, ◌++◌, Option, some, Bytes, codes, equal, if◌then◌else◌, ◌>>=◌,
}
use erizo.Text.CString.{strstr, c_str}
use erizo.Signalling.Client.{
  Client, ClientEvent, written, peer_message, peer_gone, new_client, register_observer, connect,
  on_read, send_to_peer,
}

-- `SDPReceiver`
pub record Receiver (R : Type 0) : Type 0 where
  pub create_publisher : R → ℤ → R × Bool
  pub create_subscriber : R → ℤ → R × Bool
  pub set_remote_sdp : R → ℤ → Bytes → R
  pub get_local_sdp : R → ℤ → R × Bytes
  pub peer_disconnected : R → ℤ → R

-- `regex_match` with the first submatch, and `regex_replace`.
pub record Regex : Type 0 where
  pub submatch : Bytes → Bytes → Option Bytes
  pub replace : Bytes → Bytes → Bytes → Bytes

-- The message that answers an offer.
unfoldable pub answer : Bytes → Bytes → Bytes
answer sdp session =
    codes "\n{\n \"messageType\":\"ANSWER\",\n"
    ++ (codes " \"sdp\":\""
        ++ (sdp
            ++ (codes "\",\n"
                ++ (codes " \"offererSessionId\":"
                    ++ (session ++ codes ",\n \"answererSessionId\":106,\n \"seq\" : 1\n}\n")))))

abbrev pub sdp_pattern : Bytes
sdp_pattern = codes "^.*sdp\":\"(.*)\",.*$"

abbrev pub session_pattern : Bytes
session_pattern = codes "^.*offererSessionId\":(...).*$"

-- `Observer`
pub record Observer : Type 0 where
  pub name : Bytes
  pub client : Client

-- The constructor, `init` and the first two calls of `start`.
unfoldable pub new_observer : Bytes → Option (Observer × List ClientEvent)
new_observer name = do
  (c, events) ← connect (register_observer (new_client name)) name
  some (record { name = name; client = c }, events)

module _ (regex : Regex) where
  open regex use {submatch, replace}

  -- `Match`: the text ends at its first zero.
  unfoldable pub match_pattern : Bytes → Bytes → Option Bytes
  match_pattern text pattern = submatch (c_str text) pattern

  -- `Replace`
  unfoldable pub replace_pattern : Bytes → Bytes → Bytes → Bytes
  replace_pattern text pattern new = replace text pattern new

module _ {R : Type 0} (receiver : Receiver R) (regex : Regex) where
  open receiver use {
    create_publisher, create_subscriber, set_remote_sdp, get_local_sdp, peer_disconnected,
  }

  -- The connection for a peer.
  unfoldable pub create : Bytes → R → ℤ → R × Bool
  create name r id =
      if equal name (codes "publisher") then create_publisher r id else create_subscriber r id

  -- `processMessage`, once there is a connection for the peer.
  unfoldable pub reply : Client → R → ℤ → Bytes → Option (R × List ClientEvent)
  unfolding answer
  reply c r id message = do
    let (r1, sdp) = get_local_sdp r id
    offer ← match_pattern regex message sdp_pattern
    let r2 = set_remote_sdp r1 id (replace_pattern regex offer (codes "\\\\r\\\\n") (codes "\\n"))
    session ← match_pattern regex message session_pattern
    events ←
        send_to_peer c id
          (answer (replace_pattern regex sdp (codes "\n") (codes "\\\\r\\\\n")) session)
    some (r2, events)

  -- `processMessage`
  unfoldable pub process_message : Observer → R → ℤ → Bytes → Option (R × List ClientEvent)
  unfolding create reply
  process_message o r id message =
      let (r1, created) = create o.name r id in
      if not created then some (r1, []) else reply o.client r1 id message

  -- `OnMessageFromPeer` and `OnPeerDisconnected`
  unfoldable pub observe : Observer → R → ClientEvent → Option (R × List ClientEvent)
  unfolding process_message
  observe o r (peer_message id message) =
      if strstr message (codes "OFFER") then process_message o r id message else some (r, [])
  observe o r (peer_gone id) = some (peer_disconnected r id, [])
  observe o r (written text) = some (r, written text ∷ [])

  observe_all : Observer → R → List ClientEvent → Option (R × List ClientEvent)
  unfolding observe
  observe_all o r [] = some (r, [])
  observe_all o r (event ∷ events) = do
    (r1, first) ← observe o r event
    (r2, rest) ← observe_all o r1 events
    some (r2, first ++ rest)

  -- A turn of the loop of `start`, on what the socket gives.
  unfoldable pub turn : Observer → R → Bytes → Option (Observer × R × List ClientEvent)
  unfolding observe_all
  turn o r read = do
    (c, events) ← on_read o.client read
    let o1 = record o { client = c }
    (r1, out) ← observe_all o1 r events
    some (o1, r1, out)
