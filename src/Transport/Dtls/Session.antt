-- ===== src/Transport/Dtls/Session.antt =====
-- src/erizo/DtlsTransport.cpp with dtls/DtlsClient.cpp and dtls/DtlsSocket.cpp: a transport together
-- with the sockets of its handshakes. What OpenSSL makes of the input is an argument of each step.
use erizo.Base.{
  ℕ, Bool, true, false, List, [], ◌∷◌, ◌++◌, Option, none, some, Bytes, if◌then◌else◌, ◌>>=◌,
}
use erizo.Srtp.{SrtpLibrary}
use erizo.Sdp.Types.{MediaType}
use erizo.Nice.Connection.{IceState, NiceConnection}
use erizo.Dtls.Socket.{
  Socket, SocketType, client, server, SslError, SocketEvent, completed, handshake_failed, write_out,
  new_socket, do_handshake_iteration, update_timer,
}
use erizo.Dtls.Keys.{handshake_completed, ContextEvent, handshake_done, not_authenticated}
use erizo.Transport.Base.{TransportEvent, start_rtp, start_rtcp, read_rtp, read_rtcp}
use erizo.Transport.Dtls.{
  DtlsTransport, SocketContext, rtp_context, rtcp_context, demux_packet, is_dtls, new_dtls,
  dtls_ice_state, write_dtls, on_handshake_completed, dtls_nice_data, dtls_write,
}

-- What OpenSSL answers: the result of `SSL_do_handshake`, the bytes in its output, the digest of the
-- peer's certificate, the exported keying material, the name of the SRTP profile, and the time.
pub record Answer : Type 0 where
  pub result : SslError
  pub out : Bytes
  pub peer : Option Bytes
  pub material : Option Bytes
  pub profile : Option Bytes
  pub now : ℕ

-- `rtcp_socket` is there when the transport has an RTCP socket.
pub record Session (S : Type 0) : Type 0 where
  pub transport : DtlsTransport S
  pub rtp_socket : Socket
  pub rtcp_socket : Socket

module _ {S : Type 0} where
  -- The constructor: its sockets are clients.
  unfoldable pub new_session : MediaType → Bytes → Bool → Bool → Session S
  unfolding new_dtls new_socket
  new_session media name bundle rtcp_mux = record {
    transport = (new_dtls media name bundle rtcp_mux).0;
    rtp_socket = new_socket client;
    rtcp_socket = new_socket client;
  }

  abbrev pub socket_of : Session S → SocketContext → Socket
  socket_of s rtp_context = s.rtp_socket
  socket_of s rtcp_context = s.rtcp_socket

  abbrev pub with_socket : Session S → SocketContext → Socket → Session S
  with_socket s rtp_context socket = record s { rtp_socket = socket }
  with_socket s rtcp_context socket = record s { rtcp_socket = socket }

-- `assert(mSocketType == Client)` of `startClient`
abbrev pub is_client : SocketType → Bool
is_client client = true
is_client server = false

-- What happens to a session.
pub data Action : Type 0 where
  report : IceState → (SocketContext → Answer) → Action
  packet : ℕ → Bytes → (SocketContext → Answer) → Action
  tick : SocketContext → Answer → Action
  send : Bytes → Action
  -- the ICE connection, which runs on a thread of its own, changes
  ice_changes : NiceConnection → Action

module _ {S : Type 0} (lib : SrtpLibrary S) where
  -- `write` of the transport.
  unfoldable pub writes : Session S → Bytes → Option (Session S × List TransportEvent)
  writes s buf = do
    (t, events) ← dtls_write lib s.transport buf
    some (record s { transport = t }, events)

module _ {S : Type 0} (lib : SrtpLibrary S) (base64 : Bytes → Bytes) where
  -- `DtlsSocketContext::handshakeCompleted`: the receiver is the transport.
  unfoldable pub completes :
      DtlsTransport S
      → SocketContext
      → ContextEvent
      → Option (DtlsTransport S × List TransportEvent)
  completes t ctx (handshake_done client_key server_key) =
      on_handshake_completed lib t ctx client_key server_key
  completes t ctx not_authenticated = some (t, [])

  -- What the socket tells its context: `handshakeCompleted`, `handshakeFailed` or `write`.
  unfoldable pub told :
      DtlsTransport S
      → SocketContext
      → Answer
      → List SocketEvent
      → Option (DtlsTransport S × List TransportEvent)
  unfolding completes
  told t ctx answer [] = some (t, [])
  told t ctx answer (completed ∷ events) = do
    event ← handshake_completed base64 answer.peer answer.material answer.profile
    (t1, first) ← completes t ctx event
    (t2, rest) ← told t1 ctx answer events
    some (t2, first ++ rest)
  told t ctx answer (handshake_failed n ∷ events) = told t ctx answer events
  told t ctx answer (write_out buf ∷ events) = do
    (t2, rest) ← told t ctx answer events
    some (t2, write_dtls t ctx buf ++ rest)

  -- What a socket's call gives, carried to the transport.
  unfoldable pub carry :
      Session S
      → SocketContext
      → Answer
      → Option (Socket × List SocketEvent)
      → Option (Session S × List TransportEvent)
  unfolding told
  carry s ctx answer none = none
  carry s ctx answer (some (socket, events)) = do
    (t, out) ← told s.transport ctx answer events
    some (record (with_socket s ctx socket) { transport = t }, out)

  unfoldable pub iteration :
      Session S → SocketContext → Answer → Option (Session S × List TransportEvent)
  unfolding carry
  iteration s ctx answer =
      carry s ctx answer
        (do_handshake_iteration (socket_of s ctx) answer.result answer.out answer.now)

  -- `DtlsSocketContext::start`, with `startClient`
  unfoldable pub start :
      Session S → SocketContext → Answer → Option (Session S × List TransportEvent)
  unfolding iteration
  start s ctx answer =
      let socket = socket_of s ctx in
      if is_client socket.socket_type then iteration s ctx answer else none

  -- `DtlsSocketContext::read`, with `handlePacketMaybe`
  unfoldable pub read :
      Session S → SocketContext → Bytes → Answer → Option (Session S × List TransportEvent)
  unfolding iteration
  read s ctx buf answer = do
    kind ← demux_packet buf
    if is_dtls kind then iteration s ctx answer else some (s, [])

  -- The calls that the transport makes on its sockets, in their order; the rest goes out.
  unfoldable pub dispatch :
      Session S
      → (SocketContext → Answer)
      → List TransportEvent
      → Option (Session S × List TransportEvent)
  unfolding start read
  dispatch s answers [] = some (s, [])
  dispatch s answers (start_rtp ∷ events) = do
    (s1, first) ← start s rtp_context (answers rtp_context)
    (s2, rest) ← dispatch s1 answers events
    some (s2, first ++ rest)
  dispatch s answers (start_rtcp ∷ events) = do
    (s1, first) ← start s rtcp_context (answers rtcp_context)
    (s2, rest) ← dispatch s1 answers events
    some (s2, first ++ rest)
  dispatch s answers (read_rtp buf ∷ events) = do
    (s1, first) ← read s rtp_context buf (answers rtp_context)
    (s2, rest) ← dispatch s1 answers events
    some (s2, first ++ rest)
  dispatch s answers (read_rtcp buf ∷ events) = do
    (s1, first) ← read s rtcp_context buf (answers rtcp_context)
    (s2, rest) ← dispatch s1 answers events
    some (s2, first ++ rest)
  dispatch s answers (event ∷ events) = do
    (s2, rest) ← dispatch s answers events
    some (s2, event ∷ rest)

  -- `updateIceState` of the transport, down to its sockets.
  unfoldable pub ice_reports :
      Session S → IceState → (SocketContext → Answer) → Option (Session S × List TransportEvent)
  unfolding dispatch
  ice_reports s state answers =
      let (t, events) = dtls_ice_state s.transport state in
      dispatch (record s { transport = t }) answers events

  -- `onNiceData` of the transport, down to its sockets.
  unfoldable pub receives :
      Session S → ℕ → Bytes → (SocketContext → Answer) → Option (Session S × List TransportEvent)
  unfolding dispatch
  receives s component buf answers = do
    (t, events) ← dtls_nice_data lib s.transport component buf
    dispatch (record s { transport = t }) answers events

  -- A tick of the owner of a socket's timer.
  unfoldable pub ticks :
      Session S → SocketContext → Answer → Option (Session S × List TransportEvent)
  unfolding carry
  ticks s ctx answer =
      carry s ctx answer (update_timer (socket_of s ctx) answer.result answer.out answer.now)

  unfoldable pub act : Session S → Action → Option (Session S × List TransportEvent)
  unfolding ice_reports receives ticks writes
  act s (report state answers) = ice_reports s state answers
  act s (packet component buf answers) = receives s component buf answers
  act s (tick ctx answer) = ticks s ctx answer
  act s (send buf) = writes lib s buf
  act s (ice_changes n) = some (
    record s {
      transport = record s.transport { base = record s.transport.base { nice_connection = n } };
    },
    [],
  )

  unfoldable pub run : Session S → List Action → Option (Session S × List TransportEvent)
  unfolding act
  run s [] = some (s, [])
  run s (a ∷ rest_of) = do (t, first) ← act s a; (u, rest) ← run t rest_of; some (u, first ++ rest)
