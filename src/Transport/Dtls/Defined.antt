-- ===== src/Transport/Dtls/Defined.antt =====
-- DtlsTransport.cpp, DtlsClient.cpp and DtlsSocket.cpp: when a history of a transport with its sockets is
-- defined.
use erizo.Base.{
  ℕ, ◌≡◌, ◌∙◌, ◌≤◌, ◌⊎◌, Bool, true, false, List, [], ◌∷◌, ◌++◌, Option, none, some, Bytes, ◌==◌,
  ◌>>=◌, arith, length, Option-cases, inl, inr,
}
use erizo.Srtp.{SrtpLibrary, unprotect_rtp, unprotect_rtcp}
use erizo.Nice.Connection.{IceState}
use erizo.Dtls.Socket.{
  Socket, SocketType, client, SslError, error_none, want_read, other_error, SocketEvent, new_socket,
  do_handshake_iteration, update_timer,
}
use erizo.Dtls.Socket
use erizo.Dtls.Timers.{IsSafe, Succeeds, iterate-Succeeds, act-Succeeds}
use erizo.Transport.Base.{TransportEvent, start_rtp, start_rtcp, read_rtp, read_rtcp}
use erizo.Transport.Dtls.{
  DtlsTransport, SocketContext, rtp_context, rtcp_context, dtls_nice_data, dtls_write,
  dtls_ice_state, demux_packet,
}
use erizo.Transport.Dtls.Secure.{IsSecure}
use erizo.Transport.Dtls.Session.{
  Answer, Session, socket_of, with_socket, told, carry, iteration, start, read, dispatch, ticks,
}
use erizo.Transport.Dtls.Keyed.{Decodes, IsNegotiated, told_defined}
use erizo.Transport.Dtls.Authentic.{told-IsSecure, told-Changes}

-- A client's socket that uses no deleted timer.
pub record IsSound (k : Socket) : Type 0 where
  pub safe : IsSafe k
  pub is_a_client : k.socket_type ≡ client

abbrev SoundResult : Option (Socket × List SocketEvent) → Type 0
SoundResult none = ⊥
SoundResult (some (k, events)) = IsSound k

abbrev SameType : Socket → Option (Socket × List SocketEvent) → Type 0
SameType k none = Unit {0}
SameType k (some (t, events)) = t.socket_type ≡ k.socket_type

iterate-SameType :
    (k : Socket) (result : SslError) (out : Bytes) (now : ℕ)
    → SameType k (do_handshake_iteration k result out now)
unfolding do_handshake_iteration
iterate-SameType k error_none out now = ground arith
iterate-SameType k want_read out now = ground arith
iterate-SameType k (other_error n) out now = ground arith

tick-SameType :
    (k : Socket) (result : SslError) (out : Bytes) (now : ℕ)
    → SameType k (update_timer k result out now)
unfolding update_timer
tick-SameType k result out now =
    ground (arith, iterate-SameType (record k { timer = none }) result out now)

sound_result :
    (k : Socket) (r : Option (Socket × List SocketEvent))
    → k.socket_type ≡ client
    → Succeeds r
    → SameType k r
    → SoundResult r
sound_result k none c s t = s
sound_result k (some (d, events)) c s t = record { safe = s; is_a_client = t ∙ c }

abbrev pub nonempty : Bytes → Bool
nonempty [] = false
nonempty (b ∷ bs) = true

-- The packets that are handed to the sockets are not empty.
abbrev pub AllReadable : List TransportEvent → Type 0
AllReadable [] = Unit {0}
AllReadable (read_rtp buf ∷ es) = (nonempty buf ≡ true) × AllReadable es
AllReadable (read_rtcp buf ∷ es) = (nonempty buf ≡ true) × AllReadable es
AllReadable (e ∷ es) = AllReadable es

module _ {S : Type 0} where
  -- `has` tells whether RTCP has a socket.
  pub record IsSoundSession (has : Bool) (s : Session S) : Type 0 where
    pub same_sockets : s.transport.has_dtls_rtcp ≡ has
    pub secure : IsSecure s.transport
    pub rtp_sound : IsSound s.rtp_socket
    pub rtcp_sound : IsSound s.rtcp_socket

  abbrev pub Gives : Bool → Option (Session S × List TransportEvent) → Type 0
  Gives has none = ⊥
  Gives has (some (s, events)) = IsSoundSession has s

  then_after :
      (has : Bool) (first : List TransportEvent) (q : Option (Session S × List TransportEvent))
      → Gives has q
      → Gives has (do (s2, rest) ← q; some (s2, first ++ rest))
  then_after has first none h = h
  then_after has first (some (s2, rest)) h = h

  pub then-Gives :
      (has : Bool) (r : Option (Session S × List TransportEvent))
      (f : Session S → Option (Session S × List TransportEvent))
      → Gives has r
      → ((s : Session S) → IsSoundSession has s → Gives has (f s))
      → Gives has (do (s1, first) ← r; (s2, rest) ← f s1; some (s2, first ++ rest))
  then-Gives has none f h k = h
  then-Gives has (some (s1, first)) f h k = then_after has first (f s1) (k s1 h)

  abbrev pub NiceResult : DtlsTransport S → Option (DtlsTransport S × List TransportEvent) → Type 0
  NiceResult t none = ⊥
  NiceResult t (some (u, events)) = (u.has_dtls_rtcp ≡ t.has_dtls_rtcp) × AllReadable events

  pub ice_state-AllReadable :
      (t : DtlsTransport S) (state : IceState)
      → ((dtls_ice_state t state).0.has_dtls_rtcp ≡ t.has_dtls_rtcp)
        × AllReadable (dtls_ice_state t state).1
  unfolding dtls_ice_state
  ice_state-AllReadable t state = ground arith

module _ {S : Type 0} (lib : SrtpLibrary S) where
  pub nice_data-NiceResult :
      (t : DtlsTransport S) (component : ℕ) (buf : Bytes)
      → IsSecure t
      → nonempty buf ≡ true
      → length buf ≤ 10000
      → ((component == 1) ≡ true) ⊎ (t.has_dtls_rtcp ≡ true)
      → NiceResult t (dtls_nice_data lib t component buf)
  unfolding dtls_nice_data demux_packet unprotect_rtp unprotect_rtcp
  nice_data-NiceResult t component [] h n l c = cc
  nice_data-NiceResult t component (b ∷ bs) h n l c = ground arith

  abbrev pub SameSockets : DtlsTransport S → Option (DtlsTransport S × List TransportEvent) → Type 0
  SameSockets t none = Unit {0}
  SameSockets t (some (u, events)) = u.has_dtls_rtcp ≡ t.has_dtls_rtcp

  pub write-SameSockets : (t : DtlsTransport S) (buf : Bytes) → SameSockets t (dtls_write lib t buf)
  unfolding dtls_write
  write-SameSockets t buf = ground arith

module _ {S : Type 0} (lib : SrtpLibrary S) (base64 : Bytes → Bytes) (decodes : Decodes lib base64)
    (has : Bool) where
  with_socket-IsSoundSession :
      (s : Session S) (ctx : SocketContext) (k : Socket) {t : DtlsTransport S}
      → IsSound k
      → IsSoundSession has (record s { transport = t })
      → IsSoundSession has (record (with_socket s ctx k) { transport = t })
  with_socket-IsSoundSession s rtp_context k n h = record {
    same_sockets = h.same_sockets;
    secure = h.secure;
    rtp_sound = n;
    rtcp_sound = h.rtcp_sound;
  }
  with_socket-IsSoundSession s rtcp_context k n h = record {
    same_sockets = h.same_sockets;
    secure = h.secure;
    rtp_sound = h.rtp_sound;
    rtcp_sound = n;
  }

  carry-Gives :
      (s : Session S) (ctx : SocketContext) (answer : Answer)
      (r : Option (Socket × List SocketEvent))
      → SoundResult r
      → IsNegotiated answer
      → IsSoundSession has s
      → Gives has (carry lib base64 s ctx answer r)
  unfolding carry
  carry-Gives s ctx answer none n g h = n
  carry-Gives s ctx answer (some (k, events)) n g h =
      let defined = told_defined lib base64 decodes events s.transport ctx answer g in
      elim (Option-cases (told lib base64 s.transport ctx answer events)) [
        | inl e ↦ cc (rw e at defined)
        | inr ((t, out), e) ↦ rw e (
            with_socket-IsSoundSession s ctx k n (record {
              same_sockets =
                  (rw e at (told-Changes lib base64 events s.transport ctx answer)).same_sockets
                  ∙ h.same_sockets;
              secure = rw e at (told-IsSecure lib base64 events s.transport ctx answer h.secure);
              rtp_sound = h.rtp_sound;
              rtcp_sound = h.rtcp_sound;
            }))
      ]

  socket_of-IsSound :
      (s : Session S) (ctx : SocketContext) → IsSoundSession has s → IsSound (socket_of s ctx)
  socket_of-IsSound s rtp_context h = h.rtp_sound
  socket_of-IsSound s rtcp_context h = h.rtcp_sound

  iteration-Gives :
      (s : Session S) (ctx : SocketContext) (answer : Answer)
      → IsNegotiated answer
      → IsSoundSession has s
      → Gives has (iteration lib base64 s ctx answer)
  unfolding iteration
  iteration-Gives s ctx answer g h =
      let k = socket_of s ctx in
      let sound = socket_of-IsSound s ctx h in
      carry-Gives s ctx answer _
        (sound_result k _ sound.is_a_client
          (iterate-Succeeds k answer.result answer.out answer.now sound.safe)
          (iterate-SameType k answer.result answer.out answer.now))
        g h

  pub ticks-Gives :
      (s : Session S) (ctx : SocketContext) (answer : Answer)
      → IsNegotiated answer
      → IsSoundSession has s
      → Gives has (ticks lib base64 s ctx answer)
  unfolding ticks Socket.act
  ticks-Gives s ctx answer g h =
      let k = socket_of s ctx in
      let sound = socket_of-IsSound s ctx h in
      carry-Gives s ctx answer _
        (sound_result k _ sound.is_a_client
          (act-Succeeds k (Socket.tick answer.result answer.out answer.now) sound.safe)
          (tick-SameType k answer.result answer.out answer.now))
        g h

  start-Gives :
      (s : Session S) (ctx : SocketContext) (answer : Answer)
      → IsNegotiated answer
      → IsSoundSession has s
      → Gives has (start lib base64 s ctx answer)
  unfolding start
  start-Gives s ctx answer g h =
      rw (socket_of-IsSound s ctx h).is_a_client (iteration-Gives s ctx answer g h)

  read-Gives :
      (s : Session S) (ctx : SocketContext) (buf : Bytes) (answer : Answer)
      → nonempty buf ≡ true
      → IsNegotiated answer
      → IsSoundSession has s
      → Gives has (read lib base64 s ctx buf answer)
  unfolding read demux_packet
  read-Gives s ctx [] answer n g h = cc
  read-Gives s ctx (b ∷ bs) answer n g h = ground (arith, iteration-Gives s ctx answer g h)

  pub dispatch-Gives :
      (events : List TransportEvent) (s : Session S) (answers : SocketContext → Answer)
      → AllReadable events
      → ((ctx : SocketContext) → IsNegotiated (answers ctx))
      → IsSoundSession has s
      → Gives has (dispatch lib base64 s answers events)
  unfolding dispatch
  dispatch-Gives [] s answers r g h = h
  dispatch-Gives (start_rtp ∷ events) s answers r g h =
      then-Gives has _ _ (start-Gives s rtp_context (answers rtp_context) (g rtp_context) h)
        (λ d k. dispatch-Gives events d answers r g k)
  dispatch-Gives (start_rtcp ∷ events) s answers r g h =
      then-Gives has _ _ (start-Gives s rtcp_context (answers rtcp_context) (g rtcp_context) h)
        (λ d k. dispatch-Gives events d answers r g k)
  dispatch-Gives (read_rtp buf ∷ events) s answers r g h =
      then-Gives has _ _ (read-Gives s rtp_context buf (answers rtp_context) r.0 (g rtp_context) h)
        (λ d k. dispatch-Gives events d answers r.1 g k)
  dispatch-Gives (read_rtcp buf ∷ events) s answers r g h =
      then-Gives has _ _
        (read-Gives s rtcp_context buf (answers rtcp_context) r.0 (g rtcp_context) h)
        (λ d k. dispatch-Gives events d answers r.1 g k)
  dispatch-Gives (event ∷ events) s answers r g h =
      then_after has (event ∷ []) _ (dispatch-Gives events s answers r g h)
