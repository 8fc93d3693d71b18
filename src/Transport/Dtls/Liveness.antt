-- ===== src/Transport/Dtls/Liveness.antt =====
-- DtlsTransport.cpp, DtlsClient.cpp and DtlsSocket.cpp: the packet that completes a handshake.
use erizo.Base.{
  ℕ, ◌≡◌, ◌⊎◌, refl, true, false, List, [], ◌∷◌, ◌++◌, ◌>>=◌, Option, none, some, Bytes, arith,
}
use erizo.Srtp.{SrtpLibrary}
use erizo.Dtls.Socket.{
  Socket, SocketEvent, completed, written, SslError, error_none, do_handshake_iteration,
}
use erizo.Dtls.Timers.{IsSafe}
use erizo.Transport.Base.{TransportEvent, transport_ready}
use erizo.Transport.Dtls.{
  DtlsTransport, SocketContext, rtp_context, dtls, demux_byte, demux_packet, dtls_nice_data,
}
use erizo.Transport.Dtls.Keyed.{IsNegotiated, Decodes, HasKeys, completed_event, rtp_ready}
use erizo.Transport.Dtls.Session.{
  Answer, Session, with_socket, told, carry, iteration, read, dispatch, receives,
}

-- A handshake that is done, and what its context is told.
abbrev Completed : Bytes → Option (Socket × List SocketEvent) → Type 0
Completed out none = ⊥
Completed out (some (k, events)) =
    (events ≡ completed ∷ written out) × (k.handshake_completed ≡ true)

iteration-Completed :
    (k : Socket) (result : SslError) (out : Bytes) (now : ℕ)
    → IsSafe k
    → result ≡ error_none
    → k.handshake_completed ≡ false
    → Completed out (do_handshake_iteration k result out now)
unfolding do_handshake_iteration
iteration-Completed k result out now safe r open_ = rw r (ground arith)

module _ {S : Type 0} (lib : SrtpLibrary S) (base64 : Bytes → Bytes)
    (decodes : Decodes lib base64) where
  -- A transport with its socket and what went out; the RTP channel has the keys of the material.
  pub record Finishes (m : Bytes) (r : Option (Session S × List TransportEvent)) : Type 0 where
    pub session : Session S
    pub events : List TransportEvent
    pub returned : r ≡ some (session, events)
    pub ready : session.transport.state ≡ transport_ready
    pub keyed : HasKeys lib base64 decodes m session.transport.srtp
    pub done : session.rtp_socket.handshake_completed ≡ true

  told-written :
      (t : DtlsTransport S) (ctx : SocketContext) (answer : Answer) (out : Bytes)
      → (events : List TransportEvent) × (told lib base64 t ctx answer (written out)
          ≡ some (t, events))
  unfolding told
  told-written t ctx answer [] = ([], refl)
  told-written t ctx answer (b ∷ bs) = (_, refl)

  carry-Finishes :
      (s : Session S) (answer : Answer) (digest : Bytes) (socket : Socket) (out : Bytes)
      → (s.transport.has_dtls_rtcp ≡ false) ⊎ (s.transport.ready_rtcp ≡ true)
      → answer.peer ≡ some digest
      → (h : IsNegotiated answer) → socket.handshake_completed ≡ true
      → Finishes h.exported
          (carry lib base64 s rtp_context answer (some (socket, completed ∷ written out)))
  unfolding carry told
  carry-Finishes s answer digest socket out mux peer h d =
      let (t, first, e, ready, keys) =
        rtp_ready lib base64 decodes s.transport h.exported h.long mux in
      let (rest, f) = told-written t rtp_context answer out in
      record {
        session = record (with_socket s rtp_context socket) { transport = t };
        events = first ++ rest;
        returned = rw (completed_event lib base64 decodes answer h digest peer) (rw e (rw f refl));
        ready = ready;
        keyed = keys;
        done = d;
      }

  carry-Completed :
      (s : Session S) (answer : Answer) (digest : Bytes) (r : Option (Socket × List SocketEvent))
      → (s.transport.has_dtls_rtcp ≡ false) ⊎ (s.transport.ready_rtcp ≡ true)
      → answer.peer ≡ some digest
      → (h : IsNegotiated answer) → Completed answer.out r
      → Finishes h.exported (carry lib base64 s rtp_context answer r)
  carry-Completed s answer digest none mux peer h c = elim c [ ]
  carry-Completed s answer digest (some (k, events)) mux peer h c =
      rw c.0 (carry-Finishes s answer digest k answer.out mux peer h c.1)

  dispatched-Finishes :
      (m : Bytes) (r : Option (Session S × List TransportEvent))
      → Finishes m r
      → Finishes m (do (s1, first) ← r; (s2, rest) ← some (s1, []); some (s2, first ++ rest))
  dispatched-Finishes m r h = record {
    session = h.session;
    events = h.events ++ [];
    returned = rw h.returned refl;
    ready = h.ready;
    keyed = h.keyed;
    done = h.done;
  }

  received :
      (s : Session S) (b : ℕ) (bs : Bytes) (answers : SocketContext → Answer)
      → demux_byte b ≡ dtls
      → receives lib base64 s 1 (b ∷ bs) answers ≡ (do
        (s1, first) ← iteration lib base64 s rtp_context (answers rtp_context)
        (s2, rest) ← some (s1, [])
        some (s2, first ++ rest))
  unfolding receives dtls_nice_data demux_packet dispatch read
  received s b bs answers d = rw d (rw d refl)

  -- If RTCP has no socket of its own or is ready already, a DTLS packet for component 1 on which OpenSSL
  -- completes the handshake, with a peer that sent a certificate, a negotiated profile and at least 60
  -- bytes of exported material, makes the transport ready. Its RTP channel then sends with a session
  -- made from the client's key of the material and receives with one made from the server's.
  pub receives_ready :
      (s : Session S) (b : ℕ) (bs : Bytes) (answers : SocketContext → Answer) (digest : Bytes)
      → demux_byte b ≡ dtls
      → IsSafe s.rtp_socket
      → s.rtp_socket.handshake_completed ≡ false
      → (s.transport.has_dtls_rtcp ≡ false) ⊎ (s.transport.ready_rtcp ≡ true)
      → (answers rtp_context).result ≡ error_none
      → (answers rtp_context).peer ≡ some digest
      → (h : IsNegotiated (answers rtp_context))
      → Finishes h.exported (receives lib base64 s 1 (b ∷ bs) answers)
  unfolding iteration
  receives_ready s b bs answers digest d safe open_ mux res peer h =
      let answer = answers rtp_context in
      rw (received s b bs answers d) (
        dispatched-Finishes h.exported _ (
          carry-Completed s answer digest _ mux peer h
            (iteration-Completed s.rtp_socket answer.result answer.out answer.now safe res open_)))
