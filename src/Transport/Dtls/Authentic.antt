-- ===== src/Transport/Dtls/Authentic.antt =====
-- DtlsTransport.cpp, DtlsClient.cpp and DtlsSocket.cpp: what the sockets of a transport have done when it
-- is ready.
use erizo.Base.{
  suc, Option-cases, inl, inr, ℕ, ◌≡◌, ◌⊎◌, true, List, [], ◌∷◌, ◌++◌, Option, none, some, Bytes,
  ◌>>=◌, arith,
}
use erizo.Srtp.{SrtpLibrary, set_rtp_params}
use erizo.Dtls.Socket.{
  Socket, SocketEvent, completed, handshake_failed, write_out, do_handshake_iteration, update_timer,
  iterate,
}
use erizo.Dtls.Socket
use erizo.Dtls.Timers.{count_completed, Counts, iterate-Counts, act-Counts}
use erizo.Dtls.Keys.{handshake_completed, ContextEvent, handshake_done, not_authenticated}
use erizo.Transport.Base.{TransportEvent, start_rtp, start_rtcp, read_rtp, read_rtcp}
use erizo.Transport.Dtls.{
  DtlsTransport, SocketContext, rtp_context, rtcp_context, on_handshake_completed,
}
use erizo.Transport.Dtls.Secure
use erizo.Transport.Dtls.Secure.{IsSecure, on_handshake_completed-IsSecure}
use erizo.Transport.Dtls.Session.{
  Answer, Session, socket_of, completes, told, carry, iteration, start, read, dispatch, ticks,
}

-- RTP and, with a socket of its own, RTCP are ready only when the handshake of that socket is done.
pub record IsAuthentic {S : Type 0} (s : Session S) : Type 0 where
  pub secure : IsSecure s.transport
  pub rtp_done : s.transport.ready_rtp ≡ true → s.rtp_socket.handshake_completed ≡ true
  pub rtcp_done :
      s.transport.has_dtls_rtcp ≡ true
      → s.transport.ready_rtcp ≡ true
      → s.rtcp_socket.handshake_completed ≡ true

abbrev pub Keeps : {S : Type 0} → Option (Session S × List TransportEvent) → Type 0
Keeps none = Unit {0}
Keeps (some (s, events)) = IsAuthentic s

module _ {S : Type 0} where
  then_after :
      (first : List TransportEvent) (q : Option (Session S × List TransportEvent))
      → Keeps q
      → Keeps (do (s2, rest) ← q; some (s2, first ++ rest))
  then_after first none h = tt
  then_after first (some (s2, rest)) h = h

  pub then-Keeps :
      (r : Option (Session S × List TransportEvent))
      (f : Session S → Option (Session S × List TransportEvent))
      → Keeps r
      → ((s : Session S) → IsAuthentic s → Keeps (f s))
      → Keeps (do (s1, first) ← r; (s2, rest) ← f s1; some (s2, first ++ rest))
  then-Keeps none f h k = tt
  then-Keeps (some (s1, first)) f h k = then_after first (f s1) (k s1 h)

  -- What the reports of one socket change of the transport's readiness: with no completed handshake
  -- among them nothing, and else the flags of that socket's component alone.
  pub record Changes (ctx : SocketContext) (count : ℕ) (t t' : DtlsTransport S) : Type 0 where
    pub same_sockets : t'.has_dtls_rtcp ≡ t.has_dtls_rtcp
    pub same_rtp : (count ≡ 0) ⊎ (ctx ≡ rtcp_context) → t'.ready_rtp ≡ t.ready_rtp
    pub same_rtcp :
        (count ≡ 0) ⊎ (ctx ≡ rtp_context) × (t.has_dtls_rtcp ≡ true) → t'.ready_rtcp ≡ t.ready_rtcp

  abbrev pub ChangesOf :
      SocketContext → ℕ → DtlsTransport S → Option (DtlsTransport S × List TransportEvent) → Type 0
  ChangesOf ctx count t none = Unit {0}
  ChangesOf ctx count t (some (t', events)) = Changes ctx count t t'

  Changes-after :
      (ctx : SocketContext) (n : ℕ) (t t1 : DtlsTransport S) (first : List TransportEvent)
      (q : Option (DtlsTransport S × List TransportEvent))
      → Changes ctx 1 t t1
      → ChangesOf ctx n t1 q
      → ChangesOf ctx (suc n) t (do (t2, rest) ← q; some (t2, first ++ rest))
  Changes-after ctx n t t1 first none h k = tt
  Changes-after ctx n t t1 first (some (t2, rest)) h k = ground arith

  Changes-same :
      (ctx : SocketContext) (n : ℕ) (t : DtlsTransport S) (first : List TransportEvent)
      (q : Option (DtlsTransport S × List TransportEvent))
      → ChangesOf ctx n t q
      → ChangesOf ctx n t (do (t2, rest) ← q; some (t2, first ++ rest))
  Changes-same ctx n t first none k = tt
  Changes-same ctx n t first (some (t2, rest)) k = k

module _ {S : Type 0} (lib : SrtpLibrary S) (base64 : Bytes → Bytes) where
  told_after :
      (first : List TransportEvent) (q : Option (DtlsTransport S × List TransportEvent))
      → Secure.Keeps lib q
      → Secure.Keeps lib (do (t2, rest) ← q; some (t2, first ++ rest))
  told_after first none h = tt
  told_after first (some (t2, rest)) h = h

  completes-IsSecure :
      (t : DtlsTransport S) (ctx : SocketContext) (e : ContextEvent)
      → IsSecure t
      → Secure.Keeps lib (completes lib base64 t ctx e)
  unfolding completes
  completes-IsSecure t ctx (handshake_done ck sk) h =
      on_handshake_completed-IsSecure lib t ctx ck sk h
  completes-IsSecure t ctx not_authenticated h = h

  completes-Changes :
      (t : DtlsTransport S) (ctx : SocketContext) (e : ContextEvent)
      → ChangesOf ctx 1 t (completes lib base64 t ctx e)
  unfolding completes on_handshake_completed set_rtp_params
  completes-Changes t rtp_context (handshake_done ck sk) = ground arith
  completes-Changes t rtcp_context (handshake_done ck sk) = ground arith
  completes-Changes t ctx not_authenticated = ground arith

  pub told-IsSecure :
      (events : List SocketEvent) (t : DtlsTransport S) (ctx : SocketContext) (answer : Answer)
      → IsSecure t
      → Secure.Keeps lib (told lib base64 t ctx answer events)
  unfolding told
  told-IsSecure [] t ctx answer h = h
  told-IsSecure (completed ∷ events) t ctx answer h =
      elim (Option-cases (handshake_completed base64 answer.peer answer.material answer.profile)) [
        | inl e ↦ rw e tt
        | inr (event, e) ↦ rw e (elim (Option-cases (completes lib base64 t ctx event)) [
          | inl f ↦ rw f tt
          | inr ((t1, first), f) ↦ rw f (
              told_after first (told lib base64 t1 ctx answer events)
                (told-IsSecure events t1 ctx answer (rw f at (completes-IsSecure t ctx event h))))
        ])
      ]
  told-IsSecure (handshake_failed n ∷ events) t ctx answer h = told-IsSecure events t ctx answer h
  told-IsSecure (write_out buf ∷ events) t ctx answer h =
      told_after _ (told lib base64 t ctx answer events) (told-IsSecure events t ctx answer h)

  pub told-Changes :
      (events : List SocketEvent) (t : DtlsTransport S) (ctx : SocketContext) (answer : Answer)
      → ChangesOf ctx (count_completed events) t (told lib base64 t ctx answer events)
  unfolding told
  told-Changes [] t ctx answer = ground arith
  told-Changes (completed ∷ events) t ctx answer =
      elim (Option-cases (handshake_completed base64 answer.peer answer.material answer.profile)) [
        | inl e ↦ rw e tt
        | inr (event, e) ↦ rw e (elim (Option-cases (completes lib base64 t ctx event)) [
          | inl f ↦ rw f tt
          | inr ((t1, first), f) ↦ rw f (
              Changes-after ctx (count_completed events) t t1 first
                (told lib base64 t1 ctx answer events) (rw f at (completes-Changes t ctx event))
                (told-Changes events t1 ctx answer))
        ])
      ]
  told-Changes (handshake_failed n ∷ events) t ctx answer = told-Changes events t ctx answer
  told-Changes (write_out buf ∷ events) t ctx answer =
      Changes-same ctx (count_completed events) t _ (told lib base64 t ctx answer events)
        (told-Changes events t ctx answer)

  carry-Keeps :
      (s : Session S) (ctx : SocketContext) (answer : Answer)
      (r : Option (Socket × List SocketEvent))
      → Counts (socket_of s ctx) r
      → IsAuthentic s
      → Keeps (carry lib base64 s ctx answer r)
  unfolding carry
  carry-Keeps s ctx answer none n h = tt
  carry-Keeps s rtp_context answer (some (socket, events)) n h =
      elim (Option-cases (told lib base64 s.transport rtp_context answer events)) [
        | inl e ↦ rw e tt
        | inr ((t, out), e) ↦ rw e (
            let k = rw e at (told-Changes events s.transport rtp_context answer) in
            let sec = rw e at (told-IsSecure events s.transport rtp_context answer h.secure) in
            record { secure = sec; rtp_done = λ e. ground arith; rtcp_done = λ e f. ground arith })
      ]
  carry-Keeps s rtcp_context answer (some (socket, events)) n h =
      elim (Option-cases (told lib base64 s.transport rtcp_context answer events)) [
        | inl e ↦ rw e tt
        | inr ((t, out), e) ↦ rw e (
            let k = rw e at (told-Changes events s.transport rtcp_context answer) in
            let sec = rw e at (told-IsSecure events s.transport rtcp_context answer h.secure) in
            record { secure = sec; rtp_done = λ e. ground arith; rtcp_done = λ e f. ground arith })
      ]

  iteration-Keeps :
      (s : Session S) (ctx : SocketContext) (answer : Answer)
      → IsAuthentic s
      → Keeps (iteration lib base64 s ctx answer)
  unfolding iteration
  iteration-Keeps s ctx answer h =
      carry-Keeps s ctx answer _
        (iterate-Counts (socket_of s ctx) answer.result answer.out answer.now) h

  pub ticks-Keeps :
      (s : Session S) (ctx : SocketContext) (answer : Answer)
      → IsAuthentic s
      → Keeps (ticks lib base64 s ctx answer)
  unfolding ticks Socket.act
  ticks-Keeps s ctx answer h =
      carry-Keeps s ctx answer _
        (act-Counts (socket_of s ctx) (Socket.tick answer.result answer.out answer.now)) h

  start-Keeps :
      (s : Session S) (ctx : SocketContext) (answer : Answer)
      → IsAuthentic s
      → Keeps (start lib base64 s ctx answer)
  unfolding start
  start-Keeps s ctx answer h = ground (arith, iteration-Keeps s ctx answer h)

  read-Keeps :
      (s : Session S) (ctx : SocketContext) (buf : Bytes) (answer : Answer)
      → IsAuthentic s
      → Keeps (read lib base64 s ctx buf answer)
  unfolding read
  read-Keeps s ctx buf answer h = ground (arith, iteration-Keeps s ctx answer h)

  pub dispatch-Keeps :
      (events : List TransportEvent) (s : Session S) (answers : SocketContext → Answer)
      → IsAuthentic s
      → Keeps (dispatch lib base64 s answers events)
  unfolding dispatch
  dispatch-Keeps [] s answers h = h
  dispatch-Keeps (start_rtp ∷ events) s answers h =
      then-Keeps _ _ (start-Keeps s rtp_context (answers rtp_context) h)
        (λ d k. dispatch-Keeps events d answers k)
  dispatch-Keeps (start_rtcp ∷ events) s answers h =
      then-Keeps _ _ (start-Keeps s rtcp_context (answers rtcp_context) h)
        (λ d k. dispatch-Keeps events d answers k)
  dispatch-Keeps (read_rtp buf ∷ events) s answers h =
      then-Keeps _ _ (read-Keeps s rtp_context buf (answers rtp_context) h)
        (λ d k. dispatch-Keeps events d answers k)
  dispatch-Keeps (read_rtcp buf ∷ events) s answers h =
      then-Keeps _ _ (read-Keeps s rtcp_context buf (answers rtcp_context) h)
        (λ d k. dispatch-Keeps events d answers k)
  dispatch-Keeps (event ∷ events) s answers h =
      then_after (event ∷ []) _ (dispatch-Keeps events s answers h)
