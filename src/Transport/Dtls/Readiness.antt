-- ===== src/Transport/Dtls/Readiness.antt =====
-- DtlsTransport.cpp, DtlsClient.cpp and DtlsSocket.cpp: a transport with its sockets over any history.
use erizo.Base.{
  ℕ, ◌≡◌, inl, inr, subst, Bool, true, List, [], ◌∷◌, Option, none, some, Bytes, arith,
  Option-cases,
}
use erizo.Srtp.{SrtpLibrary}
use erizo.Sdp.Types.{MediaType}
use erizo.Nice.Connection.{IceState}
use erizo.Transport.Base.{TransportEvent, is_ready}
use erizo.Transport.Dtls.{DtlsTransport, SocketContext, dtls_nice_data, dtls_write, dtls_ice_state}
use erizo.Transport.Dtls.Secure.{
  IsSecure, new_dtls-IsSecure, dtls_ice_state-IsSecure, dtls_write-IsSecure,
  dtls_nice_data-IsSecure,
}
use erizo.Transport.Dtls.Session.{
  Answer, Session, new_session, ice_reports, receives, writes, Action, report, packet, tick, send,
  ice_changes, act, run,
}
use erizo.Transport.Dtls.Authentic.{IsAuthentic, Keeps, then-Keeps, ticks-Keeps, dispatch-Keeps}

module _ {S : Type 0} where
  -- A transport whose flags are those of another one.
  transport_IsAuthentic :
      (s : Session S) (t : DtlsTransport S)
      → IsSecure t
      → (t.ready_rtp ≡ s.transport.ready_rtp)
        × (t.ready_rtcp ≡ s.transport.ready_rtcp)
        × (t.has_dtls_rtcp ≡ s.transport.has_dtls_rtcp)
      → IsAuthentic s
      → IsAuthentic (record s { transport = t })
  transport_IsAuthentic s t k e h = record {
    secure = k;
    rtp_done = λ f. ground arith;
    rtcp_done = λ f g. ground arith;
  }

  ice_state_flags :
      (t : DtlsTransport S) (state : IceState)
      → ((dtls_ice_state t state).0.ready_rtp ≡ t.ready_rtp)
        × ((dtls_ice_state t state).0.ready_rtcp ≡ t.ready_rtcp)
        × ((dtls_ice_state t state).0.has_dtls_rtcp ≡ t.has_dtls_rtcp)
  unfolding dtls_ice_state
  ice_state_flags t state = ground arith

  -- A result that leaves the flags of a transport.
  abbrev SameFlags : DtlsTransport S → Option (DtlsTransport S × List TransportEvent) → Type 0
  SameFlags t none = Unit {0}
  SameFlags t (some (u, events)) =
      (u.ready_rtp ≡ t.ready_rtp)
      × (u.ready_rtcp ≡ t.ready_rtcp)
      × (u.has_dtls_rtcp ≡ t.has_dtls_rtcp)

module _ {S : Type 0} (lib : SrtpLibrary S) where
  nice_data_flags :
      (t : DtlsTransport S) (component : ℕ) (buf : Bytes)
      → SameFlags t (dtls_nice_data lib t component buf)
  unfolding dtls_nice_data
  nice_data_flags t component buf = ground arith

  write_flags : (t : DtlsTransport S) (buf : Bytes) → SameFlags t (dtls_write lib t buf)
  unfolding dtls_write
  write_flags t buf = ground arith

  writes-Keeps : (s : Session S) (buf : Bytes) → IsAuthentic s → Keeps (writes lib s buf)
  unfolding writes
  writes-Keeps s buf h = elim (Option-cases (dtls_write lib s.transport buf)) [
    | inl e ↦ rw e tt
    | inr ((t, events), e) ↦ rw e (
        transport_IsAuthentic s t (rw e at (dtls_write-IsSecure lib s.transport buf h.secure))
          (rw e at (write_flags s.transport buf)) h)
  ]

module _ {S : Type 0} (lib : SrtpLibrary S) (base64 : Bytes → Bytes) where
  receives-Keeps :
      (s : Session S) (component : ℕ) (buf : Bytes) (answers : SocketContext → Answer)
      → IsAuthentic s
      → Keeps (receives lib base64 s component buf answers)
  unfolding receives
  receives-Keeps s component buf answers h =
      elim (Option-cases (dtls_nice_data lib s.transport component buf)) [
        | inl e ↦ rw e tt
        | inr ((t, events), e) ↦ rw e (
            dispatch-Keeps lib base64 events (record s { transport = t }) answers
              (transport_IsAuthentic s t
                (rw e at (dtls_nice_data-IsSecure lib s.transport component buf h.secure))
                (rw e at (nice_data_flags lib s.transport component buf)) h))
      ]

  act-Keeps : (s : Session S) (a : Action) → IsAuthentic s → Keeps (act lib base64 s a)
  unfolding act ice_reports
  act-Keeps s (report state answers) h =
      dispatch-Keeps lib base64 (dtls_ice_state s.transport state).1 _ answers (
        transport_IsAuthentic s (dtls_ice_state s.transport state).0
          (dtls_ice_state-IsSecure s.transport state h.secure) (ice_state_flags s.transport state)
          h)
  act-Keeps s (packet component buf answers) h = receives-Keeps s component buf answers h
  act-Keeps s (tick ctx answer) h = ticks-Keeps lib base64 s ctx answer h
  act-Keeps s (send buf) h = writes-Keeps lib s buf h
  act-Keeps s (ice_changes n) h = record {
    secure = record {
      rtp_keyed = h.secure.rtp_keyed;
      rtcp_keyed = h.secure.rtcp_keyed;
      ready_after = h.secure.ready_after;
    };
    rtp_done = h.rtp_done;
    rtcp_done = h.rtcp_done;
  }

  run-Keeps :
      (actions : List Action) (s : Session S) → IsAuthentic s → Keeps (run lib base64 s actions)
  unfolding run
  run-Keeps [] s h = h
  run-Keeps (a ∷ actions) s h = then-Keeps _ _ (act-Keeps s a h) (λ d k. run-Keeps actions d k)

  new_session-IsAuthentic :
      (media : MediaType) (name : Bytes) (bundle mux : Bool)
      → IsAuthentic {S = S} (new_session media name bundle mux)
  unfolding new_session
  new_session-IsAuthentic media name bundle mux = record {
    secure = new_dtls-IsSecure media name bundle mux;
    rtp_done = λ e. cc;
    rtcp_done = λ e f. cc;
  }

  -- Whatever happens to a new transport and its sockets (reports and changes of the ICE connection,
  -- packets, ticks of the timers, writes, each with any answer of OpenSSL), as long as it is defined,
  -- the transport is ready only when the socket for RTP, and the one for RTCP if there is one, have
  -- completed their handshake.
  pub run_ready_after :
      (media : MediaType) (name : Bytes) (bundle mux : Bool) (actions : List Action) {s : Session S}
      {events : List TransportEvent}
      → run lib base64 (new_session media name bundle mux) actions ≡ some (s, events)
      → is_ready s.transport.state ≡ true
      → (s.rtp_socket.handshake_completed ≡ true)
        × (s.transport.has_dtls_rtcp ≡ true → s.rtcp_socket.handshake_completed ≡ true)
  run_ready_after media name bundle mux actions e r =
      let h : IsAuthentic _ =
        subst Keeps e (run-Keeps actions _ (new_session-IsAuthentic media name bundle mux)) in
      let both = h.secure.ready_after r in (h.rtp_done both.0, λ f. h.rtcp_done f both.1)
