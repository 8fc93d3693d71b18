-- ===== src/Transport/Dtls/Total.antt =====
-- DtlsTransport.cpp, DtlsClient.cpp and DtlsSocket.cpp: the histories in which nothing is undefined.
use erizo.Base.{
  ℕ, ◌≡◌, ◌≤◌, ◌⊎◌, ◌∙◌, refl, Bool, true, not, List, [], ◌∷◌, Option, none, some, Bytes, ◌==◌,
  arith, length, is_some, Option-cases, inl, inr,
}
use erizo.Srtp.{SrtpLibrary}
use erizo.Sdp.Types.{MediaType}
use erizo.Dtls.Socket.{client, new_socket}
use erizo.Dtls.Timers.{new_socket-IsSafe}
use erizo.Transport.Base.{TransportEvent}
use erizo.Transport.Dtls.{
  DtlsTransport, SocketContext, dtls_nice_data, dtls_write, dtls_ice_state, new_dtls,
}
use erizo.Transport.Dtls.Secure.{
  IsSecure, new_dtls-IsSecure, dtls_ice_state-IsSecure, dtls_write-IsSecure,
  dtls_nice_data-IsSecure, dtls_write-defined,
}
use erizo.Transport.Dtls.Keyed.{Decodes, IsNegotiated}
use erizo.Transport.Dtls.Session.{
  Answer, Session, new_session, ice_reports, receives, writes, Action, report, packet, tick, send,
  ice_changes, act, run,
}
use erizo.Transport.Dtls.Defined.{
  nonempty, IsSoundSession, Gives, then-Gives, ticks-Gives, dispatch-Gives, nice_data-NiceResult,
  write-SameSockets, ice_state-AllReadable,
}

-- A packet is not empty, fits the buffers, and comes from component 1, or RTCP has a socket; a packet to
-- send fits the buffers. OpenSSL has a profile and the material when it is asked for them.
abbrev pub IsAllowed : Bool → Action → Type 0
IsAllowed has (packet component buf answers) =
    (nonempty buf ≡ true)
    × (length buf ≤ 10000)
    × (((component == 1) ≡ true) ⊎ (has ≡ true))
    × ((ctx : SocketContext) → IsNegotiated (answers ctx))
IsAllowed has (report state answers) = (ctx : SocketContext) → IsNegotiated (answers ctx)
IsAllowed has (tick ctx answer) = IsNegotiated answer
IsAllowed has (send buf) = length buf ≤ 10000
IsAllowed has a = Unit {0}

abbrev pub AllAllowed : Bool → List Action → Type 0
AllAllowed has [] = Unit {0}
AllAllowed has (a ∷ actions) = IsAllowed has a × AllAllowed has actions

module _ {S : Type 0} (lib : SrtpLibrary S) (base64 : Bytes → Bytes) (decodes : Decodes lib base64)
    (has : Bool) where
  with_transport :
      (s : Session S) (t : DtlsTransport S)
      → t.has_dtls_rtcp ≡ s.transport.has_dtls_rtcp
      → IsSecure t
      → IsSoundSession has s
      → IsSoundSession has (record s { transport = t })
  with_transport s t e k h = record {
    same_sockets = e ∙ h.same_sockets;
    secure = k;
    rtp_sound = h.rtp_sound;
    rtcp_sound = h.rtcp_sound;
  }

  receives-Gives :
      (s : Session S) (component : ℕ) (buf : Bytes) (answers : SocketContext → Answer)
      → nonempty buf ≡ true
      → length buf ≤ 10000
      → ((component == 1) ≡ true) ⊎ (has ≡ true)
      → ((ctx : SocketContext) → IsNegotiated (answers ctx))
      → IsSoundSession has s
      → Gives has (receives lib base64 s component buf answers)
  unfolding receives
  receives-Gives s component buf answers n l c g h =
      let own : ((component == 1) ≡ true) ⊎ (s.transport.has_dtls_rtcp ≡ true) =
        ground (arith, h.same_sockets, c) in
      let result = nice_data-NiceResult lib s.transport component buf h.secure n l own in
      elim (Option-cases (dtls_nice_data lib s.transport component buf)) [
        | inl e ↦ absurd (rw e at result)
        | inr ((t, events), e) ↦ rw e (
            let (same, readable) = rw e at result in
            dispatch-Gives lib base64 decodes has events (record s { transport = t }) answers
              readable g
              (with_transport s t same
                (rw e at (dtls_nice_data-IsSecure lib s.transport component buf h.secure)) h))
      ]

  writes-Gives :
      (s : Session S) (buf : Bytes)
      → length buf ≤ 10000
      → IsSoundSession has s
      → Gives has (writes lib s buf)
  unfolding writes
  writes-Gives s buf l h =
      let defined = dtls_write-defined lib s.transport buf h.secure l in
      elim (Option-cases (dtls_write lib s.transport buf)) [
        | inl e ↦ cc (rw e at defined)
        | inr ((t, events), e) ↦ rw e (
            with_transport s t (rw e at (write-SameSockets lib s.transport buf))
              (rw e at (dtls_write-IsSecure lib s.transport buf h.secure)) h)
      ]

  act-Gives :
      (s : Session S) (a : Action)
      → IsAllowed has a
      → IsSoundSession has s
      → Gives has (act lib base64 s a)
  unfolding act ice_reports
  act-Gives s (report state answers) al h =
      let (same, readable) = ice_state-AllReadable s.transport state in
      dispatch-Gives lib base64 decodes has (dtls_ice_state s.transport state).1 _ answers readable
        al
        (with_transport s (dtls_ice_state s.transport state).0 same
          (dtls_ice_state-IsSecure s.transport state h.secure) h)
  act-Gives s (packet component buf answers) al h =
      receives-Gives s component buf answers al.0 al.1 al.2 al.3 h
  act-Gives s (tick ctx answer) al h = ticks-Gives lib base64 decodes has s ctx answer al h
  act-Gives s (send buf) al h = writes-Gives s buf al h
  act-Gives s (ice_changes n) al h =
      with_transport s _ refl
        (record {
          rtp_keyed = h.secure.rtp_keyed;
          rtcp_keyed = h.secure.rtcp_keyed;
          ready_after = h.secure.ready_after;
        })
        h

  run-Gives :
      (actions : List Action) (s : Session S)
      → AllAllowed has actions
      → IsSoundSession has s
      → Gives has (run lib base64 s actions)
  unfolding run
  run-Gives [] s al h = h
  run-Gives (a ∷ actions) s al h =
      then-Gives has _ _ (act-Gives s a al.0 h) (λ d k. run-Gives actions d al.1 k)

Gives-is_some :
    {S : Type 0} (has : Bool) (r : Option (Session S × List TransportEvent))
    → Gives has r
    → is_some r ≡ true
Gives-is_some has none h = absurd h
Gives-is_some has (some r) h = refl

new_session-IsSoundSession :
    {S : Type 0} (media : MediaType) (name : Bytes) (bundle mux : Bool)
    → IsSoundSession {S = S} (not mux) (new_session media name bundle mux)
unfolding new_session new_dtls new_socket
new_session-IsSoundSession media name bundle mux = record {
  same_sockets = refl;
  secure = new_dtls-IsSecure media name bundle mux;
  rtp_sound = record { safe = new_socket-IsSafe client; is_a_client = refl };
  rtcp_sound = record { safe = new_socket-IsSafe client; is_a_client = refl };
}

module _ {S : Type 0} (lib : SrtpLibrary S) (base64 : Bytes → Bytes)
    (decodes : Decodes lib base64) where
  -- A new transport with its sockets runs through every history to its end when the packets that arrive
  -- are not empty and come from component 1 or RTCP has a socket of its own, no packet is longer than
  -- 10000 bytes, and OpenSSL, whatever else it answers, has a profile and 60 bytes of material whenever
  -- it may be asked for them: no null session, socket or profile, no deleted timer, no end of a buffer
  -- or a key and no failed assertion is met.
  pub run_defined :
      (media : MediaType) (name : Bytes) (bundle mux : Bool) (actions : List Action)
      → AllAllowed (not mux) actions
      → is_some (run lib base64 (new_session media name bundle mux) actions) ≡ true
  run_defined media name bundle mux actions al = Gives-is_some (not mux) _ (
      run-Gives lib base64 decodes (not mux) actions _ al
        (new_session-IsSoundSession media name bundle mux))
