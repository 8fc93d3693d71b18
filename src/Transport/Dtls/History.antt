-- ===== src/Transport/Dtls/History.antt =====
-- DtlsTransport.cpp: what holds of a transport after any sequence of its operations.
use erizo.Base.{ℕ, ◌≡◌, subst, Bool, List, Option, some, Bytes, length, ◌≤◌, is_some, true}
use erizo.Srtp.{SrtpLibrary}
use erizo.Sdp.Types.{MediaType}
use erizo.Nice.Connection.{IceState, NiceConnection}
use erizo.Transport.Base.{TransportEvent}
use erizo.Transport.Dtls.{
  DtlsTransport, SocketContext, new_dtls, dtls_ice_state, on_handshake_completed, dtls_write,
  dtls_nice_data,
}
use erizo.Transport.Dtls.Secure.{
  IsSecure, new_dtls-IsSecure, dtls_ice_state-IsSecure, on_handshake_completed-IsSecure,
  dtls_write-IsSecure, dtls_nice_data-IsSecure, Protected, QueuesOf, dtls_write-Protected, Keeps,
  dtls_write-defined,
}

module _ {S : Type 0} (lib : SrtpLibrary S) where
  -- One call on the transport, or a change of its ICE connection, which runs on a thread of its own.
  pub data DtlsStep : DtlsTransport S → DtlsTransport S → Type 0 where
    ice_changes :
        (t : DtlsTransport S) (n : NiceConnection)
        → DtlsStep t (record t { base = record t.base { nice_connection = n } })
    ice_reports : (t : DtlsTransport S) (state : IceState) → DtlsStep t (dtls_ice_state t state).0
    handshake_ends :
        {t t' : DtlsTransport S} (ctx : SocketContext) (client_key server_key : Bytes)
        {events : List TransportEvent}
        → on_handshake_completed lib t ctx client_key server_key ≡ some (t', events)
        → DtlsStep t t'
    writes :
        {t t' : DtlsTransport S} (buf : Bytes) {events : List TransportEvent}
        → dtls_write lib t buf ≡ some (t', events)
        → DtlsStep t t'
    receives :
        {t t' : DtlsTransport S} (component : ℕ) (buf : Bytes) {events : List TransportEvent}
        → dtls_nice_data lib t component buf ≡ some (t', events)
        → DtlsStep t t'

  pub data IsReachable : DtlsTransport S → Type 0 where
    made :
        (media : MediaType) (name : Bytes) (bundle mux : Bool)
        → IsReachable (new_dtls media name bundle mux).0
    after : {t t' : DtlsTransport S} → IsReachable t → DtlsStep t t' → IsReachable t'

  Keeps-some :
      (o : Option (DtlsTransport S × List TransportEvent)) {t : DtlsTransport S}
      {events : List TransportEvent}
      → Keeps lib o
      → o ≡ some (t, events)
      → IsSecure t
  Keeps-some o k e = subst (Keeps lib) e k

  step-IsSecure : (t t' : DtlsTransport S) → DtlsStep t t' → IsSecure t → IsSecure t'
  step-IsSecure t t' (ice_changes _ n) h = record {
    rtp_keyed = h.rtp_keyed;
    rtcp_keyed = h.rtcp_keyed;
    ready_after = h.ready_after;
  }
  step-IsSecure t t' (ice_reports _ state) h = dtls_ice_state-IsSecure t state h
  step-IsSecure t t' (handshake_ends ctx ck sk e) h =
      Keeps-some _ (on_handshake_completed-IsSecure lib t ctx ck sk h) e
  step-IsSecure t t' (writes buf e) h =
      Keeps-some (dtls_write lib t buf) (dtls_write-IsSecure lib t buf h) e
  step-IsSecure t t' (receives component buf e) h =
      Keeps-some (dtls_nice_data lib t component buf)
        (dtls_nice_data-IsSecure lib t component buf h) e

  pub IsReachable-IsSecure : (t : DtlsTransport S) → IsReachable t → IsSecure t
  IsReachable-IsSecure t (made media name bundle mux) = new_dtls-IsSecure media name bundle mux
  IsReachable-IsSecure t (after {t = s} r step) = step-IsSecure s t step (IsReachable-IsSecure s r)

  -- In every state that a DTLS transport reaches from its constructor by changes and reports of its ICE
  -- connection, ended handshakes, writes and received packets, a write of at most 10000 bytes calls
  -- no null session, and each packet that it queues is the output of a successful `srtp_protect` or
  -- `srtp_protect_rtcp` on the packet it was given: nothing is queued unprotected.
  pub dtls_write-secure :
      (t : DtlsTransport S) (buf : Bytes)
      → IsReachable t
      → length buf ≤ 10000
      → (is_some (dtls_write lib t buf) ≡ true)
        × QueuesOf lib (Protected lib buf) (dtls_write lib t buf)
  dtls_write-secure t buf r k = (
    dtls_write-defined lib t buf (IsReachable-IsSecure t r) k,
    dtls_write-Protected lib t buf (IsReachable-IsSecure t r),
  )
