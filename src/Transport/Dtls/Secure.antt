-- ===== src/Transport/Dtls/Secure.antt =====
-- DtlsTransport.cpp: the keys of a transport, and the packets that it queues.
use erizo.Base.{
  ℕ, ◌≡◌, refl, ◌⊎◌, inl, inr, Bool, true, false, not, ◌&&◌, List, [], ◌∷◌, Option, none, some,
  Bytes, arith, is_some, if◌then◌else◌, ◌>>=◌, Option-cases, leb, length, ◌≤◌, ◌∙◌, ap,
}
use erizo.Rtp.RtcpHeader.{is_rtcp}
use erizo.Srtp.{
  SrtpLibrary, SrtpChannel, protect_rtp, protect_rtcp, unprotect_rtp, unprotect_rtcp, new_channel,
  set_rtp_params,
}
use erizo.Sdp.Types.{MediaType}
use erizo.Nice.Connection.{
  IceState, nice_ready, nice_initial, nice_finished, nice_candidates_received, nice_failed,
  nice_candidates_gathered, is_nice_ready,
}
use erizo.Transport.Base.{transport_ready, is_ready, TransportEvent, queue_data, fits_buffer}
use erizo.Transport.Dtls.{
  DtlsTransport, SocketContext, rtp_context, rtcp_context, new_dtls, dtls_ice_state,
  on_handshake_completed, dtls_write, dtls_nice_data, protect_with, enqueue_packet, set_keys,
  dtls_state,
}

-- A channel with its two sessions, which its two keys made.
abbrev pub is_keyed : {S : Type 0} → Option (SrtpChannel S) → Bool
is_keyed none = false
is_keyed (some c) = c.active && (is_some c.send_session && is_some c.receive_session)

module _ {S : Type 0} where
  -- RTP is keyed when its handshake is done, RTCP too if it has a socket of its own, and only then is
  -- the transport ready.
  pub record IsSecure (t : DtlsTransport S) : Type 0 where
    pub rtp_keyed : t.ready_rtp ≡ true → is_keyed t.srtp ≡ true
    pub rtcp_keyed : t.has_dtls_rtcp ≡ true → t.ready_rtcp ≡ true → is_keyed t.srtcp ≡ true
    pub ready_after : is_ready t.state ≡ true → (t.ready_rtp ≡ true) × (t.ready_rtcp ≡ true)

  pub new_dtls-IsSecure :
      (media : MediaType) (name : Bytes) (bundle mux : Bool)
      → IsSecure (new_dtls media name bundle mux).0
  unfolding new_dtls
  new_dtls-IsSecure media name bundle mux = record {
    rtp_keyed = λ e. cc;
    rtcp_keyed = λ e f. cc;
    ready_after = λ e. cc;
  }

  pub dtls_ice_state-IsSecure :
      (t : DtlsTransport S) (state : IceState) → IsSecure t → IsSecure (dtls_ice_state t state).0
  unfolding dtls_ice_state
  dtls_ice_state-IsSecure t nice_candidates_gathered h = record {
    rtp_keyed = h.rtp_keyed;
    rtcp_keyed = h.rtcp_keyed;
    ready_after = λ e. cc;
  }
  dtls_ice_state-IsSecure t nice_initial h = h
  dtls_ice_state-IsSecure t nice_candidates_received h = h
  dtls_ice_state-IsSecure t nice_ready h = h
  dtls_ice_state-IsSecure t nice_finished h = h
  dtls_ice_state-IsSecure t nice_failed h = h

module _ {S : Type 0} (lib : SrtpLibrary S) where
  abbrev pub Keeps : Option (DtlsTransport S × List TransportEvent) → Type 0
  Keeps none = Unit {0}
  Keeps (some (t, es)) = IsSecure t

  -- What `on_handshake_completed` makes of a transport and its new channel.
  with_channel-IsSecure :
      (t : DtlsTransport S) (ctx : SocketContext) (c : SrtpChannel S)
      → is_keyed (some c) ≡ true
      → IsSecure t
      → IsSecure
          (let t' = set_keys lib t ctx c in
            if t'.ready_rtp && t'.ready_rtcp then dtls_state t' transport_ready else (t', [])).0
  unfolding set_keys
  with_channel-IsSecure t rtp_context c k h = ground arith
  with_channel-IsSecure t rtcp_context c k h = ground arith

  params_keyed :
      (client_key server_key : Bytes) {c : SrtpChannel S}
      → set_rtp_params lib new_channel client_key server_key ≡ some c
      → is_keyed (some c) ≡ true
  unfolding set_rtp_params
  params_keyed client_key server_key {c} e = ground arith

  pub on_handshake_completed-IsSecure :
      (t : DtlsTransport S) (ctx : SocketContext) (client_key server_key : Bytes)
      → IsSecure t
      → Keeps (on_handshake_completed lib t ctx client_key server_key)
  unfolding on_handshake_completed
  on_handshake_completed-IsSecure t ctx client_key server_key h =
      elim (Option-cases (set_rtp_params lib new_channel client_key server_key)) [
        | inl e ↦ rw e tt
        | inr (c, e) ↦ rw e (with_channel-IsSecure t ctx c (params_keyed client_key server_key e) h)
      ]

  pub dtls_write-IsSecure :
      (t : DtlsTransport S) (buf : Bytes) → IsSecure t → Keeps (dtls_write lib t buf)
  unfolding dtls_write protect_rtp protect_rtcp
  dtls_write-IsSecure t buf h = ground arith

  pub dtls_nice_data-IsSecure :
      (t : DtlsTransport S) (component : ℕ) (buf : Bytes)
      → IsSecure t
      → Keeps (dtls_nice_data lib t component buf)
  unfolding dtls_nice_data unprotect_rtp unprotect_rtcp
  dtls_nice_data-IsSecure t component buf h = ground arith

  -- What a packet becomes: the output of a protecting call of libsrtp that succeeded on it.
  abbrev pub Protected : Bytes → Bytes → Type 0
  Protected buf out =
      (s : S) × (((lib.srtp_protect s buf).1 ≡ 0) × ((lib.srtp_protect s buf).2 ≡ out)
        ⊎ ((lib.srtp_protect_rtcp s buf).1 ≡ 0) × ((lib.srtp_protect_rtcp s buf).2 ≡ out))

  rtp-Protected :
      (c : SrtpChannel S) (o : Option S) (buf : Bytes) {c' : SrtpChannel S} {out : Bytes}
      → c.send_session ≡ o
      → c.active ≡ true
      → is_some o ≡ true
      → protect_rtp lib c buf ≡ some (c', some out)
      → Protected buf out
  unfolding protect_rtp
  rtp-Protected c none buf eo ea h e = cc
  rtp-Protected c (some s) buf eo ea h e = (s, inl (ground arith, ground arith))

  rtcp-Protected :
      (c : SrtpChannel S) (o : Option S) (buf : Bytes) {c' : SrtpChannel S} {out : Bytes}
      → c.send_session ≡ o
      → is_some o ≡ true
      → protect_rtcp lib c buf ≡ some (c', some out)
      → Protected buf out
  unfolding protect_rtcp
  rtcp-Protected c none buf eo h e = cc
  rtcp-Protected c (some s) buf eo h e = (s, inr (ground arith, ground arith))

  -- On a ready ICE connection, a keyed channel gives protected packets.
  protect_with-Protected :
      (rtcp : Bool) (c : Option (SrtpChannel S)) (buf : Bytes) {c' : Option (SrtpChannel S)}
      {out : Bytes}
      → is_keyed c ≡ true
      → protect_with lib true rtcp c buf ≡ some (c', some out)
      → Protected buf out
  unfolding protect_with
  protect_with-Protected rtcp none buf k e = cc
  protect_with-Protected true (some c) buf {c'} {out} k e =
      elim (Option-cases (protect_rtcp lib c buf)) [
        | inl n ↦ cc
        | inr (p, q) ↦
            let done : protect_rtcp lib c buf ≡ some (p.0, some out) = ground arith in
            rtcp-Protected c c.send_session buf refl (ground arith) done
      ]
  protect_with-Protected false (some c) buf {c'} {out} k e =
      elim (Option-cases (protect_rtp lib c buf)) [
        | inl n ↦ cc
        | inr (p, q) ↦
            let done : protect_rtp lib c buf ≡ some (p.0, some out) = ground arith in
            rtp-Protected c c.send_session buf refl (ground arith) (ground arith) done
      ]

  -- Every packet of these events that is queued satisfies the predicate.
  abbrev pub Queues : (Bytes → Type 0) → List TransportEvent → Type 0
  Queues P [] = Unit {0}
  Queues P (queue_data comp out ∷ es) = P out × Queues P es
  Queues P (e ∷ es) = Queues P es

  unfoldable pub QueuesOf :
      (Bytes → Type 0) → Option (DtlsTransport S × List TransportEvent) → Type 0
  QueuesOf P none = Unit {0}
  QueuesOf P (some (t, es)) = Queues P es

  Queues-if :
      (b : Bool) (P : Bytes → Type 0) (es fs : List TransportEvent)
      → Queues P es
      → Queues P fs
      → Queues P (if b then es else fs)
  Queues-if true P es fs h k = h
  Queues-if false P es fs h k = k

  enqueue_packet-Queues :
      (ready : Bool) (comp : ℕ) (P : Bytes → Type 0) (o : Option Bytes)
      → ((out : Bytes) → ready ≡ true → o ≡ some out → P out)
      → Queues P (enqueue_packet ready comp o)
  enqueue_packet-Queues ready comp P none f = tt
  enqueue_packet-Queues true comp P (some out) f =
      Queues-if (leb (length out) 10) P [] (queue_data comp out ∷ []) tt (f out refl refl, tt)
  enqueue_packet-Queues false comp P (some out) f = Queues-if (leb (length out) 10) P [] [] tt tt

  -- One channel protects the packet and its output is queued.
  protect_with-Queues :
      (on rtcp : Bool) (comp : ℕ) (c : Option (SrtpChannel S)) (buf : Bytes)
      {c' : Option (SrtpChannel S)} {o : Option Bytes}
      → is_keyed c ≡ true
      → protect_with lib on rtcp c buf ≡ some (c', o)
      → Queues (Protected buf) (enqueue_packet on comp o)
  protect_with-Queues true rtcp comp c buf {c'} {o} k e =
      enqueue_packet-Queues true comp (Protected buf) o
        λ out t f. protect_with-Protected rtcp c buf k (e ∙ ap (λ x. some (c', x)) f)
  protect_with-Queues false rtcp comp c buf {c'} {o} k e =
      enqueue_packet-Queues false comp (Protected buf) o λ out t. cc

  QueuesOf-if :
      (b : Bool) (P : Bytes → Type 0) (x y : Option (DtlsTransport S × List TransportEvent))
      → (b ≡ true → QueuesOf P x)
      → (b ≡ false → QueuesOf P y)
      → QueuesOf P (if b then x else y)
  QueuesOf-if true P x y f g = f refl
  QueuesOf-if false P x y f g = g refl

  QueuesOf-bind :
      (o : Option (Option (SrtpChannel S) × Option Bytes)) (P : Bytes → Type 0)
      (next : Option (SrtpChannel S) → DtlsTransport S) (on : Bool) (comp : ℕ)
      → ((c : Option (SrtpChannel S)) (out : Option Bytes)
          → o ≡ some (c, out)
          → Queues P (enqueue_packet on comp out))
      → QueuesOf P (do (c, out) ← o; some (next c, enqueue_packet on comp out))
  unfolding QueuesOf
  QueuesOf-bind none P next on comp f = tt
  QueuesOf-bind (some (c, out)) P next on comp f = f c out refl

  -- A secure transport queues the output of a protecting call only.
  pub dtls_write-Protected :
      (t : DtlsTransport S) (buf : Bytes)
      → IsSecure t
      → QueuesOf (Protected buf) (dtls_write lib t buf)
  unfolding dtls_write QueuesOf
  dtls_write-Protected t buf h =
      let P : Bytes → Type 0 = Protected buf in
      let on : Bool = is_nice_ready t.nice_connection.ice_state in
      let rtcp : Bool = is_rtcp buf in
      let comp : ℕ = if rtcp && not t.rtcp_mux then 2 else 1 in
      let by_rtcp : is_ready t.state ≡ true
          → (rtcp && t.has_dtls_rtcp) ≡ true
          → QueuesOf P (do
            (c, out) ← protect_with lib on rtcp t.srtcp buf
            some (record t { base = record t.base { srtcp = c } }, enqueue_packet on comp out)) =
        λ r own.
          QueuesOf-bind (protect_with lib on rtcp t.srtcp buf) P
            (λ c. record t { base = record t.base { srtcp = c } }) on comp
            λ c out e. protect_with-Queues on rtcp comp t.srtcp buf (ground arith) e in
      let by_rtp : is_ready t.state ≡ true
          → QueuesOf P (do
            (c, out) ← protect_with lib on rtcp t.srtp buf
            some (record t { base = record t.base { srtp = c } }, enqueue_packet on comp out)) =
        λ r.
          QueuesOf-bind (protect_with lib on rtcp t.srtp buf) P
            (λ c. record t { base = record t.base { srtp = c } }) on comp
            λ c out e. protect_with-Queues on rtcp comp t.srtp buf (ground arith) e in
      QueuesOf-if (not (is_ready t.state)) P _ _ (λ n. tt)
        λ n.
          QueuesOf-if (not (fits_buffer buf)) P _ _ (λ big. tt)
            λ big.
              QueuesOf-if (rtcp && t.has_dtls_rtcp) P _ _ (by_rtcp (ground arith))
                (λ own. by_rtp (ground arith))

  -- A secure transport calls no null session.
  pub dtls_write-defined :
      (t : DtlsTransport S) (buf : Bytes)
      → IsSecure t
      → length buf ≤ 10000
      → is_some (dtls_write lib t buf) ≡ true
  unfolding dtls_write protect_rtp protect_rtcp
  dtls_write-defined t buf h k = ground arith
