-- ===== src/Transport/Dtls/Keyed.antt =====
-- DtlsClient.cpp, SrtpChannel.cpp and DtlsTransport.cpp: handshakes that give a transport its keys.
use erizo.Base.{
  ◌≡◌, ◌≤◌, ◌⊎◌, refl, true, false, ◌&&◌, inl, inr, List, [], ◌∷◌, ◌++◌, Option, none, some, Bytes,
  arith, length, length-append, length-take, length-drop, take, drop, is_some, subst, sym,
  Option-cases, if◌then◌else◌,
}
use erizo.Srtp.{SrtpLibrary, SrtpChannel, new_channel}
use erizo.Srtp.Channels.{IsChannelOf, IsLong, with_keys, set_rtp_params_long, made_channel}
use erizo.Dtls.Socket.{SocketEvent, completed, handshake_failed, write_out}
use erizo.Dtls.Keys.{handshake_completed, handshake_done, not_authenticated}
use erizo.Transport.Base.{TransportEvent, transport_ready}
use erizo.Transport.Dtls.{
  DtlsTransport, SocketContext, rtp_context, on_handshake_completed, set_keys, dtls_state,
}
use erizo.Transport.Dtls.Session.{Answer, completes, told}

-- A profile was negotiated, and the material for the four keys and salts can be exported.
pub record IsNegotiated (answer : Answer) : Type 0 where
  pub name : Bytes
  pub exported : Bytes
  pub profile : answer.profile ≡ some name
  pub material : answer.material ≡ some exported
  pub long : 60 ≤ length exported

-- The key and the salt of the client, and of the server.
abbrev pub client_key : Bytes → Bytes
client_key m = take 16 m ++ take 14 (drop 32 m)

abbrev pub server_key : Bytes → Bytes
server_key m = take 16 (drop 16 m) ++ take 14 (drop 46 m)

length-client_key : (m : Bytes) → 60 ≤ length m → length (client_key m) ≡ 30
length-client_key m l = omega (
  arith,
  length-append (take 16 m) (take 14 (drop 32 m)),
  length-take 16 m,
  length-take 14 (drop 32 m),
  length-drop 32 m,
)

length-server_key : (m : Bytes) → 60 ≤ length m → length (server_key m) ≡ 30
length-server_key m l = omega (
  arith,
  length-append (take 16 (drop 16 m)) (take 14 (drop 46 m)),
  length-take 16 (drop 16 m),
  length-take 14 (drop 46 m),
  length-drop 16 m,
  length-drop 46 m,
)

module _ {S : Type 0} (lib : SrtpLibrary S) (base64 : Bytes → Bytes) where
  -- glib's decoder undoes its encoder.
  abbrev pub Decodes : Type 0
  Decodes = (bytes : Bytes) → lib.g_base64_decode (base64 bytes) ≡ bytes

  module _ (decodes : Decodes) where
    long_key : (key : Bytes) → length key ≡ 30 → IsLong lib (base64 key)
    long_key key l = subst (λ k. 30 ≤ length k) (sym (decodes key)) (omega (arith, l))

    -- The end of the handshake of a socket, on a transport.
    abbrev finished :
        DtlsTransport S → SocketContext → Bytes → DtlsTransport S × List TransportEvent
    finished t ctx m =
        let t' =
          set_keys lib t ctx
            (with_keys lib new_channel (base64 (client_key m)) (base64 (server_key m))) in
        if t'.ready_rtp && t'.ready_rtcp then dtls_state t' transport_ready else (t', [])

    handshake_ends :
        (t : DtlsTransport S) (ctx : SocketContext) (m : Bytes)
        → 60 ≤ length m
        → on_handshake_completed lib t ctx (base64 (client_key m)) (base64 (server_key m))
          ≡ some (finished t ctx m)
    unfolding on_handshake_completed
    handshake_ends t ctx m l =
        rw
          (set_rtp_params_long lib new_channel (base64 (client_key m)) (base64 (server_key m))
            (long_key (client_key m) (length-client_key m l))
            (long_key (server_key m) (length-server_key m l)))
          refl

    pub completed_event :
        (answer : Answer) (h : IsNegotiated answer) (digest : Bytes)
        → answer.peer ≡ some digest
        → handshake_completed base64 answer.peer answer.material answer.profile
          ≡ some (handshake_done (base64 (client_key h.exported)) (base64 (server_key h.exported)))
    unfolding handshake_completed
    completed_event answer h digest p = rw (p, h.profile, h.material) refl

    silent_event :
        (answer : Answer)
        → answer.peer ≡ none
        → handshake_completed base64 answer.peer answer.material answer.profile
          ≡ some not_authenticated
    unfolding handshake_completed
    silent_event answer p = rw p refl

    -- A channel of the two keys.
    abbrev pub HasKeys : Bytes → Option (SrtpChannel S) → Type 0
    HasKeys m none = ⊥
    HasKeys m (some c) = IsChannelOf lib (base64 (client_key m)) (base64 (server_key m)) c

    pub rtp_ready :
        (t : DtlsTransport S) (m : Bytes)
        → 60 ≤ length m
        → (t.has_dtls_rtcp ≡ false) ⊎ (t.ready_rtcp ≡ true)
        → (u : DtlsTransport S) × (events : List TransportEvent) × (completes lib base64 t
              rtp_context
              (handshake_done (base64 (client_key m)) (base64 (server_key m)))
            ≡ some (u, events))
          × (u.state ≡ transport_ready)
          × HasKeys m u.srtp
    unfolding completes set_keys
    rtp_ready t m l h =
        let r = finished t rtp_context m in
        let kept : r.0.srtp
            ≡ some (with_keys lib new_channel (base64 (client_key m)) (base64 (server_key m))) =
          ground arith in
        (
          r.0,
          r.1,
          handshake_ends t rtp_context m l,
          ground arith,
          subst (HasKeys m) (sym kept)
              (made_channel lib new_channel (base64 (client_key m)) (base64 (server_key m))),
        )

    pub told_defined :
        (events : List SocketEvent) (t : DtlsTransport S) (ctx : SocketContext) (answer : Answer)
        → IsNegotiated answer
        → is_some (told lib base64 t ctx answer events) ≡ true
    unfolding told completes
    told_defined [] t ctx answer h = refl
    told_defined (handshake_failed n ∷ events) t ctx answer h = told_defined events t ctx answer h
    told_defined (write_out buf ∷ events) t ctx answer h =
        ground (arith, told_defined events t ctx answer h)
    told_defined (completed ∷ events) t ctx answer h = elim (Option-cases answer.peer) [
      | inl p ↦ rw (silent_event answer p) (ground (arith, told_defined events t ctx answer h))
      | inr (digest, p) ↦
          rw (completed_event answer h digest p, handshake_ends t ctx h.exported h.long)
            (ground (arith, told_defined events (finished t ctx h.exported).0 ctx answer h))
    ]
