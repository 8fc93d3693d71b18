-- ===== src/Tests/TransportRuns.antt =====
-- Transports over the toy library.
use erizo.Base.{
  ◌++◌, List, Bytes, some, ◌⊎◌, inl, inr, ℕ, ◌≡◌, refl, true, false, [], ◌∷◌, none, codes, arith,
  is_some,
}
use erizo.Rtp.RtcpHeader.{is_rtcp}
use erizo.Sdp.Types.{video_type, CryptoInfo}
use erizo.Nice.Connection.{nice_ready, nice_candidates_gathered}
use erizo.Dtls.Socket.{error_none, new_socket, do_handshake_iteration}
use erizo.Dtls.Keys.{handshake_completed}
use erizo.Dtls.Timers.{IsSafe}
use erizo.Transport.Base.{TransportEvent, is_ready, on_transport_data}
use erizo.Transport.Dtls.Session.{
  Answer, Session, new_session, Action, packet, run, act, receives, dispatch, read, iteration,
  carry, told, completes,
}
use erizo.Srtp.{set_rtp_params}
use erizo.Transport.Dtls.Keyed.{IsNegotiated, Decodes}
use erizo.Transport.Dtls.Total.{run_defined}
use erizo.Transport.Dtls.Readiness.{run_ready_after}
use erizo.Transport.Dtls.Liveness.{Finishes, receives_ready}
use erizo.Transport.Dtls.{
  SocketContext, demux_byte, demux_packet, dtls, dtls_nice_data, read_dtls, write_dtls,
  DtlsTransport, new_dtls, on_handshake_completed, rtp_context, dtls_write,
}
use erizo.Transport.Dtls.Secure.{QueuesOf, Protected}
use erizo.Transport.Dtls.History.{
  IsReachable, made, after, ice_changes, handshake_ends, dtls_write-secure,
}
use erizo.Transport.Sdes.{SdesTransport, new_sdes, sdes_ice_state, sdes_write, sdes_nice_data}
use erizo.Transport.Sdes.History
use erizo.Transport.Sdes.Total.{Ends, run_authentic}
use erizo.Transport.Sdes.Keys.{sdes_write_rtcp_null, sdes_read_open}
use erizo.Tests.Fixtures.{toy_lib, rtp_packet, sender_report, half_ready}

abbrev fresh : DtlsTransport ℕ
fresh = (new_dtls video_type (codes "video") false true).0

abbrev connected : DtlsTransport ℕ
connected = record fresh {
  base = record fresh.base { nice_connection = record half_ready { ice_state = nice_ready } };
}

-- A master key and a salt.
abbrev long_key : Bytes
long_key = codes "123456789012345678901234567890"

abbrev agreement : DtlsTransport ℕ × List TransportEvent
unfolding on_handshake_completed set_rtp_params
agreement = elim (on_handshake_completed toy_lib connected rtp_context long_key long_key) [
  | none ↦ (connected, [])
  | some r ↦ r
]

agreement_lem :
    on_handshake_completed toy_lib connected rtp_context long_key long_key ≡ some agreement
unfolding on_handshake_completed set_rtp_params agreement
agreement_lem = refl

abbrev agreed : DtlsTransport ℕ
agreed = agreement.0

agreed-IsReachable : IsReachable toy_lib agreed
agreed-IsReachable =
    after
      (after (made video_type (codes "video") false true)
        (ice_changes fresh (record half_ready { ice_state = nice_ready })))
      (handshake_ends rtp_context long_key long_key agreement_lem)

dtls_write-secure_example :
    (is_some (dtls_write toy_lib agreed rtp_packet) ≡ true)
    × QueuesOf toy_lib (Protected toy_lib rtp_packet) (dtls_write toy_lib agreed rtp_packet)
dtls_write-secure_example =
    dtls_write-secure toy_lib agreed rtp_packet agreed-IsReachable (omega arith)

-- An SDES transport of two components.
abbrev two_components : SdesTransport ℕ
two_components =
    let fresh_sdes =
      (new_sdes video_type (codes "video") false false long_key (record {
        tag = 1;
        cipher_suite = [];
        key_params = long_key;
        media_type = video_type;
      })).0 in
    record fresh_sdes {
      base = record fresh_sdes.base {
        nice_connection = record half_ready { ice_state = nice_ready };
      };
    }

sender_report_lem : is_rtcp sender_report ≡ true
unfolding is_rtcp
sender_report_lem = refl

abbrev opened : SdesTransport ℕ × List TransportEvent
unfolding new_sdes sdes_ice_state set_rtp_params
opened = elim (sdes_ice_state toy_lib two_components nice_ready) [
  | none ↦ (two_components, [])
  | some r ↦ r
]

opened_lem : sdes_ice_state toy_lib two_components nice_ready ≡ some opened
unfolding new_sdes sdes_ice_state set_rtp_params opened
opened_lem = refl

sdes_write_rtcp_null_example : sdes_write toy_lib opened.0 sender_report ≡ none
unfolding new_sdes
sdes_write_rtcp_null_example =
    sdes_write_rtcp_null toy_lib two_components sender_report opened_lem refl refl sender_report_lem

abbrev plain_text : Bytes → Bytes
plain_text key = key

-- OpenSSL ends the handshake with a peer that sent a certificate.
abbrev ended : SocketContext → Answer
ended ctx = record {
  result = error_none;
  out = 23 ∷ [];
  peer = some (171 ∷ 7 ∷ []);
  material = some (long_key ++ long_key);
  profile = some (codes "SRTP_AES128_CM_SHA1_80");
  now = 0;
}

abbrev ended-IsNegotiated : (ctx : SocketContext) → IsNegotiated (ended ctx)
ended-IsNegotiated ctx = record {
  name = codes "SRTP_AES128_CM_SHA1_80";
  exported = long_key ++ long_key;
  profile = refl;
  material = refl;
  long = omega arith;
}

decoded : Decodes toy_lib plain_text
decoded bytes = refl

abbrev fresh_session : Session ℕ
fresh_session = new_session video_type (codes "video") false true

abbrev handshake_packet : List Action
handshake_packet = packet 1 (22 ∷ []) ended ∷ []

abbrev after_handshake : Session ℕ × List TransportEvent
unfolding run act receives dtls_nice_data demux_packet read_dtls dispatch read iteration
    do_handshake_iteration carry told completes handshake_completed on_handshake_completed
    set_rtp_params new_session write_dtls
after_handshake = elim (run toy_lib plain_text fresh_session handshake_packet) [
  | none ↦ (fresh_session, [])
  | some r ↦ r
]

after_handshake_lem :
    (run toy_lib plain_text fresh_session handshake_packet ≡ some after_handshake)
    × (is_ready after_handshake.0.transport.state ≡ true)
unfolding after_handshake run act receives dtls_nice_data demux_packet read_dtls dispatch read
    iteration do_handshake_iteration carry told completes handshake_completed on_handshake_completed
    set_rtp_params new_session write_dtls
after_handshake_lem = (refl, refl)

run_ready_after_example :
    (after_handshake.0.rtp_socket.handshake_completed ≡ true)
    × (after_handshake.0.transport.has_dtls_rtcp ≡ true
        → after_handshake.0.rtcp_socket.handshake_completed ≡ true)
run_ready_after_example =
    run_ready_after toy_lib plain_text video_type (codes "video") false true handshake_packet
      after_handshake_lem.0 after_handshake_lem.1

fresh_session_lem :
    IsSafe fresh_session.rtp_socket
    × (fresh_session.rtp_socket.handshake_completed ≡ false)
    × (fresh_session.transport.has_dtls_rtcp ≡ false)
    × (demux_byte 22 ≡ dtls)
unfolding new_session new_socket new_dtls demux_byte
fresh_session_lem = (record { reads = tt; holds = tt }, refl, refl, refl)

receives_ready_example :
    Finishes toy_lib plain_text decoded
      (long_key ++ long_key)
      (receives toy_lib plain_text fresh_session 1 (22 ∷ []) ended)
receives_ready_example =
    receives_ready toy_lib plain_text decoded fresh_session 22 [] ended (171 ∷ 7 ∷ [])
      fresh_session_lem.3 fresh_session_lem.0 fresh_session_lem.1 (inl fresh_session_lem.2) refl
      refl (ended-IsNegotiated rtp_context)

run_defined_example : is_some (run toy_lib plain_text fresh_session handshake_packet) ≡ true
run_defined_example =
    run_defined toy_lib plain_text decoded video_type (codes "video") false true handshake_packet
      ((refl, omega arith, inl refl, ended-IsNegotiated), tt)

abbrev peer_crypto : CryptoInfo
peer_crypto = record { tag = 1; cipher_suite = []; key_params = long_key; media_type = video_type }

-- A transport that becomes ready, writes a packet and a report, and receives a packet.
abbrev sdes_actions : List History.Action
sdes_actions =
    History.report nice_candidates_gathered
    ∷ History.ice_changes (record half_ready { ice_state = nice_ready })
    ∷ History.report nice_ready
    ∷ History.send rtp_packet
    ∷ History.send sender_report
    ∷ History.packet 1 rtp_packet
    ∷ []

run_authentic_example :
    Ends toy_lib long_key long_key true
      (λ b. (b ≡ rtp_packet) ⊎ (b ≡ sender_report))
      (λ b. b ≡ rtp_packet)
      (History.run toy_lib
        (new_sdes video_type (codes "video") false true long_key peer_crypto).0
        sdes_actions)
run_authentic_example =
    run_authentic toy_lib (λ b. (b ≡ rtp_packet) ⊎ (b ≡ sender_report)) (λ b. b ≡ rtp_packet)
      video_type (codes "video") false true long_key peer_crypto sdes_actions (omega arith)
      (omega arith)
      (
        tt,
        (
          tt,
          (
            tt,
            (
              (inl refl, omega arith, inl refl),
              ((inr refl, omega arith, inl refl), ((refl, omega arith, refl), tt)),
            ),
          ),
        ),
      )

rtp_packet_lem : is_rtcp rtp_packet ≡ false
unfolding is_rtcp
rtp_packet_lem = refl

sdes_read_open_example :
    sdes_nice_data toy_lib opened.0 2 rtp_packet
    ≡ some (opened.0, on_transport_data rtp_packet ∷ [])
unfolding new_sdes
sdes_read_open_example =
    sdes_read_open toy_lib two_components 128 _ opened_lem refl rtp_packet_lem refl
