-- ===== src/Tests/DtlsRuns.antt =====
-- A handshake with a retransmission timer, and fingerprints.
use erizo.Base.{
  none, false, pos, length, ◌++◌, ◌>>=◌, Bytes, codes, ◌≡◌, refl, true, List, [], ◌∷◌, some, arith,
}
use erizo.Dtls.Socket.{
  Socket, SocketType, server, Action, iterate, tick, want_read, error_none, client, new_socket, run,
  act, invalidate_read, handle_result, completed, do_handshake_iteration,
}
use erizo.Dtls.Timers.{Ends, run-new_socket_safe, run-new_socket_completed, count_completed}
use erizo.Dtls.Policies.{Policy, policies_of, has_lengths, create_srtp_session_policies}
use erizo.Dtls.Agreement.{Agrees, create_srtp_session_policies_agree, handshake_completed-policies}
use erizo.Dtls.Keys.{
  get_srtp_session_keys, handshake_completed, handshake_done, compute_fingerprint,
  check_fingerprint,
}
use erizo.Dtls.Factory.{ssl_verify_callback}
use erizo.Dtls.Filter.{BioLibrary, Filter, other, force_retransmit}
use erizo.Dtls.Filter.Around.{
  Call, reads, writes, controls, filter_calls, buffer_calls, asks, ExpiredOnce,
  force_retransmit_once,
}
use erizo.Dtls.Trust.{any_certificate_trusted}

-- The hello goes out, its timer fires too early and then in time, and the handshake ends.
abbrev history : List Action
history =
    iterate want_read (1 ∷ []) 0
    ∷ tick want_read (1 ∷ []) 100
    ∷ tick want_read (1 ∷ []) 600
    ∷ iterate error_none [] 700
    ∷ []

run-new_socket_safe_example : Ends (run (new_socket client) history)
run-new_socket_safe_example = run-new_socket_safe client history

abbrev short_history : List Action
short_history = iterate error_none [] 700 ∷ []

short_history_lem :
    run (new_socket client) short_history
    ≡ some (record (new_socket client) { handshake_completed = true }, completed ∷ [])
unfolding run act do_handshake_iteration handle_result invalidate_read new_socket
short_history_lem = refl

run-new_socket_completed_example : count_completed (completed ∷ []) ≡ 1
run-new_socket_completed_example =
    run-new_socket_completed client short_history
      (record (new_socket client) { handshake_completed = true }) (completed ∷ []) short_history_lem

abbrev finished : SocketType → Socket
finished type = record (new_socket type) { handshake_completed = true }

-- Sixty bytes of keying material.
abbrev exported : Bytes
exported = codes "client-write-keyserver-write-keyclient-salt-14server-salt-14"

exported_keys : get_srtp_session_keys (some exported) ≡ record {
  client_master_key = codes "client-write-key";
  server_master_key = codes "server-write-key";
  client_master_salt = codes "client-salt-14";
  server_master_salt = codes "server-salt-14";
}
unfolding get_srtp_session_keys
exported_keys = refl

finished_lem :
    ((finished client).handshake_completed ≡ true)
    × ((finished client).socket_type ≡ client)
    × ((finished server).handshake_completed ≡ true)
    × ((finished server).socket_type ≡ server)
unfolding new_socket
finished_lem = (refl, refl, refl, refl)

create_srtp_session_policies_agree_example : Agrees (finished client) (finished server) exported
create_srtp_session_policies_agree_example =
    create_srtp_session_policies_agree (finished client) exported (omega arith) finished_lem.0
      finished_lem.1 (finished server) finished_lem.2 finished_lem.3

abbrev outbound : Policy
outbound = (policies_of client (get_srtp_session_keys (some exported))).0

abbrev inbound : Policy
inbound = (policies_of client (get_srtp_session_keys (some exported))).1

policies_made :
    create_srtp_session_policies (finished client) (some exported) ≡ some (outbound, inbound)
unfolding create_srtp_session_policies policies_of has_lengths get_srtp_session_keys new_socket
policies_made = refl

abbrev profile_name : Bytes
profile_name = codes "SRTP_AES128_CM_SHA1_80"

abbrev plain_text : Bytes → Bytes
plain_text key = key

handshake_completed-policies_example :
    handshake_completed plain_text (some (171 ∷ 7 ∷ [])) (some exported) (some profile_name)
    ≡ some (handshake_done outbound.key inbound.key)
handshake_completed-policies_example =
    handshake_completed-policies (finished client) exported (omega arith) finished_lem.0
      finished_lem.1 plain_text (171 ∷ 7 ∷ []) profile_name outbound inbound policies_made

-- An expired certificate: OpenSSL's error 10, where 18 is the one of a self-signed certificate.
any_certificate_trusted_example :
    (ssl_verify_callback 18 false 10 ≡ true)
    × (check_fingerprint (some (171 ∷ 7 ∷ [])) (compute_fingerprint (171 ∷ 7 ∷ [])) 5 ≡ true)
    × (handshake_completed plain_text (some (171 ∷ 7 ∷ [])) (some exported) none
        ≡ handshake_completed plain_text (some (1 ∷ 2 ∷ [])) (some exported) none)
unfolding compute_fingerprint
any_certificate_trusted_example =
    any_certificate_trusted 18 10 false plain_text (171 ∷ 7 ∷ []) (1 ∷ 2 ∷ []) (some exported) none
      5 (omega arith)

-- A memory buffer that holds bytes, and answers a control with 7.
abbrev memory : BioLibrary Bytes
memory = record {
  bio_read = λ held size. ([], pos (length held), held);
  bio_write = λ held buf size. (held ++ buf, size);
  bio_ctrl = λ held command num. ([], pos 7);
  bio_callback_ctrl = λ held command. (held, pos 0);
  retry_flags = λ held. 9;
}

abbrev fresh_filter : Filter Bytes
fresh_filter = record { init = true; context = some false; retry = 0; next = 1 ∷ 2 ∷ [] }

abbrev flight : List Call
flight = writes (22 ∷ 1 ∷ []) (pos 2) ∷ reads (pos 100) ∷ controls (other 11) (pos 0) ∷ []

force_retransmit_once_example :
    ExpiredOnce memory
      (do
        (i, o) ← force_retransmit memory fresh_filter fresh_filter
        filter_calls memory i (flight ++ asks memory))
      (buffer_calls memory [] flight)
force_retransmit_once_example =
    force_retransmit_once memory fresh_filter fresh_filter false flight refl
      (refl, (refl, (refl, tt)))
