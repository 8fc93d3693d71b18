-- ===== src/Dtls/Agreement.antt =====
-- DtlsSocket.cpp and DtlsClient.cpp: the keys that the two ends of a handshake use.
use erizo.Base.{◌≤◌, ◌≡◌, refl, true, some, Bytes, length, length-take, length-drop, drop, arith}
use erizo.Dtls.Socket.{Socket, client, server}
use erizo.Dtls.Keys.{get_srtp_session_keys, handshake_completed, handshake_done}
use erizo.Dtls.Policies.{
  Policy, ssrc_any_inbound, ssrc_any_outbound, has_lengths, policies_of,
  create_srtp_session_policies,
}

lengths_exported :
    (material : Bytes)
    → 60 ≤ length material
    → has_lengths (get_srtp_session_keys (some material)) ≡ true
unfolding has_lengths get_srtp_session_keys
lengths_exported material h = ground (
  arith,
  length-take 16 material,
  length-take 16 (drop 16 material),
  length-take 14 (drop 32 material),
  length-take 14 (drop 46 material),
  length-drop 16 material,
  length-drop 32 material,
  length-drop 46 material,
)

-- The two policies of a socket, and what they must be.
pub record Agrees (near far : Socket) (material : Bytes) : Type 0 where
  pub near_policies : Policy × Policy
  pub far_policies : Policy × Policy
  pub near_made : create_srtp_session_policies near (some material) ≡ some near_policies
  pub far_made : create_srtp_session_policies far (some material) ≡ some far_policies
  pub sends : near_policies.0.key ≡ far_policies.1.key
  pub receives : near_policies.1.key ≡ far_policies.0.key
  pub near_directions :
      (near_policies.0.ssrc_type ≡ ssrc_any_outbound)
      × (near_policies.1.ssrc_type ≡ ssrc_any_inbound)
  pub far_directions :
      (far_policies.0.ssrc_type ≡ ssrc_any_outbound) × (far_policies.1.ssrc_type ≡ ssrc_any_inbound)

module _ (near : Socket) (material : Bytes) (h : 60 ≤ length material)
    (n : near.handshake_completed ≡ true) (nt : near.socket_type ≡ client) where
  -- When a client and a server have completed their handshake and export the same 60 bytes of keying
  -- material, both get their two policies, and each sends with the key that the other receives with.
  pub create_srtp_session_policies_agree :
      (far : Socket)
      → far.handshake_completed ≡ true
      → far.socket_type ≡ server
      → Agrees near far material
  unfolding create_srtp_session_policies policies_of
  create_srtp_session_policies_agree far f ft =
      let keys = get_srtp_session_keys (some material) in
      let made : (create_srtp_session_policies near (some material)
            ≡ some (policies_of client keys))
          × (create_srtp_session_policies far (some material) ≡ some (policies_of server keys)) =
        rw (n, f, nt, ft, lengths_exported material h) (refl, refl) in
      record {
        near_policies = policies_of client keys;
        far_policies = policies_of server keys;
        near_made = made.0;
        far_made = made.1;
        sends = refl;
        receives = refl;
        near_directions = (refl, refl);
        far_directions = (refl, refl);
      }

  -- When a profile was negotiated, the two keys that a client's transport gets from its context are the keys of the outbound and the
  -- inbound policy of its socket.
  pub handshake_completed-policies :
      (base64 : Bytes → Bytes) (digest profile : Bytes) (outbound inbound : Policy)
      → create_srtp_session_policies near (some material) ≡ some (outbound, inbound)
      → handshake_completed base64 (some digest) (some material) (some profile)
        ≡ some (handshake_done (base64 outbound.key) (base64 inbound.key))
  unfolding create_srtp_session_policies policies_of handshake_completed
  handshake_completed-policies base64 digest profile outbound inbound e =
      ground (arith, lengths_exported material h)
