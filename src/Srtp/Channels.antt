-- ===== src/Srtp/Channels.antt =====
-- src/erizo/SrtpChannel.cpp: the channels whose sessions were made from two given keys, and what their
-- calls give.
use erizo.Base.{
  length, take, ◌≤◌, subst, ℕ, ◌≡◌, refl, ◌⊎◌, inl, inr, true, Option, none, some, Bytes, arith,
  Option-cases,
}
use erizo.Srtp.{
  SrtpLibrary, SrtpChannel, sending, receiving, set_rtp_params, protect_rtp, unprotect_rtp,
  protect_rtcp, unprotect_rtcp, status_result,
}

module _ {S : Type 0} (lib : SrtpLibrary S) where
  open lib use {
    g_base64_decode, srtp_create, srtp_protect, srtp_unprotect, srtp_protect_rtcp,
    srtp_unprotect_rtcp,
  }

  -- A session that was made from a key for sending, and has protected packets since.
  pub data IsSender (key : Bytes) : S → Type 0 where
    made : IsSender key (srtp_create sending (take 30 (g_base64_decode key)))
    used_rtp : {s : S} (buf : Bytes) → IsSender key s → IsSender key (srtp_protect s buf).0
    used_rtcp : {s : S} (buf : Bytes) → IsSender key s → IsSender key (srtp_protect_rtcp s buf).0

  -- A session that was made from a key for receiving, and has unprotected packets since.
  pub data IsReceiver (key : Bytes) : S → Type 0 where
    made : IsReceiver key (srtp_create receiving (take 30 (g_base64_decode key)))
    used_rtp : {s : S} (buf : Bytes) → IsReceiver key s → IsReceiver key (srtp_unprotect s buf).0
    used_rtcp :
        {s : S} (buf : Bytes) → IsReceiver key s → IsReceiver key (srtp_unprotect_rtcp s buf).0

  abbrev pub Sends : Bytes → Option S → Type 0
  Sends key none = ⊥
  Sends key (some s) = IsSender key s

  abbrev pub Receives : Bytes → Option S → Type 0
  Receives key none = ⊥
  Receives key (some s) = IsReceiver key s

  -- An active channel with a session for each of its two keys.
  pub record IsChannelOf (sending_key receiving_key : Bytes) (c : SrtpChannel S) : Type 0 where
    pub active : c.active ≡ true
    pub sends : Sends sending_key c.send_session
    pub receives : Receives receiving_key c.receive_session

  -- A call that succeeded with this output.
  abbrev pub Succeeds : S × ℕ × Bytes → Bytes → Type 0
  Succeeds r out = (r.1 ≡ 0) × (r.2 ≡ out)

  -- The output of a call that protected the packet with a session of the key.
  abbrev pub IsProtected : Bytes → Bytes → Bytes → Type 0
  IsProtected key buf out =
      (s : S) × IsSender key s
      × (Succeeds (srtp_protect s buf) out ⊎ Succeeds (srtp_protect_rtcp s buf) out)

  -- The output of a call that accepted the packet with a session of the key.
  abbrev pub IsUnprotected : Bytes → Bytes → Bytes → Type 0
  IsUnprotected key buf out =
      (s : S) × IsReceiver key s
      × (Succeeds (srtp_unprotect s buf) out ⊎ Succeeds (srtp_unprotect_rtcp s buf) out)

  -- What a call gives: a channel of the same keys, and an output with the property if there is one.
  abbrev pub Result :
      Bytes → Bytes → (Bytes → Type 0) → Option (SrtpChannel S × Option Bytes) → Type 0
  Result sk rk P none = ⊥
  Result sk rk P (some (c, none)) = IsChannelOf sk rk c
  Result sk rk P (some (c, some out)) = IsChannelOf sk rk c × P out

  -- The decoded key has a master key and a salt.
  abbrev pub IsLong : Bytes → Type 0
  IsLong key = 30 ≤ length (g_base64_decode key)

  -- `setRtpParams` on keys that are long enough.
  abbrev pub with_keys : SrtpChannel S → Bytes → Bytes → SrtpChannel S
  with_keys c sk rk = record c {
    active = true;
    send_session = some (srtp_create sending (take 30 (g_base64_decode sk)));
    receive_session = some (srtp_create receiving (take 30 (g_base64_decode rk)));
  }

  pub set_rtp_params_long :
      (c : SrtpChannel S) (sk rk : Bytes)
      → IsLong sk
      → IsLong rk
      → set_rtp_params lib c sk rk ≡ some (with_keys c sk rk)
  unfolding set_rtp_params
  set_rtp_params_long c sk rk s r = ground arith

  pub made_channel : (c : SrtpChannel S) (sk rk : Bytes) → IsChannelOf sk rk (with_keys c sk rk)
  made_channel c sk rk = record { active = refl; sends = made; receives = made }

  pub set_rtp_params-IsChannelOf :
      (c : SrtpChannel S) (sk rk : Bytes) {d : SrtpChannel S}
      → set_rtp_params lib c sk rk ≡ some d
      → IsChannelOf sk rk d
  unfolding set_rtp_params
  set_rtp_params-IsChannelOf c sk rk {d} e =
      subst (IsChannelOf sk rk) (ground arith) (made_channel c sk rk)

  status-Result :
      (sk rk : Bytes) (P : Bytes → Type 0) (c : SrtpChannel S) (status : ℕ) (out : Bytes)
      → IsChannelOf sk rk c
      → (status ≡ 0 → P out)
      → Result sk rk P (some (c, status_result status out))
  status-Result sk rk P c status out h k = ground arith

  pub protect_rtp-Result :
      (sk rk : Bytes) (c : SrtpChannel S) (buf : Bytes)
      → IsChannelOf sk rk c
      → Result sk rk (IsProtected sk buf) (protect_rtp lib c buf)
  unfolding protect_rtp
  protect_rtp-Result sk rk c buf h = elim (Option-cases c.send_session) [
    | inl e ↦ absurd (rw e at h.sends)
    | inr (s, e) ↦
        let is : IsSender sk s = rw e at h.sends in
        rw h.active (
          rw e (
            status-Result sk rk _ _ (srtp_protect s buf).1 (srtp_protect s buf).2
              (record { active = refl; sends = used_rtp buf is; receives = h.receives })
              (λ z. (s, is, inl (z, refl)))))
  ]

  pub protect_rtcp-Result :
      (sk rk : Bytes) (c : SrtpChannel S) (buf : Bytes)
      → IsChannelOf sk rk c
      → Result sk rk (IsProtected sk buf) (protect_rtcp lib c buf)
  unfolding protect_rtcp
  protect_rtcp-Result sk rk c buf h = elim (Option-cases c.send_session) [
    | inl e ↦ absurd (rw e at h.sends)
    | inr (s, e) ↦
        let is : IsSender sk s = rw e at h.sends in
        rw e (
          status-Result sk rk _ _ (srtp_protect_rtcp s buf).1 (srtp_protect_rtcp s buf).2
            (record { active = h.active; sends = used_rtcp buf is; receives = h.receives })
            (λ z. (s, is, inr (z, refl))))
  ]

  pub unprotect_rtp-Result :
      (sk rk : Bytes) (c : SrtpChannel S) (buf : Bytes)
      → IsChannelOf sk rk c
      → Result sk rk (IsUnprotected rk buf) (unprotect_rtp lib c buf)
  unfolding unprotect_rtp
  unprotect_rtp-Result sk rk c buf h = elim (Option-cases c.receive_session) [
    | inl e ↦ absurd (rw e at h.receives)
    | inr (s, e) ↦
        let is : IsReceiver rk s = rw e at h.receives in
        rw h.active (
          rw e (
            status-Result sk rk _ _ (srtp_unprotect s buf).1 (srtp_unprotect s buf).2
              (record { active = refl; sends = h.sends; receives = used_rtp buf is })
              (λ z. (s, is, inl (z, refl)))))
  ]

  pub unprotect_rtcp-Result :
      (sk rk : Bytes) (c : SrtpChannel S) (buf : Bytes)
      → IsChannelOf sk rk c
      → Result sk rk (IsUnprotected rk buf) (unprotect_rtcp lib c buf)
  unfolding unprotect_rtcp
  unprotect_rtcp-Result sk rk c buf h = elim (Option-cases c.receive_session) [
    | inl e ↦ absurd (rw e at h.receives)
    | inr (s, e) ↦
        let is : IsReceiver rk s = rw e at h.receives in
        rw e (
          status-Result sk rk _ _ (srtp_unprotect_rtcp s buf).1 (srtp_unprotect_rtcp s buf).2
            (record { active = h.active; sends = h.sends; receives = used_rtcp buf is })
            (λ z. (s, is, inr (z, refl))))
  ]
