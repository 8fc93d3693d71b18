-- ===== src/Transport/Sdes/Sound.antt =====
-- SdesTransport.cpp: what the packets of a transport are made of, over a whole history.
use erizo.Base.{
  Bool-cases, not, leb, if◌then◌else◌, ℕ, ◌≡◌, ◌≤◌, ◌⊎◌, inl, inr, refl, Bool, true, false, List,
  [], ◌∷◌, Option, none, some, Bytes, ◌==◌, ◌>>=◌, arith, length,
}
use erizo.Rtp.RtcpHeader.{is_rtcp}
use erizo.Srtp.{
  new_channel, set_rtp_params, SrtpLibrary, SrtpChannel, protect_rtp, protect_rtcp, unprotect_rtp,
  unprotect_rtcp,
}
use erizo.Srtp.Channels.{
  IsChannelOf, IsProtected, IsUnprotected, Result, IsLong, with_keys, set_rtp_params_long,
  made_channel, protect_rtp-Result, protect_rtcp-Result, unprotect_rtp-Result,
  unprotect_rtcp-Result,
}
use erizo.Nice.Connection.{
  IceState, nice_initial, nice_candidates_gathered, nice_candidates_received, nice_ready,
  nice_finished, nice_failed,
}
use erizo.Transport.Base.{
  transport_ready, TransportEvent, queue_data, on_transport_data, is_ready, fits_buffer,
}
use erizo.Transport.Sdes.{
  SdesTransport, sdes_ice_state, sdes_write, sdes_nice_data, sdes_set_keys, channel_or_new,
  sdes_protect, sdes_by_rtp, sdes_send, sdes_unprotect,
}
use erizo.Transport.Dtls.{enqueue_packet, deliver}

module _ {S : Type 0} (lib : SrtpLibrary S) (local remote : Bytes) (mux : Bool) where
  abbrev HasKeys : Option (SrtpChannel S) → Type 0
  HasKeys none = ⊥
  HasKeys (some c) = IsChannelOf lib local remote c

  -- A ready transport has the keys of the two descriptions on the channel of RTP; a multiplexed one
  -- has no other channel.
  pub record IsKeyed (t : SdesTransport S) : Type 0 where
    pub same_mux : t.rtcp_mux ≡ mux
    pub one_channel : mux ≡ true → t.srtcp ≡ none
    pub local_key : t.crypto_local.key_params ≡ local
    pub remote_key : t.crypto_remote.key_params ≡ remote
    pub keyed : is_ready t.state ≡ true → HasKeys t.srtp

  module _ (Sent Arrived : Bytes → Type 0) where
    -- A packet to send is a protection of one that was written, with the local key, and a packet that
    -- is handed on was accepted, with the remote key, from one that arrived.
    abbrev pub AreSound : List TransportEvent → Type 0
    AreSound [] = Unit {0}
    AreSound (queue_data comp out ∷ es) =
        ((buf : Bytes) × Sent buf × IsProtected lib local buf out) × AreSound es
    AreSound (on_transport_data out ∷ es) =
        ((buf : Bytes) × Arrived buf × IsUnprotected lib remote buf out) × AreSound es
    AreSound (e ∷ es) = AreSound es

    abbrev pub Sound : Option (SdesTransport S × List TransportEvent) → Type 0
    Sound none = ⊥
    Sound (some (t, es)) = IsKeyed t × AreSound es

    -- What a channel's call gives to a transport.
    abbrev Calls : (Bytes → Type 0) → Option (Option (SrtpChannel S) × Option Bytes) → Type 0
    Calls P none = ⊥
    Calls P (some (c, none)) = HasKeys c
    Calls P (some (c, some out)) = HasKeys c × P out

    channel-Calls :
        (P Q : Bytes → Type 0) (r : Option (SrtpChannel S × Option Bytes))
        → ((out : Bytes) → P out → Q out)
        → Result lib local remote P r
        → Calls Q (do (c, out) ← r; some (some c, out))
    channel-Calls P Q none f h = h
    channel-Calls P Q (some (c, none)) f h = h
    channel-Calls P Q (some (c, some out)) f h = (h.0, f out h.1)

    protect-Calls :
        (on rtcp : Bool) (c : Option (SrtpChannel S)) (buf : Bytes)
        → HasKeys c
        → Calls (λ out. on ≡ true → IsProtected lib local buf out) (sdes_protect lib on rtcp c buf)
    unfolding sdes_protect
    protect-Calls on rtcp none buf h = absurd h
    protect-Calls false rtcp (some c) buf h = (h, λ e. cc)
    protect-Calls true true (some c) buf h =
        channel-Calls _ _ (protect_rtcp lib c buf) (λ out p e. p)
          (protect_rtcp-Result lib local remote c buf h)
    protect-Calls true false (some c) buf h =
        channel-Calls _ _ (protect_rtp lib c buf) (λ out p e. p)
          (protect_rtp-Result lib local remote c buf h)

    unprotect_by-Result :
        (rtcp : Bool) (c : SrtpChannel S) (buf : Bytes)
        → IsChannelOf lib local remote c
        → Result lib local remote
            (IsUnprotected lib remote buf)
            (if rtcp then unprotect_rtcp lib c buf else unprotect_rtp lib c buf)
    unprotect_by-Result true c buf h = unprotect_rtcp-Result lib local remote c buf h
    unprotect_by-Result false c buf h = unprotect_rtp-Result lib local remote c buf h

    unprotect-Calls :
        (c : Option (SrtpChannel S)) (buf : Bytes)
        → HasKeys c
        → Calls (IsUnprotected lib remote buf) (sdes_unprotect lib c buf)
    unfolding sdes_unprotect
    unprotect-Calls none buf h = absurd h
    unprotect-Calls (some c) buf h =
        channel-Calls _ _ _ (λ out p. p) (unprotect_by-Result (is_rtcp buf) c buf h)

    with_rtp : SdesTransport S → Option (SrtpChannel S) → SdesTransport S
    with_rtp t c = record t { base = record t.base { srtp = c } }

    with_rtp-IsKeyed :
        (t : SdesTransport S) (c : Option (SrtpChannel S))
        → IsKeyed t
        → HasKeys c
        → IsKeyed (with_rtp t c)
    unfolding with_rtp
    with_rtp-IsKeyed t c h k = record {
      same_mux = h.same_mux;
      one_channel = h.one_channel;
      local_key = h.local_key;
      remote_key = h.remote_key;
      keyed = λ r. k;
    }

    AreSound-if :
        (b : Bool) (es fs : List TransportEvent)
        → AreSound es
        → AreSound fs
        → AreSound (if b then es else fs)
    AreSound-if true es fs h k = h
    AreSound-if false es fs h k = k

    -- The output of a channel is queued if the ICE connection is ready.
    enqueue-AreSound :
        (on : Bool) (comp : ℕ) (buf out : Bytes)
        → Sent buf
        → (on ≡ true → IsProtected lib local buf out)
        → AreSound (enqueue_packet on comp (some out))
    enqueue-AreSound true comp buf out w k =
        AreSound-if (leb (length out) 10) [] (queue_data comp out ∷ []) tt ((buf, w, k refl), tt)
    enqueue-AreSound false comp buf out w k = ground arith

    by_rtp-Sound :
        (t : SdesTransport S) (on : Bool) (comp : ℕ) (buf : Bytes)
        (r : Option (Option (SrtpChannel S) × Option Bytes))
        → IsKeyed t
        → Sent buf
        → Calls (λ out. on ≡ true → IsProtected lib local buf out) r
        → Sound (do (c, out) ← r; some (with_rtp t c, enqueue_packet on comp out))
    by_rtp-Sound t on comp buf none h w k = k
    by_rtp-Sound t on comp buf (some (c, none)) h w k = (with_rtp-IsKeyed t c h k, tt)
    by_rtp-Sound t on comp buf (some (c, some out)) h w k =
        (with_rtp-IsKeyed t c h k.0, enqueue-AreSound on comp buf out w k.1)

    deliver-Sound :
        (t : SdesTransport S) (buf : Bytes) (r : Option (Option (SrtpChannel S) × Option Bytes))
        → IsKeyed t
        → Arrived buf
        → Calls (IsUnprotected lib remote buf) r
        → Sound (do (c, out) ← r; some (with_rtp t c, deliver out))
    deliver-Sound t buf none h w k = k
    deliver-Sound t buf (some (c, none)) h w k = (with_rtp-IsKeyed t c h k, tt)
    deliver-Sound t buf (some (c, some [])) h w k = (with_rtp-IsKeyed t c h k.0, tt)
    deliver-Sound t buf (some (c, some (b ∷ bs))) h w k =
        (with_rtp-IsKeyed t c h k.0, ((buf, w, k.1), tt))

    -- The transport with its keys.
    abbrev with_own_keys : SdesTransport S → SdesTransport S
    with_own_keys t = record t {
      base = record t.base {
        srtp = some (with_keys lib (channel_or_new t.srtp) local remote);
        srtcp = if t.rtcp_mux then t.srtcp else some new_channel;
        ready_rtp = true;
        ready_rtcp = true;
        state = transport_ready;
      };
    }

    own_params :
        (t : SdesTransport S)
        → IsKeyed t
        → IsLong lib local
        → IsLong lib remote
        → (c : SrtpChannel S)
        → set_rtp_params lib c t.crypto_local.key_params t.crypto_remote.key_params
          ≡ some (with_keys lib c local remote)
    own_params t h sl rl c =
        rw (h.local_key, h.remote_key) (set_rtp_params_long lib c local remote sl rl)

    set_keys_long :
        (t : SdesTransport S)
        → IsKeyed t
        → IsLong lib local
        → IsLong lib remote
        → sdes_set_keys lib t ≡ some (with_own_keys t)
    unfolding sdes_set_keys
    set_keys_long t h sl rl =
        let first = channel_or_new t.srtp in
        rw (own_params t h sl rl first) (elim (Bool-cases t.rtcp_mux) [
          | inl m ↦ ground (arith, m)
          | inr m ↦ rw (own_params t h sl rl (with_keys lib first local remote)) (ground (arith, m))
        ])

    own_keys-IsKeyed : (t : SdesTransport S) → IsKeyed t → IsKeyed (with_own_keys t)
    own_keys-IsKeyed t h = record {
      same_mux = h.same_mux;
      one_channel = λ e. ground (arith, h.one_channel e, h.same_mux);
      local_key = h.local_key;
      remote_key = h.remote_key;
      keyed = λ r. made_channel lib (channel_or_new t.srtp) local remote;
    }

    pub ice_state-Sound :
        (t : SdesTransport S) (state : IceState)
        → IsLong lib local
        → IsLong lib remote
        → IsKeyed t
        → Sound (sdes_ice_state lib t state)
    unfolding sdes_ice_state
    ice_state-Sound t nice_candidates_gathered sl rl h = ground (arith, h)
    ice_state-Sound t nice_initial sl rl h = (h, tt)
    ice_state-Sound t nice_candidates_received sl rl h = (h, tt)
    ice_state-Sound t nice_ready sl rl h = rw (set_keys_long t h sl rl) (own_keys-IsKeyed t h, tt)
    ice_state-Sound t nice_finished sl rl h = (h, tt)
    ice_state-Sound t nice_failed sl rl h = (h, tt)

    Sound-if :
        (b : Bool) (x y : Option (SdesTransport S × List TransportEvent))
        → (b ≡ true → Sound x)
        → (b ≡ false → Sound y)
        → Sound (if b then x else y)
    Sound-if true x y f g = f refl
    Sound-if false x y f g = g refl

    send_by_rtp-Sound :
        (t : SdesTransport S) (rtcp : Bool) (comp : ℕ) (on : Bool) (buf : Bytes)
        → IsKeyed t
        → Sent buf
        → HasKeys t.srtp
        → Sound (sdes_by_rtp lib t rtcp comp on buf)
    unfolding sdes_by_rtp with_rtp
    send_by_rtp-Sound t rtcp comp on buf h w k =
        by_rtp-Sound t on comp buf _ h w (protect-Calls on rtcp t.srtp buf k)

    send-Sound :
        (t : SdesTransport S) (rtcp : Bool) (comp : ℕ) (on : Bool) (buf : Bytes)
        (second : Option (SrtpChannel S))
        → IsKeyed t
        → Sent buf
        → HasKeys t.srtp
        → (second ≡ none) ⊎ (rtcp ≡ false)
        → Sound (sdes_send lib t rtcp comp on buf second)
    unfolding sdes_send
    send-Sound t rtcp comp on buf none h w k m = send_by_rtp-Sound t rtcp comp on buf h w k
    send-Sound t false comp on buf (some c) h w k m = send_by_rtp-Sound t false comp on buf h w k
    send-Sound t true comp on buf (some c) h w k (inl e) = cc
    send-Sound t true comp on buf (some c) h w k (inr e) = cc

    pub write-Sound :
        (t : SdesTransport S) (buf : Bytes)
        → IsKeyed t
        → Sent buf
        → length buf ≤ 10000
        → (mux ≡ true) ⊎ (is_rtcp buf ≡ false)
        → Sound (sdes_write lib t buf)
    unfolding sdes_write
    write-Sound t buf h w l m =
        Sound-if (not (is_ready t.state)) _ _ (λ n. (h, tt))
          λ n.
            Sound-if (not (fits_buffer buf)) _ _ (λ big. absurd (ground arith))
              λ fits.
                send-Sound t (is_rtcp buf) _ _ buf t.srtcp h w (h.keyed (ground arith))
                  (elim m [ inl e ↦ inl (h.one_channel e) | inr e ↦ inr e ])

    pub nice_data-Sound :
        (t : SdesTransport S) (component : ℕ) (buf : Bytes)
        → IsKeyed t
        → Arrived buf
        → length buf ≤ 10000
        → (component == 2) ≡ false
        → Sound (sdes_nice_data lib t component buf)
    unfolding sdes_nice_data with_rtp
    nice_data-Sound t component buf h w l m =
        Sound-if (not (is_ready t.state)) _ _ (λ n. (h, tt))
          λ n.
            Sound-if (not (fits_buffer buf)) _ _ (λ big. absurd (ground arith))
              λ fits.
                Sound-if (component == 2) _ _ (λ two. cc)
                  λ one.
                    deliver-Sound t buf _ h w (unprotect-Calls t.srtp buf (h.keyed (ground arith)))
