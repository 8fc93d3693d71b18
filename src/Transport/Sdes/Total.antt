-- ===== src/Transport/Sdes/Total.antt =====
-- SdesTransport.cpp: the packets of a transport over a whole history.
use erizo.Base.{
  ◌≡◌, ◌≤◌, ◌⊎◌, refl, Bool, true, false, List, [], ◌∷◌, ◌++◌, Option, none, some, Bytes, ◌==◌,
  ◌>>=◌, length,
}
use erizo.Rtp.RtcpHeader.{is_rtcp}
use erizo.Srtp.{SrtpLibrary}
use erizo.Srtp.Channels.{IsLong}
use erizo.Sdp.Types.{MediaType, CryptoInfo}
use erizo.Transport.Base.{TransportEvent, queue_data, on_transport_data}
use erizo.Transport.Sdes.{SdesTransport, new_sdes}
use erizo.Transport.Sdes.Sound.{
  AreSound, Sound, IsKeyed, ice_state-Sound, write-Sound, nice_data-Sound,
}
use erizo.Transport.Sdes.History.{Action, ice_changes, report, send, packet, act, run}

module _ {S : Type 0} (lib : SrtpLibrary S) (local remote : Bytes) (mux : Bool)
    (Sent Arrived : Bytes → Type 0) where
  AreSound-append :
      (es fs : List TransportEvent)
      → AreSound lib local remote mux Sent Arrived es
      → AreSound lib local remote mux Sent Arrived fs
      → AreSound lib local remote mux Sent Arrived (es ++ fs)
  AreSound-append [] fs h k = k
  AreSound-append (queue_data comp out ∷ es) fs h k = (h.0, AreSound-append es fs h.1 k)
  AreSound-append (on_transport_data out ∷ es) fs h k = (h.0, AreSound-append es fs h.1 k)
  AreSound-append (e ∷ es) fs h k = AreSound-append es fs h k

  then_after :
      (first : List TransportEvent) (q : Option (SdesTransport S × List TransportEvent))
      → AreSound lib local remote mux Sent Arrived first
      → Sound lib local remote mux Sent Arrived q
      → Sound lib local remote mux Sent Arrived (do (t2, rest) ← q; some (t2, first ++ rest))
  then_after first none k h = h
  then_after first (some (t2, rest)) k h = (h.0, AreSound-append first rest k h.1)

  then-Sound :
      (r : Option (SdesTransport S × List TransportEvent))
      (f : SdesTransport S → Option (SdesTransport S × List TransportEvent))
      → Sound lib local remote mux Sent Arrived r
      → ((t : SdesTransport S)
          → IsKeyed lib local remote mux t
          → Sound lib local remote mux Sent Arrived (f t))
      → Sound lib local remote mux Sent Arrived
          (do (t1, first) ← r; (t2, rest) ← f t1; some (t2, first ++ rest))
  then-Sound none f h k = h
  then-Sound (some (t1, first)) f h k = then_after first (f t1) h.1 (k t1 h.0)

  -- A packet fits the buffers and is not of component 2; one to send is RTP if there are two channels.
  abbrev pub IsAllowed : Action → Type 0
  IsAllowed (send buf) = Sent buf × (length buf ≤ 10000) × ((mux ≡ true) ⊎ (is_rtcp buf ≡ false))
  IsAllowed (packet component buf) = Arrived buf × (length buf ≤ 10000) × ((component == 2) ≡ false)
  IsAllowed a = Unit {0}

  abbrev pub AllAllowed : List Action → Type 0
  AllAllowed [] = Unit {0}
  AllAllowed (a ∷ actions) = IsAllowed a × AllAllowed actions

  module _ (sl : IsLong lib local) (rl : IsLong lib remote) where
    act-Sound :
        (t : SdesTransport S) (a : Action)
        → IsAllowed a
        → IsKeyed lib local remote mux t
        → Sound lib local remote mux Sent Arrived (act lib t a)
    unfolding act
    act-Sound t (ice_changes n) al h = (
      record {
        same_mux = h.same_mux;
        one_channel = h.one_channel;
        local_key = h.local_key;
        remote_key = h.remote_key;
        keyed = h.keyed;
      },
      tt,
    )
    act-Sound t (report state) al h =
        ice_state-Sound lib local remote mux Sent Arrived t state sl rl h
    act-Sound t (send buf) al h =
        write-Sound lib local remote mux Sent Arrived t buf h al.0 al.1 al.2
    act-Sound t (packet component buf) al h =
        nice_data-Sound lib local remote mux Sent Arrived t component buf h al.0 al.1 al.2

    run-Sound :
        (actions : List Action) (t : SdesTransport S)
        → AllAllowed actions
        → IsKeyed lib local remote mux t
        → Sound lib local remote mux Sent Arrived (run lib t actions)
    unfolding run
    run-Sound [] t al h = (h, tt)
    run-Sound (a ∷ actions) t al h =
        then-Sound (act lib t a) (λ u. run lib u actions) (act-Sound t a al.0 h)
          (λ u k. run-Sound actions u al.1 k)

  -- The run comes to its end, and its packets are sound.
  abbrev pub Ends : Option (SdesTransport S × List TransportEvent) → Type 0
  Ends none = ⊥
  Ends (some (t, es)) = AreSound lib local remote mux Sent Arrived es

  Sound-Ends :
      (r : Option (SdesTransport S × List TransportEvent))
      → Sound lib local remote mux Sent Arrived r
      → Ends r
  Sound-Ends none h = h
  Sound-Ends (some (t, es)) h = h.1

module _ {S : Type 0} (lib : SrtpLibrary S) (Sent Arrived : Bytes → Type 0) where
  -- A new SDES transport runs through every history to its end, when the local and the remote key decode
  -- to at least 30 bytes each, its packets are at most 10000 bytes long, none arrives for component 2, and none that is written is RTCP unless RTCP is multiplexed.
  -- Each packet that it hands on to be sent is then what libsrtp made of one that was written, with a
  -- session of the local key, and each that it hands on as received is what libsrtp accepted of one
  -- that arrived, with a session of the remote key.
  pub run_authentic :
      (media : MediaType) (name : Bytes) (bundle mux : Bool) (key : Bytes) (remote : CryptoInfo)
      (actions : List Action)
      → IsLong lib key
      → IsLong lib remote.key_params
      → AllAllowed lib key remote.key_params mux Sent Arrived actions
      → Ends lib key remote.key_params mux Sent Arrived
          (run lib (new_sdes media name bundle mux key remote).0 actions)
  unfolding new_sdes
  run_authentic media name bundle mux key remote actions sl rl al =
      Sound-Ends lib key remote.key_params mux Sent Arrived _ (
        run-Sound lib key remote.key_params mux Sent Arrived sl rl actions _ al (record {
          same_mux = refl;
          one_channel = λ e. refl;
          local_key = refl;
          remote_key = refl;
          keyed = λ r. cc;
        }))
