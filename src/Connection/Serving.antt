-- ===== src/Connection/Serving.antt =====
-- WebRtcConnection.cpp: connections that have a video transport and both sinks, and whose transports
-- have the keys that they write with.
pub mod State
pub mod Media
pub mod Runs
pub mod Negotiated
use erizo.Base.{
  ℕ, ◌≡◌, ◌≤◌, refl, subst, sym, ◌∙◌, Bool, true, false, inl, not, ◌&&◌, List, [], ◌∷◌, Option,
  none, some, Bytes, arith, length, Option-cases, inr, is_some, if◌then◌else◌, ◌>>=◌, map,
}
use erizo.Srtp.{SrtpLibrary}
use erizo.Sdp.Types.{SdpInfo}
use erizo.Sdp.PtMap.{PtMap, at}
use erizo.Nice.Candidates.{set_remote_candidates}
use erizo.Transport.Base.{TransportState, TransportEvent, set_candidates, transport_initial}
use erizo.Transport.Dtls.{DtlsTransport, dtls_write}
use erizo.Transport.Dtls.Secure.{IsSecure, dtls_write-IsSecure, dtls_write-defined}
use erizo.Transport.Sdes.{SdesTransport, sdes_write}
use erizo.Transport.Sdes.Sound.{IsKeyed, Sound, write-Sound}
use erizo.Connection.State.{
  AnyTransport, dtls_transport, sdes_transport, Connection, ConnectionEvent, video_event,
  audio_event, update_state, base_of, with_base, hand_candidates, store_state, next_state,
  start_both, video_candidates, audio_candidates, send_round, send_front,
}
use erizo.Connection.Media.{write, write_video, write_audio}

module _ {S : Type 0} (lib : SrtpLibrary S) where
  -- A DTLS transport is ready only with its keys; so is an SDES transport, which multiplexes RTCP.
  abbrev pub HasKeys : AnyTransport S → Type 0
  HasKeys (dtls_transport t) = IsSecure t
  HasKeys (sdes_transport t) = (local : Bytes) × (remote : Bytes) × IsKeyed lib local remote true t

  abbrev pub HasVideo : Option (AnyTransport S) → Type 0
  HasVideo none = ⊥
  HasVideo (some t) = HasKeys t

  abbrev pub HasAudio : Option (AnyTransport S) → Type 0
  HasAudio none = Unit {0}
  HasAudio (some t) = HasKeys t

  -- `m` holds the payload types of the remote description.
  pub record IsServing (m : PtMap) (c : Connection S) : Type 0 where
    pub has_video : HasVideo c.video_transport
    pub has_audio : HasAudio c.audio_transport
    pub video_sink : c.has_video_sink ≡ true
    pub audio_sink : c.has_audio_sink ≡ true
    pub same_map : (k : ℕ) → at c.remote_sdp.in_out_pt_map k ≡ at m k

  abbrev pub Serves : {A : Type 0} → PtMap → Option (Connection S × A) → Type 0
  Serves m none = ⊥
  Serves m (some (c, a)) = IsServing m c

  abbrev Writes : Option (AnyTransport S × List TransportEvent) → Type 0
  Writes none = ⊥
  Writes (some (t, events)) = HasKeys t

  write-Writes :
      (t : AnyTransport S) (buf : Bytes) → HasKeys t → length buf ≤ 10000 → Writes (write lib t buf)
  unfolding write
  write-Writes (dtls_transport t) buf h l =
      let defined = dtls_write-defined lib t buf h l in
      elim (Option-cases (dtls_write lib t buf)) [
        | inl e ↦ cc (rw e at defined)
        | inr (r, e) ↦ rw e (rw e at (dtls_write-IsSecure lib t buf h))
      ]
  write-Writes (sdes_transport t) buf (local, remote, h) l =
      let sound =
        write-Sound lib local remote true (λ b. Unit {0}) (λ b. Unit {0}) t buf h tt l (inl refl) in
      elim (Option-cases (sdes_write lib t buf)) [
        | inl e ↦ absurd (rw e at sound)
        | inr (r, e) ↦ rw e (local, remote, (rw e at sound).0)
      ]

  pub write_video-Serves :
      (m : PtMap) (c : Connection S) (buf : Bytes) (v : Option (AnyTransport S))
      → HasVideo v
      → length buf ≤ 10000
      → IsServing m c
      → Serves m (write_video lib c buf v)
  unfolding write_video
  write_video-Serves m c buf none v l h = absurd v
  write_video-Serves m c buf (some t) v l h =
      let writes = write-Writes t buf v l in
      elim (Option-cases (write lib t buf)) [
        | inl e ↦ absurd (rw e at writes)
        | inr (r, e) ↦ rw e (record {
          has_video = rw e at writes;
          has_audio = h.has_audio;
          video_sink = h.video_sink;
          audio_sink = h.audio_sink;
          same_map = h.same_map;
        })
      ]

  pub write_audio-Serves :
      (m : PtMap) (c : Connection S) (buf : Bytes) (v : Option (AnyTransport S))
      → HasAudio v
      → length buf ≤ 10000
      → IsServing m c
      → Serves m (write_audio lib c buf v)
  unfolding write_audio
  write_audio-Serves m c buf none v l h = h
  write_audio-Serves m c buf (some t) v l h =
      let writes = write-Writes t buf v l in
      elim (Option-cases (write lib t buf)) [
        | inl e ↦ absurd (rw e at writes)
        | inr (r, e) ↦ rw e (record {
          has_video = h.has_video;
          has_audio = rw e at writes;
          video_sink = h.video_sink;
          audio_sink = h.audio_sink;
          same_map = h.same_map;
        })
      ]
