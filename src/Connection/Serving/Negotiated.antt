-- ===== src/Connection/Serving/Negotiated.antt =====
-- WebRtcConnection.cpp: a connection from its constructor on, through a negotiation with DTLS-SRTP.
use erizo.Base.{◌≡◌, ◌&&◌, Bool, true, none}
use erizo.Srtp.{SrtpLibrary}
use erizo.Sdp.Types.{SdpInfo}
use erizo.Sdp.PtMap.{PtMap}
use erizo.Connection.State.{Connection}
use erizo.Connection.Negotiation.{is_savpf}

-- The description asks for DTLS-SRTP and has video.
abbrev pub is_dtls_video : SdpInfo → Bool
is_dtls_video sdp = is_savpf sdp.profile && (sdp.is_fingerprint && sdp.has_video)

module _ {S : Type 0} (lib : SrtpLibrary S) where
  -- A connection that has no transport yet, and both sinks.
  record IsFresh (c : Connection S) : Type 0 where
    no_video : c.video_transport ≡ none
    no_audio : c.audio_transport ≡ none
    video_sink : c.has_video_sink ≡ true
    audio_sink : c.has_audio_sink ≡ true
