-- ===== src/Transport/Base.antt =====
-- src/erizo/Transport.h: the state that every transport has, and its events. The listener is the
-- WebRtcConnection that makes the transport and passes itself, so it is set.
use erizo.Base.{ℕ, Bool, true, false, List, [], ◌∷◌, Option, Bytes, length, ltb}
use erizo.Srtp.{SrtpChannel}
use erizo.Sdp.Types.{MediaType, CandidateInfo}
use erizo.Nice.Connection.{NiceConnection, NiceEvent, send_data}
use erizo.Nice.Candidates.{set_remote_candidates}

pub data TransportState : Type 0 where
  transport_initial transport_started transport_ready transport_finished : TransportState
  transport_failed : TransportState

abbrev pub is_ready : TransportState → Bool
is_ready transport_ready = true
is_ready _ = false

abbrev pub is_started : TransportState → Bool
is_started transport_started = true
is_started _ = false

pub data TransportEvent : Type 0 where
  -- calls of the listener
  update_state : TransportState → TransportEvent
  on_transport_data : Bytes → TransportEvent
  queue_data : ℕ → Bytes → TransportEvent
  -- calls on the DTLS socket of RTP or RTCP
  start_rtp start_rtcp stop_rtp stop_rtcp : TransportEvent
  read_rtp read_rtcp : Bytes → TransportEvent
  -- what the ICE connection does
  nice : NiceEvent → TransportEvent

-- The members that both transports have.
pub record Transport (S : Type 0) : Type 0 where
  pub media_type : MediaType
  pub rtcp_mux : Bool
  pub bundle : Bool
  pub state : TransportState
  pub nice_connection : NiceConnection
  pub ready_rtp : Bool
  pub ready_rtcp : Bool
  pub srtp : Option (SrtpChannel S)
  pub srtcp : Option (SrtpChannel S)

-- `protectBuf_` and `unprotectBuf_` hold 10000 bytes; copying more into them is undefined.
abbrev pub fits_buffer : Bytes → Bool
fits_buffer data_bytes = ltb (length data_bytes) 10001

module _ {S : Type 0} where
  -- `updateTransportState`
  unfoldable pub update_transport_state :
      Transport S → TransportState → Transport S × List TransportEvent
  update_transport_state t state = (record t { state = state }, update_state state ∷ [])

  -- `writeOnNice`
  unfoldable pub write_on_nice : Transport S → ℕ → Bytes → List NiceEvent
  write_on_nice t comp buf = send_data t.nice_connection comp buf

  -- `setRemoteCandidates`
  unfoldable pub set_candidates : Transport S → List CandidateInfo → Transport S × List NiceEvent
  set_candidates t candidates =
      let (c, events) = set_remote_candidates t.nice_connection candidates in
      (record t { nice_connection = c }, events)
