-- ===== src/Tests/Fixtures.antt =====
-- Sample packets, descriptions and objects for the tests.
use erizo.Base.{ℕ, ◌+◌, true, false, [], ◌∷◌, ◌++◌, none, some, Bytes, codes, length}
use erizo.Srtp.{SrtpLibrary}
use erizo.Sdp.Types.{SdpInfo, video_type}
use erizo.Nice.Connection.{NiceConnection, nice_ready, nice_initial}
use erizo.Transport.Base.{TransportState}
use erizo.Transport.Dtls.{DtlsTransport}
use erizo.Connection.State.{Connection, WebRtcState, dtls_transport}
use erizo.OneToMany.Processor.{Sink, Source, Processor}

-- A library whose sessions count the packets, and whose protection adds a byte.
abbrev pub toy_lib : SrtpLibrary ℕ
toy_lib = record {
  g_base64_decode = λ key. key;
  srtp_create = λ type key. length key;
  srtp_protect = λ s buf. (s + 1, 0, buf ++ (7 ∷ []));
  srtp_unprotect = λ s buf. (s + 1, 0, buf);
  srtp_protect_rtcp = λ s buf. (s + 1, 0, buf ++ (8 ∷ []));
  srtp_unprotect_rtcp = λ s buf. (s + 1, 0, buf);
}

abbrev pub rtp_packet : Bytes
rtp_packet = 128 ∷ 100 ∷ 0 ∷ 1 ∷ 0 ∷ 0 ∷ 0 ∷ 9 ∷ 0 ∷ 0 ∷ 0 ∷ 5 ∷ []

abbrev pub sender_report : Bytes
sender_report = 128 ∷ 200 ∷ 0 ∷ 6 ∷ 0 ∷ 0 ∷ 0 ∷ 5 ∷ 0 ∷ 0 ∷ 0 ∷ 1 ∷ []

-- A connection of two components whose first one is ready.
abbrev pub half_ready : NiceConnection
half_ready = record {
  media_type = video_type;
  transport_name = codes "video";
  ice_components = 2;
  comp_state_list = (1, nice_ready) ∷ (2, nice_initial) ∷ [];
  ice_state = nice_initial;
  local_candidates = [];
  has_agent = true;
  has_loop = true;
  has_listener = true;
  stream_id = 1;
}

abbrev pub video_transport_in : TransportState → DtlsTransport ℕ
video_transport_in state = record {
  base = record {
    media_type = video_type;
    rtcp_mux = true;
    bundle = false;
    state = state;
    nice_connection = record half_ready { ice_state = nice_ready };
    ready_rtp = false;
    ready_rtcp = false;
    srtp = none;
    srtcp = none;
  };
  has_dtls_rtcp = false;
}

-- A connection with one video transport.
abbrev pub video_connection : SdpInfo → TransportState → WebRtcState → Connection ℕ
video_connection remote transport state = record {
  remote_sdp = remote;
  local_sdp = remote;
  global_state = state;
  video = true;
  audio = false;
  bundle = false;
  sequence_number_fir = 0;
  sending = true;
  send_queue = [];
  video_transport = some (dtls_transport (video_transport_in transport));
  audio_transport = none;
  deliver_media_buffer = [];
  has_state_listener = true;
  has_muxer = false;
  has_video_sink = true;
  has_audio_sink = false;
  has_fb_sink = false;
  video_sink_ssrc = 55543;
  audio_sink_ssrc = 44444;
  video_source_ssrc = 5;
  audio_source_ssrc = 0;
}

abbrev pub idle_sink : ℕ → Sink
idle_sink n = record {
  audio_sink_ssrc = 0;
  video_sink_ssrc = 0;
  has_feedback_source = true;
  feeds_back = false;
  closed = false;
}

abbrev pub source : Source
source = record {
  audio_source_ssrc = 3;
  video_source_ssrc = 5;
  has_feedback_sink = true;
  muxed = true;
  closed = false;
}

-- A processor with a publisher and two subscribers.
abbrev pub room : Processor
room = record {
  publisher = some source;
  subscribers = (codes "ann", 1) ∷ (codes "bob", 2) ∷ [];
  has_feedback_sink = true;
  sent_packets = 0;
  sinks = idle_sink;
}
