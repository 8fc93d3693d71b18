-- ===== src/Connection/Lifetime.antt =====
-- src/erizo/WebRtcConnection.cpp (`close`, the destructor, and the thread of `sendLoop` beside them),
-- with `close` of DtlsTransport.cpp and SdesTransport.cpp: the objects that a transport owns. `none`
-- is a use of a freed object, or freeing one again.
pub mod Closing
use erizo.Base.{
  Bool, true, false, not, ◌&&◌, List, [], ◌∷◌, Option, none, some, if◌then◌else◌, ◌>>=◌, is_some,
}
use erizo.Transport.Dtls.{DtlsTransport}
use erizo.Transport.Sdes.{SdesTransport}
use erizo.Connection.State.{
  AnyTransport, dtls_transport, sdes_transport, Connection, ConnectionEvent, DataPacket,
  is_audio_packet, send_round,
}

-- What a pointer member points to.
pub data Object : Type 0 where
  null live freed : Object

-- `if (p != NULL) free(p)`, or `delete`: the pointer keeps its value.
unfoldable pub release : Object → Option Object
release null = some null
release live = some freed
release freed = none

unfoldable pub uses : Object → Bool
uses live = true
uses null = false
uses freed = false

-- The sockets of the two contexts, the two SRTP channels, and the ICE connection. An SDES transport
-- has no sockets.
pub record Objects : Type 0 where
  pub rtp_socket : Object
  pub rtcp_socket : Object
  pub srtp : Object
  pub srtcp : Object
  pub nice : Object

abbrev pub made_if : Bool → Object
made_if true = live
made_if false = null

-- `DtlsTransport::close`: its `free` of channels that `new` made is taken to give back their memory
unfoldable pub dtls_close : Objects → Option Objects
unfolding release
dtls_close o = do
  rtp_socket ← release o.rtp_socket
  rtcp_socket ← release o.rtcp_socket
  srtp ← release o.srtp
  srtcp ← release o.srtcp
  nice ← release o.nice
  some record {
    rtp_socket = rtp_socket;
    rtcp_socket = rtcp_socket;
    srtp = srtp;
    srtcp = srtcp;
    nice = nice;
  }

-- `SdesTransport::close`, with `free` taken the same way
unfoldable pub sdes_close : Objects → Option Objects
unfolding release
sdes_close o = do
  srtp ← release o.srtp
  srtcp ← release o.srtcp
  nice ← release o.nice
  some (record o { srtp = srtp; srtcp = srtcp; nice = nice })

module _ {S : Type 0} where
  -- The objects of a transport that was not closed.
  unfoldable pub objects_of : AnyTransport S → Objects
  objects_of (dtls_transport t) = record {
    rtp_socket = live;
    rtcp_socket = made_if t.has_dtls_rtcp;
    srtp = made_if (is_some t.srtp);
    srtcp = made_if (is_some t.srtcp);
    nice = live;
  }
  objects_of (sdes_transport t) = record {
    rtp_socket = null;
    rtcp_socket = null;
    srtp = made_if (is_some t.srtp);
    srtcp = made_if (is_some t.srtcp);
    nice = live;
  }

  -- The virtual `close`, if there is a transport.
  unfoldable pub close_transport : Option (AnyTransport S) → Objects → Option Objects
  unfolding dtls_close sdes_close
  close_transport none o = some o
  close_transport (some (dtls_transport t)) o = dtls_close o
  close_transport (some (sdes_transport t)) o = sdes_close o

-- A connection with the objects of its two transports, and its `deliverMediaBuffer_`.
pub record Lifetime (S : Type 0) : Type 0 where
  pub connection : Connection S
  pub video_objects : Objects
  pub audio_objects : Objects
  pub buffer : Object

module _ {S : Type 0} where
  abbrev pub objects_if : Option (AnyTransport S) → Objects
  objects_if none = record {
    rtp_socket = null;
    rtcp_socket = null;
    srtp = null;
    srtcp = null;
    nice = null;
  }
  objects_if (some t) = objects_of t

  -- A connection of which nothing was closed.
  unfoldable pub opened : Connection S → Lifetime S
  unfolding objects_of
  opened c = record {
    connection = c;
    video_objects = objects_if c.video_transport;
    audio_objects = objects_if c.audio_transport;
    buffer = live;
  }

  -- The first two steps of `close`.
  unfoldable pub close_transports : Lifetime S → Option (Lifetime S)
  unfolding close_transport
  close_transports l = do
    video ← close_transport l.connection.video_transport l.video_objects
    audio ← close_transport l.connection.audio_transport l.audio_objects
    some (record l { video_objects = video; audio_objects = audio })

  -- The last step: the thread of `sendLoop` ends before `join` returns.
  unfoldable pub stop_sending : Lifetime S → Lifetime S
  stop_sending l =
      if l.connection.sending
      then record l { connection = record l.connection { sending = false } }
      else l

  -- `close`; `closeSink` and `closeSource` are the same.
  unfoldable pub close : Lifetime S → Option (Lifetime S)
  unfolding close_transports stop_sending
  close l = do closed ← close_transports l; some (stop_sending closed)

  -- The destructor.
  unfoldable pub destroy : Lifetime S → Option (Lifetime S)
  unfolding close release
  destroy l = do
    closed ← close l
    buffer ← release l.buffer
    some (record closed { buffer = buffer })

  -- The ICE connection that the front packet goes to.
  unfoldable pub nice_of_front : Lifetime S → DataPacket → Object
  nice_of_front l p =
      if is_audio_packet p.kind
      then (if is_some l.connection.audio_transport
          then l.audio_objects.nice
          else l.video_objects.nice)
      else l.video_objects.nice

  -- Whether a round of the loop uses live objects alone.
  abbrev pub round_safe : Lifetime S → List DataPacket → Bool
  round_safe l [] = true
  round_safe l (p ∷ queue) = uses (nice_of_front l p)

  -- A round of `sendLoop`.
  unfoldable pub round : Lifetime S → Option (Lifetime S × List ConnectionEvent)
  unfolding nice_of_front uses
  round l =
      if l.connection.sending && not (round_safe l l.connection.send_queue)
      then none
      else (do (c, events) ← send_round l.connection; some (record l { connection = c }, events))
