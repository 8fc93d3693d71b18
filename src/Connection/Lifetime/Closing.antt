-- ===== src/Connection/Lifetime/Closing.antt =====
-- WebRtcConnection.cpp, DtlsTransport.cpp and SdesTransport.cpp: closing once, twice, and beside the
-- thread of `sendLoop`.
use erizo.Base.{
  refl, ◌≡◌, ◌↔◌, ◌||◌, Bool, true, false, not, List, [], ◌∷◌, Option, none, some, ◌>>=◌, arith,
  is_some,
}
use erizo.Connection.State.{
  AnyTransport, dtls_transport, sdes_transport, Connection, DataPacket, send_round,
}
use erizo.Connection.Lifetime.{
  Object, null, live, freed, made_if, objects_if, Objects, Lifetime, opened, objects_of, release,
  close_transport, dtls_close, sdes_close, close_transports, stop_sending, close, destroy, round,
  nice_of_front, uses,
}

abbrev pub is_empty : List DataPacket → Bool
is_empty [] = true
is_empty (p ∷ ps) = false

abbrev freed_if : Bool → Object
freed_if true = freed
freed_if false = null

release_made : (b : Bool) → release (made_if b) ≡ some (freed_if b)
unfolding release
release_made true = refl
release_made false = refl

-- A transport whose objects are released once: they cannot be released again.
record Closes {S : Type 0} (t : Option (AnyTransport S)) : Type 0 where
  left : Objects
  closed : close_transport t (objects_if t) ≡ some left
  again : is_some (close_transport t left) ≡ not (is_some t)
  no_nice : is_some t ≡ true → left.nice ≡ freed

close_own : {S : Type 0} (t : Option (AnyTransport S)) → Closes t
unfolding close_transport dtls_close sdes_close objects_of release
close_own none = record { left = _; closed = refl; again = refl; no_nice = λ e. cc }
close_own (some (dtls_transport t)) = record {
  left = record {
    rtp_socket = freed;
    rtcp_socket = freed_if t.has_dtls_rtcp;
    srtp = freed_if (is_some t.srtp);
    srtcp = freed_if (is_some t.srtcp);
    nice = freed;
  };
  closed =
      rw
        (
          release_made t.has_dtls_rtcp,
          release_made (is_some t.srtp),
          release_made (is_some t.srtcp),
        )
        refl;
  again = refl;
  no_nice = λ e. refl;
}
close_own (some (sdes_transport t)) = record {
  left = record {
    rtp_socket = null;
    rtcp_socket = null;
    srtp = freed_if (is_some t.srtp);
    srtcp = freed_if (is_some t.srtcp);
    nice = freed;
  };
  closed = rw (release_made (is_some t.srtp), release_made (is_some t.srtcp)) refl;
  again = ground arith;
  no_nice = λ e. refl;
}

-- The connection whose two transports were closed.
abbrev half_closed : {S : Type 0} → Connection S → Lifetime S
half_closed c = record {
  connection = c;
  video_objects = (close_own c.video_transport).left;
  audio_objects = (close_own c.audio_transport).left;
  buffer = live;
}

half_closed_lem :
    {S : Type 0} (c : Connection S) → close_transports (opened c) ≡ some (half_closed c)
unfolding close_transports opened
half_closed_lem c =
    rw ((close_own c.video_transport).closed, (close_own c.audio_transport).closed) refl

module _ {S : Type 0} (c : Connection S) where
  -- The first `close` of a connection is defined, whatever transports it has; after it the loop sends
  -- nothing more.
  close_once :
      (l : Lifetime S) × (close (opened c) ≡ some l)
      × (l.connection.sending ≡ false)
      × (round l ≡ some (l, []))
  unfolding close stop_sending round send_round
  close_once =
      (stop_sending (half_closed c), rw (half_closed_lem c) refl, ground arith, ground arith)

  -- A second `close`, which the destructor makes, frees what the first has freed: it is undefined
  -- exactly when the connection has a transport.
  pub close-destroy :
      (is_some (do l ← close (opened c); destroy l) ≡ false)
      ↔ ((is_some c.video_transport || is_some c.audio_transport) ≡ true)
  unfolding close destroy close_transports stop_sending
  close-destroy =
      rw (half_closed_lem c)
        (ground (arith, (close_own c.video_transport).again, (close_own c.audio_transport).again))

  -- Between the first two steps of `close` and its last one the loop still sends: with a video transport
  -- its next round uses a freed ICE connection exactly when a packet is queued.
  pub close_transports-round :
      c.sending ≡ true
      → is_some c.video_transport ≡ true
      → (is_some (do l ← close_transports (opened c); round l) ≡ false)
        ↔ (is_empty c.send_queue ≡ false)
  unfolding round nice_of_front uses send_round
  close_transports-round s v =
      rw (half_closed_lem c) (
        ground
          (arith, (close_own c.video_transport).no_nice, (close_own c.audio_transport).no_nice))
