-- ===== src/Lib.antt =====
-- The core of Erizo, a media library for WebRTC: what happens between a session description from a browser
-- and the packets that its peers receive.
--
-- A WebRtcConnection parses the remote description (SdpInfo), makes a transport for each medium, or
-- one for a bundle, and hands the remote candidates to them. A transport owns an ICE connection
-- (NiceConnection) and SRTP channels, and gets its keys from a DTLS handshake (DtlsTransport, DtlsSocket)
-- or from the description (SdesTransport). Media that arrives goes through the transport to the sinks
-- of the connection; a OneToManyProcessor is a sink that fans a publisher's packets out to subscribers,
-- which are connections again.
--
-- Files, with the sources that they model (paths from the repository's root):
--   Base, Base/*: native numbers, lists of bytes, `Option` as the result of code that may run into
--     undefined behaviour, and the lemmas that all parts share.
--   Text, Text/*: the C string functions that the parser calls (strstr, strtok, strtoul) and decimal
--     printing; Text/Integers has `atoi` and `%d`. Text/Tokens, Text/Words, Text/Lines, Text/Integers
--     and Text/DecimalRoundTrip hold the theorems.
--   Rtp, Rtp/*: src/erizo/rtputils.h. A header field is a function of the packet's bytes; `htonl` and
--     `ntohl` are written out. Rtp/Fields and Rtp/Red hold the theorems.
--   Sdp, Sdp/*: src/erizo/SdpInfo.h and SdpInfo.cpp. Sdp/Types has the data, Sdp/Codecs the constructor
--     and the codec look-ups, Sdp/Candidate `processCandidate`, Sdp/Lines and Sdp/Process `processSdp`,
--     one function for each `if` of its loop, Sdp/Print `addDesc` and `getSdp`. Sdp/Supported,
--     Sdp/Parsed, Sdp/Reparse, Sdp/Sections, Sdp/PayloadTypes and Sdp/Random hold the theorems.
--   Nice, Nice/*: src/erizo/NiceConnection.h and NiceConnection.cpp. Nice/Start has
--     `init` and the destructor, as the calls that they make. Nice/Ready and Nice/Liveness hold the
--     theorems.
--   Srtp, Srtp/*: src/erizo/SrtpChannel.h and SrtpChannel.cpp, over any libsrtp (a record of its
--     calls). Srtp/Channels holds the theorems.
--   Transport, Transport/*: src/erizo/Transport.h, DtlsTransport.cpp and SdesTransport.cpp.
--     Transport/Dtls/Session puts a transport and its DTLS sockets together: each call goes down to the
--     socket, and what the socket reports comes back; Transport/Sdes/History has the sequences of
--     operations of the other transport. Transport/Dtls/Secure, Transport/Dtls/History,
--     Transport/Dtls/Authentic, Transport/Dtls/Readiness, Transport/Dtls/Liveness, Transport/Dtls/Keyed,
--     Transport/Dtls/Defined, Transport/Dtls/Total, Transport/Sdes/Keys, Transport/Sdes/Sound and
--     Transport/Sdes/Total hold the theorems.
--   Connection, Connection/*: src/erizo/WebRtcConnection.h, WebRtcConnection.cpp and
--     MediaDefinitions.h. Connection/State has `updateState`, `queueData` and `sendLoop`,
--     Connection/Media the media methods, Connection/Negotiation `setRemoteSdp` and `getLocalSdp`,
--     Connection/Operations sequences of all operations, Connection/Interleaving those of
--     `queueData` and `sendLoop`, with a theorem, and Connection/Lifetime `close`, the destructor and
--     the `close` of the transports. Connection/Bounded, Connection/Progress, Connection/Packets,
--     Connection/Sending, Connection/RedWalk, Connection/StripRed, Connection/Serving and
--     Connection/Lifetime/Closing hold the theorems; Connection/Serving/Negotiated starts from the
--     constructor and a description.
--   Dtls, Dtls/*: src/erizo/dtls/DtlsSocket.cpp, DtlsTimer.cpp, DtlsClient.cpp, bf_dwrap.c (in
--     Dtls/Filter, over any OpenSSL buffer) and OpenSSLInit.cpp (in Dtls/Locks, over any mutexes).
--     Timers live in an explicit heap, so that a use of a deleted one is visible. Dtls/Policies has
--     `createSrtpSessionPolicies`, Dtls/Factory DtlsFactory.cpp. Dtls/Timers, Dtls/Fingerprint,
--     Dtls/Agreement, Dtls/Trust, Dtls/Filter/Around and Dtls/Locks/Holders hold the theorems.
--   OneToMany, OneToMany/*: src/erizo/OneToManyProcessor.h and OneToManyProcessor.cpp.
--     OneToMany/Subscribers, OneToMany/Fanout and OneToMany/Loops hold the theorems.
--   Signalling, Signalling/*: src/examples/pc/PCSocket.h, PCSocket.cpp, Observer.h, Observer.cpp and
--     SDPReceiver.h, over any receiver and any regular expressions. Signalling/Frames and
--     Signalling/Answers hold the theorems.
--   Tests, Tests/*: runs on sample inputs.
--
-- A method is a function from the object's record to the new record and the list of calls on other
-- objects, in their order; an operation that dereferences a null pointer, or writes past a packet's or a
-- buffer's end, gives `none`. A field of a header that is only read behind a packet's end is 0. Numbers
-- are natural numbers, with `% 2 ^ w` where the source wraps.
--
-- Fuel: the token loop of `strtok` runs on the length of the line plus one, and the walk over RED
-- headers on the length of the packet plus one: each round but the last goes on by a byte at least.
--
-- Not modelled: libnice, libsrtp, OpenSSL, glib and Boost themselves (what the code uses of them is an
-- argument), their initialisation, threads and their locks (a method is one step; `close` is three, since
-- the thread of `sendLoop` runs beside it), the destructors of objects that own nothing, printing, a
-- failing `srtp_create` (its status is ignored), the length of a candidate's foundation, `free` on the
-- SRTP channels that `new` made (taken to give the memory back), and src/examples/hsam.cpp, which is
-- written for an older interface of the classes.
pub mod Base
pub mod Text
pub mod Rtp
pub mod Sdp
pub mod Nice
pub mod Srtp
pub mod Transport
pub mod Connection
pub mod Dtls
pub mod OneToMany
pub mod Signalling
pub mod Tests
