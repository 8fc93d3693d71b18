-- ===== src/Transport.antt =====
-- src/erizo/Transport.h, DtlsTransport.cpp and SdesTransport.cpp: the transports between an ICE
-- connection and a WebRtcConnection. What a method does to the other objects is the list of events
-- that it returns, in order.
pub mod Base
pub mod Dtls
pub mod Sdes
