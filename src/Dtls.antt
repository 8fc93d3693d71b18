-- ===== src/Dtls.antt =====
-- src/erizo/dtls: the factory, the handshake socket, its retransmission timer and its keys. (The packet
-- classifier of DtlsFactory.cpp is in Transport.Dtls, which calls it.)
pub mod Socket
pub mod Timers
pub mod Keys
pub mod Fingerprint
pub mod Policies
pub mod Agreement
pub mod Factory
pub mod Trust
pub mod Filter
pub mod Locks
