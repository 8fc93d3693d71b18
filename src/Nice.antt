-- ===== src/Nice.antt =====
-- src/erizo/NiceConnection.cpp: the ICE connection. libnice and the main loop stand outside: what is
-- asked of them, and what the listener is told, is the list of events that a method returns.
pub mod Connection
pub mod Candidates
pub mod Ready
pub mod Start
pub mod Liveness
