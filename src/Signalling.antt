-- ===== src/Signalling.antt =====
-- src/examples/pc: the client of the signalling server, and the observer that answers the offers which
-- it receives.
pub mod Client
pub mod Frames
pub mod Observer
pub mod Answers
