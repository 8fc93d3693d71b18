-- ===== src/OneToMany.antt =====
-- src/erizo/OneToManyProcessor.cpp: one publisher, many subscribers.
pub mod Processor
pub mod Subscribers
pub mod Fanout
pub mod Loops
