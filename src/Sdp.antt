-- ===== src/Sdp.antt =====
-- src/erizo/SdpInfo.h and SdpInfo.cpp: session descriptions, their parser and their printer.
pub mod Types
pub mod PtMap
pub mod Codecs
pub mod Candidate
pub mod Lines
pub mod Process
pub mod Supported
pub mod Parsed
pub mod Random
pub mod Reparse
pub mod Sections
pub mod PayloadTypes
pub mod Print
