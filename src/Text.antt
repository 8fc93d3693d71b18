-- ===== src/Text.antt =====
-- The C and C++ text calls that src/erizo/SdpInfo.cpp makes, over the bytes of a text.
pub mod CString
pub mod Decimal
pub mod Tokens
pub mod Words
pub mod Lines
pub mod DecimalRoundTrip
pub mod Integers
