-- ===== src/Json.antt =====
-- src/broker/ProviderJson.cpp: the parser of broker messages.
pub mod Chars
pub mod Utf8
pub mod Unescape
pub mod Token
pub mod Message
