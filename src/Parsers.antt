-- ===== src/Parsers.antt =====
-- adapters/parsers: the bounded decompression of archived content, and the guard over XML tokens.
pub mod Limits
pub mod Streams
pub mod Zip
pub mod Member
pub mod Decompression
pub mod Tokens
