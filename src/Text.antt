-- ===== src/Text.antt =====
-- Texts for bytes (src/utilstrencodings.cpp, src/utilstrencodings.h).
pub mod Hex
pub mod Base58
mod Runs
