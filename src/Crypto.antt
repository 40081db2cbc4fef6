-- ===== src/Crypto.antt =====
-- lib/ff_core/crypto.h and crypto.cpp: authenticated frames and the rejection of replays.
pub mod Aes
pub mod Ccm
pub mod Frame
pub mod Replay
pub mod Sha
