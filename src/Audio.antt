-- ===== src/Audio.antt =====
-- Samples and their encoding: server/src/audio.rs, and the frame codecs that the session and the
-- room mixer share.
pub mod Pcm
mod Examples
pub mod Voice
