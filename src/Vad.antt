-- ===== src/Vad.antt =====
-- The browser voice-activity detector, web-vad/src/lib.rs.
pub mod Gate
pub mod Features
pub mod Resampler
pub mod Detector
pub mod Input
mod Examples
