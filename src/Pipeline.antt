-- ===== src/Pipeline.antt =====
-- The realtime pipeline of a room, server/src/pipeline.
pub mod Config
pub mod Latency
pub mod Session
pub mod Workers
