-- ===== src/Pipeline/Workers.antt =====
-- The workers behind the hand-over: server/src/pipeline/transcription.rs, translation.rs, synthesis.rs and
-- refinement.rs. Each is a function of one job and of what the recogniser, the translator, the
-- synthesiser, the database and the media store answer while it is worked on; it returns what it asked
-- of them and of the output channel, in order, and the next job or an error.
pub mod Trace
pub mod Types
pub mod Recognition
pub mod Translation
pub mod Speech
pub mod Refinement
pub mod Refined
pub mod Life
mod Examples
