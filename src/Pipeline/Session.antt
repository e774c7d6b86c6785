-- ===== src/Pipeline/Session.antt =====
-- The message loop `run_pipeline` of server/src/pipeline/session.rs, one handler for each input. An
-- input's handler returns the next state and what it asked of the output channel, the database and
-- the workers, in order; `failed` is the early return of an error. What the surroundings answer
-- while a message is handled is the argument `Answers`.
pub mod Types
pub mod Handlers
pub mod Loop
pub mod Admissible
pub mod Hearing
pub mod Invariant
pub mod Closing
pub mod Endings
pub mod Ledger
mod Examples
