-- ===== src/Context.antt =====
-- The context layer, src/turtlemap/os/context: how the history of a session is counted, compressed
-- into its summary and merged back, and how a context is made to fit its budget.
pub mod Rounds
pub mod Compress
pub mod Budget
pub mod Build
pub mod Summary
pub mod Tokens
pub mod Projector
mod Examples
