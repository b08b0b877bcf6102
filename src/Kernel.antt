-- ===== src/Kernel.antt =====
-- The kernel layer, src/turtlemap/kernel: its data, the effects of its methods, and the runtime loop.
pub mod Model
pub mod Exec
pub mod State
pub mod Select
pub mod Hooks
pub mod Frames
pub mod Interruption
pub mod Tasks
pub mod Completion
pub mod Samples
pub mod Runtime
pub mod Agents
