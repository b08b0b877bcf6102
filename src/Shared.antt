-- ===== src/Shared.antt =====
-- The helpers of src/turtlemap/shared.
pub mod Retry
