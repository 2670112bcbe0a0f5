-- ===== src/Engine.antt =====
-- jni/src/unbound4j.c: contexts, queries and the processing thread of a context.
pub mod State
pub mod Tracking
pub mod Context
pub mod Query
pub mod Thread
pub mod Answer
pub mod Submit
pub mod Runs
pub mod Lifecycle
pub mod Contexts
pub mod Interleaving
pub mod Shutdown
pub mod Lifetime
pub mod Race
pub mod Unlocked
pub mod Frames
pub mod Beside
pub mod During
pub mod Concurrent
pub mod Overlap
pub mod Foreign
