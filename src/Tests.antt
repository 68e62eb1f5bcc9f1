-- ===== src/Tests.antt =====
-- The interfaces filled by concrete functions, and the theorems at concrete inputs.
pub mod Kernel
mod Polling
mod Looping
pub mod Connecting
mod Draining
mod Rounds
mod Pooling
mod Setups
mod Dispatching
mod Sending
mod Logging
mod Circular
mod LogLines
mod Timing
mod Timers
mod Threads
mod Serving
mod LoopThreads
mod Accepting
