-- ===== src/Dispatch.antt =====
-- internal/runner/dispatcher.go: the loop that consumes the queue.
pub mod Spec
pub mod State
pub mod Finish
pub mod Schedule
pub mod Submit
pub mod Recover
pub mod Follow
pub mod Loop
mod Repaired
mod Settled
pub mod Accepted
mod Restarts
mod Attempts
mod Completes
pub mod Load
pub mod Serial
pub mod Scenarios
