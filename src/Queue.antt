-- ===== src/Queue.antt =====
-- internal/queue/store.go: the database of every run.
pub mod Status
pub mod Row
pub mod Conn
pub mod Table
pub mod Insert
pub mod Runs
pub mod Cancel
pub mod Recovery
pub mod Reads
pub mod Agents
pub mod Calls
pub mod Sound
pub mod Lifecycle
pub mod Effects
pub mod Atomic
pub mod History
pub mod Limits
pub mod Answers
pub mod Scenarios
