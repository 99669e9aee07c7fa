-- ===== src/Runner.antt =====
-- internal/runner/runner.go: the result of a command, and the buffers that hold its output.
pub mod Results
pub mod Buffers
pub mod Lines
pub mod Bounds
pub mod Env
mod Whole
mod Newline
mod Names
mod Scenarios
