-- ===== src/Config.antt =====
-- internal/config/config.go: the configuration, its defaults and its checks.
pub mod Model
pub mod Defaults
pub mod Problem
pub mod Check
pub mod Triggers
pub mod Cycle
pub mod Load
pub mod Use
pub mod Valid
mod Applied
pub mod Scenarios
