-- ===== src/Files.antt =====
-- internal/trigger/file.go: the file trigger. The watcher of the file system (fsnotify), the patterns
-- of path.Match and the functions on paths are parameters.
pub mod Collect
pub mod Match
mod Window
mod Scenarios
