-- ===== src/Config.antt =====
-- internal/config/config.go: the configuration file, its validation and the migration of legacy
-- stop windows, one module for each part.
pub mod Errors
pub mod Clock
pub mod Windows
pub mod Weekdays
pub mod Schedules
pub mod Intervals
pub mod Migrate
pub mod Settings
pub mod Disk
pub mod Environment
pub mod Load
pub mod Presence
pub mod Save
