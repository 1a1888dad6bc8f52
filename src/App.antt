-- ===== src/App.antt =====
-- internal/app: the service that applies the power policy, one module for each part.
pub mod Schedule
pub mod Boundary
pub mod Values
pub mod World
pub mod Frames
pub mod Instances
pub mod Recording
pub mod Policy
pub mod Service
pub mod Views
pub mod Dashboard
pub mod Settings
pub mod Signals
pub mod Scheduler
