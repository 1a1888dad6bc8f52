-- ===== src/Tests.antt =====
-- The theorems at concrete inputs: configurations, tables, and a platform with a cloud in memory.
mod Fixtures
mod Config
mod Store
mod Schedule
mod Service
mod Scheduler
mod Time
mod Main
mod Dashboard
mod Aliyun
