-- ===== src/Scheduler.antt =====
-- pkg/scheduler
pub mod Resources
pub mod Filters
pub mod BestFit
pub mod Controller
pub mod Queue
mod Tests
