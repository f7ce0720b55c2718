-- ===== src/DeviceManager.antt =====
-- pkg/devicemanager: the state that its goroutines share, and its parts.
pub mod State
pub mod Config
pub mod Pool
pub mod Queue
pub mod Init
pub mod Controller
pub mod Session
pub mod Run
mod Tests
