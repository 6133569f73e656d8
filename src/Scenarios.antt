-- ===== src/Scenarios.antt =====
-- Concrete runs of the models, and the theorems at concrete inputs.
pub mod Inotify
pub mod Service
pub mod Links
pub mod Display
pub mod Camera
pub mod Feeds
pub mod Media
pub mod Apps
pub mod Audio
pub mod Programs
pub mod Startup
