-- ===== src/Manager.antt =====
-- manager/: the session daemon that prepares the container's display and answers for it on D-Bus.
pub mod Display
pub mod Media
pub mod Apps
pub mod Camera
pub mod Network
pub mod Container
pub mod Entry
pub mod Session
pub mod Start
pub mod Startup
pub mod Host
