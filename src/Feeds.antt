-- ===== src/Feeds.antt =====
-- gps/ and sensors/: the programs that hand positions and accelerations to the container over sockets.
pub mod Line
pub mod Gps
pub mod Sensor
pub mod Throttle
pub mod Start
