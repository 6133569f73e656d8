-- ===== src/FileWatcher/Service.antt =====
-- filewatcher/file-inotify/file-inotify-service.cpp and dbus-client.cpp: which files are queued, when
-- they are announced to the container, and which directories are watched.
pub mod Queue
pub mod Scan
pub mod Walk
pub mod Threads
pub mod Large
pub mod Walked
pub mod Coverage
pub mod Kept
pub mod Invariant
