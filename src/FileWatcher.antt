-- ===== src/FileWatcher.antt =====
-- filewatcher/: the daemon that links container data to the desktop and announces new media files.
pub mod Inotify
pub mod Service
pub mod Links
pub mod Program
